-- ===== src/Ack/StopWaiting/Runs.antt =====
-- The stop waiting manager over sequences of calls.
use agg_deliv.Common.{
  ◌==◌, ℕ, ◌+◌, ◌<◌, ◌≤◌, ◌≡◌, Bool, true, false, none, some, ltb, if◌then◌else◌, u64_mod, List, [],
  ◌∷◌, arith, refl,
}
use agg_deliv.Wire.AckFrame.{AckFrame}
use agg_deliv.Ack.StopWaiting.{
  StopWaitingManager, new_stop_waiting_manager, frame_for, Got, last_frame, get_stop_waiting_frame,
  received_ack, queued_retransmission,
}

-- The calls that change the manager.
pub data Call : Type 0 where
  ack : AckFrame → Call
  retransmission : ℕ → Call
  get : Bool → Call

unfoldable pub step : StopWaitingManager → Call → StopWaitingManager
step s (ack f) = received_ack s f
step s (retransmission p) = queued_retransmission s p
step s (get force) = Got.manager (get_stop_waiting_frame s force)

unfoldable pub run : StopWaitingManager → List Call → StopWaitingManager
unfolding step
run s [] = s
run s (c ∷ cs) = run (step s c) cs

-- One more than a packet number that the sender need not wait for, or 0.
unfoldable pub settled : Call → ℕ
settled (ack f) = f.largest_acked + 1
settled (retransmission p) = p + 1
settled (get force) = 0

abbrev pub max : ℕ → ℕ → ℕ
max a b = if ltb a b then b else a

-- Every packet number leaves room for its successor.
unfoldable pub IsCall : Call → Type 0
unfolding settled
IsCall c = settled c < u64_mod

unfoldable pub AreCalls : List Call → Type 0
AreCalls [] = 0 ≤ 0
AreCalls (c ∷ cs) = IsCall c × AreCalls cs

unfoldable pub most_settled : ℕ → List Call → ℕ
unfolding settled
most_settled n [] = n
most_settled n (c ∷ cs) = most_settled (max n (settled c)) cs

-- The frame that is kept tells the largest number that was sent.
unfoldable pub IsValid : StopWaitingManager → Type 0
IsValid s =
    (s.largest_least_unacked_sent ≤ s.next_least_unacked)
    × (s.last_stop_waiting_frame ≡ (
        if s.largest_least_unacked_sent == 0
        then none
        else some (frame_for s.largest_least_unacked_sent)))

step-next :
    (s : StopWaitingManager) (c : Call)
    → IsCall c
    → (step s c).next_least_unacked ≡ max s.next_least_unacked (settled c)
unfolding step settled IsCall received_ack queued_retransmission get_stop_waiting_frame last_frame
step-next s (ack f) h = ground arith
step-next s (retransmission p) h = ground arith
step-next s (get force) h = ground arith

step-IsValid : (s : StopWaitingManager) (c : Call) → IsCall c → IsValid s → IsValid (step s c)
unfolding IsValid step settled IsCall received_ack queued_retransmission get_stop_waiting_frame
    last_frame
step-IsValid s (ack f) h v = ground arith
step-IsValid s (retransmission p) h v = ground arith
step-IsValid s (get force) h v = ground arith

run-next :
    (s : StopWaitingManager) (cs : List Call)
    → AreCalls cs
    → (run s cs).next_least_unacked ≡ most_settled s.next_least_unacked cs
unfolding run most_settled AreCalls
run-next s [] h = refl
run-next s (c ∷ cs) (h, hs) = rw (← step-next s c h) (run-next (step s c) cs hs)

run-IsValid :
    (s : StopWaitingManager) (cs : List Call) → AreCalls cs → IsValid s → IsValid (run s cs)
unfolding run AreCalls
run-IsValid s [] h v = v
run-IsValid s (c ∷ cs) (h, hs) v = run-IsValid (step s c) cs hs (step-IsValid s c h v)

forced :
    (s : StopWaitingManager)
    → IsValid s
    → (get_stop_waiting_frame s true).frame
      ≡ (if s.next_least_unacked == 0 then none else some (frame_for s.next_least_unacked))
unfolding IsValid get_stop_waiting_frame last_frame
forced s v = ground arith

new-IsValid : IsValid new_stop_waiting_manager
unfolding IsValid
new-IsValid = ground arith

-- After any calls on a new manager, with packet numbers below 2 ^ 64 - 1, a forced GetStopWaitingFrame
-- returns the frame for the number behind the largest packet number that was acknowledged or queued for
-- retransmission, and no frame if there was none.
pub get_stop_waiting_frame-run :
    (cs : List Call)
    → AreCalls cs
    → let n = most_settled 0 cs in
      (get_stop_waiting_frame (run new_stop_waiting_manager cs) true).frame
      ≡ (if n == 0 then none else some (frame_for n))
get_stop_waiting_frame-run cs h = rw (← run-next new_stop_waiting_manager cs h) (
    forced (run new_stop_waiting_manager cs)
      (run-IsValid new_stop_waiting_manager cs h new-IsValid))

-- On a manager that calls have led to, an unforced GetStopWaitingFrame returns a frame exactly if more
-- packets are settled than the last frame told, and a second call then returns none.
pub get_stop_waiting_frame-once :
    (s : StopWaitingManager)
    → IsValid s
    → ((get_stop_waiting_frame s false).frame ≡ (
        if s.next_least_unacked == s.largest_least_unacked_sent
        then none
        else some (frame_for s.next_least_unacked)))
      × ((get_stop_waiting_frame (get_stop_waiting_frame s false).manager false).frame ≡ none)
unfolding IsValid get_stop_waiting_frame last_frame
get_stop_waiting_frame-once s v = ground arith
