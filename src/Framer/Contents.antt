-- ===== src/Framer/Contents.antt =====
-- The bytes that are sent again are those of the queue.
use mathlib.Core.List.{append_assoc}
use agg_deliv.Common.{
  ℕ, zero, suc, ◌+◌, ◌-◌, ◌≤◌, ◌<◌, ◌≡◌, false, List, [], ◌∷◌, ◌++◌, leb, length, take, drop,
  length-take, add64, sub64, u64_mod, if_cases, refl, sym, ap, ◌∙◌, arith,
}
use agg_deliv.Wire.StreamFrame.{
  StreamFrame, min_length, calculate_stream_id_length, get_offset_length,
}
use agg_deliv.Flow.Manager.{FlowControlManager}
use agg_deliv.Framer.{
  SplitOff, maybe_split_off_frame, PoppedFrames, count_retrans, with_length, pop_split, pop_loop,
  maybe_pop_frames_for_retransmission,
}

-- A byte with the stream and the offset that it is sent for.
pub record Placed : Type 0 where
  pub stream_id : ℕ
  pub offset : ℕ
  pub byte : ℕ

unfoldable pub placed : ℕ → ℕ → List ℕ → List Placed
placed id o [] = []
placed id o (b ∷ bs) = record { stream_id = id; offset = o; byte = b } ∷ placed id (suc o) bs

-- The bytes of a frame.
abbrev pub placed_of : StreamFrame → List Placed
placed_of f = placed f.stream_id f.offset f.payload

unfoldable pub contents : List StreamFrame → List Placed
contents [] = []
contents (f ∷ fs) = placed_of f ++ contents fs

-- The room that frames take on the wire.
unfoldable pub room : List StreamFrame → ℕ
room [] = 0
room (f ∷ fs) = min_length f + length f.payload + room fs

-- The frames end below 2 ^ 64.
unfoldable pub AreSmall : List StreamFrame → Type 0
AreSmall [] = 0 ≤ 0
AreSmall (f ∷ fs) = (f.offset + length f.payload < u64_mod) × AreSmall fs

placed-append :
    (id o k : ℕ) (bs : List ℕ)
    → placed id o (take k bs) ++ placed id (o + k) (drop k bs) ≡ placed id o bs
unfolding placed
placed-append id o zero bs = ap (λ x. placed id x bs) (omega arith)
placed-append id o (suc k) [] = refl
placed-append id o (suc k) (b ∷ bs) = ap (◌∷◌ (record { stream_id = id; offset = o; byte = b })) (
    ap (λ x. placed id (suc o) (take k bs) ++ placed id x (drop k bs)) (omega arith)
    ∙ placed-append id (suc o) k bs)

min_length-bound : (f : StreamFrame) → min_length f ≤ 15
unfolding min_length calculate_stream_id_length get_offset_length
min_length-bound f = ground arith

-- A split frame has the header of the whole one.
min_length_split :
    (f : StreamFrame) (bs : List ℕ)
    → min_length (record f { fin_bit = false; payload = bs }) ≡ min_length f
unfolding min_length calculate_stream_id_length get_offset_length
min_length_split f bs = refl

-- What the loop has done, from `len` bytes on.
record Pops (max_len len : ℕ) (queue : List StreamFrame) (r : PoppedFrames) : Type 0 where
  whole : contents (r.frames ++ r.queue) ≡ contents queue
  counted : r.current_len ≡ len + room r.frames
  bound : r.current_len ≤ max_len

pop_loop-Pops :
    (max_len len : ℕ) (m : FlowControlManager) (queue : List StreamFrame)
    → max_len + 16 < u64_mod
    → len ≤ max_len
    → AreSmall queue
    → Pops max_len len queue (pop_loop max_len len m queue)
unfolding pop_loop pop_split maybe_split_off_frame contents room AreSmall
pop_loop-Pops max_len len m [] large low small = record {
  whole = refl;
  counted = omega arith;
  bound = low;
}
pop_loop-Pops max_len len m (queued ∷ fs) large low (end, small) =
    let f = with_length queued in
    let header = min_length-bound f in
    let header_end = add64 len (min_length f) in
    let sum : header_end ≡ len + min_length f = omega arith in
    let n = sub64 max_len header_end in
    let rest = pop_loop max_len (add64 header_end (length f.payload)) (count_retrans m f) fs in
    if_cases (Pops max_len len (queued ∷ fs)) (leb max_len header_end) _ _
      (λ c. record { whole = refl; counted = omega arith; bound = low })
      (λ c.
        let fits : header_end < max_len = ground arith in
        let left : n ≡ max_len - header_end = omega arith in
        if_cases
          (λ (r : SplitOff). Pops max_len len (queued ∷ fs) (pop_split r f fs header_end m rest))
          (leb (length f.payload) n) _ _
          (λ d.
            let short : length f.payload ≤ n = ground arith in
            let later =
              pop_loop-Pops max_len (add64 header_end (length f.payload)) (count_retrans m f) fs
                large (omega arith) small in
            let count = later.counted in
            record {
              whole = ap (◌++◌ (placed_of f)) later.whole;
              counted = omega arith;
              bound = later.bound;
            })
          (λ d.
            let long : n < length f.payload = ground arith in
            let size = length-take n f.payload (omega arith) in
            let moved : add64 f.offset n ≡ f.offset + n = omega arith in
            let split = placed-append f.stream_id f.offset n f.payload in
            let same_header = min_length_split f (take n f.payload) in
            record {
              whole =
                  sym (
                    append_assoc (placed f.stream_id f.offset (take n f.payload))
                      (placed f.stream_id (add64 f.offset n) (drop n f.payload)) (contents fs))
                  ∙ ap
                      (λ o.
                        (placed f.stream_id f.offset (take n f.payload)
                          ++ placed f.stream_id o (drop n f.payload))
                        ++ contents fs)
                      moved
                  ∙ ap (λ l. l ++ contents fs) split;
              counted = omega arith;
              bound = omega arith;
            }))

-- If the frames of the queue end below 2 ^ 64, and so does the room with 16 bytes more, then the frames that
-- maybePopFramesForRetransmission returns take no more than the room with their headers, and together with what
-- is left in the queue they hold the bytes of the queue for the same streams and offsets, in the same order:
-- no byte is lost or sent twice where a frame is split.
pub maybe_pop_frames_for_retransmission_lem :
    (m : FlowControlManager) (queue : List StreamFrame) (max_len : ℕ)
    → max_len + 16 < u64_mod
    → AreSmall queue
    → let r = maybe_pop_frames_for_retransmission m queue max_len in
      (contents (r.frames ++ r.queue) ≡ contents queue)
      × (r.current_len ≡ room r.frames)
      × (room r.frames ≤ max_len)
unfolding maybe_pop_frames_for_retransmission
maybe_pop_frames_for_retransmission_lem m queue max_len large small =
    let pops = pop_loop-Pops max_len 0 m queue large (omega arith) small in
    let counted = pops.counted in let bound = pops.bound in (pops.whole, omega arith, omega arith)
