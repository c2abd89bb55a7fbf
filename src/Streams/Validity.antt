-- ===== src/Streams/Validity.antt =====
-- The calls keep the invariant of a streamsMap.
use mathlib.Core.Path.{subst}
use agg_deliv.Common.{
  ℕ, zero, suc, ◌+◌, ◌*◌, ◌%◌, ◌^◌, ◌≤◌, ◌<◌, ◌≡◌, Option, none, some, false, Bool-cases, refl, ltb,
  leb, if◌then◌else◌, ◌⊎◌, inl, inr, sym, ap, arith, Option-cases, if_cases,
}
use agg_deliv.Streams.{
  Perspective, StreamsMap, StreamsError, Opened, add32, stream_of, put_stream, open_remote_stream,
  open_stream_impl, open_unless, Verdict, already_closed, wrong_side, to_open, verdict, first_for,
  first_to_open, open_loop, by_verdict, get_or_open_stream, remove_stream, accept_unless,
  plus_server, plus_client, carry_on, max_new_stream_id_delta, invalid_stream_id,
}
use agg_deliv.Streams.Closed.{own_parity, WasOpened, Holds}
use agg_deliv.Streams.Opening.{
  IsRemote, first_for-IsRemote, AllOpened-mono, AllOpened-snoc, AllOpened-delete,
}

module _ {S E : Type 0} where
  -- The invariant, for the map of one side.
  pub record Keeps (side : Perspective) (m : StreamsMap S E) : Type 0 where
    pub same : m.perspective ≡ side
    pub holds : Holds S side m.next_stream m.highest_stream_opened_by_peer m.streams

module _ {S E : Type 0} where
  Keeps-returned :
      (side : Perspective) (m : StreamsMap S E) (o : Opened S E) {stream : Option S}
      {error : Option (StreamsError E)}
      → ◌≡◌ {A = Option (Opened S E)}
          (some (record { streams_map = m; stream = stream; error = error }))
          (some o)
      → Keeps side m
      → Keeps side o.streams_map
  Keeps-returned side m o returns k =
      let map_of : Option (Opened S E) → StreamsMap S E =
        λ r. elim r [ none ↦ m | some a ↦ a.streams_map ] in
      subst (Keeps side) (ap map_of returns) k

module _ {S E : Type 0} (new_stream : ℕ → S) where
  put_stream-Keeps :
      (side : Perspective) (m : StreamsMap S E) (id : ℕ)
      → Keeps side m
      → WasOpened side m.next_stream m.highest_stream_opened_by_peer id
      → Keeps side (put_stream new_stream m id)
  unfolding put_stream
  put_stream-Keeps side m id k opened = elim (Option-cases (stream_of id m.streams)) [
    | inl e ↦
        rw (put_stream, e)
          (record {
            same = k.same;
            holds = record {
              opened =
                  AllOpened-snoc side m.next_stream m.highest_stream_opened_by_peer m.streams
                    (record { stream_id = id; stream = new_stream id }) k.holds.opened opened;
              own = k.holds.own;
              remote = k.holds.remote;
            };
          })
    | inr (s, e) ↦ rw (put_stream, e) k
  ]

  open_remote_stream-Keeps :
      (side : Perspective) (m : StreamsMap S E) (id : ℕ)
      → Keeps side m
      → IsRemote side id
      → Keeps side (open_remote_stream new_stream m id).streams_map
  unfolding open_remote_stream WasOpened IsRemote
  open_remote_stream-Keeps side m id k remote =
      let highest = m.highest_stream_opened_by_peer in
      let top : ℕ = if ltb highest id then id else highest in
      let raised = record m {
        num_incoming_streams = plus_server m.perspective m.num_incoming_streams;
        num_outgoing_streams = plus_client m.perspective m.num_outgoing_streams;
        highest_stream_opened_by_peer = top;
      } in
      let above : highest ≤ top = ground arith in
      let reached : id ≤ top = ground arith in
      let keeps : Keeps side raised = record {
        same = k.same;
        holds = record {
          opened =
              AllOpened-mono side m.next_stream m.next_stream highest top m.streams (omega arith)
                above k.holds.opened;
          own = k.holds.own;
          remote =
              if_cases (λ (t : ℕ). (t ≡ 0) ⊎ ((t % 2 ≡ own_parity side) → 1 ≤ 0)) (ltb highest id)
                id highest (λ e. inr remote) (λ e. k.holds.remote);
        };
      } in
      if_cases (λ (o : Opened S E). Keeps side o.streams_map)
        (ltb (add32 id max_new_stream_id_delta) highest)
        (record { streams_map = m; stream = none; error = some invalid_stream_id })
        (record {
          streams_map = put_stream new_stream raised id;
          stream = some (new_stream id);
          error = none;
        })
        (λ e. k) (λ e. put_stream-Keeps side raised id keeps (inr (remote, reached)))

  carry_on-Keeps :
      (side : Perspective) (error : Option (StreamsError E)) (m : StreamsMap S E)
      (rest : Opened S E)
      → Keeps side m
      → Keeps side rest.streams_map
      → Keeps side (carry_on error m rest).streams_map
  unfolding carry_on
  carry_on-Keeps side (some e) m rest k l = k
  carry_on-Keeps side none m rest k l = l

  open_loop-Keeps :
      (n : ℕ) (side : Perspective) (m : StreamsMap S E) (sid id : ℕ)
      → Keeps side m
      → IsRemote side sid
      → Keeps side (open_loop new_stream n m sid id).streams_map
  unfolding open_loop IsRemote
  open_loop-Keeps zero side m sid id k remote = k
  open_loop-Keeps (suc n) side m sid id k remote =
      let opened = open_remote_stream new_stream m sid in
      let rest = open_loop new_stream n opened.streams_map (add32 sid 2) id in
      let one = open_remote_stream-Keeps side m sid k remote in
      let next : IsRemote side (add32 sid 2) = λ e. remote (omega (arith, e)) in
      if_cases (λ (o : Opened S E). Keeps side o.streams_map) (leb sid id)
        (carry_on opened.error opened.streams_map rest)
        (record { streams_map = m; stream = stream_of id m.streams; error = none })
        (λ e.
          carry_on-Keeps side opened.error opened.streams_map rest one
            (open_loop-Keeps n side opened.streams_map (add32 sid 2) id one next))
        (λ e. k)

  by_verdict-Keeps :
      (side : Perspective) (v : Verdict) (m : StreamsMap S E) (id : ℕ)
      → Keeps side m
      → Keeps side (by_verdict new_stream v m id).streams_map
  unfolding by_verdict first_to_open
  by_verdict-Keeps side already_closed m id k = k
  by_verdict-Keeps side wrong_side m id k = k
  by_verdict-Keeps side to_open m id k =
      let first : IsRemote side (first_to_open new_stream m) =
        subst
          (λ (s : Perspective).
            IsRemote side (first_for s (add32 m.highest_stream_opened_by_peer 2)))
          (sym k.same) (first_for-IsRemote side m.highest_stream_opened_by_peer k.holds.remote) in
      open_loop-Keeps (suc id) side m (first_to_open new_stream m) id k first

  pub get_or_open_stream-Keeps :
      (side : Perspective) (m : StreamsMap S E) (id : ℕ)
      → Keeps side m
      → Keeps side (get_or_open_stream new_stream m id).streams_map
  unfolding get_or_open_stream
  get_or_open_stream-Keeps side m id k = elim (Option-cases (stream_of id m.streams)) [
    | inl e ↦ rw (get_or_open_stream, e) (by_verdict-Keeps side (verdict new_stream m id) m id k)
    | inr (s, e) ↦ rw (get_or_open_stream, e) k
  ]

  pub open_unless-Keeps :
      (side : Perspective) (closed : Option E) (m : StreamsMap S E)
      → Keeps side m
      → m.next_stream + 2 < 2 ^ 32
      → Keeps side (open_unless new_stream closed m).streams_map
  unfolding open_unless open_stream_impl WasOpened
  open_unless-Keeps side (some e) m k small = k
  open_unless-Keeps side none m k small =
      let next = m.next_stream in
      let highest = m.highest_stream_opened_by_peer in
      let counted = record m {
        num_outgoing_streams = plus_server m.perspective m.num_outgoing_streams;
        num_incoming_streams = plus_client m.perspective m.num_incoming_streams;
        next_stream = add32 next 2;
      } in
      let raised : next ≤ add32 next 2 = omega arith in
      let parity : add32 next 2 % 2 ≡ own_parity side = omega (arith, k.holds.own) in
      let keeps : Keeps side counted = record {
        same = k.same;
        holds = record {
          opened =
              AllOpened-mono side next (add32 next 2) highest highest m.streams raised (omega arith)
                k.holds.opened;
          own = parity;
          remote = k.holds.remote;
        };
      } in
      put_stream-Keeps side counted next keeps (inl (k.holds.own, raised))

  pub remove_stream-Keeps :
      (side : Perspective) (m : StreamsMap S E) (id : ℕ)
      → Keeps side m
      → Keeps side (remove_stream m id).streams_map
  unfolding remove_stream
  remove_stream-Keeps side m id k = elim (Option-cases (stream_of id m.streams)) [
    | inl e ↦ rw (remove_stream, e) k
    | inr (s, e) ↦
        rw (remove_stream, e)
          (record {
            same = k.same;
            holds = record {
              opened =
                  AllOpened-delete side m.next_stream m.highest_stream_opened_by_peer id m.streams
                    k.holds.opened;
              own = k.holds.own;
              remote = k.holds.remote;
            };
          })
  ]

  pub accept_unless-Keeps :
      (side : Perspective) (closed : Option E) (next : Option S) (m : StreamsMap S E)
      (o : Opened S E)
      → accept_unless closed next m ≡ some o
      → Keeps side m
      → Keeps side o.streams_map
  unfolding accept_unless
  accept_unless-Keeps side (some e) next m o returns k = Keeps-returned side m o returns k
  accept_unless-Keeps side none none m o returns k = cc
  accept_unless-Keeps side none (some s) m o returns k =
      Keeps-returned side (record m { next_stream_to_accept = add32 m.next_stream_to_accept 2 }) o
        returns (record { same = k.same; holds = k.holds })

module _ {S E : Type 0} (new_stream : ℕ → S) where
  -- The loop of GetOrOpenStream, for an identifier below 2 ^ 32 - 2: its result does not depend on the
  -- rounds that it is given, if these reach beyond the identifier; as many as the identifier plus one do.
  pub open_loop_fuel :
      (n n' : ℕ) (m : StreamsMap S E) (sid id : ℕ)
      → id + 2 < 2 ^ 32
      → id < sid + 2 * n
      → id < sid + 2 * n'
      → open_loop new_stream n m sid id ≡ open_loop new_stream n' m sid id
  unfolding open_loop
  open_loop_fuel zero zero m sid id small a b = refl
  open_loop_fuel zero (suc n') m sid id small a b =
      let over : leb sid id ≡ false = ground arith in rw over refl
  open_loop_fuel (suc n) zero m sid id small a b =
      let over : leb sid id ≡ false = ground arith in rw over refl
  open_loop_fuel (suc n) (suc n') m sid id small a b =
      let opened = open_remote_stream new_stream m sid in
      elim (Bool-cases (leb sid id)) [
        | inl e ↦
            let low : sid ≤ id = ground arith in
            let next : add32 sid 2 ≡ sid + 2 = omega arith in
            let same =
              open_loop_fuel n n' opened.streams_map (add32 sid 2) id small (omega (arith, next))
                (omega (arith, next)) in
            rw e (ap (λ (rest : Opened S E). carry_on opened.error opened.streams_map rest) same)
        | inr e ↦ rw e refl
      ]
