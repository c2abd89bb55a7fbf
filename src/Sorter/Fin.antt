-- ===== src/Sorter/Fin.antt =====
-- What Push does with the FIN of a frame that it cuts.
use agg_deliv.Common.{
  ℕ, suc, ◌+◌, ◌-◌, ◌≤◌, ◌<◌, ◌≡◌, true, false, List, [], ◌∷◌, none, some, ltb, leb, ◌==◌, length,
  take, if◌then◌else◌, add64, u64_mod, arith, refl, sym, ap, ◌∙◌, if_cases,
}
use agg_deliv.Wire.StreamFrame.{StreamFrame}
use agg_deliv.Sorter.{
  StreamFrameSorter, push, push_over, push_new, push_at, push_between, head, ByteInterval, find_gap,
  end_loop, fill_gaps, store, itself, Pushed, EndSearch, at, cut_front, cut_back,
}
use agg_deliv.Sorter.Gaps.{store_self}

module _ (s : StreamFrameSorter) (f : StreamFrame) (gap next : ByteInterval)
    (rest : List ByteInterval) (first_two : s.gaps ≡ gap ∷ next ∷ rest)
    (few : suc (length rest) ≤ 2500) (at_start : f.offset ≡ gap.start)
    (unread : s.read_position ≡ gap.start) (vacant : s.queued_frames f.offset ≡ none)
    (nonempty : gap.start < gap.end) (longer : gap.end < f.offset + length f.payload)
    (small : f.offset + length f.payload < u64_mod)
    (up_to : f.offset + length f.payload ≤ next.start) where
  end : ℕ
  end = f.offset + length f.payload

  stored : StreamFrame
  stored = record f { payload = take (gap.end - gap.start) f.payload }

  found : find_gap f.offset end s.gaps ≡ at [] gap (next ∷ rest)
  unfolding find_gap end
  found = rw first_two (
      let c1 : leb (f.offset + length f.payload) gap.start ≡ false = ground arith in
      let c2 : ltb gap.start (f.offset + length f.payload) ≡ true = ground arith in
      let c3 : leb f.offset gap.end ≡ true = ground arith in rw (c1, c2, c3) refl)

  ended :
      end_loop end gap itself (next ∷ rest) s.queued_frames
      ≡ record { end_gap = itself; fails = false; after = next ∷ rest; queued = s.queued_frames }
  unfolding end_loop end
  ended =
      let c1 : ltb (f.offset + length f.payload) gap.end ≡ false = ground arith in
      let c2 : leb (f.offset + length f.payload) next.start ≡ true = ground arith in
      rw (c1, c2) refl

  uncut : cut_front f gap.start ≡ f
  uncut =
      if_cases (λ (g : StreamFrame). g ≡ f) (ltb f.offset gap.start) _ f
        (λ c. absurd (let less : f.offset < gap.start = ground arith in omega arith)) (λ c. refl)

  cut : cut_back f end gap.end ≡ stored
  unfolding end stored
  cut =
      let c : ltb gap.end (f.offset + length f.payload) ≡ true = ground arith in
      let n : length f.payload - (f.offset + length f.payload - gap.end) ≡ gap.end - gap.start =
        omega arith in
      rw c (ap (λ k. record f { payload = take k f.payload }) n)

  put :
      push_between s f end [] gap
        (record { end_gap = itself; fails = false; after = next ∷ rest; queued = s.queued_frames })
      ≡ record {
        sorter = record s {
          gaps = next ∷ rest;
          queued_frames = store s.queued_frames f.offset stored;
        };
        error = none;
      }
  unfolding push_between fill_gaps end stored
  put =
      let c1 : (f.offset == gap.start) ≡ true = ground arith in
      let c2 : leb gap.end (
            if ltb gap.end (f.offset + length f.payload)
            then gap.end
            else f.offset + length f.payload)
          ≡ true =
        ground arith in
      let c3 : ltb 2500 (suc (length rest)) ≡ false = ground arith in rw (c1, c2, c3, cut) refl

  same : add64 f.offset (length f.payload) ≡ end
  unfolding end
  same = omega arith

  pushed_at : push_at s f (at [] gap (next ∷ rest)) ≡ record {
    sorter = record s { gaps = next ∷ rest; queued_frames = store s.queued_frames f.offset stored };
    error = none;
  }
  unfolding push_at
  pushed_at =
      let loop : ℕ → EndSearch = λ e. end_loop e gap itself (next ∷ rest) s.queued_frames in
      ap (λ e. push_between s (cut_front f gap.start) e [] gap (loop e)) same
      ∙ ap (λ g. push_between s g end [] gap (loop end)) uncut
      ∙ ap (push_between s f end [] gap) ended
      ∙ put

  pushed : push s f ≡ record {
    sorter = record s { gaps = next ∷ rest; queued_frames = store s.queued_frames f.offset stored };
    error = none;
  }
  unfolding push push_over push_new
  pushed =
      let filled : (length f.payload == 0) ≡ false = ground arith in
      rw (filled, vacant)
        (ap (λ e. push_at s f (find_gap f.offset e s.gaps)) same
          ∙ ap (push_at s f) found
          ∙ pushed_at)

  -- If Push is given a frame at the read position that reaches over the end of the first gap, but not to
  -- the next gap, and nothing is queued at its offset, then Head returns it without the bytes behind the first
  -- gap, and with its FinBit: of a frame with FinBit, the reader gets a FIN before the stream's end.
  pub push-fin_kept :
      head (push s f).sorter ≡ some (record f { payload = take (gap.end - gap.start) f.payload })
  unfolding head stored
  push-fin_kept =
      ap (λ (r : Pushed). r.sorter.queued_frames r.sorter.read_position) pushed
      ∙ ap (store s.queued_frames f.offset stored) (unread ∙ sym at_start)
      ∙ store_self s.queued_frames f.offset stored
