-- ===== src/Streams/Closed.antt =====
-- A stream that was closed is not opened again.
use agg_deliv.Common.{
  ℕ, ◌%◌, ◌≤◌, ◌≡◌, List, [], ◌∷◌, none, some, ◌==◌, if◌then◌else◌, ◌⊎◌, inl, inr, refl, arith,
  Bool-cases,
}
use agg_deliv.Streams.{
  Perspective, perspective_server, perspective_client, Entry, StreamsMap, stream_of, delete,
  verdict_for, already_closed, verdict, by_verdict, get_or_open_stream, remove_stream, index_of,
  without, adjust, decrement,
}

-- The remainder by 2 of the identifiers that this side opens.
unfoldable pub own_parity : Perspective → ℕ
own_parity perspective_server = 0
own_parity perspective_client = 1

-- An identifier was opened by its side, from what that side has opened so far.
unfoldable pub WasOpened : Perspective → ℕ → ℕ → ℕ → Type 0
WasOpened side next highest id =
    ((id % 2 ≡ own_parity side) × (id ≤ next))
    ⊎ (((id % 2 ≡ own_parity side) → 1 ≤ 0) × (id ≤ highest))

unfoldable pub AllOpened : {S : Type 0} → Perspective → ℕ → ℕ → List (Entry S) → Type 0
AllOpened side next highest [] = 0 ≤ 0
AllOpened side next highest (e ∷ es) =
    WasOpened side next highest e.stream_id × AllOpened side next highest es

-- The invariant: every stream of the map was opened by its side, and the counters have its parity.
pub record Holds (S : Type 0) (side : Perspective) (next highest : ℕ) (es : List (Entry S))
    : Type 0 where
  pub opened : AllOpened side next highest es
  pub own : next % 2 ≡ own_parity side
  pub remote : (highest ≡ 0) ⊎ ((highest % 2 ≡ own_parity side) → 1 ≤ 0)

abbrev pub IsValid : {S E : Type 0} → StreamsMap S E → Type 0
IsValid {S} m = Holds S m.perspective m.next_stream m.highest_stream_opened_by_peer m.streams

stream_of-delete : {S : Type 0} (id : ℕ) (es : List (Entry S)) → stream_of id (delete id es) ≡ none
unfolding stream_of delete
stream_of-delete id [] = refl
stream_of-delete id (e ∷ es) = ground (arith, stream_of-delete id es)

stream_of-opened :
    {S : Type 0} (side : Perspective) (next highest id : ℕ) (es : List (Entry S)) (s : S)
    → AllOpened side next highest es
    → stream_of id es ≡ some s
    → WasOpened side next highest id
unfolding stream_of AllOpened
stream_of-opened side next highest id [] s opened e = cc
stream_of-opened side next highest id (x ∷ es) s opened e = elim (Bool-cases (x.stream_id == id)) [
  | inl same ↦ let equal : x.stream_id ≡ id = ground arith in rw (← equal) opened.0
  | inr other ↦
      let later : stream_of id es ≡ some s = rw other at e in
      stream_of-opened side next highest id es s opened.1 later
]

verdict_for_closed :
    (side : Perspective) (next highest id : ℕ)
    → WasOpened side next highest id
    → verdict_for side next highest id ≡ already_closed
unfolding verdict_for WasOpened own_parity
verdict_for_closed perspective_server next highest id opened = ground arith
verdict_for_closed perspective_client next highest id opened = ground arith

module _ {S E : Type 0} (new_stream : ℕ → S) where
  get_closed :
      (m : StreamsMap S E) (id : ℕ)
      → stream_of id m.streams ≡ none
      → verdict_for m.perspective m.next_stream m.highest_stream_opened_by_peer id ≡ already_closed
      → get_or_open_stream new_stream m id ≡ record { streams_map = m; stream = none; error = none }
  unfolding get_or_open_stream verdict by_verdict
  get_closed m id absent closed = rw (get_or_open_stream, absent, closed) refl

  abbrev removed : StreamsMap S E → ℕ → StreamsMap S E
  removed m id = record m {
    num_outgoing_streams =
        if id % 2 == 0 then decrement m.num_outgoing_streams else m.num_outgoing_streams;
    num_incoming_streams =
        if id % 2 == 0 then m.num_incoming_streams else decrement m.num_incoming_streams;
    open_streams = without id m.open_streams;
    round_robin_index = adjust (index_of id m.open_streams) m.round_robin_index;
    streams = delete id m.streams;
  }

  remove_stream-removed :
      (m : StreamsMap S E) (id : ℕ) (s : S)
      → stream_of id m.streams ≡ some s
      → remove_stream m id ≡ record { streams_map = removed m id; stream = none; error = none }
  unfolding remove_stream
  remove_stream-removed m id s e = rw (remove_stream, e) refl

  -- For a map that keeps its invariant and a stream in it: RemoveStream returns no error, and after it
  -- GetOrOpenStream for that identifier returns no stream and no error and changes nothing.
  pub remove_stream-get_or_open_stream :
      (m : StreamsMap S E) (id : ℕ) (s : S)
      → IsValid m
      → stream_of id m.streams ≡ some s
      → ((remove_stream m id).error ≡ none)
        × (get_or_open_stream new_stream (remove_stream m id).streams_map id ≡ record {
          streams_map = (remove_stream m id).streams_map;
          stream = none;
          error = none;
        })
  remove_stream-get_or_open_stream m id s v e =
      let opened =
        stream_of-opened m.perspective m.next_stream m.highest_stream_opened_by_peer id m.streams s
          v.opened e in
      let closed =
        verdict_for_closed m.perspective m.next_stream m.highest_stream_opened_by_peer id opened in
      rw (remove_stream-removed m id s e)
        (refl, get_closed (removed m id) id (stream_of-delete id m.streams) closed)
