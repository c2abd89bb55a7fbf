-- ===== src/Streams.antt =====
-- mpquic_trans/streams_map.go: the streams of a session, which side opened them, and which are closed.
pub mod Closed
pub mod Opening
pub mod Validity
pub mod Reachable
mod Tests
use agg_deliv.Common.{
  ℕ, zero, suc, ◌+◌, ◌-◌, ◌%◌, ◌^◌, Bool, true, false, not, List, [], ◌∷◌, ◌++◌, Option, none, some,
  ltb, leb, ◌==◌, if◌then◌else◌,
}

pub data Perspective : Type 0 where
  perspective_server : Perspective
  perspective_client : Perspective

-- An entry of the map from identifiers to streams.
pub record Entry (S : Type 0) : Type 0 where
  pub stream_id : ℕ
  pub stream : S

-- `E` is the type of the error that CloseWithError is given.
pub record StreamsMap (S E : Type 0) : Type 0 where
  pub perspective : Perspective
  pub streams : List (Entry S)
  pub open_streams : List ℕ
  pub round_robin_index : ℕ
  pub next_stream : ℕ
  pub highest_stream_opened_by_peer : ℕ
  pub close_err : Option E
  pub next_stream_to_accept : ℕ
  pub num_outgoing_streams : ℕ
  pub num_incoming_streams : ℕ

pub data StreamsError (E : Type 0) : Type 0 where
  invalid_stream_id : StreamsError E
  no_such_stream : StreamsError E
  closed_with : E → StreamsError E

-- The stream that a call returns, `none` for nil, its error, and the map after.
pub record Opened (S E : Type 0) : Type 0 where
  pub streams_map : StreamsMap S E
  pub stream : Option S
  pub error : Option (StreamsError E)

abbrev pub max_new_stream_id_delta : ℕ
max_new_stream_id_delta = 40000

-- A StreamID and the counters are uint32.
abbrev pub add32 : ℕ → ℕ → ℕ
add32 a b = (a + b) % 2 ^ 32

abbrev pub decrement : ℕ → ℕ
decrement n = (n + 2 ^ 32 - 1) % 2 ^ 32

module _ {S : Type 0} where
  -- `m.streams[id]`
  unfoldable pub stream_of : ℕ → List (Entry S) → Option S
  stream_of id [] = none
  stream_of id (e ∷ es) = if e.stream_id == id then some e.stream else stream_of id es

  -- `delete(m.streams, id)`
  unfoldable pub delete : ℕ → List (Entry S) → List (Entry S)
  delete id [] = []
  delete id (e ∷ es) = let rest = delete id es in if e.stream_id == id then rest else e ∷ rest

-- The index of a stream in the slice of open streams.
unfoldable pub index_of : ℕ → List ℕ → Option ℕ
index_of id [] = none
index_of id (s ∷ ss) =
    if s == id then some 0 else elim (index_of id ss) [ none ↦ none | some i ↦ some (suc i) ]

unfoldable pub without : ℕ → List ℕ → List ℕ
without id [] = []
without id (s ∷ ss) = if s == id then ss else s ∷ without id ss

-- Why GetOrOpenStream does not open a stream that is not in the map, or that it does.
pub data Verdict : Type 0 where
  already_closed : Verdict
  wrong_side : Verdict
  to_open : Verdict

-- A counter that a server, or a client, increments.
unfoldable pub plus_server : Perspective → ℕ → ℕ
plus_server perspective_server n = add32 n 1
plus_server perspective_client n = n

unfoldable pub plus_client : Perspective → ℕ → ℕ
plus_client perspective_server n = n
plus_client perspective_client n = add32 n 1

-- The index for the round robin once the stream at `i` is gone.
unfoldable pub adjust : Option ℕ → ℕ → ℕ
adjust none index = index
adjust (some i) index = if ltb i index then index - 1 else index

-- The tests of GetOrOpenStream for a stream that is not in the map.
unfoldable pub verdict_for : Perspective → ℕ → ℕ → ℕ → Verdict
verdict_for perspective_server next highest id =
    if id % 2 == 0
    then (if leb id next then already_closed else wrong_side)
    else if leb id highest
    then already_closed
    else to_open
verdict_for perspective_client next highest id =
    if id % 2 == 1
    then (if leb id next then already_closed else wrong_side)
    else if leb id highest
    then already_closed
    else to_open

-- The first stream that is opened, from the next one after the highest.
unfoldable pub first_for : Perspective → ℕ → ℕ
first_for perspective_server sid = if sid == 2 then 1 else sid
first_for perspective_client sid = sid

module _ {S E : Type 0} where
  -- An error ends the loop.
  unfoldable pub carry_on : Option (StreamsError E) → StreamsMap S E → Opened S E → Opened S E
  carry_on (some e) m rest = record { streams_map = m; stream = none; error = some e }
  carry_on none m rest = rest

module _ {S E : Type 0} (new_stream : ℕ → S) where
  unfoldable pub new_streams_map : Perspective → StreamsMap S E
  new_streams_map perspective =
      let start : ℕ → ℕ → StreamsMap S E = λ next accept. record {
        perspective = perspective;
        streams = [];
        open_streams = [];
        round_robin_index = 0;
        next_stream = next;
        highest_stream_opened_by_peer = 0;
        close_err = none;
        next_stream_to_accept = accept;
        num_outgoing_streams = 0;
        num_incoming_streams = 0;
      } in
      elim perspective [ perspective_client ↦ start 1 2 | perspective_server ↦ start 2 1 ]

  -- putStream of a new stream; its error is not looked at.
  unfoldable pub put_stream : StreamsMap S E → ℕ → StreamsMap S E
  unfolding stream_of
  put_stream m id = elim (stream_of id m.streams) [
    | some s ↦ m
    | none ↦ record m {
      streams = m.streams ++ (record { stream_id = id; stream = new_stream id }) ∷ [];
      open_streams = m.open_streams ++ id ∷ [];
    }
  ]

  unfoldable pub open_remote_stream : StreamsMap S E → ℕ → Opened S E
  unfolding put_stream plus_server plus_client
  open_remote_stream m id =
      if ltb (add32 id max_new_stream_id_delta) m.highest_stream_opened_by_peer
      then record { streams_map = m; stream = none; error = some invalid_stream_id }
      else let highest = m.highest_stream_opened_by_peer in
        let raised = record m {
          num_incoming_streams = plus_server m.perspective m.num_incoming_streams;
          num_outgoing_streams = plus_client m.perspective m.num_outgoing_streams;
          highest_stream_opened_by_peer = if ltb highest id then id else highest;
        } in
        record { streams_map = put_stream raised id; stream = some (new_stream id); error = none }

  unfoldable pub open_stream_impl : StreamsMap S E → Opened S E
  unfolding put_stream plus_server plus_client
  open_stream_impl m =
      let counted = record m {
        num_outgoing_streams = plus_server m.perspective m.num_outgoing_streams;
        num_incoming_streams = plus_client m.perspective m.num_incoming_streams;
        next_stream = add32 m.next_stream 2;
      } in
      record {
        streams_map = put_stream counted m.next_stream;
        stream = some (new_stream m.next_stream);
        error = none;
      }

  unfoldable pub open_unless : Option E → StreamsMap S E → Opened S E
  unfolding open_stream_impl
  open_unless (some e) m = record { streams_map = m; stream = none; error = some (closed_with e) }
  open_unless none m = open_stream_impl m

  -- OpenStream; OpenStreamSync does the same, since openStreamImpl returns no error.
  unfoldable pub open_stream : StreamsMap S E → Opened S E
  unfolding open_unless
  open_stream m = open_unless m.close_err m

  unfoldable pub verdict : StreamsMap S E → ℕ → Verdict
  unfolding verdict_for
  verdict m id = verdict_for m.perspective m.next_stream m.highest_stream_opened_by_peer id

  unfoldable pub first_to_open : StreamsMap S E → ℕ
  unfolding first_for
  first_to_open m = first_for m.perspective (add32 m.highest_stream_opened_by_peer 2)

  -- The loop that opens the streams from `sid` to `id`, with the rounds that are left.
  unfoldable pub open_loop : ℕ → StreamsMap S E → ℕ → ℕ → Opened S E
  unfolding open_remote_stream stream_of carry_on
  open_loop zero m sid id = record {
    streams_map = m;
    stream = stream_of id m.streams;
    error = none;
  }
  open_loop (suc n) m sid id =
      let opened = open_remote_stream m sid in
      let rest = open_loop n opened.streams_map (add32 sid 2) id in
      if leb sid id
      then carry_on opened.error opened.streams_map rest
      else record { streams_map = m; stream = stream_of id m.streams; error = none }

  -- GetOrOpenStream for a stream that is not in the map.
  unfoldable pub by_verdict : Verdict → StreamsMap S E → ℕ → Opened S E
  unfolding open_loop first_to_open
  by_verdict already_closed m id = record { streams_map = m; stream = none; error = none }
  by_verdict wrong_side m id = record {
    streams_map = m;
    stream = none;
    error = some invalid_stream_id;
  }
  by_verdict to_open m id = open_loop (suc id) m (first_to_open m) id

  unfoldable pub get_or_open_stream : StreamsMap S E → ℕ → Opened S E
  unfolding stream_of verdict by_verdict
  get_or_open_stream m id = elim (stream_of id m.streams) [
    | some s ↦ record { streams_map = m; stream = some s; error = none }
    | none ↦ by_verdict (verdict m id) m id
  ]

module _ {S E : Type 0} where
  -- AcceptStream, `none` where it waits for a stream.
  unfoldable pub accept_unless : Option E → Option S → StreamsMap S E → Option (Opened S E)
  accept_unless (some e) next m =
      some (record { streams_map = m; stream = none; error = some (closed_with e) })
  accept_unless none none m = none
  accept_unless none (some s) m = some (record {
    streams_map = record m { next_stream_to_accept = add32 m.next_stream_to_accept 2 };
    stream = some s;
    error = none;
  })

  unfoldable pub accept_stream : StreamsMap S E → Option (Opened S E)
  unfolding stream_of accept_unless
  accept_stream m = accept_unless m.close_err (stream_of m.next_stream_to_accept m.streams) m

  -- CloseWithError, less what Cancel does to each open stream.
  unfoldable pub close_with_error : StreamsMap S E → E → StreamsMap S E
  close_with_error m e = record m { close_err = some e }

  unfoldable pub remove_stream : StreamsMap S E → ℕ → Opened S E
  unfolding stream_of index_of without adjust delete
  remove_stream m id = elim (stream_of id m.streams) [
    | none ↦ record { streams_map = m; stream = none; error = some no_such_stream }
    | some s ↦ record {
      streams_map = record m {
        num_outgoing_streams =
            if id % 2 == 0 then decrement m.num_outgoing_streams else m.num_outgoing_streams;
        num_incoming_streams =
            if id % 2 == 0 then m.num_incoming_streams else decrement m.num_incoming_streams;
        open_streams = without id m.open_streams;
        round_robin_index = adjust (index_of id m.open_streams) m.round_robin_index;
        streams = delete id m.streams;
      };
      stream = none;
      error = none;
    }
  ]
