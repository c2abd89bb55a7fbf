-- ===== src/Streams/Tests.antt =====
-- The streams of a server on a run of calls.
use agg_deliv.Common.{ℕ, ◌+◌, ◌≡◌, [], ◌∷◌, none, some, refl, arith}
use agg_deliv.Streams.{
  perspective_server, StreamsMap, stream_of, new_streams_map, open_stream, get_or_open_stream,
  remove_stream,
}
use agg_deliv.Streams.Validity.{Keeps}
use agg_deliv.Streams.Reachable.{
  IsReachable, begins, opens, gets, IsReachable-Keeps, remove_stream-get_or_open_stream_reachable,
}

-- A stream is 100 more than its identifier.
abbrev make : ℕ → ℕ
make id = id + 100

abbrev fresh : StreamsMap ℕ ℕ
fresh = new_streams_map make perspective_server

-- The client opens 1, 3 and 5, the server 2.
abbrev running : StreamsMap ℕ ℕ
running = (open_stream make (get_or_open_stream make fresh 5).streams_map).streams_map

running_streams : running.open_streams ≡ 1 ∷ 3 ∷ 5 ∷ 2 ∷ []
unfolding open_stream get_or_open_stream new_streams_map
running_streams = refl

running-IsReachable : IsReachable make perspective_server running
unfolding get_or_open_stream new_streams_map
running-IsReachable = opens (omega arith) (gets 5 begins)

IsReachable-Keeps_example : Keeps perspective_server running
IsReachable-Keeps_example = IsReachable-Keeps make perspective_server running running-IsReachable

stream_three : stream_of 3 running.streams ≡ some 103
unfolding open_stream get_or_open_stream new_streams_map
stream_three = refl

remove_stream-get_or_open_stream_reachable_example :
    ((remove_stream running 3).error ≡ none)
    × (get_or_open_stream make (remove_stream running 3).streams_map 3 ≡ record {
      streams_map = (remove_stream running 3).streams_map;
      stream = none;
      error = none;
    })
remove_stream-get_or_open_stream_reachable_example =
    remove_stream-get_or_open_stream_reachable make perspective_server running 3 103
      running-IsReachable stream_three
