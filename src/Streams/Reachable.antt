-- ===== src/Streams/Reachable.antt =====
-- All maps of streams that calls lead to.
use agg_deliv.Common.{ℕ, ◌+◌, ◌^◌, ◌<◌, ◌≡◌, none, some, refl, sym, arith, inl}
use mathlib.Core.Path.{subst}
use agg_deliv.Streams.{
  Perspective, perspective_server, perspective_client, StreamsMap, Opened, stream_of,
  new_streams_map, open_stream, get_or_open_stream, accept_stream, remove_stream, close_with_error,
}
use agg_deliv.Streams.Closed.{
  own_parity, AllOpened, Holds, IsValid, remove_stream-get_or_open_stream,
}
use agg_deliv.Streams.Validity.{
  Keeps, get_or_open_stream-Keeps, open_unless-Keeps, remove_stream-Keeps, accept_unless-Keeps,
}

module _ {S E : Type 0} (new_stream : ℕ → S) where
  -- From newStreamsMap, call by call. OpenStream is called only where nextStream and 2 more fit 32 bits.
  pub data IsReachable (side : Perspective) : StreamsMap S E → Type 0 where
    begins : IsReachable side (new_streams_map new_stream side)
    opens :
        {m : StreamsMap S E}
        → m.next_stream + 2 < 2 ^ 32
        → IsReachable side m
        → IsReachable side (open_stream new_stream m).streams_map
    gets :
        {m : StreamsMap S E} (id : ℕ)
        → IsReachable side m
        → IsReachable side (get_or_open_stream new_stream m id).streams_map
    accepts :
        {m : StreamsMap S E} (o : Opened S E)
        → accept_stream m ≡ some o
        → IsReachable side m
        → IsReachable side o.streams_map
    removes :
        {m : StreamsMap S E} (id : ℕ)
        → IsReachable side m
        → IsReachable side (remove_stream m id).streams_map
    closes :
        {m : StreamsMap S E} (e : E) → IsReachable side m → IsReachable side (close_with_error m e)

  starts : (side : Perspective) → Keeps {S = S} {E = E} side (new_streams_map new_stream side)
  unfolding new_streams_map own_parity AllOpened
  starts perspective_server = record {
    same = refl;
    holds = record { opened = omega arith; own = refl; remote = inl refl };
  }
  starts perspective_client = record {
    same = refl;
    holds = record { opened = omega arith; own = refl; remote = inl refl };
  }

  -- Every map of streams that calls lead to, where OpenStream is called only while nextStream + 2 is less than
  -- 2 ^ 32, so that the counter does not wrap, has its side's perspective and keeps the invariant: each
  -- stream in it has an identifier of this side up to the next one, or one of the peer up to the highest
  -- that the peer opened, and these two counters have the parity of their side.
  pub IsReachable-Keeps :
      (side : Perspective) (m : StreamsMap S E) → IsReachable side m → Keeps side m
  unfolding open_stream accept_stream close_with_error
  IsReachable-Keeps side _ begins = starts side
  IsReachable-Keeps side _ (opens {m} small r) =
      open_unless-Keeps new_stream side m.close_err m (IsReachable-Keeps side m r) small
  IsReachable-Keeps side _ (gets {m} id r) =
      get_or_open_stream-Keeps new_stream side m id (IsReachable-Keeps side m r)
  IsReachable-Keeps side _ (accepts {m} o e r) =
      accept_unless-Keeps new_stream side m.close_err (stream_of m.next_stream_to_accept m.streams)
        m o e (IsReachable-Keeps side m r)
  IsReachable-Keeps side _ (removes {m} id r) =
      remove_stream-Keeps new_stream side m id (IsReachable-Keeps side m r)
  IsReachable-Keeps side _ (closes {m} e r) =
      let k = IsReachable-Keeps side m r in record { same = k.same; holds = k.holds }

  -- For every map that calls lead to, where OpenStream is called only while nextStream + 2 is less than
  -- 2 ^ 32, so that the counter does not wrap, and for a stream in it: RemoveStream returns no error, and after it
  -- GetOrOpenStream for that identifier returns no stream and no error and changes nothing, so that a
  -- stream that was closed is not opened again.
  pub remove_stream-get_or_open_stream_reachable :
      (side : Perspective) (m : StreamsMap S E) (id : ℕ) (s : S)
      → IsReachable side m
      → stream_of id m.streams ≡ some s
      → ((remove_stream m id).error ≡ none)
        × (get_or_open_stream new_stream (remove_stream m id).streams_map id ≡ record {
          streams_map = (remove_stream m id).streams_map;
          stream = none;
          error = none;
        })
  remove_stream-get_or_open_stream_reachable side m id s r e =
      let k = IsReachable-Keeps side m r in
      let valid : IsValid m =
        subst
          (λ (p : Perspective). Holds S p m.next_stream m.highest_stream_opened_by_peer m.streams)
          (sym k.same) k.holds in
      remove_stream-get_or_open_stream new_stream m id s valid e
