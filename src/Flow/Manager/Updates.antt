-- ===== src/Flow/Manager/Updates.antt =====
-- GetWindowUpdates.
use agg_deliv.Common.{ℕ, ◌≡◌, refl, true, List, [], ◌∷◌, ◌++◌, map, arith}
use mathlib.Core.Path.{ap₂}
use agg_deliv.Flow.Controller.{FlowController, Timing, maybe_update_window}
use agg_deliv.Flow.Manager.{FlowControlManager, WindowUpdate, update_loop, get_window_updates}
use agg_deliv.Flow.Manager.Streams.{StreamControllers}

-- The update that tells a stream's window.
abbrev pub announce : ℕ × FlowController → WindowUpdate
announce (id, fc) = record { stream_id = id; offset = fc.receive_window }

module _ (scale : ℕ → ℕ) (timing : ℕ → Timing) where
  offset_lem :
      (c : FlowController) (t : Timing)
      → (maybe_update_window c t).offset ≡ (maybe_update_window c t).controller.receive_window
  unfolding maybe_update_window
  offset_lem c t = ground arith

  loop_announces :
      (s : StreamControllers) (conn : FlowController)
      → (update_loop scale timing true s conn).updates
        ≡ map announce (update_loop scale timing true s conn).manager.streams
  unfolding update_loop
  loop_announces [] conn = refl
  loop_announces ((id, fc) ∷ rest) conn =
      ap₂ (λ (o : ℕ) (us : List WindowUpdate). record { stream_id = id; offset = o } ∷ us)
        (offset_lem fc (timing id)) (loop_announces rest _)

  -- A forced GetWindowUpdates returns one update for each stream and then one for the connection, each
  -- with the receive window that the controller has afterwards.
  pub get_window_updates-force :
      (f : FlowControlManager)
      → (get_window_updates scale timing true f).updates
        ≡ map announce (get_window_updates scale timing true f).manager.streams
          ++ announce (0, (get_window_updates scale timing true f).manager.conn) ∷ []
  unfolding get_window_updates
  get_window_updates-force f =
      ap₂ (λ (us : List WindowUpdate) (o : ℕ). us ++ record { stream_id = 0; offset = o } ∷ [])
        (loop_announces f.streams f.conn) (offset_lem _ (timing 0))
