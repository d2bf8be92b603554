-- ===== src/States/Landing.antt =====
-- Where `goToState:` ends: in the state that it is given, or in one to which entering it leads on.
use zmessaging_cocoa.Base.{ℕ, zero, suc, ◌≤◌, ◌<◌, Bool, true, false, ◌≡◌, refl, arith}
use zmessaging_cocoa.States.World.{SyncState, Command, World}
use zmessaging_cocoa.States.Machine.{Machine, send, start_login_timer}
use zmessaging_cocoa.States.Transitions.{
  Go, begin_fetch, begin_catch_up, enter, switch_to, go_to_within, go_to, depth, depth_pos,
  depth_cap,
}
use zmessaging_cocoa.States.Frame.{did_start_slow_sync-SameState}

abbrev pub is_download : SyncState → Bool
is_download SyncState.download_last_update_event_id = true
is_download _ = false

abbrev pub lands_catch_up : SyncState → Bool
lands_catch_up SyncState.update_events_catch_up_phase_one = true
lands_catch_up SyncState.download_last_update_event_id = true
lands_catch_up _ = false

abbrev pub lands_pre_background : SyncState → Bool
lands_pre_background SyncState.pre_background = true
lands_pre_background SyncState.background = true
lands_pre_background _ = false

abbrev pub lands_unauthenticated : SyncState → Bool
lands_unauthenticated SyncState.unauthenticated = true
lands_unauthenticated SyncState.background = true
lands_unauthenticated c = lands_catch_up c

abbrev pub lands_background_fetch : SyncState → Bool
lands_background_fetch SyncState.background_fetch = true
lands_background_fetch c = lands_pre_background c

-- The states in which entering the first one may end.
abbrev pub Lands : SyncState → SyncState → Type 0
Lands SyncState.unauthenticated c = lands_unauthenticated c ≡ true
Lands SyncState.background_fetch c = lands_background_fetch c ≡ true
Lands SyncState.update_events_catch_up_phase_one c = lands_catch_up c ≡ true
Lands SyncState.pre_background c = lands_pre_background c ≡ true
Lands s c = c ≡ s

module _ {D : Type 0} (w : World D) where
  enter-Lands :
      (go : Go w) (s : SyncState) (m : Machine D)
      → ((t : SyncState) (m' : Machine D) → depth w t < depth w s → Lands t (go t m').current)
      → m.current ≡ s
      → Lands s (enter w go s m).current
  unfolding enter send start_login_timer begin_catch_up begin_fetch
  enter-Lands go SyncState.unauthenticated m keep e =
      ground (arith, keep SyncState.background m, keep SyncState.update_events_catch_up_phase_one m)
  enter-Lands go SyncState.slow_sync_phase_one m keep e =
      ground (arith, did_start_slow_sync-SameState w w.all_transcoders m)
  enter-Lands go SyncState.update_events_catch_up_phase_one m keep e = ground (
    arith,
    keep SyncState.download_last_update_event_id
        (send w Command.start_downloading_missing_notifications (begin_catch_up w m)),
  )
  enter-Lands go SyncState.background_fetch m keep e =
      ground (arith, keep SyncState.pre_background (begin_fetch w m))
  enter-Lands go SyncState.pre_background m keep e = ground (arith, keep SyncState.background m)
  enter-Lands go _ m keep e = ground arith

  go_to_within-Lands :
      (n : ℕ) (s : SyncState) (m : Machine D)
      → depth w s ≤ n
      → Lands s (go_to_within w n s m).current
  unfolding go_to_within switch_to
  go_to_within-Lands zero s m h = absurd (ground (arith, depth_pos w s))
  go_to_within-Lands (suc n) s m h =
      enter-Lands (go_to_within w n) s (switch_to w s m)
        (λ t m' lt. go_to_within-Lands n t m' (omega arith)) refl

  pub go_to-Lands : (s : SyncState) (m : Machine D) → Lands s (go_to w s m).current
  unfolding go_to
  go_to-Lands s m = go_to_within-Lands 3 s m (depth_cap w s)
