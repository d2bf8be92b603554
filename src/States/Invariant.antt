-- ===== src/States/Invariant.antt =====
-- What holds of the machine between two events: each resource of a state is held exactly while the
-- machine is in that state, and the session is told of the background once for each stay there.
pub mod Requests
mod Sides
pub mod Events
use zmessaging_cocoa.Base.{
  ℕ, zero, suc, ◌+◌, ◌≤◌, ◌<◌, Bool, true, false, none, ◌≡◌, refl, ◌⊎◌, arith, tally, is_some,
  if_elim, if◌then◌else◌,
}
use zmessaging_cocoa.States.World.{SyncState, Command, World, Transcoder}
use zmessaging_cocoa.States.Machine.{Machine, send, leave, start_login_timer, is_done_with_login}
use zmessaging_cocoa.States.Transitions.{
  Go, begin_fetch, begin_catch_up, enter, switch_to, go_to_within, go_to, depth, depth_pos,
  depth_cap, await_login,
}
use zmessaging_cocoa.States.Frame.{did_start_slow_sync-SameState, tally-did_start_slow_sync}

abbrev pub is_background : SyncState → Bool
is_background SyncState.background = true
is_background _ = false

abbrev pub is_pre_background : SyncState → Bool
is_pre_background SyncState.pre_background = true
is_pre_background _ = false

abbrev pub is_background_fetch : SyncState → Bool
is_background_fetch SyncState.background_fetch = true
is_background_fetch _ = false

abbrev pub is_background_task : SyncState → Bool
is_background_task SyncState.background_task = true
is_background_task _ = false

abbrev pub is_unauthenticated : SyncState → Bool
is_unauthenticated SyncState.unauthenticated = true
is_unauthenticated _ = false

abbrev pub enters_session_background : Command → Bool
enters_session_background Command.session_enter_background = true
enters_session_background _ = false

abbrev pub enters_session_foreground : Command → Bool
enters_session_foreground Command.session_enter_foreground = true
enters_session_foreground _ = false

abbrev pub starts_timer : Command → Bool
starts_timer (Command.start_timer t time) = true
starts_timer _ = false

abbrev pub cancels_timer : Command → Bool
cancels_timer (Command.cancel_timer t) = true
cancels_timer _ = false

abbrev pub one_if : Bool → ℕ
one_if b = if b then 1 else 0

module _ {D : Type 0} where
  -- Timers that were started but not cancelled are those that the states keep.
  abbrev pub KeepsTimers : Machine D → Type 0
  KeepsTimers m =
      tally starts_timer m.log
      ≡ tally cancels_timer m.log
        + (one_if (is_some m.fetch.timer)
            + one_if (is_some m.task.timer)
            + one_if (is_some m.login.timer))

  pub record Inv (m : Machine D) : Type 0 where
    pub fetch_timer : is_some m.fetch.timer ≡ is_background_fetch m.current
    pub fetch_handler : is_some m.fetch.handler ≡ is_background_fetch m.current
    pub task_timer : is_some m.task.timer ≡ is_background_task m.current
    pub task_handler : is_some m.task.handler ≡ is_background_task m.current
    pub login_timer : (m.login.timer ≡ none) ⊎ (m.current ≡ SyncState.unauthenticated)
    pub activity : m.has_activity ≡ is_pre_background m.current
    pub balance :
        tally enters_session_background m.log
        ≡ tally enters_session_foreground m.log + (if is_background m.current then 1 else 0)
    pub timers : KeepsTimers m

  -- What `goToState:` needs: a handler is set just before the state that owns it is entered.
  pub record Ready (s : SyncState) (m : Machine D) : Type 0 where
    pub fetch_handler :
        is_background_fetch s ≡ true
        → (m.current ≡ SyncState.background) × (is_some m.fetch.handler ≡ true)
    pub task_handler :
        is_background_task s ≡ true
        → (m.current ≡ SyncState.background) × (is_some m.task.handler ≡ true)
    pub no_fetch_handler :
        is_background_fetch s ≡ false
        → (m.fetch.handler ≡ none) ⊎ (m.current ≡ SyncState.background_fetch)
    pub no_task_handler :
        is_background_task s ≡ false
        → (m.task.handler ≡ none) ⊎ (m.current ≡ SyncState.background_task)
    pub no_fetch_timer : (m.fetch.timer ≡ none) ⊎ (m.current ≡ SyncState.background_fetch)
    pub no_task_timer : (m.task.timer ≡ none) ⊎ (m.current ≡ SyncState.background_task)
    pub login_timer : (m.login.timer ≡ none) ⊎ (m.current ≡ SyncState.unauthenticated)
    pub activity : (m.has_activity ≡ false) ⊎ (m.current ≡ SyncState.pre_background)
    pub balance :
        tally enters_session_background m.log
        ≡ tally enters_session_foreground m.log + (if is_background m.current then 1 else 0)
    pub timers : KeepsTimers m

  -- What holds when a state is entered: the last one has let go of all that it held.
  record Cleared (s : SyncState) (m : Machine D) : Type 0 where
    at_state : m.current ≡ s
    fetch_handler : is_some m.fetch.handler ≡ is_background_fetch s
    task_handler : is_some m.task.handler ≡ is_background_task s
    no_fetch_timer : m.fetch.timer ≡ none
    no_task_timer : m.task.timer ≡ none
    no_login_timer : m.login.timer ≡ none
    no_activity : m.has_activity ≡ false
    balance : tally enters_session_background m.log ≡ tally enters_session_foreground m.log
    timers : tally starts_timer m.log ≡ tally cancels_timer m.log

module _ {D : Type 0} (w : World D) where
  leave-Cleared :
      (c s : SyncState) (m : Machine D)
      → m.current ≡ c
      → Ready s m
      → Cleared s (record (leave w c m) { current = s })
  unfolding leave send tally
  leave-Cleared SyncState.unauthenticated s m e r = ground arith
  leave-Cleared _ s m e r = ground arith

  switch_to-Cleared : (s : SyncState) (m : Machine D) → Ready s m → Cleared s (switch_to w s m)
  unfolding switch_to
  switch_to-Cleared s m r = leave-Cleared m.current s m refl r

  await_login-Inv : (m : Machine D) → Cleared SyncState.unauthenticated m → Inv (await_login w m)
  unfolding await_login send tally start_login_timer
  await_login-Inv m c = ground arith

  needs_self-Inv :
      (m : Machine D) → Inv m → Inv (send w (Command.set_needs_slow_sync Transcoder.self) m)
  unfolding send tally
  needs_self-Inv m v = ground arith

  enter-Inv :
      (go : Go w) (s : SyncState) (m : Machine D)
      → ((t : SyncState) (m' : Machine D) → depth w t < depth w s → Ready t m' → Inv (go t m'))
      → Cleared s m
      → Inv (enter w go s m)
  unfolding enter send tally begin_fetch begin_catch_up start_login_timer
  enter-Inv go SyncState.unauthenticated m keep c =
      let observed = await_login w m in
      if_elim Inv (is_done_with_login w m.outside) _ _
        (λ done.
          ground
            (arith, keep SyncState.background m, keep SyncState.update_events_catch_up_phase_one m))
        (λ waits.
          if_elim Inv (w.is_self_user_complete observed.outside) _ _
            (λ complete. await_login-Inv m c)
            (λ incomplete. needs_self-Inv observed (await_login-Inv m c)))
  enter-Inv go SyncState.slow_sync_phase_one m keep c = ground (
    arith,
    did_start_slow_sync-SameState w w.all_transcoders m,
    tally-did_start_slow_sync w enters_session_background w.all_transcoders m (λ t. refl),
    tally-did_start_slow_sync w enters_session_foreground w.all_transcoders m (λ t. refl),
    tally-did_start_slow_sync w starts_timer w.all_transcoders m (λ t. refl),
    tally-did_start_slow_sync w cancels_timer w.all_transcoders m (λ t. refl),
  )
  enter-Inv go SyncState.update_events_catch_up_phase_one m keep c = ground (
    arith,
    keep SyncState.download_last_update_event_id
        (send w Command.start_downloading_missing_notifications (begin_catch_up w m)),
  )
  enter-Inv go SyncState.background_fetch m keep c =
      ground (arith, keep SyncState.pre_background (begin_fetch w m))
  enter-Inv go SyncState.pre_background m keep c = ground (arith, keep SyncState.background m)
  enter-Inv go _ m keep c = ground arith

  go_to_within-Inv :
      (n : ℕ) (s : SyncState) (m : Machine D)
      → depth w s ≤ n
      → Ready s m
      → Inv (go_to_within w n s m)
  unfolding go_to_within
  go_to_within-Inv zero s m h r = absurd (ground (arith, depth_pos w s))
  go_to_within-Inv (suc n) s m h r =
      enter-Inv (go_to_within w n) s (switch_to w s m)
        (λ t m' lt. go_to_within-Inv n t m' (omega arith)) (switch_to-Cleared s m r)

  pub go_to-Inv : (s : SyncState) (m : Machine D) → Ready s m → Inv (go_to w s m)
  unfolding go_to
  go_to-Inv s m = go_to_within-Inv 3 s m (depth_cap w s)

  -- A transition to any state but the two that own a handler.
  pub go_to_keeps :
      (s : SyncState) (m : Machine D)
      → is_background_fetch s ≡ false
      → is_background_task s ≡ false
      → Inv m
      → Inv (go_to w s m)
  go_to_keeps s m f t v = go_to-Inv s m (ground arith)
