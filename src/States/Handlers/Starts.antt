-- ===== src/States/Handlers/Starts.antt =====
-- The starts of background fetches and tasks, against the calls of their completion handlers.
use zmessaging_cocoa.Base.{
  ℕ, ◌+◌, false, List, [], ◌∷◌, some, ◌≡◌, arith, tally, if◌then◌else◌, ◌==◌,
}
use zmessaging_cocoa.States.World.{SyncState, World}
use zmessaging_cocoa.States.Machine.{Machine, send}
use zmessaging_cocoa.States.Transitions.{go_to}
use zmessaging_cocoa.States.Invariant.{Inv}
use zmessaging_cocoa.States.Events.{
  Event, start_background_fetch, start_background_task, step, run, init, blank,
}
use zmessaging_cocoa.States.Handlers.{
  enter-SameOwed, go_to-SameOwed, owed_fetch, owed_task, pending, completes_fetch, completes_task,
}
use zmessaging_cocoa.States.Handlers.Requests.{next_request-SameOwed}
use zmessaging_cocoa.States.Invariant.Events.{step-Inv, init-Inv}
use zmessaging_cocoa.States.Handlers.Events.{
  data_did_change-SameOwed, did_enter_background-SameOwed, did_enter_foreground-SameOwed,
  did_fail_authentication-SameOwed, did_request_synchronization-SameOwed,
  fetch_timer_did_fire-SameOwed, task_timer_did_fire-SameOwed,
  did_change_authentication_data-SameOwed, complete-SameOwed,
}

-- Whether the event starts a fetch, or a task, with this handler.
abbrev pub starts_fetch : {D : Type 0} → ℕ → Event D → ℕ
starts_fetch h (Event.starts_fetch h') = if h' == h then 1 else 0
starts_fetch h _ = 0

abbrev pub starts_task : {D : Type 0} → ℕ → Event D → ℕ
starts_task h (Event.starts_task h') = if h' == h then 1 else 0
starts_task h _ = 0

-- How often a list of events starts one.
pub fetch_starts : {D : Type 0} → ℕ → List (Event D) → ℕ
fetch_starts h [] = 0
fetch_starts h (e ∷ es) = starts_fetch h e + fetch_starts h es

pub task_starts : {D : Type 0} → ℕ → List (Event D) → ℕ
task_starts h [] = 0
task_starts h (e ∷ es) = starts_task h e + task_starts h es

module _ (h : ℕ) {D : Type 0} (w : World D) where
  start_background_fetch-owed :
      (k : ℕ) (m : Machine D)
      → Inv m
      → (owed_fetch h (start_background_fetch w k m) ≡ pending h (some k) + owed_fetch h m)
        × (owed_task h (start_background_fetch w k m) ≡ owed_task h m)
  unfolding start_background_fetch send tally
  start_background_fetch-owed k m v = ground (
    arith,
    go_to-SameOwed h w SyncState.background_fetch
        (record m { fetch = record (m.fetch) { handler = some k } }),
  )

  start_background_task-owed :
      (k : ℕ) (m : Machine D)
      → Inv m
      → (owed_fetch h (start_background_task w k m) ≡ owed_fetch h m)
        × (owed_task h (start_background_task w k m) ≡ pending h (some k) + owed_task h m)
  unfolding start_background_task send tally
  start_background_task-owed k m v = ground (
    arith,
    go_to-SameOwed h w SyncState.background_task
        (record m { task = record (m.task) { handler = some k } }),
  )

  -- What an event adds to the calls and the waiting handlers is its start.
  record StepOwes (m : Machine D) (e : Event D) : Type 0 where
    fetch_owed : owed_fetch h (step w m e) ≡ starts_fetch h e + owed_fetch h m
    task_owed : owed_task h (step w m e) ≡ starts_task h e + owed_task h m

  step-StepOwes : (m : Machine D) (e : Event D) → Inv m → StepOwes m e
  unfolding step
  step-StepOwes m (Event.world_changes d) v = ground arith
  step-StepOwes m Event.data_changes v = ground (arith, data_did_change-SameOwed h w m.current m)
  step-StepOwes m Event.enters_background v =
      ground (arith, did_enter_background-SameOwed h w m.current m)
  step-StepOwes m Event.enters_foreground v =
      ground (arith, did_enter_foreground-SameOwed h w m.current m)
  step-StepOwes m Event.authentication_fails v =
      ground (arith, did_fail_authentication-SameOwed h w m.current m)
  step-StepOwes m Event.authentication_data_changes v =
      ground (arith, did_change_authentication_data-SameOwed h w m)
  step-StepOwes m Event.stream_interrupted v = ground (
    arith,
    did_request_synchronization-SameOwed h w m.current (record m { is_stream_active = false }),
  )
  step-StepOwes m Event.stream_established v = ground arith
  step-StepOwes m (Event.starts_fetch k) v = ground (arith, start_background_fetch-owed k m v)
  step-StepOwes m (Event.starts_task k) v = ground (arith, start_background_task-owed k m v)
  step-StepOwes m Event.asks_request v = ground (arith, next_request-SameOwed h w m)
  step-StepOwes m (Event.responds b r) v = ground (arith, complete-SameOwed h w b r m)
  step-StepOwes m (Event.fetch_timer_fires t) v =
      ground (arith, fetch_timer_did_fire-SameOwed h w t m)
  step-StepOwes m (Event.task_timer_fires t) v =
      ground (arith, task_timer_did_fire-SameOwed h w t m)
  step-StepOwes m (Event.login_timer_fires t) v = unfold send tally in ground arith

  run-owed :
      (m : Machine D) (es : List (Event D))
      → Inv m
      → (owed_fetch h (run w m es) ≡ fetch_starts h es + owed_fetch h m)
        × (owed_task h (run w m es) ≡ task_starts h es + owed_task h m)
  unfolding run fetch_starts task_starts
  run-owed m [] v = ground arith
  run-owed m (e ∷ es) v =
      ground (arith, step-StepOwes m e v, run-owed (step w m e) es (step-Inv w m e v))

  init-owed : (d : D) → (owed_fetch h (init w d) ≡ 0) × (owed_task h (init w d) ≡ 0)
  unfolding init tally
  init-owed d = ground (
    arith,
    enter-SameOwed h w (go_to w) SyncState.unauthenticated (blank w d)
        (λ t m _. go_to-SameOwed h w t m),
  )

  -- After any events since the session began, the completion handler `h` has been called exactly
  -- as often as a background fetch, respectively a background task, was started with it, except
  -- that a call is still due while the machine is in that state with `h` waiting.
  pub handlers_called_once :
      (d : D) (es : List (Event D))
      → let m = run w (init w d) es in
        (tally (completes_fetch h) m.log + pending h m.fetch.handler ≡ fetch_starts h es)
        × (tally (completes_task h) m.log + pending h m.task.handler ≡ task_starts h es)
  handlers_called_once d es = omega (arith, run-owed (init w d) es (init-Inv w d), init-owed d)
