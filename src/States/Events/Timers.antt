-- ===== src/States/Events/Timers.antt =====
-- The start and the end by the clock of the background fetch and the background task.
use zmessaging_cocoa.Base.{ℕ, Bool, true, false, none, some, if◌then◌else◌, same?}
use zmessaging_cocoa.States.World.{SyncState, Command, World, FetchResult, TaskResult}
use zmessaging_cocoa.States.Machine.{
  Machine, send, cancel, mark_fetch_as_complete, mark_task_as_complete,
}
use zmessaging_cocoa.States.Transitions.{go_to}

abbrev pub supports_background_fetch : SyncState → Bool
supports_background_fetch SyncState.background = true
supports_background_fetch _ = false

module _ {D : Type 0} (w : World D) where
  -- `startBackgroundFetchWithCompletionHandler:`
  unfoldable pub start_background_fetch : ℕ → Machine D → Machine D
  start_background_fetch h m =
      if supports_background_fetch m.current
      then go_to w SyncState.background_fetch
          (record m { fetch = record (m.fetch) { handler = some h } })
      else send w (Command.complete_fetch h FetchResult.no_data) m

  -- `startBackgroundTaskWithCompletionHandler:`
  unfoldable pub start_background_task : ℕ → Machine D → Machine D
  start_background_task h m =
      if supports_background_fetch m.current
      then go_to w SyncState.background_task
          (record m { task = record (m.task) { handler = some h } })
      else send w (Command.complete_task h TaskResult.unavailable) m

  -- `timerDidFire:` of the background fetch state, once the timer is cancelled: a fetch that is
  -- still going on ends.
  unfoldable pub fetch_timed_out : SyncState → Machine D → Machine D
  fetch_timed_out SyncState.background_fetch m =
      mark_fetch_as_complete w (go_to w SyncState.pre_background m)
  fetch_timed_out _ m = m

  -- `[self.timer cancel]; self.timer = nil`
  unfoldable pub drop_fetch_timer : Machine D → Machine D
  unfolding cancel
  drop_fetch_timer m =
      let cancelled = cancel w m.fetch.timer m in
      record cancelled { fetch = record (cancelled.fetch) { timer = none } }

  -- `timerDidFire:` of the background fetch state.
  unfoldable pub fetch_timer_did_fire : ℕ → Machine D → Machine D
  fetch_timer_did_fire t m =
      if same? (some t) m.fetch.timer
      then (let m' = drop_fetch_timer m in fetch_timed_out m'.current m')
      else m

  unfoldable pub task_timed_out : SyncState → Machine D → Machine D
  task_timed_out SyncState.background_task m = mark_task_as_complete w (
      go_to w SyncState.pre_background
        (record m { task = record (m.task) { error_performing_task = true } }))
  task_timed_out _ m = m

  -- `[self.timer cancel]; self.timer = nil`
  unfoldable pub drop_task_timer : Machine D → Machine D
  unfolding cancel
  drop_task_timer m =
      let cancelled = cancel w m.task.timer m in
      record cancelled { task = record (cancelled.task) { timer = none } }

  -- `timerDidFire:` of the background task state.
  unfoldable pub task_timer_did_fire : ℕ → Machine D → Machine D
  task_timer_did_fire t m =
      if same? (some t) m.task.timer
      then (let m' = drop_task_timer m in task_timed_out m'.current m')
      else m
