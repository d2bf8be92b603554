-- ===== src/States/Handlers.antt =====
-- The completion handlers of background fetches and tasks, counted along the log.
mod Requests
mod Events
pub mod Starts
use zmessaging_cocoa.Base.{
  ℕ, zero, suc, ◌+◌, ◌<◌, Bool, false, Option, none, some, ◌≡◌, refl, arith, tally, if◌then◌else◌,
  ◌==◌, ◌∙◌, if_elim,
}
use zmessaging_cocoa.States.World.{SyncState, Command, World}
use zmessaging_cocoa.States.Machine.{Machine, send, start_login_timer}
use zmessaging_cocoa.States.Transitions.{go_to, enter}
use zmessaging_cocoa.States.Requests.{
  quick_sync_if_due, note_foreground, fetch_out_if_complete, task_out_if_complete,
}
use zmessaging_cocoa.States.Transitions.{
  Go, begin_fetch, begin_catch_up, switch_to, go_to_within, depth,
}
use zmessaging_cocoa.States.Machine.{leave}
use zmessaging_cocoa.States.Frame.{did_start_slow_sync-SameState, tally-did_start_slow_sync}

abbrev pub completes_fetch : ℕ → Command → Bool
completes_fetch h (Command.complete_fetch h' r) = h' == h
completes_fetch h _ = false

abbrev pub completes_task : ℕ → Command → Bool
completes_task h (Command.complete_task h' r) = h' == h
completes_task h _ = false

abbrev pub pending : ℕ → Option ℕ → ℕ
pending h none = 0
pending h (some h') = if h' == h then 1 else 0

module _ (h : ℕ) {D : Type 0} where
  -- How often the handler was called, and whether it still waits.
  abbrev pub owed_fetch : Machine D → ℕ
  owed_fetch m = tally (completes_fetch h) m.log + pending h m.fetch.handler

  abbrev pub owed_task : Machine D → ℕ
  owed_task m = tally (completes_task h) m.log + pending h m.task.handler

  record SameOwed (m n : Machine D) : Type 0 where
    same_fetch : owed_fetch m ≡ owed_fetch n
    same_task : owed_task m ≡ owed_task n

  -- Of a step relative to a start.
  SameOwed-trans : (l m n : Machine D) → SameOwed l m → SameOwed m n → SameOwed l n
  SameOwed-trans l m n p q = record {
    same_fetch = p.same_fetch ∙ q.same_fetch;
    same_task = p.same_task ∙ q.same_task;
  }

module _ (h : ℕ) {D : Type 0} (w : World D) where
  leave-SameOwed : (s : SyncState) (m : Machine D) → SameOwed h (leave w s m) m
  unfolding leave send tally
  leave-SameOwed SyncState.unauthenticated m = ground arith
  leave-SameOwed _ m = ground arith

  switch_to-SameOwed : (s : SyncState) (m : Machine D) → SameOwed h (switch_to w s m) m
  unfolding switch_to
  switch_to-SameOwed s m = ground (arith, leave-SameOwed m.current m)

  enter-SameOwed :
      (go : Go w) (s : SyncState) (m : Machine D)
      → ((t : SyncState) (m' : Machine D) → depth w t < depth w s → SameOwed h (go t m') m')
      → SameOwed h (enter w go s m) m
  unfolding enter send tally begin_fetch begin_catch_up start_login_timer
  enter-SameOwed go SyncState.unauthenticated m keep =
      ground (arith, keep SyncState.background m, keep SyncState.update_events_catch_up_phase_one m)
  enter-SameOwed go SyncState.slow_sync_phase_one m keep = ground (
    arith,
    did_start_slow_sync-SameState w w.all_transcoders m,
    tally-did_start_slow_sync w (completes_fetch h) w.all_transcoders m (λ t. refl),
    tally-did_start_slow_sync w (completes_task h) w.all_transcoders m (λ t. refl),
  )
  enter-SameOwed go SyncState.update_events_catch_up_phase_one m keep = ground (
    arith,
    keep SyncState.download_last_update_event_id
        (send w Command.start_downloading_missing_notifications (begin_catch_up w m)),
  )
  enter-SameOwed go SyncState.background_fetch m keep =
      ground (arith, keep SyncState.pre_background (begin_fetch w m))
  enter-SameOwed go SyncState.pre_background m keep = ground (arith, keep SyncState.background m)
  enter-SameOwed go _ m keep = ground arith

  go_to_within-SameOwed :
      (n : ℕ) (s : SyncState) (m : Machine D) → SameOwed h (go_to_within w n s m) m
  unfolding go_to_within
  go_to_within-SameOwed zero s m = ground arith
  go_to_within-SameOwed (suc n) s m =
      SameOwed-trans h _ _ _
        (enter-SameOwed (go_to_within w n) s (switch_to w s m)
          (λ t m' _. go_to_within-SameOwed n t m'))
        (switch_to-SameOwed s m)

  go_to-SameOwed : (s : SyncState) (m : Machine D) → SameOwed h (go_to w s m) m
  unfolding go_to
  go_to-SameOwed s m = go_to_within-SameOwed 3 s m

  -- `l` owes what `m` does.
  abbrev As : Machine D → Machine D → Type 0
  As m l = SameOwed h l m

  quick_sync_if_due-SameOwed : (m : Machine D) → SameOwed h (quick_sync_if_due w m) m
  unfolding quick_sync_if_due note_foreground
  quick_sync_if_due-SameOwed m =
      if_elim (As m) _ _ _
        (λ _.
          SameOwed-trans h _ _ _ (go_to-SameOwed SyncState.update_events_catch_up_phase_one _)
            noted)
        (λ _. noted)
    where
      noted : SameOwed h (note_foreground w m) m
      noted = ground arith

  fetch_out_if_complete-SameOwed : (m : Machine D) → SameOwed h (fetch_out_if_complete w m) m
  unfolding fetch_out_if_complete
  fetch_out_if_complete-SameOwed m = ground (arith, go_to-SameOwed SyncState.pre_background m)

  task_out_if_complete-SameOwed : (m : Machine D) → SameOwed h (task_out_if_complete w m) m
  unfolding task_out_if_complete
  task_out_if_complete-SameOwed m = ground (arith, go_to-SameOwed SyncState.pre_background m)
