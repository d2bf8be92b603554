-- ===== src/Syncs/Timed.antt =====
-- ZMTimedSingleRequestSync.m: a single request sync that becomes ready again every time interval.
-- A trigger holder is a number, live until it is invalidated; an interval is in milliseconds.
use zmessaging_cocoa.Base.{
  ℕ, suc, ◌+◌, ◌%◌, ◌<◌, Bool, true, false, not, ◌&&◌, Option, none, some, List, [], ◌∷◌, ◌≡◌, refl,
  arith, if◌then◌else◌, ltb,
}
use zmessaging_cocoa.States.World.{ResponseStatus}
use zmessaging_cocoa.Syncs.RemoteIdentifiers.{member, minus}
use zmessaging_cocoa.Syncs.Single as Single

pub record Timed : Type 0 where
  pub time_interval : ℕ
  pub should_return_request : Bool
  pub current_holder : Option ℕ
  pub is_invalidated : Bool
  pub live_holders : List ℕ
  pub next_holder : ℕ
  pub sync : Single.Sync

unfoldable pub ready : Timed → Timed
ready t = record t { sync = Single.ready_for_next_request t.sync }

-- `[self.currentHolder invalidate]`
unfoldable pub invalidate_holder : Timed → Timed
invalidate_holder t = record t {
  live_holders = elim t.current_holder [
    | none ↦ t.live_holders
    | some h ↦ minus t.live_holders (h ∷ [])
  ];
}

-- `setTimeInterval:`
unfoldable pub set_time_interval : ℕ → Timed → Timed
unfolding ready invalidate_holder
set_time_interval interval t =
    ready (record (invalidate_holder t) { time_interval = interval; should_return_request = true })

pub init : ℕ → Timed
unfolding set_time_interval ready
init interval =
    ready
      (record (set_time_interval interval (record {
        time_interval = 0;
        should_return_request = false;
        current_holder = none;
        is_invalidated = false;
        live_holders = [];
        next_holder = 0;
        sync = Single.init;
      })) { should_return_request = true })

-- The holder that the delayed block fires.
pub start_holder : Timed → Timed
start_holder t = record t {
  should_return_request = false;
  current_holder = some t.next_holder;
  live_holders = t.next_holder ∷ t.live_holders;
  next_holder = suc t.next_holder;
}

unfoldable pub next_request : Option ℕ → Timed → Option (ℕ × ℕ) × Timed
unfolding invalidate_holder start_holder
next_request answer t =
    let stopped = invalidate_holder t in
    let started = if ltb 0 stopped.time_interval then start_holder stopped else stopped in
    let (request, s) = Single.next_request answer started.sync in
    if t.should_return_request && not t.is_invalidated
    then (request, record started { sync = s })
    else (none, t)

-- The block of `timerDidExpire`.
pub timer_did_expire : Timed → Timed
unfolding ready
timer_did_expire t = ready (record t { current_holder = none; should_return_request = true })

-- `fireTrigger` of a holder: whether `timerDidExpire` is called.
unfoldable pub fires : ℕ → Timed → Bool
fires h t = member h t.live_holders

unfoldable pub invalidate : Timed → Timed
unfolding invalidate_holder
invalidate t = record (invalidate_holder t) { should_return_request = false; is_invalidated = true }

pub data Event : Type 0 where
  asks : Option ℕ → Event
  expires invalidates : Event
  sets : ℕ → Event
  responds : ℕ → ResponseStatus → Event

pub step : Timed → Event → Timed
unfolding next_request timer_did_expire invalidate set_time_interval
step t (Event.asks answer) = (next_request answer t).1
step t Event.expires = timer_did_expire t
step t Event.invalidates = invalidate t
step t (Event.sets interval) = set_time_interval interval t
step t (Event.responds start result) = record t {
  sync = (Single.process_response start result t.sync).1;
}

pub run : Timed → List Event → Timed
run t [] = t
run t (e ∷ es) = run (step t e) es

step_invalidated :
    (t : Timed) (e : Event) → t.is_invalidated ≡ true → (step t e).is_invalidated ≡ true
unfolding step
step_invalidated t (Event.asks answer) h = ground arith
step_invalidated t _ h = ground arith

run_invalidated :
    (t : Timed) (es : List Event) → t.is_invalidated ≡ true → (run t es).is_invalidated ≡ true
unfolding run
run_invalidated t [] h = h
run_invalidated t (e ∷ es) h = run_invalidated (step t e) es (step_invalidated t e h)

invalidate_sets : (t : Timed) → (invalidate t).is_invalidated ≡ true
unfolding invalidate
invalidate_sets t = refl

-- Once it is invalidated, the sync gives out no request, whatever happens after: timers that still
-- expire, responses, and new intervals included.
pub invalidated_silent :
    (t : Timed) (es : List Event) (answer : Option ℕ)
    → let after = run (invalidate t) es in next_request answer after ≡ (none, after)
unfolding next_request
invalidated_silent t es answer =
    ground (arith, run_invalidated (invalidate t) es (invalidate_sets t))

-- With a positive interval, a sync that may give out a request asks its single request sync once,
-- and then gives out none, unchanged, until the timer expires; then the next request goes out with
-- the next counter, whether or not a response has come.
pub timed_rhythm :
    (t : Timed) (r : ℕ) (first second : Option ℕ)
    → 0 < t.time_interval
    → t.should_return_request ≡ true
    → t.is_invalidated ≡ false
    → let waiting = (next_request first t).1 in
      (next_request second waiting ≡ (none, waiting))
      × ((next_request (some r) (timer_did_expire waiting)).0
          ≡ some (r, (waiting.sync.counter + 1) % Single.int_mod))
unfolding next_request timer_did_expire Single.next_request Single.ready_for_next_request
timed_rhythm t r first second h may valid = ground arith
