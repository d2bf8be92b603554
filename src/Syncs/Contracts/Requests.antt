-- ===== src/Syncs/Contracts/Requests.antt =====
-- ZMSingleRequestSync.h and ZMTimedSingleRequestSync.h. The managed object context is left out; a
-- request is its number and the counter of its start.
use zmessaging_cocoa.Base.{
  ℕ, Bool, true, false, Option, none, some, is_some, [], ◌∷◌, ◌≡◌, ◌≢◌, refl, arith, ==_refl,
}
use zmessaging_cocoa.States.World.{ResponseStatus}
use zmessaging_cocoa.Syncs.Single as Single
use zmessaging_cocoa.Syncs.Timed as Timed
use zmessaging_cocoa.Syncs.RemoteIdentifiers.{member}
use zmessaging_cocoa.Syncs.RemoteIdentifiers.Sets.{member-minus}

-- What the sync asks of its transcoder, over the transcoder's states `T`: a request or none, and
-- what it does with a response that is passed on.
pub record SingleRequestTranscoder (T : Type 0) : Type 0 where
  pub request_for_single_request_sync : T → Option ℕ × T
  pub did_receive_response : ResponseStatus → T → T

-- ZMSingleRequestSync, over the sync's states `S`; the argument of `next_request` is the
-- transcoder's answer.
pub record SingleRequestSync (S : Type 0) : Type 0 where
  pub status : S → Single.Progress
  pub sync_with_single_request_transcoder : S
  pub ready_for_next_request : S → S
  pub ready_for_next_request_if_not_busy : S → S
  pub reset_completion_state : S → S
  pub next_request : Option ℕ → S → Option (ℕ × ℕ) × S

-- The laws of the interface.
pub record IsSingleRequestSync {S : Type 0} (o : SingleRequestSync S) : Type 0 where
  -- "Marks as need to request, even if it's already performing a request"
  pub needs_request :
      (r : ℕ) (s : S) → is_some (o.next_request (some r) (o.ready_for_next_request s)).0 ≡ true
  -- "Marks as need request, only if it's not requesting already"
  pub not_if_busy :
      (r : ℕ) (s : S)
      → let busy = (o.next_request (some r) (o.ready_for_next_request s)).1 in
        o.ready_for_next_request_if_not_busy busy ≡ busy
  -- "mark the completion as noted by the client, and goes back to the idle state"
  pub notes_completion :
      (s : S)
      → o.status s ≡ Single.Progress.completed
      → o.status (o.reset_completion_state s) ≡ Single.Progress.idle
  pub keeps_others :
      (s : S)
      → o.status s ≢ Single.Progress.completed
      → o.status (o.reset_completion_state s) ≡ o.status s
  -- A sync that is not marked asks for nothing.
  pub unmarked :
      (answer : Option ℕ) (s : S)
      → o.status s ≢ Single.Progress.in_progress
      → o.next_request answer s ≡ (none, s)

abbrev pub single_request_sync : SingleRequestSync Single.Sync
single_request_sync = record {
  status = λ s. s.status;
  sync_with_single_request_transcoder = Single.init;
  ready_for_next_request = Single.ready_for_next_request;
  ready_for_next_request_if_not_busy = Single.ready_for_next_request_if_not_busy;
  reset_completion_state = Single.reset_completion_state;
  next_request = Single.next_request;
}

-- The implementation in ZMSingleRequestSync.m keeps the laws of the interface: marking it gives a
-- request even while one is out, marking it if not busy changes nothing then, resetting turns
-- completed and no other status into idle, and unmarked it gives no request and stays as it is.
pub single_request_sync-IsSingleRequestSync : IsSingleRequestSync single_request_sync
unfolding Single.next_request Single.ready_for_next_request
    Single.ready_for_next_request_if_not_busy Single.reset_completion_state
single_request_sync-IsSingleRequestSync = record {
  needs_request = λ r s. refl;
  not_if_busy = λ r s. refl;
  notes_completion = λ s h. ground arith;
  keeps_others = λ s h. ground arith;
  unmarked = λ answer s h. ground arith;
}

-- ZMTimedSingleRequestSync; whether a timer with this number still fires is `is_live`.
pub record TimedRequestSync (S : Type 0) : Type 0 where
  pub time_interval : S → ℕ
  pub set_time_interval : ℕ → S → S
  pub every_time_interval : ℕ → S
  pub invalidate : S → S
  pub next_request : Option ℕ → S → Option (ℕ × ℕ) × S
  pub current_timer : S → Option ℕ
  pub is_live : ℕ → S → Bool

pub record IsTimedRequestSync {S : Type 0} (o : TimedRequestSync S) : Type 0 where
  -- "setting this stops the current timer"
  pub setting_stops :
      (i h : ℕ) (s : S) → o.current_timer s ≡ some h → o.is_live h (o.set_time_interval i s) ≡ false
  pub setting_sets : (i : ℕ) (s : S) → o.time_interval (o.set_time_interval i s) ≡ i
  -- "cancels the timer and stop returning requests"
  pub invalidate_cancels :
      (h : ℕ) (s : S) → o.current_timer s ≡ some h → o.is_live h (o.invalidate s) ≡ false
  pub invalidate_silences :
      (answer : Option ℕ) (s : S) → (o.next_request answer (o.invalidate s)).0 ≡ none

abbrev pub timed_request_sync : TimedRequestSync Timed.Timed
timed_request_sync = record {
  time_interval = λ s. s.time_interval;
  set_time_interval = Timed.set_time_interval;
  every_time_interval = Timed.init;
  invalidate = Timed.invalidate;
  next_request = Timed.next_request;
  current_timer = λ s. s.current_holder;
  is_live = Timed.fires;
}

-- The implementation in ZMTimedSingleRequestSync.m keeps the laws of the interface: setting the time
-- interval stops the timer that is running, and invalidating it does so too and gives no request.
pub timed_request_sync-IsTimedRequestSync : IsTimedRequestSync timed_request_sync
unfolding Timed.set_time_interval Timed.invalidate Timed.next_request Timed.fires
    Timed.invalidate_holder Timed.ready member
timed_request_sync-IsTimedRequestSync = record {
  setting_stops = λ i h s e. ground (arith, ==_refl h, member-minus h s.live_holders (h ∷ []));
  setting_sets = λ i s. refl;
  invalidate_cancels = λ h s e. ground (arith, ==_refl h, member-minus h s.live_holders (h ∷ []));
  invalidate_silences = λ answer s. ground arith;
}
