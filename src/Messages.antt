-- ===== src/Messages.antt =====
-- ZMMessageExpirationTimer.m in Source/Synchronization/Transcoders/Helper/: messages that could not be
-- sent in time expire. Messages are numbers, and `D` is what they, their context and the notification
-- dispatcher keep. Blocks on the context's queue run at once.
pub mod Laws
use zmessaging_cocoa.Base.{
  ℕ, suc, Bool, true, false, ◌&&◌, Option, none, some, List, [], ◌∷◌, if◌then◌else◌, ◌==◌, ltb,
  length, is_none,
}

-- What the data model library knows of messages.
pub record Messages (D : Type 0) : Type 0 where
  pub is_of_entity : ℕ → Bool
  pub will_expire : D → ℕ → Bool  -- predicateForMessagesThatWillExpire
  pub expiration_date : D → ℕ → Option ℕ
  pub is_zombie : D → ℕ → Bool
  pub is_delivered : D → ℕ → Bool
  pub expire : ℕ → D → D  -- expire, and a delayed save
  pub did_fail_to_send : ℕ → D → D  -- of the notification dispatcher

-- What was done to a message.
pub data Note : Type 0 where
  expired fired_at cancelled : ℕ → Note

pub record Timers (D : Type 0) : Type 0 where
  pub running : List (ℕ × ℕ)  -- objectToTimerMap, with the dates
  pub notes : List Note
  pub announced : ℕ
  pub tear_down_called : Bool
  pub outside : D

unfoldable pub timer_of : ℕ → List (ℕ × ℕ) → Option ℕ
timer_of x [] = none
timer_of x ((k, date) ∷ rest) = let found = timer_of x rest in if k == x then some date else found

unfoldable pub remove_timer : ℕ → List (ℕ × ℕ) → List (ℕ × ℕ)
remove_timer x [] = []
remove_timer x ((k, date) ∷ rest) =
    let others = remove_timer x rest in if k == x then others else (k, date) ∷ others

unfoldable pub init : {D : Type 0} → D → Timers D
init d = record { running = []; notes = []; announced = 0; tear_down_called = false; outside = d }

unfoldable pub has_timers_running : {D : Type 0} → Timers D → Bool
has_timers_running s = ltb 0 (length s.running)

unfoldable pub running_timers_count : {D : Type 0} → Timers D → ℕ
running_timers_count s = length s.running

module _ {D : Type 0} (m : Messages D) (filter : Option (D → ℕ → Bool)) where
  abbrev pub passes : D → ℕ → Bool
  passes d x = m.is_of_entity x && (elim filter [ none ↦ true | some f ↦ f d x ])

  abbrev expire_message : ℕ → Timers D → Timers D
  expire_message x s = record s { notes = expired x ∷ s.notes; outside = m.expire x s.outside }

  abbrev start_timer : ℕ → ℕ → Timers D → Timers D
  start_timer x date s = record s {
    running = (x, date) ∷ s.running;
    notes = fired_at date ∷ s.notes;
  }

  -- One round of the loop of `startTimerForObjects:`, at the date `now`.
  unfoldable pub start_for_message : ℕ → ℕ → Timers D → Timers D
  unfolding timer_of
  start_for_message now x s =
      if passes s.outside x
      then (elim (m.expiration_date s.outside x) [
        | none ↦ s
        | some date ↦
            if ltb date now
            then expire_message x s
            else if is_none (timer_of x s.running)
            then start_timer x date s
            else s
      ])
      else s

  unfoldable pub start_for_objects : ℕ → List ℕ → Timers D → Timers D
  unfolding start_for_message
  start_for_objects now [] s = s
  start_for_objects now (x ∷ xs) s = start_for_objects now xs (start_for_message now x s)

  -- `timerDidFire:`
  unfoldable pub timer_did_fire : ℕ → Timers D → Timers D
  unfolding remove_timer
  timer_did_fire x s =
      let removed = record s { running = remove_timer x s.running } in
      let failed = expire_message x removed in
      if m.is_zombie s.outside x
      then removed
      else if m.is_delivered s.outside x
      then removed
      else record failed {
        announced = suc s.announced;
        outside = m.did_fail_to_send x failed.outside;
      }

  unfoldable pub stop_timer : ℕ → Timers D → Timers D
  unfolding timer_of remove_timer
  stop_timer x s = elim (timer_of x s.running) [
    | none ↦ s
    | some date ↦ record s { running = remove_timer x s.running; notes = cancelled x ∷ s.notes }
  ]

  abbrev cancel_all : List (ℕ × ℕ) → List Note → List Note
  cancel_all [] notes = notes
  cancel_all ((x, date) ∷ rest) notes = cancel_all rest (cancelled x ∷ notes)

  unfoldable pub tear_down : Timers D → Timers D
  tear_down s = record s { notes = cancel_all s.running s.notes; tear_down_called = true }

-- ZMMessageExpirationTimer, as its header declares it.
pub record ExpirationTimer (D : Type 0) : Type 0 where
  pub has_message_timers_running : Timers D → Bool
  pub timers_count : Timers D → ℕ
  pub start : D → Timers D
  pub stop_timer_for_message : Messages D → Option (D → ℕ → Bool) → ℕ → Timers D → Timers D
  pub tear_down_all : Messages D → Option (D → ℕ → Bool) → Timers D → Timers D

abbrev pub expiration_timer : {D : Type 0} → ExpirationTimer D
expiration_timer = record {
  has_message_timers_running = has_timers_running;
  timers_count = running_timers_count;
  start = init;
  stop_timer_for_message = stop_timer;
  tear_down_all = tear_down;
}
