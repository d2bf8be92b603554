-- ===== src/Typing/Machine.antt =====
-- ZMTyping.m: typing that is told, shown and timed out. The shown users are updated at once, as the
-- grouped blocks would; a notification is its conversation with the users. A timer is its number.
use zmessaging_cocoa.Base.{
  ℕ, suc, ◌+◌, Bool, true, false, not, Option, none, some, List, [], ◌∷◌, if◌then◌else◌, same?,
}
use zmessaging_cocoa.Typing.Timeouts.{
  Entry, Shown, add_user, remove_user, contains_user, first_timeout, users_in, prune,
  update_typing_users,
}

-- ZMTypingChangeNotification.
pub record TypingNote : Type 0 where
  pub conversation : ℕ
  pub typing_users : List ℕ

pub record Typing : Type 0 where
  pub timeout : ℕ
  pub timeouts : List Entry
  pub shown : Shown
  pub expiration_timer : Option ℕ
  pub next_prune_date : Option ℕ
  pub next_timer : ℕ
  pub scheduled : List (ℕ × ℕ)  -- timers with the dates they were set for, newest first
  pub notes : List TypingNote

-- ZMTyping, over its states `S`; a call gets the time.
pub record TypingCalls (S : Type 0) : Type 0 where
  pub timeout : S → ℕ
  pub typing : S
  pub set_is_typing : ℕ → Bool → ℕ → ℕ → S → S
  pub tear_down : S → S

abbrev pub default_timeout : ℕ
default_timeout = 60000

abbrev pub init : Typing
init = record {
  timeout = default_timeout;
  timeouts = [];
  shown = [];
  expiration_timer = none;
  next_prune_date = none;
  next_timer = 0;
  scheduled = [];
  notes = [];
}

unfoldable pub send_notification : ℕ → Typing → Typing
send_notification c t =
    let users = users_in c t.timeouts in
    record t {
      shown = update_typing_users c users t.shown;
      notes = (record { conversation = c; typing_users = users }) ∷ t.notes;
    }

abbrev schedule : Option ℕ → Typing → Typing
schedule none t = record t { expiration_timer = none; next_prune_date = none }
schedule (some date) t = record t {
  expiration_timer = some t.next_timer;
  next_prune_date = some date;
  next_timer = suc t.next_timer;
  scheduled = (t.next_timer, date) ∷ t.scheduled;
}

-- `updateExpirationWithDate:`
unfoldable pub update_expiration : Option ℕ → Typing → Typing
update_expiration date t = if same? date t.next_prune_date then t else schedule date t

abbrev added : ℕ → Bool → ℕ → ℕ → Typing → Typing
added now is_typing u c t =
    if is_typing then record t { timeouts = add_user u c (now + t.timeout) t.timeouts } else t

abbrev removed : Bool → ℕ → ℕ → Typing → Typing
removed is_typing u c t =
    if is_typing then t else record t { timeouts = remove_user u c t.timeouts }

-- `==` of two truth values.
abbrev same_truth : Bool → Bool → Bool
same_truth true b = b
same_truth false b = not b

-- `setIsTyping:forUser:inConversation:` up to the timer, at the time `now`.
unfoldable pub told_typing : ℕ → Bool → ℕ → ℕ → Typing → Typing
unfolding send_notification
told_typing now is_typing u c t =
    let was_typing = contains_user u c t.timeouts in
    let first = added now is_typing u c t in
    if same_truth was_typing is_typing
    then first
    else send_notification c (removed is_typing u c first)

unfoldable pub set_is_typing : ℕ → Bool → ℕ → ℕ → Typing → Typing
unfolding told_typing update_expiration
set_is_typing now is_typing u c t =
    let told = told_typing now is_typing u c t in
    update_expiration (first_timeout told.timeouts) told

unfoldable pub notify_all : List ℕ → Typing → Typing
notify_all [] t = t
notify_all (c ∷ cs) t = notify_all cs (send_notification c t)

-- Pruning and its notifications.
unfoldable pub pruned_typing : ℕ → Typing → Typing
unfolding notify_all
pruned_typing now t =
    let (conversations, left) = prune now t.timeouts in
    notify_all conversations (record t { timeouts = left })

-- The block of `timerDidFire:`, for the timer with the number `timer`.
unfoldable pub timer_did_fire : ℕ → ℕ → Typing → Typing
unfolding update_expiration pruned_typing
timer_did_fire now timer t =
    let told = pruned_typing now t in
    let done = update_expiration (first_timeout told.timeouts) told in
    if same? (some timer) t.expiration_timer then done else t

unfoldable pub tear_down : Typing → Typing
tear_down t = record t { expiration_timer = none }

abbrev pub typing_calls : TypingCalls Typing
typing_calls = record {
  timeout = λ t. t.timeout;
  typing = init;
  set_is_typing = set_is_typing;
  tear_down = tear_down;
}

-- What reaches the object: calls, and timers that fire, each with its time.
pub data Event : Type 0 where
  sets : ℕ → Bool → ℕ → ℕ → Event
  fires : ℕ → ℕ → Event

unfoldable pub step : Typing → Event → Typing
unfolding set_is_typing timer_did_fire
step t (Event.sets now is_typing u c) = set_is_typing now is_typing u c t
step t (Event.fires now timer) = timer_did_fire now timer t

unfoldable pub run : Typing → List Event → Typing
run t [] = t
run t (e ∷ es) = run (step t e) es
