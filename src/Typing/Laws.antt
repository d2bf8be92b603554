-- ===== src/Typing/Laws.antt =====
-- ZMTyping.m and ZMTypingUsersTimeout.m: what is pruned, and when the timer is set anew.
use zmessaging_cocoa.Base.{
  ℕ, not, ◌&&◌, Option, none, some, is_some, if◌then◌else◌, List, [], ◌∷◌, ◌==◌, ◌≡◌, arith, refl,
  ==_iff, ==_refl,
}
use zmessaging_cocoa.Typing.Timeouts.{
  Entry, remove_user, contains_user, first_timeout, least_timeout, prune, still_in_time, timed_out,
}
use zmessaging_cocoa.Typing.Machine.{
  Typing, pruned_typing, init, timer_did_fire, update_expiration, notify_all,
}

contains-remove_user :
    (u c v d : ℕ) (es : List Entry)
    → contains_user v d (remove_user u c es) ≡ (contains_user v d es && not (u == v && c == d))
unfolding contains_user remove_user
contains-remove_user u c v d [] = ground arith
contains-remove_user u c v d (e ∷ es) = grind (
  arith,
  contains-remove_user u c v d es,
  ==_iff e.user u,
  ==_iff e.conversation c,
  ==_iff e.user v,
  ==_iff e.conversation d,
  ==_iff u v,
  ==_iff c d,
)

-- A timer that fires at exactly the first timeout prunes nothing, keeps everyone shown as typing,
-- and sets no timer again: of a status with one user typing in one conversation, whose timeout is
-- the timer's date and now.
pub exact_timeout_stuck :
    (now timer u c : ℕ) (t : Typing)
    → t.timeouts ≡ (record { user = u; conversation = c; timeout = now }) ∷ []
    → t.next_prune_date ≡ some now
    → t.expiration_timer ≡ some timer
    → timer_did_fire now timer t ≡ t
unfolding timer_did_fire pruned_typing prune still_in_time timed_out notify_all update_expiration
    first_timeout least_timeout
exact_timeout_stuck now timer u c t h k e = ground (arith, ==_refl now, ==_refl timer)

-- The date that a timer was set for, if it is the one that was set last.
abbrev pub set_for : Option ℕ → List (ℕ × ℕ) → Option ℕ
set_for none dates = none
set_for (some timer) [] = none
set_for (some timer) ((k, date) ∷ dates) = if k == timer then some date else none

-- There is a timer exactly if someone is typing, and it is the one that was set last, for the first
-- timeout.
pub record IsScheduled (t : Typing) : Type 0 where
  pub date : t.next_prune_date ≡ first_timeout t.timeouts
  pub timer : is_some t.expiration_timer ≡ is_some t.next_prune_date
  pub fires : set_for t.expiration_timer t.scheduled ≡ t.next_prune_date

-- What the notifications leave alone.
record SameTimers (t t' : Typing) : Type 0 where
  timeouts : t'.timeouts ≡ t.timeouts
  date : t'.next_prune_date ≡ t.next_prune_date
  timer : t'.expiration_timer ≡ t.expiration_timer
  scheduled : t'.scheduled ≡ t.scheduled

-- What a change of the timeouts leaves alone.
record Armed (t : Typing) : Type 0 where
  timer : is_some t.expiration_timer ≡ is_some t.next_prune_date
  fires : set_for t.expiration_timer t.scheduled ≡ t.next_prune_date

pub init-IsScheduled : IsScheduled init
unfolding first_timeout least_timeout
init-IsScheduled = record { date = refl; timer = refl; fires = refl }
