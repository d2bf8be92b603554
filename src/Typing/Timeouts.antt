-- ===== src/Typing/Timeouts.antt =====
-- ZMTypingUsersTimeout.m and ZMTypingUsers.m: the users who are typing, until when, by conversation.
-- Users and conversations are numbers, their permanent identifiers; dates are milliseconds, and the
-- dictionaries are association lists.
use zmessaging_cocoa.Base.{
  ℕ, Bool, true, false, ◌&&◌, Option, none, some, List, [], ◌∷◌, if◌then◌else◌, ◌==◌, ltb,
}
use zmessaging_cocoa.Syncs.RemoteIdentifiers.{union, is_empty}

-- ZMUserAndConversationKey with its timeout.
pub record Entry : Type 0 where
  pub user : ℕ
  pub conversation : ℕ
  pub timeout : ℕ

-- ZMTypingUsersTimeout, over its states `S`.
pub record TypingTimeouts (S : Type 0) : Type 0 where
  pub add_user : ℕ → ℕ → ℕ → S → S
  pub remove_user : ℕ → ℕ → S → S
  pub contains_user : ℕ → ℕ → S → Bool
  pub first_timeout : S → Option ℕ
  pub user_ids_in_conversation : ℕ → S → List ℕ
  pub prune_timed_out_after : ℕ → S → List ℕ × S

abbrev pub is_key : ℕ → ℕ → Entry → Bool
is_key u c e = e.user == u && e.conversation == c

unfoldable pub remove_user : ℕ → ℕ → List Entry → List Entry
remove_user u c [] = []
remove_user u c (e ∷ es) = let rest = remove_user u c es in if is_key u c e then rest else e ∷ rest

unfoldable pub add_user : ℕ → ℕ → ℕ → List Entry → List Entry
unfolding remove_user
add_user u c date es = (record { user = u; conversation = c; timeout = date }) ∷ remove_user u c es

unfoldable pub contains_user : ℕ → ℕ → List Entry → Bool
contains_user u c [] = false
contains_user u c (e ∷ es) = let rest = contains_user u c es in if is_key u c e then true else rest

abbrev pub earlier : Option ℕ → ℕ → Option ℕ
earlier none date = some date
earlier (some least) date = if ltb date least then some date else some least

unfoldable pub least_timeout : Option ℕ → List Entry → Option ℕ
least_timeout found [] = found
least_timeout found (e ∷ es) = least_timeout (earlier found e.timeout) es

unfoldable pub first_timeout : List Entry → Option ℕ
unfolding least_timeout
first_timeout es = least_timeout none es

unfoldable pub users_in : ℕ → List Entry → List ℕ
users_in c [] = []
users_in c (e ∷ es) =
    let rest = users_in c es in if e.conversation == c then union (e.user ∷ []) rest else rest

unfoldable pub timed_out : ℕ → List Entry → List ℕ
timed_out date [] = []
timed_out date (e ∷ es) =
    let rest = timed_out date es in
    if ltb e.timeout date then union (e.conversation ∷ []) rest else rest

unfoldable pub still_in_time : ℕ → List Entry → List Entry
still_in_time date [] = []
still_in_time date (e ∷ es) =
    let rest = still_in_time date es in if ltb e.timeout date then rest else e ∷ rest

unfoldable pub prune : ℕ → List Entry → List ℕ × List Entry
unfolding timed_out still_in_time
prune date es = (timed_out date es, still_in_time date es)

abbrev pub typing_timeouts : TypingTimeouts (List Entry)
typing_timeouts = record {
  add_user = add_user;
  remove_user = remove_user;
  contains_user = contains_user;
  first_timeout = first_timeout;
  user_ids_in_conversation = users_in;
  prune_timed_out_after = prune;
}

-- ZMTypingUsers: the users that are shown, by conversation.
abbrev pub Shown : Type 0
Shown = List (ℕ × List ℕ)

unfoldable pub hide : ℕ → Shown → Shown
hide c [] = []
hide c ((k, us) ∷ rest) = let others = hide c rest in if k == c then others else (k, us) ∷ others

-- `updateTypingUsersWithNotification:`
unfoldable pub update_typing_users : ℕ → List ℕ → Shown → Shown
unfolding hide
update_typing_users c users shown =
    if is_empty users then hide c shown else (c, users) ∷ hide c shown

unfoldable pub typing_users_in : ℕ → Shown → List ℕ
typing_users_in c [] = []
typing_users_in c ((k, us) ∷ rest) =
    let others = typing_users_in c rest in if k == c then us else others

-- The interface of ZMTypingUsers, over its states `S`.
pub record TypingUsers (S : Type 0) : Type 0 where
  pub update_typing_users_with_notification : ℕ → List ℕ → S → S
  pub typing_users_in_conversation : ℕ → S → List ℕ

abbrev pub typing_users : TypingUsers Shown
typing_users = record {
  update_typing_users_with_notification = update_typing_users;
  typing_users_in_conversation = typing_users_in;
}
