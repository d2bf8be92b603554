-- ===== src/Conversations.antt =====
-- ZMIncompleteConversationsCache.m in Source/Synchronization/: which conversations miss messages, and
-- which of these are fetched now. Conversations are numbers; gaps and windows are the data model
-- library's ranges of events, `R`, and `D` is what conversations keep.
pub mod Laws
use zmessaging_cocoa.Base.{
  ℕ, Bool, true, false, not, ◌&&◌, Option, none, some, List, [], ◌∷◌, if◌then◌else◌, ◌==◌, length,
}
use zmessaging_cocoa.Syncs.RemoteIdentifiers.{member, union, minus, first}
use zmessaging_cocoa.Syncs.Modified.{intersect}

-- What the data model library knows of conversations.
pub record ConversationData (D R : Type 0) : Type 0 where
  pub is_conversation : ℕ → Bool
  pub gap : D → ℕ → Option R  -- lastEventIDGap
  pub gap_in_window : D → ℕ → Option R → Option R  -- lastEventIDGapForVisibleWindow:
  pub is_empty_range : R → Bool
  pub is_archived : D → ℕ → Bool
  pub is_blocked : D → ℕ → Bool  -- of the connected user
  pub sort : D → List ℕ → List ℕ  -- defaultSortDescriptors
  pub save_or_rollback : D → D

pub data Note : Type 0 where
  will_start_fetching did_finish_fetching : ℕ → Note
  new_requests_available : Note

pub record Cache (D R : Type 0) : Type 0 where
  pub to_fetch : List ℕ  -- an ordered set
  pub whitelisted : List ℕ
  pub windows : List (ℕ × R)
  pub torn_down : Bool
  pub notes : List Note
  pub outside : D

unfoldable pub init : {D R : Type 0} → D → Cache D R
init d = record {
  to_fetch = [];
  whitelisted = [];
  windows = [];
  torn_down = false;
  notes = [];
  outside = d;
}

module _ {R : Type 0} where
  unfoldable pub window_of : ℕ → List (ℕ × R) → Option R
  window_of c [] = none
  window_of c ((k, w) ∷ rest) = let found = window_of c rest in if k == c then some w else found

  unfoldable pub drop_window : ℕ → List (ℕ × R) → List (ℕ × R)
  drop_window c [] = []
  drop_window c ((k, w) ∷ rest) =
      let others = drop_window c rest in if k == c then others else (k, w) ∷ others

module _ {D R : Type 0} (d : ConversationData D R) where
  abbrev pub has_gap : Option R → Bool
  has_gap none = false
  has_gap (some r) = not (d.is_empty_range r)

  unfoldable pub add_tracked_objects : List ℕ → Cache D R → Cache D R
  add_tracked_objects [] s = s
  add_tracked_objects (c ∷ cs) s = add_tracked_objects cs (
      if has_gap (d.gap_in_window s.outside c none)
      then record s { to_fetch = union s.to_fetch (c ∷ []) }
      else s)

  abbrev fetched_normally : D → List ℕ → List ℕ
  fetched_normally o [] = []
  fetched_normally o (c ∷ cs) =
      let rest = fetched_normally o cs in
      if not (d.is_archived o c) && not (d.is_blocked o c) then c ∷ rest else rest

  -- `ConversationPriorityCount` is 5.
  unfoldable pub whitelist_top : Cache D R → Cache D R
  whitelist_top s =
      let saved = d.save_or_rollback s.outside in
      let sorted = d.sort saved s.to_fetch in
      elim s.to_fetch [
        | [] ↦ record s { outside = saved }
        | c ∷ cs ↦ record s {
          outside = saved;
          to_fetch = sorted;
          whitelisted = union s.whitelisted (first 5 (fetched_normally saved sorted));
        }
      ]

  unfoldable pub remove_conversation : ℕ → Cache D R → Cache D R
  remove_conversation c s = record s {
    to_fetch = minus s.to_fetch (c ∷ []);
    whitelisted = minus s.whitelisted (c ∷ []);
  }

  abbrev add_note : Note → Cache D R → Cache D R
  add_note n s = record s { notes = n ∷ s.notes }

  unfoldable pub move_to_top : ℕ → Cache D R → Cache D R
  move_to_top c s =
      add_note new_requests_available (record s { to_fetch = c ∷ minus s.to_fetch (c ∷ []) })

  -- `replaceOrAddCurrentlyWhitelistedConversationIfNeeded:`
  unfoldable pub replace_or_add : ℕ → Cache D R → Cache D R
  replace_or_add c s =
      let kept =
        if (length s.whitelisted == 1) && not (member c s.whitelisted) then [] else s.whitelisted in
      record s { whitelisted = union kept (c ∷ []) }

  abbrev not_now : ℕ → Cache D R → Cache D R
  not_now c s =
      add_note (did_finish_fetching c) (record s { whitelisted = minus s.whitelisted (c ∷ []) })

  abbrev pub has_gap_in_window : ℕ → Cache D R → Bool
  has_gap_in_window c s = elim (window_of c s.windows) [
    | none ↦ false
    | some w ↦ has_gap (d.gap_in_window s.outside c (some w))
  ]

  -- `processConversationWhitelistingAndFetching:`
  unfoldable pub process_conversation : ℕ → Cache D R → Cache D R
  unfolding remove_conversation move_to_top replace_or_add
  process_conversation c s =
      let added = record s { to_fetch = union s.to_fetch (c ∷ []) } in
      if has_gap (d.gap s.outside c)
      then (if has_gap_in_window c s
          then add_note (will_start_fetching c) (move_to_top c (replace_or_add c added))
          else not_now c added)
      else add_note (did_finish_fetching c) (remove_conversation c s)

  unfoldable pub objects_did_change : List ℕ → Cache D R → Cache D R
  unfolding process_conversation
  objects_did_change [] s = s
  objects_did_change (c ∷ cs) s =
      objects_did_change cs (if d.is_conversation c then process_conversation c s else s)

  -- `windowSizeChanged:`, with the window that the notification gives.
  unfoldable pub window_size_changed : ℕ → Option R → Cache D R → Cache D R
  unfolding process_conversation drop_window
  window_size_changed c window s = if s.torn_down then s else (elim window [
    | none ↦ record s {
      windows = drop_window c s.windows;
      whitelisted = minus s.whitelisted (c ∷ []);
    }
    | some w ↦ process_conversation c (record s { windows = (c, w) ∷ drop_window c s.windows })
  ])

  unfoldable pub gap_for_conversation : ℕ → Cache D R → Option R
  unfolding window_of
  gap_for_conversation c s =
      if member c s.whitelisted
      then d.gap_in_window s.outside c (window_of c s.windows)
      else d.gap s.outside c

  -- `fetchConversation:`
  unfoldable pub fetch_conversation : ℕ → Cache D R → Cache D R
  unfolding gap_for_conversation move_to_top replace_or_add remove_conversation
  fetch_conversation c s =
      if has_gap (gap_for_conversation c s)
      then move_to_top c (replace_or_add c s)
      else if member c s.to_fetch
      then remove_conversation c s
      else s

  unfoldable pub incomplete_not_whitelisted : Cache D R → List ℕ
  incomplete_not_whitelisted s = minus s.to_fetch s.whitelisted

  unfoldable pub incomplete_whitelisted : Cache D R → List ℕ
  incomplete_whitelisted s = intersect s.to_fetch s.whitelisted

  unfoldable pub tear_down : Cache D R → Cache D R
  tear_down s = record s { torn_down = true }

-- ZMIncompleteConversationsCache, as its header declares it.
pub record IncompleteConversations (D R : Type 0) : Type 0 where
  pub start : D → Cache D R
  pub whitelist_top_conversations : ConversationData D R → Cache D R → Cache D R
  pub non_whitelisted : ConversationData D R → Cache D R → List ℕ
  pub whitelisted_ones : ConversationData D R → Cache D R → List ℕ
  pub gap_for : ConversationData D R → ℕ → Cache D R → Option R
  pub tear_down_cache : ConversationData D R → Cache D R → Cache D R

abbrev pub incomplete_conversations : {D R : Type 0} → IncompleteConversations D R
incomplete_conversations = record {
  start = init;
  whitelist_top_conversations = whitelist_top;
  non_whitelisted = incomplete_not_whitelisted;
  whitelisted_ones = incomplete_whitelisted;
  gap_for = gap_for_conversation;
  tear_down_cache = tear_down;
}
