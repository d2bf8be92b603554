-- ===== src/Syncs/Modified/Set.antt =====
-- ZMLocallyModifiedObjectSet.m: the statuses of the objects with keys to be sent. The dictionary's
-- values are in the order of the list.
use zmessaging_cocoa.Base.{
  ℕ, suc, Bool, true, false, Option, none, some, List, [], ◌∷◌, if◌then◌else◌, ◌==◌,
}
use zmessaging_cocoa.Syncs.RemoteIdentifiers.{minus, is_empty}
use zmessaging_cocoa.Syncs.Modified.{
  Objects, SyncStatus, Token, keys_to_synchronize, status_is_done, new_status, start_keys,
  finish_keys, reset_keys,
}

-- ZMObjectWithKeys.
pub record ObjectWithKeys : Type 0 where
  pub object : ℕ
  pub keys_to_sync : List ℕ

-- ZMModifiedObjectSyncToken; the status may be missing, and with it its token.
pub record SetToken : Type 0 where
  pub status : Option (ℕ × Token)
  pub keys : List ℕ

pub record ModifiedSet (M : Type 0) : Type 0 where
  pub objects : M
  pub tracked_keys : Option (List ℕ)
  pub statuses : List (ℕ × SyncStatus)
  pub entries : List (ℕ × ℕ)
  pub next_status : ℕ

-- ZMLocallyModifiedObjectSet, over its states `S`.
pub record ModifiedObjectSet (S : Type 0) : Type 0 where
  pub tracked_keys : S → Option (List ℕ)
  pub add_possible_object_to_synchronize : ℕ → S → Option S
  pub any_object_to_synchronize : S → Option ObjectWithKeys × S
  pub did_start_synchronizing_keys : List ℕ → ObjectWithKeys → S → SetToken × S
  pub did_fail_to_synchronize_token : SetToken → S → S
  pub keys_to_parse_after_syncing_token : SetToken → S → List ℕ × S
  pub did_synchronize_token : SetToken → S → S
  pub did_not_finish_to_synchronize_token : SetToken → S → S
  pub has_outstanding_items : S → Bool

unfoldable pub entry : {A : Type 0} → ℕ → List (ℕ × A) → Option A
entry n [] = none
entry n ((k, a) ∷ rest) = let found = entry n rest in if k == n then some a else found

unfoldable pub drop_entry : ℕ → List (ℕ × ℕ) → List (ℕ × ℕ)
drop_entry n [] = []
drop_entry n ((k, a) ∷ rest) =
    let others = drop_entry n rest in if k == n then others else (k, a) ∷ others

unfoldable pub put_status : ℕ → SyncStatus → List (ℕ × SyncStatus) → List (ℕ × SyncStatus)
put_status n s [] = []
put_status n s ((k, a) ∷ rest) =
    let others = put_status n s rest in if k == n then (k, s) ∷ rest else (k, a) ∷ others

abbrev pub has_entries : List (ℕ × ℕ) → Bool
has_entries [] = false
has_entries (e ∷ es) = true

module _ {M : Type 0} (o : Objects M) where
  unfoldable pub remove_if_done : SyncStatus → ModifiedSet M → ModifiedSet M
  remove_if_done st s =
      if status_is_done o s.objects st
      then record s { entries = drop_entry st.object s.entries }
      else s

  abbrev keys_tracked : ModifiedSet M → ℕ → List ℕ
  keys_tracked s x = elim s.tracked_keys [ none ↦ o.tracked_keys s.objects x | some ks ↦ ks ]

  abbrev insert_status : ℕ → Option SyncStatus → ModifiedSet M → ModifiedSet M
  insert_status x none s = s
  insert_status x (some st) s = record s {
    statuses = (s.next_status, st) ∷ s.statuses;
    entries = (x, s.next_status) ∷ s.entries;
    next_status = suc s.next_status;
  }

  -- `addPossibleObjectToSynchronize:`; a new status needs keys to track.
  unfoldable pub add_possible_object : ℕ → ModifiedSet M → Option (ModifiedSet M)
  add_possible_object x s = elim (entry x s.entries) [
    | some n ↦ (elim (entry n s.statuses) [
      | none ↦ some s
      | some st ↦
          if status_is_done o s.objects st
          then some (record s { entries = drop_entry x s.entries })
          else some s
    ])
    | none ↦
        if is_empty (keys_tracked s x)
        then none
        else some (insert_status x (new_status o x (keys_tracked s x) s.objects) s)
  ]

  -- The loop over the dictionary's values, as they were when it began.
  unfoldable pub any_of : List (ℕ × ℕ) → ModifiedSet M → Option ObjectWithKeys × ModifiedSet M
  any_of [] s = (none, s)
  any_of ((x, n) ∷ rest) s = elim (entry n s.statuses) [
    | none ↦ any_of rest s
    | some st ↦
        let next = any_of rest (remove_if_done st s) in
        if is_empty (keys_to_synchronize o s.objects st) then next else (
          some (record { object = st.object; keys_to_sync = keys_to_synchronize o s.objects st }),
          s,
        )
  ]

  unfoldable pub any_object_to_sync : ModifiedSet M → Option ObjectWithKeys × ModifiedSet M
  any_object_to_sync s = any_of s.entries s

  abbrev started : ℕ → List ℕ → SyncStatus → ModifiedSet M → SetToken × ModifiedSet M
  started n keys st s =
      let (token, out) = start_keys o s.objects keys st in
      (
        record { status = some (n, token); keys = keys },
        record s { statuses = put_status n out s.statuses },
      )

  unfoldable pub did_start_keys : List ℕ → ObjectWithKeys → ModifiedSet M → SetToken × ModifiedSet M
  did_start_keys keys x s = elim (entry x.object s.entries) [
    | none ↦ (record { status = none; keys = keys }, s)
    | some n ↦ (elim (entry n s.statuses) [
      | none ↦ (record { status = none; keys = keys }, s)
      | some st ↦ started n keys st s
    ])
  ]

  abbrev reset_status : ℕ → Token → SyncStatus → ModifiedSet M → ModifiedSet M
  reset_status n t st s =
      let (ended, objects) = reset_keys o t st s.objects in
      remove_if_done ended
        (record s { statuses = put_status n ended s.statuses; objects = objects })

  -- `didSynchronizeToken:`; a missing status takes no messages.
  unfoldable pub did_synchronize : SetToken → ModifiedSet M → ModifiedSet M
  did_synchronize t s = elim t.status [
    | none ↦ s
    | some (n, token) ↦ (elim (entry n s.statuses) [
      | none ↦ s
      | some st ↦ reset_status n token st s
    ])
  ]

  -- `didFailToSynchronizeToken:` does the same.
  unfoldable pub did_fail_to_synchronize : SetToken → ModifiedSet M → ModifiedSet M
  unfolding did_synchronize
  did_fail_to_synchronize t s = did_synchronize t s

  abbrev finished : ℕ → Token → SyncStatus → ModifiedSet M → List ℕ × ModifiedSet M
  finished n t st s =
      let (changed, ended) = finish_keys o s.objects t st in
      (changed, record s { statuses = put_status n ended s.statuses })

  unfoldable pub return_changed : SetToken → ModifiedSet M → List ℕ × ModifiedSet M
  return_changed t s = elim t.status [
    | none ↦ ([], s)
    | some (n, token) ↦ (elim (entry n s.statuses) [
      | none ↦ ([], s)
      | some st ↦ finished n token st s
    ])
  ]

  unfoldable pub keys_to_parse : SetToken → ModifiedSet M → List ℕ × ModifiedSet M
  unfolding return_changed
  keys_to_parse t s = let (changed, after) = return_changed t s in (minus t.keys changed, after)

  unfoldable pub did_not_finish : SetToken → ModifiedSet M → ModifiedSet M
  unfolding return_changed
  did_not_finish t s = (return_changed t s).1

  abbrev pub modified_object_set : ModifiedObjectSet (ModifiedSet M)
  modified_object_set = record {
    tracked_keys = λ s. s.tracked_keys;
    add_possible_object_to_synchronize = add_possible_object;
    any_object_to_synchronize = any_object_to_sync;
    did_start_synchronizing_keys = did_start_keys;
    did_fail_to_synchronize_token = did_fail_to_synchronize;
    keys_to_parse_after_syncing_token = keys_to_parse;
    did_synchronize_token = did_synchronize;
    did_not_finish_to_synchronize_token = did_not_finish;
    has_outstanding_items = λ s. has_entries s.entries;
  }
