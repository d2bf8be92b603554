-- ===== src/HotFix.antt =====
-- ZMHotFix.m and ZMHotFixDirectory.m in Source/Synchronization/: patches of the stored data, run when
-- the version changed. A text is the list of its characters. `address` is the platform's: where the
-- number object stands that boxes the integer of a text, by the number of the version that it is
-- made for and its index there, since two number objects for one integer need not be the same.
pub mod Versions
pub mod Laws
use zmessaging_cocoa.Base.{
  ℕ, suc, ◌+◌, length, Bool, true, false, Option, none, some, List, [], ◌∷◌, if◌then◌else◌,
}
use zmessaging_cocoa.HotFix.Versions.{
  Text, Version, Comparison, Versioning, version_of, compare_with,
}

-- ZMHotFixPatch, over the stored data `D`.
pub record Patch (D : Type 0) : Type 0 where
  pub version : Text
  pub code : Option (D → D)

-- The patch methods of ZMHotFixDirectory; some are in the data model's and the Swift code's hands.
pub record Fixes (D : Type 0) : Type 0 where
  pub update_last_read : D → D
  pub delete_connection_messages : D → D
  pub reset_push_tokens : D → D
  pub remove_sharing_extension : D → D
  pub move_signaling_keys : D → D
  pub update_uploaded_state : D → D
  pub insert_new_conversation_message : D → D
  pub update_system_messages : D → D

-- `patchWithVersion:patchCode:`
unfoldable pub patch_with : {D : Type 0} → Text → (D → D) → Patch D
patch_with version code = record { version = version; code = some code }

-- `patches` of the directory.
unfoldable pub patches : {D : Type 0} → Fixes D → List (Patch D)
unfolding patch_with
patches f =
    patch_with (b'3' ∷ b'3' ∷ b'.' ∷ b'1' ∷ []) f.update_last_read
    ∷ patch_with (b'3' ∷ b'8' ∷ b'.' ∷ b'5' ∷ b'8' ∷ []) f.delete_connection_messages
    ∷ patch_with (b'4' ∷ b'0' ∷ b'.' ∷ b'4' ∷ []) f.reset_push_tokens
    ∷ patch_with (b'4' ∷ b'0' ∷ b'.' ∷ b'2' ∷ b'3' ∷ []) f.remove_sharing_extension
    ∷ patch_with (b'4' ∷ b'1' ∷ b'.' ∷ b'4' ∷ b'3' ∷ []) f.move_signaling_keys
    ∷ patch_with (b'4' ∷ b'2' ∷ b'.' ∷ b'1' ∷ b'1' ∷ []) f.update_uploaded_state
    ∷ patch_with (b'4' ∷ b'5' ∷ b'.' ∷ b'0' ∷ b'.' ∷ b'1' ∷ []) f.insert_new_conversation_message
    ∷ patch_with (b'4' ∷ b'5' ∷ b'.' ∷ b'1' ∷ []) f.update_system_messages
    ∷ []

-- ZMHotFixDirectory.
pub record Directory (D : Type 0) : Type 0 where
  pub patches_of : List (Patch D)

-- The metadata of the persistent store, its data, and how often new requests were announced.
pub record Store (D : Type 0) : Type 0 where
  pub skips_hot_fixes : Bool  -- ZMSkipHotfix
  pub last_saved_version : Option Text
  pub stored : D
  pub announced : ℕ
  pub versions_made : ℕ  -- how often a ZMVersion was made

module _ {D : Type 0} (address : ℕ → ℕ → Text → ℕ) (save_or_rollback : D → D)
    (directory : Directory D) where
  -- A patch is due if no version was saved, or it is later than the saved one. Its version is made
  -- as the one with the number `n`.
  abbrev is_due : ℕ → Option Version → Patch D → Bool
  is_due n none p = true
  is_due n (some v) p = elim (compare_with (version_of (address n) p.version) (some v)) [
    | Comparison.descending ↦ true
    | Comparison.same ↦ false
    | Comparison.ascending ↦ false
  ]

  abbrev run_code : Option (D → D) → D → D
  run_code none d = d
  run_code (some f) d = f d

  -- `applyFixesSinceVersion:`
  unfoldable pub apply_fixes : ℕ → Option Version → List (Patch D) → D → D
  unfolding compare_with version_of
  apply_fixes n v [] d = d
  apply_fixes n v (p ∷ ps) d =
      apply_fixes (suc n) v ps (if is_due n v p then run_code p.code d else d)

  -- `lastSavedVersion`
  abbrev saved_version : Store D → Option Version
  saved_version s = elim s.last_saved_version [
    | none ↦ none
    | some t ↦ some (version_of (address s.versions_made) t)
  ]

  abbrev fixed : Text → Store D → Store D
  fixed current s = record s {
    last_saved_version = some current;
    stored =
        save_or_rollback
          (apply_fixes (2 + s.versions_made) (saved_version s) directory.patches_of s.stored);
    announced = suc s.announced;
    versions_made = 2 + s.versions_made + length directory.patches_of;
  }

  -- `applyPatchesForCurrentVersion:`
  unfoldable pub apply_for_version : Text → Store D → Store D
  unfolding apply_fixes compare_with version_of
  apply_for_version [] s = s
  apply_for_version (c ∷ cs) s =
      elim (compare_with (version_of (address (suc s.versions_made)) (c ∷ cs)) (saved_version s)) [
        | Comparison.same ↦ record s { versions_made = 2 + s.versions_made }
        | Comparison.ascending ↦ fixed (c ∷ cs) s
        | Comparison.descending ↦ fixed (c ∷ cs) s
      ]

  -- `applyPatches`, of the version in the bundle.
  unfoldable pub apply_patches : Text → Store D → Store D
  unfolding apply_for_version
  apply_patches current s = if s.skips_hot_fixes then s else apply_for_version current s

-- ZMHotFix, as its header declares it, with its category for tests.
pub record HotFixes (D : Type 0) : Type 0 where
  pub versioning : Versioning
  pub start_and_apply : Fixes D → Text → Store D → Store D
  pub start_with_directory_and_apply : Directory D → Text → Store D → Store D
  pub apply_for_current_version : Directory D → Text → Store D → Store D

abbrev pub hot_fixes : {D : Type 0} → (ℕ → ℕ → Text → ℕ) → (D → D) → HotFixes D
hot_fixes address save = record {
  versioning = Versions.versioning;
  start_and_apply = λ f. apply_patches address save (record { patches_of = patches f });
  start_with_directory_and_apply = apply_patches address save;
  apply_for_current_version = apply_for_version address save;
}
