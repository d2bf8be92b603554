-- ===== src/HotFix/Laws.antt =====
-- ZMHotFix.m: patches are not run again for the same version.
use zmessaging_cocoa.Base.{
  ℕ, true, false, suc, some, List, [], ◌∷◌, ◌≡◌, ◌==◌, refl, arith, if_elim, inl, inr, ◌∙◌, ◌⊎◌,
  zero,
}
use zmessaging_cocoa.Syncs.RemoteIdentifiers.{is_empty}
use zmessaging_cocoa.HotFix.Versions.{
  Text, Comparison, equal_text, components, version_of, put_first, boxed, compare_with,
}
use zmessaging_cocoa.HotFix.{Directory, Store, apply_for_version}

equal_text_refl : (t : Text) → equal_text t t ≡ true
equal_text_refl [] = refl
equal_text_refl (c ∷ cs) = ground (arith, equal_text_refl cs)

same_text :
    (numbers others : List ℕ) (t : Text)
    → is_empty others ≡ false
    → compare_with
        (record { array_representation = numbers; version_string = t })
        (some (record { array_representation = others; version_string = t }))
      ≡ Comparison.same
unfolding compare_with
same_text numbers [] t h = ground arith
same_text numbers (n ∷ ns) t h = ground (arith, equal_text_refl t)

nonempty_put_first :
    (address : ℕ → Text → ℕ) (i c : ℕ) (ws : List Text)
    → is_empty (boxed address i (put_first c ws)) ≡ false
unfolding boxed
nonempty_put_first address i c [] = refl
nonempty_put_first address i c (w ∷ ws) = refl

nonempty_components :
    (address : ℕ → Text → ℕ) (t : Text) → is_empty (boxed address 0 (components t)) ≡ false
unfolding components boxed
nonempty_components address [] = refl
nonempty_components address (c ∷ cs) =
    if_elim (λ ws. is_empty (boxed address 0 ws) ≡ false) (c == b'.') ([] ∷ components cs)
      (put_first c (components cs)) (λ dot. refl)
      (λ other. nonempty_put_first address 0 c (components cs))

-- Versions of one text are the same, whatever their number objects.
compare_text :
    (address address' : ℕ → Text → ℕ) (t : Text)
    → compare_with (version_of address t) (some (version_of address' t)) ≡ Comparison.same
unfolding version_of
compare_text address address' t =
    same_text (boxed address 0 (components t)) (boxed address' 0 (components t)) t
      (nonempty_components address' t)

-- What the metadata of the store have, its data, and the announcements.
pub record SameStore {D : Type 0} (s t : Store D) : Type 0 where
  pub last_saved_version : t.last_saved_version ≡ s.last_saved_version
  pub stored : t.stored ≡ s.stored
  pub announced : t.announced ≡ s.announced

module _ {D : Type 0} (address : ℕ → ℕ → Text → ℕ) (save : D → D) (directory : Directory D) where
  -- Starting the app again and again in the same version.
  pub apply_times : ℕ → Text → Store D → Store D
  apply_times zero current s = s
  apply_times (suc n) current s =
      apply_times n current (apply_for_version address save directory current s)

  saved_again :
      (current : Text) (s : Store D)
      → s.last_saved_version ≡ some current
      → SameStore s (apply_for_version address save directory current s)
  unfolding apply_for_version
  saved_again [] s h = record { last_saved_version = refl; stored = refl; announced = refl }
  saved_again (c ∷ cs) s h =
      let same = compare_text (address (suc s.versions_made)) (address s.versions_made) (c ∷ cs) in
      rw h (
        rw (apply_for_version, same)
          (record { last_saved_version = refl; stored = refl; announced = refl }))

  saved_times :
      (n : ℕ) (current : Text) (s : Store D)
      → s.last_saved_version ≡ some current
      → SameStore s (apply_times n current s)
  unfolding apply_times
  saved_times zero current s h = record {
    last_saved_version = refl;
    stored = refl;
    announced = refl;
  }
  saved_times (suc n) current s h =
      let t = apply_for_version address save directory current s in
      let first = saved_again current s h in
      let rest = saved_times n current t (first.last_saved_version ∙ h) in
      record {
        last_saved_version = rest.last_saved_version ∙ first.last_saved_version;
        stored = rest.stored ∙ first.stored;
        announced = rest.announced ∙ first.announced;
      }

  -- What an application of patches does if it does anything.
  pub record HasRun (current : Text) (s t : Store D) : Type 0 where
    pub saved : t.last_saved_version ≡ some current
    pub announced : t.announced ≡ suc s.announced

  applied_or_not :
      (current : Text) (s : Store D)
      → let t = apply_for_version address save directory current s in
        SameStore s t ⊎ HasRun current s t
  unfolding apply_for_version
  applied_or_not [] s = inl (record { last_saved_version = refl; stored = refl; announced = refl })
  applied_or_not (c ∷ cs) s = ground arith

  -- Applying the patches for a version does nothing to the stored data and versions, or it saves that
  -- version and announces requests once; then applying them for the same version as often as one
  -- likes does nothing more, whatever was saved before and whichever objects stand for numbers.
  pub applied_once :
      (n : ℕ) (current : Text) (s : Store D)
      → let once = apply_for_version address save directory current s in
        SameStore s once ⊎ (HasRun current s once × SameStore once (apply_times n current once))
  applied_once n current s = elim (applied_or_not current s) [
    | inl same ↦ inl same
    | inr applied ↦ inr (applied, saved_times n current _ applied.saved)
  ]
