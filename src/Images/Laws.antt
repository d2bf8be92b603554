-- ===== src/Images/Laws.antt =====
-- ZMImagePreprocessingTracker.m: what a change of objects leaves.
use zmessaging_cocoa.Base.{
  ℕ, Bool, ◌&&◌, ◌||◌, is_some, List, [], ◌∷◌, ◌++◌, ◌≡◌, arith, refl, ==_iff,
}
use zmessaging_cocoa.Syncs.RemoteIdentifiers.{member}
use zmessaging_cocoa.Syncs.RemoteIdentifiers.Sets.{member-union, member-append}
use zmessaging_cocoa.Images.{
  Preprocessing, Tracker, operations_for, enqueue_owner, enqueue_owners, enqueue_all, add_owners,
  objects_did_change,
}

module _ {D : Type 0} (p : Preprocessing D) where
  -- The preprocessor makes operations of an owner always, or never.
  pub record Makes (y : ℕ) (has : Bool) : Type 0 where
    pub makes : (d : D) → is_some (p.operations d y) ≡ has

  operations_for-Makes :
      (y : ℕ) (has : Bool) (s : Tracker D)
      → Makes y has
      → is_some (operations_for p s y) ≡ (s.has_preprocessor && has)
  operations_for-Makes y has s h = ground (arith, h.makes s.outside)

  preprocessor-enqueue_owner :
      (x : ℕ) (s : Tracker D) → (enqueue_owner p x s).has_preprocessor ≡ s.has_preprocessor
  unfolding enqueue_owner
  preprocessor-enqueue_owner x s = ground arith

  being-enqueue_owner :
      (x y : ℕ) (s : Tracker D)
      → member y (enqueue_owner p x s).being
        ≡ (member y s.being || member y (x ∷ []) && is_some (operations_for p s y))
  unfolding enqueue_owner member
  being-enqueue_owner x y s = ground (arith, member-union y s.being (x ∷ []), ==_iff x y)

  being-enqueue_owners :
      (y : ℕ) (has : Bool) (xs : List ℕ) (s : Tracker D)
      → Makes y has
      → member y (enqueue_owners p xs s).being
        ≡ (member y s.being || member y xs && s.has_preprocessor && has)
  unfolding enqueue_owners member
  being-enqueue_owners y has [] s h = ground arith
  being-enqueue_owners y has (x ∷ xs) s h =
      let t : Tracker D = record s { needing = xs } in
      ground (
        arith,
        being-enqueue_owners y has xs (enqueue_owner p x t) h,
        being-enqueue_owner x y t,
        operations_for-Makes y has t h,
        preprocessor-enqueue_owner x t,
      )

  needing-enqueue_owner : (x : ℕ) (s : Tracker D) → (enqueue_owner p x s).needing ≡ s.needing
  unfolding enqueue_owner
  needing-enqueue_owner x s = ground arith

  needing-enqueue_owners :
      (xs : List ℕ) (s : Tracker D) → s.needing ≡ xs → (enqueue_owners p xs s).needing ≡ []
  unfolding enqueue_owners
  needing-enqueue_owners [] s h = h
  needing-enqueue_owners (x ∷ xs) s h =
      needing-enqueue_owners xs (enqueue_owner p x (record s { needing = xs }))
        (needing-enqueue_owner x (record s { needing = xs }))

  -- Whether a change of an owner makes the tracker ask for its operations.
  abbrev pub wanted : ℕ → Tracker D → Bool
  wanted y s = p.is_of_class y && p.needs_preprocessing s.outside y

  -- Adding owners changes nothing but who is to be preprocessed.
  being-add_owners : (xs : List ℕ) (s : Tracker D) → (add_owners p xs s).being ≡ s.being
  unfolding add_owners
  being-add_owners [] s = refl
  being-add_owners (x ∷ xs) s = ground (
    arith,
    being-add_owners xs s,
    being-add_owners xs (record s { needing = s.needing ++ x ∷ [] }),
  )

  preprocessor-add_owners :
      (xs : List ℕ) (s : Tracker D) → (add_owners p xs s).has_preprocessor ≡ s.has_preprocessor
  unfolding add_owners
  preprocessor-add_owners [] s = refl
  preprocessor-add_owners (x ∷ xs) s = ground (
    arith,
    preprocessor-add_owners xs s,
    preprocessor-add_owners xs (record s { needing = s.needing ++ x ∷ [] }),
  )

  needing-add_owners :
      (y : ℕ) (xs : List ℕ) (s : Tracker D)
      → (member y s.being || member y (add_owners p xs s).needing)
        ≡ (member y s.being || member y s.needing || member y xs && wanted y s)
  unfolding add_owners member
  needing-add_owners y [] s = ground arith
  needing-add_owners y (x ∷ xs) s = ground (
    arith,
    needing-add_owners y xs s,
    needing-add_owners y xs (record s { needing = s.needing ++ x ∷ [] }),
    ==_iff x y,
    member-append y s.needing (x ∷ []),
  )

  -- After a change of objects none waits. An owner for which the preprocessor always makes operations
  -- is being preprocessed exactly if it was, or it was waiting or has changed and is to be
  -- preprocessed, while there is a preprocessor; and one for which it never does exactly if it was.
  pub changed_owners :
      (y : ℕ) (has : Bool) (xs : List ℕ) (s : Tracker D)
      → Makes y has
      → let after = objects_did_change p xs s in
        (after.needing ≡ [])
        × (member y after.being ≡ (
            member y s.being
            || (member y s.needing || member y xs && wanted y s) && s.has_preprocessor && has))
  unfolding objects_did_change enqueue_all
  changed_owners y has xs s h =
      let t = add_owners p xs s in
      (
        needing-enqueue_owners t.needing t refl,
        ground (
          arith,
          being-enqueue_owners y has t.needing t h,
          being-add_owners xs s,
          preprocessor-add_owners xs s,
          needing-add_owners y xs s,
        ),
      )
