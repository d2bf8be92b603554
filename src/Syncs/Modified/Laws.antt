-- ===== src/Syncs/Modified/Laws.antt =====
-- ZMLocallyModifiedObjectSyncStatus.m: a round of sending keys of one object.
use zmessaging_cocoa.Base.{ℕ, not, ◌&&◌, Option, List, [], ◌∷◌, same?, ◌≡◌, arith, refl, ==_iff}
use zmessaging_cocoa.Syncs.RemoteIdentifiers.{member, union, minus}
use zmessaging_cocoa.Syncs.RemoteIdentifiers.Sets.{member-minus, member-union}
use zmessaging_cocoa.Syncs.Modified.{
  Objects, IsObjects, SyncStatus, keys_to_synchronize, start_keys, finish_keys, reset_keys,
  intersect, token_keys, values_at, new_values,
}

pub member-intersect :
    (a : ℕ) (xs ys : List ℕ) → member a (intersect xs ys) ≡ (member a xs && member a ys)
unfolding intersect member
member-intersect a [] ys = refl
member-intersect a (x ∷ xs) ys = grind (arith, member-intersect a xs ys, ==_iff x a)

token_keys-values_at : (value : ℕ → Option ℕ) (ks : List ℕ) → token_keys (values_at value ks) ≡ ks
unfolding token_keys values_at
token_keys-values_at value [] = refl
token_keys-values_at value (k ∷ ks) = ground (arith, token_keys-values_at value ks)

-- The keys whose value is another one.
member-new_values :
    (before after : ℕ → Option ℕ) (a : ℕ) (ks : List ℕ)
    → member a (new_values after (values_at before ks))
      ≡ (member a ks && not (same? (after a) (before a)))
unfolding new_values values_at member
member-new_values before after a [] = refl
member-new_values before after a (k ∷ ks) =
    grind (arith, member-new_values before after a ks, ==_iff k a)

module _ {M : Type 0} (o : Objects M) where
  -- Keys that are being sent are not offered, and whatever else is offered stays so; when the
  -- sending ends without success, the keys whose value has changed since are reported, and exactly
  -- the keys that are tracked, modified and not under way otherwise are offered.
  pub sent_keys_wait :
      (s : SyncStatus) (ks : List ℕ) (k : ℕ) (m later : M)
      → let (token, out) = start_keys o m ks s in
        let (changed, ended) = finish_keys o later token out in
        (member k (keys_to_synchronize o m out)
          ≡ (member k (keys_to_synchronize o m s) && not (member k ks)))
        × (member k changed
            ≡ (member k ks && not (same? (o.value later s.object k) (o.value m s.object k))))
        × (member k (keys_to_synchronize o later ended) ≡ (
            member k s.tracked
            && member k (o.modified later s.object)
            && not (member k s.in_progress && not (member k ks))))
  unfolding start_keys finish_keys keys_to_synchronize
  sent_keys_wait s ks k m later = ground (
    arith,
    token_keys-values_at (o.value m s.object) ks,
    member-new_values (o.value m s.object) (o.value later s.object) k ks,
    member-union k s.in_progress ks,
    member-minus k (union s.in_progress ks) ks,
    member-intersect k s.tracked (o.modified m s.object),
    member-intersect k s.tracked (o.modified later s.object),
    member-minus k (intersect s.tracked (o.modified m s.object)) s.in_progress,
    member-minus k (intersect s.tracked (o.modified m s.object)) (union s.in_progress ks),
    member-minus k (intersect s.tracked (o.modified later s.object))
        (minus (union s.in_progress ks) ks),
  )

  -- With objects whose keys are reset as the library documents, the keys that were sent and reset
  -- are not offered again, and the others of the status are offered as if these were not modified.
  pub reset_keys_done :
      IsObjects o
      → (s : SyncStatus) (ks : List ℕ) (k : ℕ) (m later : M)
      → let (token, out) = start_keys o m ks s in
        let (ended, m') = reset_keys o token out later in
        member k (keys_to_synchronize o m' ended) ≡ (
          member k s.tracked
          && member k (o.modified later s.object)
          && not (member k ks)
          && not (member k s.in_progress && not (member k ks)))
  unfolding start_keys reset_keys keys_to_synchronize
  reset_keys_done law s ks k m later = ground (
    arith,
    token_keys-values_at (o.value m s.object) ks,
    law.resets ks s.object k later,
    member-union k s.in_progress ks,
    member-minus k (union s.in_progress ks) ks,
    member-intersect k s.tracked (o.modified (o.reset_modified ks s.object later) s.object),
    member-minus k (intersect s.tracked (o.modified (o.reset_modified ks s.object later) s.object))
        (minus (union s.in_progress ks) ks),
  )
