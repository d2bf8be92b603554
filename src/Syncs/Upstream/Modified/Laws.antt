-- ===== src/Syncs/Upstream/Modified/Laws.antt =====
-- ZMUpstreamModifiedObjectSync.m: which object's keys are sent.
use zmessaging_cocoa.Base.{
  ℕ, Bool, true, false, Option, none, some, is_none, List, [], ◌∷◌, ◌≡◌, if◌then◌else◌, arith, refl,
  sym, ap, if_elim, ◌∙◌,
}
use zmessaging_cocoa.Syncs.RemoteIdentifiers.{is_empty}
use zmessaging_cocoa.Syncs.Modified.{Objects, SyncStatus, keys_to_synchronize}
use zmessaging_cocoa.Syncs.Modified.Set.{
  ModifiedSet, ObjectWithKeys, any_of, any_object_to_sync, remove_if_done, entry,
}
use zmessaging_cocoa.Syncs.Upstream.{refuses_request}
use zmessaging_cocoa.Syncs.Upstream.Modified.{
  Parts, Updates, Sent, depends, if_ready, should_be_synced, process_update, next_request,
}

-- What the set offers: keys that are to be sent, of a state of the objects that has not changed.
abbrev Offers :
    {M : Type 0} → Objects M → ModifiedSet M → Option ObjectWithKeys × ModifiedSet M → Type 0
Offers o s (none, t) = t.objects ≡ s.objects
Offers o s (some x, t) = (t.objects ≡ s.objects) × (is_empty x.keys_to_sync ≡ false)

module _ {M : Type 0} (o : Objects M) where
  remove_if_done-objects :
      (st : SyncStatus) (t : ModifiedSet M) → (remove_if_done o st t).objects ≡ t.objects
  unfolding remove_if_done
  remove_if_done-objects st t = ground arith

  -- One round of the loop, from what the later rounds offer.
  any_of-step :
      (es : List (ℕ × ℕ)) (s t : ModifiedSet M) (q : Option SyncStatus)
      → t.objects ≡ s.objects
      → ((u : ModifiedSet M) → u.objects ≡ s.objects → Offers o s (any_of o es u))
      → Offers o s (elim q [
        | none ↦ any_of o es t
        | some st ↦
            let next = any_of o es (remove_if_done o st t) in
            if is_empty (keys_to_synchronize o t.objects st) then next else (
              some (record {
                object = st.object;
                keys_to_sync = keys_to_synchronize o t.objects st;
              }),
              t,
            )
      ])
  any_of-step es s t none h later = later t h
  any_of-step es s t (some st) h later =
      let keys = keys_to_synchronize o t.objects st in
      if_elim (Offers o s) (is_empty keys) (any_of o es (remove_if_done o st t))
        (some (record { object = st.object; keys_to_sync = keys }), t)
        (λ nothing. later (remove_if_done o st t) (remove_if_done-objects st t ∙ h))
        (λ something. (h, something))

  any_of-Offers :
      (es : List (ℕ × ℕ)) (s t : ModifiedSet M) → t.objects ≡ s.objects → Offers o s (any_of o es t)
  unfolding any_of
  any_of-Offers [] s t h = h
  any_of-Offers ((x, n) ∷ es) s t h =
      any_of-step es s t (entry n t.statuses) h (λ u k. any_of-Offers es s u k)

module _ {M : Type 0} (p : Parts M) where
  -- The request that `nextRequest` gives is for an object that waits for no other and should be
  -- synced, made by the transcoder of keys that are to be sent; without a request nothing that the
  -- objects keep has changed.
  abbrev pub Answers : Updates M → Option (Option Sent × Updates M) → Type 0
  Answers s none = ⊥
  Answers s (some (none, t)) = t.updated.objects ≡ s.updated.objects
  Answers s (some (some sent, t)) =
      (depends p s.waiting sent.object.object ≡ none)
      × (should_be_synced p s.updated.objects sent.object.object ≡ true)
      × (is_empty sent.object.keys_to_sync ≡ false)
      × (refuses_request p.transcoder sent.object.object sent.object.keys_to_sync s.updated.objects
          ≡ false)

  abbrev pub Makes : Type 0
  Makes =
      (x : ℕ) (ks : List ℕ) (m : M)
      → is_none (p.transcoder.request_for_updating_object x ks m).0 ≡ false

  process_update-Answers :
      Makes
      → (s t : Updates M) (x : ObjectWithKeys) → t.updated.objects ≡ s.updated.objects
      → t.waiting ≡ s.waiting
      → depends p s.waiting x.object ≡ none
      → should_be_synced p s.updated.objects x.object ≡ true
      → is_empty x.keys_to_sync ≡ false
      → Answers s (process_update p x t)
  unfolding process_update
  process_update-Answers makes s t x h w d b k =
      ground (arith, makes x.object x.keys_to_sync t.updated.objects)

  Answers-by :
      Makes
      → (s t : Updates M) (x : ObjectWithKeys) (q : Option ℕ) (b : Bool)
      → t.updated.objects ≡ s.updated.objects
      → t.waiting ≡ s.waiting
      → is_empty x.keys_to_sync ≡ false
      → depends p t.waiting x.object ≡ q
      → should_be_synced p t.updated.objects x.object ≡ b
      → let ready : Option ObjectWithKeys = elim q [
        | some d ↦ none
        | none ↦ if b then some x else none
      ] in
        Answers s (elim ready [ none ↦ some (none, t) | some y ↦ process_update p y t ])
  Answers-by makes s t x (some d) b h w k e f = h
  Answers-by makes s t x none false h w k e f = h
  Answers-by makes s t x none true h w k e f =
      process_update-Answers makes s t x h w (ap (λ v. depends p v x.object) (sym w) ∙ e)
        (ap (λ m. should_be_synced p m x.object) (sym h) ∙ f) k

  Answers-found :
      Makes
      → (s : Updates M) (r : Option ObjectWithKeys × ModifiedSet M)
      → Offers p.entity.objects s.updated r
      → let t = record s { updated = r.1 } in
        let ready : Option ObjectWithKeys = elim r.0 [ none ↦ none | some x ↦ if_ready p t x ] in
        Answers s (elim ready [ none ↦ some (none, t) | some x ↦ process_update p x t ])
  Answers-found makes s (none, set) h = h
  Answers-found makes s (some x, set) h =
      let t = record s { updated = set } in
      Answers-by makes s t x (depends p t.waiting x.object)
        (should_be_synced p t.updated.objects x.object) h.0 refl h.1 refl refl

  pub next_update-Answers : Makes → (s : Updates M) → Answers s (next_request p s)
  unfolding next_request any_object_to_sync
  next_update-Answers makes s =
      Answers-found makes s (any_of p.entity.objects s.updated.entries s.updated)
        (any_of-Offers p.entity.objects s.updated.entries s.updated s.updated refl)
