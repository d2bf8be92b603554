-- ===== src/Conversations/Laws.antt =====
-- ZMIncompleteConversationsCache.m: where a conversation stands once its gaps were looked at.
use zmessaging_cocoa.Base.{
  ℕ, Bool, true, not, ◌&&◌, [], ◌∷◌, ◌≡◌, if◌then◌else◌, ◌==◌, arith, refl, ==_iff, ==_refl,
  Option-cases, inl, inr, if_elim, sym, ◌∙◌,
}
use zmessaging_cocoa.Syncs.RemoteIdentifiers.{member, union}
use zmessaging_cocoa.Syncs.RemoteIdentifiers.Sets.{member-minus, member-union}
use zmessaging_cocoa.Syncs.Modified.Laws.{member-intersect}
use zmessaging_cocoa.Conversations.{
  ConversationData, Cache, has_gap, has_gap_in_window, process_conversation, move_to_top,
  replace_or_add, remove_conversation, window_of, gap_for_conversation, incomplete_not_whitelisted,
  incomplete_whitelisted,
}

and_true : (a b : Bool) → (a && b) ≡ true → (a ≡ true) × (b ≡ true)
and_true a b h = ground arith

module _ {D R : Type 0} (d : ConversationData D R) where
  -- What stays of the rest, and whether the conversation is fetched and whitelisted.
  pub record IsProcessed (c : ℕ) (fetched listed : Bool) (s t : Cache D R) : Type 0 where
    pub of_fetched :
        (y : ℕ) → member y t.to_fetch ≡ (if c == y then fetched else member y s.to_fetch)
    pub of_listed : member c t.whitelisted ≡ listed
    pub of_windows : t.windows ≡ s.windows
    pub of_outside : t.outside ≡ s.outside

  process-IsProcessed :
      (c : ℕ) (s : Cache D R)
      → IsProcessed c
          (has_gap d (d.gap s.outside c))
          (has_gap d (d.gap s.outside c) && has_gap_in_window d c s)
          s
          (process_conversation d c s)
  unfolding process_conversation remove_conversation move_to_top replace_or_add member
  process-IsProcessed c s = record {
    of_fetched = λ y. ground (
      arith,
      ==_iff c y,
      member-union y s.to_fetch (c ∷ []),
      member-minus y s.to_fetch (c ∷ []),
      member-minus y (union s.to_fetch (c ∷ [])) (c ∷ []),
    );
    of_listed = ground (
      arith,
      ==_refl c,
      member-minus c s.whitelisted (c ∷ []),
      member-union c s.whitelisted (c ∷ []),
      member-union c [] (c ∷ []),
    );
    of_windows = ground arith;
    of_outside = ground arith;
  }

  gap_in_its_window :
      (c : ℕ) (s : Cache D R)
      → has_gap_in_window d c s ≡ true
      → has_gap d (d.gap_in_window s.outside c (window_of c s.windows)) ≡ true
  gap_in_its_window c s h = elim (Option-cases (window_of c s.windows)) [
    | inl e ↦ ground (arith, e)
    | inr (w, e) ↦ ground (arith, e)
  ]

  gap_found :
      (c : ℕ) (s t : Cache D R) (g : Bool)
      → has_gap d (d.gap s.outside c) ≡ g
      → IsProcessed c g (g && has_gap_in_window d c s) s t
      → has_gap d (gap_for_conversation d c t) ≡ g
  unfolding gap_for_conversation
  gap_found c s t g e h =
      if_elim (λ r. has_gap d r ≡ g) (member c t.whitelisted)
        (d.gap_in_window t.outside c (window_of c t.windows)) (d.gap t.outside c)
        (λ w.
          let both = and_true g (has_gap_in_window d c s) (sym h.of_listed ∙ w) in
          rw (h.of_outside, h.of_windows) (gap_in_its_window c s both.1 ∙ sym both.0))
        (λ o. rw h.of_outside e)

  -- After its gaps were looked at, a conversation is incomplete and whitelisted exactly if it has a
  -- gap, also in its visible window; it is incomplete and not whitelisted exactly if it only has a gap
  -- outside of that, though the header says that only gaps inside the window make it incomplete; and
  -- the gap to fetch for it is empty exactly if it has none. Whether other conversations are to be
  -- fetched does not change.
  pub processed_conversation :
      (c y : ℕ) (s : Cache D R)
      → let t = process_conversation d c s in
        (member c (incomplete_whitelisted d t)
          ≡ (has_gap d (d.gap s.outside c) && has_gap_in_window d c s))
        × (member c (incomplete_not_whitelisted d t)
            ≡ (has_gap d (d.gap s.outside c) && not (has_gap_in_window d c s)))
        × (has_gap d (gap_for_conversation d c t) ≡ has_gap d (d.gap s.outside c))
        × (member y t.to_fetch
            ≡ (if c == y then has_gap d (d.gap s.outside c) else member y s.to_fetch))
  unfolding incomplete_whitelisted incomplete_not_whitelisted gap_for_conversation
  processed_conversation c y s =
      let t = process_conversation d c s in
      let h = process-IsProcessed c s in
      (
        ground (
          arith,
          ==_refl c,
          h.of_fetched c,
          h.of_listed,
          member-intersect c t.to_fetch t.whitelisted,
        ),
        ground (
          arith,
          ==_refl c,
          h.of_fetched c,
          h.of_listed,
          member-minus c t.to_fetch t.whitelisted,
        ),
        gap_found c s t (has_gap d (d.gap s.outside c)) refl h,
        h.of_fetched y,
      )
