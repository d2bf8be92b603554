-- ===== src/Push/Laws.antt =====
-- ZMPushToken.m: tokens come back from an archive and from a context.
use zmessaging_cocoa.Base.{ℕ, Option, none, some, ◌≡◌, arith, refl, ap, ==_refl, ==_iff}
use zmessaging_cocoa.Push.{PushToken, Coder, Slot, encode, decode, token_in, get_token, set_token}

-- Every token comes back from the archive it was encoded into, whichever of its parts are missing.
pub decode-encode : (t : PushToken) → decode (encode t) ≡ t
unfolding decode encode
decode-encode t = ground arith

module _ (archive : Coder → ℕ) (unarchive : ℕ → Option Coder) where
  -- The token that the metadata stands for.
  abbrev pub stored : Slot → Option PushToken
  stored s = elim s.metadata [ none ↦ none | some d ↦ token_in archive unarchive d ]

  -- The copy of a context, if it has one, is what its data stand for.
  abbrev pub Fresh : Slot → Type 0
  Fresh s =
      (d : ℕ) (t : PushToken)
      → s.cached_data ≡ some d
      → s.cached_token ≡ some t
      → token_in archive unarchive d ≡ some t

  get-Fresh :
      (m c : Option ℕ) (k : Option PushToken)
      → let s : Slot = record { metadata = m; cached_data = c; cached_token = k } in
        Fresh s → (get_token archive unarchive s).0 ≡ stored s
  unfolding get_token
  get-Fresh none c k fresh = refl
  get-Fresh (some d) none k fresh = refl
  get-Fresh (some d) (some e) none fresh = ground arith
  get-Fresh (some d) (some e) (some t) fresh = ground (arith, ==_iff d e, fresh e t refl refl)

  restored :
      (u : PushToken)
      → unarchive (archive (encode u)) ≡ some (encode u)
      → token_in archive unarchive (archive (encode u)) ≡ some u
  restored u h = rw (h, token_in) (ap some (decode-encode u))

  -- A context whose copy is what its data stand for gives the token that the metadata of the store
  -- stand for, also after these were changed elsewhere. A token that is set is given, and is what is
  -- stored if the archive of its values can be read again; once none is set, none is given.
  pub stored_token :
      (s : Slot) (u : PushToken)
      → Fresh s
      → unarchive (archive (encode u)) ≡ some (encode u)
      → ((get_token archive unarchive s).0 ≡ stored s)
        × ((get_token archive unarchive (set_token archive unarchive (some u) s)).0 ≡ some u)
        × (stored (set_token archive unarchive (some u) s) ≡ some u)
        × ((get_token archive unarchive (set_token archive unarchive none s)).0 ≡ none)
  unfolding get_token set_token
  stored_token s u fresh h = (
    get-Fresh s.metadata s.cached_data s.cached_token fresh,
    ground (arith, ==_refl (archive (encode u))),
    restored u h,
    refl,
  )
