-- ===== src/Search/Laws.antt =====
-- ZMUserIDsForSearchDirectoryTable.m: which users and assets are to be downloaded after a change.
use zmessaging_cocoa.Base.{
  ℕ, Bool, false, not, ◌&&◌, ◌||◌, none, some, List, [], ◌∷◌, ◌++◌, ◌≡◌, if◌then◌else◌, ◌==◌, arith,
  refl, ==_iff,
}
use zmessaging_cocoa.Syncs.RemoteIdentifiers.{member}
use zmessaging_cocoa.Syncs.RemoteIdentifiers.Sets.{member-append}
use zmessaging_cocoa.Search.{
  UserAndAsset, Table, user_id, ids_without_asset, with_asset, user_id_if_no_asset, all_user_ids,
  all_asset_ids, replace_in, replace_user_id, remove_in, remove_all,
}

-- Whether the asset of a user is listed, and whether the user has any.
abbrev pub asset_listed : ℕ → ℕ → List UserAndAsset → Bool
asset_listed u a [] = false
asset_listed u a (e ∷ es) =
    (user_id e == u && (elim e.asset_id [ none ↦ false | some b ↦ b == a ])) || asset_listed u a es

asset_listed-append :
    (u a : ℕ) (xs ys : List UserAndAsset)
    → asset_listed u a (xs ++ ys) ≡ (asset_listed u a xs || asset_listed u a ys)
asset_listed-append u a [] ys = refl
asset_listed-append u a (x ∷ xs) ys = ground (arith, asset_listed-append u a xs ys)

-- Whether the user stands in a table.
abbrev stands_in : ℕ → List UserAndAsset → Bool
stands_in u [] = false
stands_in u (e ∷ es) = user_id e == u || stands_in u es

abbrev pub stands : ℕ → Table → Bool
stands u [] = false
stands u ((d, es) ∷ t) = stands_in u es || stands u t

-- In one set, the user that is replaced has no missing asset and, if in it, the one that is given;
-- other users stay as they were.
ids-replace_in :
    (u v a : ℕ) (es : List UserAndAsset)
    → member v (ids_without_asset (replace_in u a es))
      ≡ (not (u == v) && member v (ids_without_asset es))
unfolding replace_in member user_id_if_no_asset
ids-replace_in u v a [] = ground arith
ids-replace_in u v a (e ∷ es) =
    ground (arith, ids-replace_in u v a es, ==_iff (user_id e) u, ==_iff u v)

assets-replace_in :
    (u v a b : ℕ) (es : List UserAndAsset)
    → asset_listed v b (with_asset (replace_in u a es))
      ≡ (if u == v then (stands_in u es && a == b) else asset_listed v b (with_asset es))
unfolding replace_in
assets-replace_in u v a b [] = ground arith
assets-replace_in u v a b (e ∷ es) =
    ground (arith, assets-replace_in u v a b es, ==_iff (user_id e) u, ==_iff u v)

-- After a user's identifier was replaced by an asset, the user is not among those to be downloaded;
-- its asset is exactly if the user stands in the table, and no other of its assets. Nothing changes
-- about other users.
pub replaced_user :
    (u v a b : ℕ) (t : Table)
    → (member v (all_user_ids (replace_user_id u a t))
        ≡ (not (u == v) && member v (all_user_ids t)))
      × (asset_listed v b (all_asset_ids (replace_user_id u a t))
          ≡ (if u == v then (stands u t && a == b) else asset_listed v b (all_asset_ids t)))
unfolding replace_user_id all_user_ids all_asset_ids member
replaced_user u v a b [] = ground arith
replaced_user u v a b ((d, es) ∷ t) = ground (
  arith,
  replaced_user u v a b t,
  ids-replace_in u v a es,
  assets-replace_in u v a b es,
  member-append v (ids_without_asset es) (all_user_ids t),
  member-append v (ids_without_asset (replace_in u a es)) (all_user_ids (replace_user_id u a t)),
  asset_listed-append v b (with_asset es) (all_asset_ids t),
  asset_listed-append v b (with_asset (replace_in u a es)) (all_asset_ids (replace_user_id u a t)),
)

ids-remove_in :
    (ids : List ℕ) (v : ℕ) (es : List UserAndAsset)
    → member v (ids_without_asset (remove_in ids es))
      ≡ (not (member v ids) && member v (ids_without_asset es))
unfolding remove_in member user_id_if_no_asset
ids-remove_in ids v [] = ground arith
ids-remove_in ids v (e ∷ es) = ground (arith, ids-remove_in ids v es, ==_iff (user_id e) v)

assets-remove_in :
    (ids : List ℕ) (v b : ℕ) (es : List UserAndAsset)
    → asset_listed v b (with_asset (remove_in ids es))
      ≡ (not (member v ids) && asset_listed v b (with_asset es))
unfolding remove_in
assets-remove_in ids v b [] = ground arith
assets-remove_in ids v b (e ∷ es) =
    ground (arith, assets-remove_in ids v b es, ==_iff (user_id e) v)

-- After users were removed, none of them is to be downloaded and none of their assets; nothing
-- changes about other users.
pub removed_users :
    (ids : List ℕ) (v b : ℕ) (t : Table)
    → (member v (all_user_ids (remove_all ids t))
        ≡ (not (member v ids) && member v (all_user_ids t)))
      × (asset_listed v b (all_asset_ids (remove_all ids t))
          ≡ (not (member v ids) && asset_listed v b (all_asset_ids t)))
unfolding remove_all all_user_ids all_asset_ids member
removed_users ids v b [] = ground arith
removed_users ids v b ((d, es) ∷ t) = ground (
  arith,
  removed_users ids v b t,
  ids-remove_in ids v es,
  assets-remove_in ids v b es,
  member-append v (ids_without_asset es) (all_user_ids t),
  member-append v (ids_without_asset (remove_in ids es)) (all_user_ids (remove_all ids t)),
  asset_listed-append v b (with_asset es) (all_asset_ids t),
  asset_listed-append v b (with_asset (remove_in ids es)) (all_asset_ids (remove_all ids t)),
)
