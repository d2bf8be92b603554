-- ===== src/Search.antt =====
-- ZMUserIDsForSearchDirectoryTable.m in Source/UserSession/Search/: for which users the search
-- directories need a profile picture, and which of them have an asset to download. Directories,
-- users' identifiers and assets are numbers. The table's queue lets one operation run at a time.
pub mod Laws
pub mod Request
use zmessaging_cocoa.Base.{ℕ, Option, none, some, List, [], ◌∷◌, ◌++◌, if◌then◌else◌, ◌==◌}
use zmessaging_cocoa.Syncs.RemoteIdentifiers.{member}

-- ZMSearchUser, of which the table reads its identifier; the number is the object.
pub record SearchUser : Type 0 where
  pub object : ℕ
  pub remote_identifier : ℕ

-- ZMSearchUserAndAssetID.
pub record UserAndAsset : Type 0 where
  pub search_user : SearchUser
  pub asset_id : Option ℕ

abbrev pub user_id : UserAndAsset → ℕ
user_id e = e.search_user.remote_identifier

unfoldable pub user_and_asset : SearchUser → Option ℕ → UserAndAsset
user_and_asset u a = record { search_user = u; asset_id = a }

unfoldable pub user_without_asset : SearchUser → UserAndAsset
unfolding user_and_asset
user_without_asset u = user_and_asset u none

unfoldable pub user_id_if_no_asset : UserAndAsset → Option ℕ
user_id_if_no_asset e = elim e.asset_id [ none ↦ some (user_id e) | some a ↦ none ]

-- The dictionary from directories to sets.
abbrev pub Table : Type 0
Table = List (ℕ × List UserAndAsset)

-- The identifiers of one set.
abbrev pub ids_without_asset : List UserAndAsset → List ℕ
ids_without_asset [] = []
ids_without_asset (e ∷ es) = elim (user_id_if_no_asset e) [
  | none ↦ ids_without_asset es
  | some u ↦ u ∷ ids_without_asset es
]

abbrev pub with_asset : List UserAndAsset → List UserAndAsset
with_asset [] = []
with_asset (e ∷ es) = elim e.asset_id [ none ↦ with_asset es | some a ↦ e ∷ with_asset es ]

-- The sets come out as lists, in which an element may stand twice.
unfoldable pub all_user_ids : Table → List ℕ
unfolding user_id_if_no_asset
all_user_ids [] = []
all_user_ids ((d, es) ∷ t) = ids_without_asset es ++ all_user_ids t

unfoldable pub all_asset_ids : Table → List UserAndAsset
all_asset_ids [] = []
all_asset_ids ((d, es) ∷ t) = with_asset es ++ all_asset_ids t

-- `objectForKey:`
unfoldable pub entry_of : ℕ → Table → List UserAndAsset
entry_of d [] = []
entry_of d ((k, es) ∷ t) = let found = entry_of d t in if k == d then es else found

unfoldable pub put_entry : ℕ → List UserAndAsset → Table → Table
put_entry d new [] = (d, new) ∷ []
put_entry d new ((k, es) ∷ t) =
    let others = put_entry d new t in if k == d then (k, new) ∷ t else (k, es) ∷ others

-- The entry of a user in a set; a later one takes the place of an earlier one.
unfoldable pub previous_entry : ℕ → List UserAndAsset → Option UserAndAsset
previous_entry u [] = none
previous_entry u (e ∷ es) = elim (previous_entry u es) [
  | some f ↦ some f
  | none ↦ if user_id e == u then some e else none
]

unfoldable pub pairs : List UserAndAsset → List SearchUser → List UserAndAsset
unfolding previous_entry user_without_asset
pairs old [] = []
pairs old (u ∷ us) =
    let rest = pairs old us in
    (elim (previous_entry u.remote_identifier old) [ none ↦ user_without_asset u | some e ↦ e ])
    ∷ rest

unfoldable pub set_search_users : List SearchUser → ℕ → Table → Table
unfolding entry_of put_entry pairs
set_search_users us d t = put_entry d (pairs (entry_of d t) us) t

unfoldable pub replace_in : ℕ → ℕ → List UserAndAsset → List UserAndAsset
replace_in u a [] = []
replace_in u a (e ∷ es) =
    (record e { asset_id = if user_id e == u then some a else e.asset_id }) ∷ replace_in u a es

-- `replaceUserIDToDownload:withAssetIDToDownload:`
unfoldable pub replace_user_id : ℕ → ℕ → Table → Table
unfolding replace_in
replace_user_id u a [] = []
replace_user_id u a ((d, es) ∷ t) = (d, replace_in u a es) ∷ replace_user_id u a t

unfoldable pub remove_in : List ℕ → List UserAndAsset → List UserAndAsset
remove_in ids [] = []
remove_in ids (e ∷ es) =
    let rest = remove_in ids es in if member (user_id e) ids then rest else e ∷ rest

-- `removeAllEntriesWithUserIDs:`
unfoldable pub remove_all : List ℕ → Table → Table
unfolding remove_in
remove_all ids [] = []
remove_all ids ((d, es) ∷ t) = (d, remove_in ids es) ∷ remove_all ids t

unfoldable pub remove_search_directory : ℕ → Table → Table
remove_search_directory d [] = []
remove_search_directory d ((k, es) ∷ t) =
    let others = remove_search_directory d t in if k == d then others else (k, es) ∷ others

unfoldable pub clear : Table → Table
clear t = []

-- The header's interface, over the states `S` of a table.
pub record UserIdTable (S : Type 0) : Type 0 where
  pub user_ids : S → List ℕ
  pub asset_ids : S → List UserAndAsset
  pub set_users : List SearchUser → ℕ → S → S
  pub replace_user : ℕ → ℕ → S → S
  pub remove_users : List ℕ → S → S
  pub remove_directory : ℕ → S → S
  pub clear_all : S → S

abbrev pub user_id_table : UserIdTable Table
user_id_table = record {
  user_ids = all_user_ids;
  asset_ids = all_asset_ids;
  set_users = set_search_users;
  replace_user = replace_user_id;
  remove_users = remove_all;
  remove_directory = remove_search_directory;
  clear_all = clear;
}
