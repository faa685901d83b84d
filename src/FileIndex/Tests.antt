-- ===== src/FileIndex/Tests.antt =====
-- A small index, with functions in place of those of the database.
use yh_filemanager_vfs_stora.Prelude.{
  ℕ, zero, suc, ◌-◌, ◌≡◌, refl, ap, ap₂, ◌∙◌, List, [], ◌∷◌, ◌++◌, map, length, get_elem?, Bool,
  true, false, any, none, some, ok, if◌then◌else◌, arith, ◌&&◌, ◌||◌,
}
use yh_filemanager_vfs_stora.Prelude.Int.{ℤ}
use yh_filemanager_vfs_stora.Prelude.FilePath.{parent_or_root}
use yh_filemanager_vfs_stora.Prelude.Text.{
  Text, codes, text_eq, starts_with, lower_char, split, rsplit_once, trim_end_matches, trim_end_by,
}
use yh_filemanager_vfs_stora.Types.{VfsFileInfo}
use yh_filemanager_vfs_stora.FileIndex.{
  update_from, IndexedFile, Sql, IsLiteral, is_null, is_at, filter, first_where, has_duplicates,
  checked, update_many, update_one, name_of, parent_of, get_file_metadata,
}
use yh_filemanager_vfs_stora.FileIndex.Relocate.{
  is_below, update_each, moved_top, moved_child, move_file, trashed_top, trashed_child, trash_file,
}
use yh_filemanager_vfs_stora.FileIndex.Relocate.Updates.{IsKeyed}
use yh_filemanager_vfs_stora.FileIndex.Relocate.Moved.{relocated, move_file-relocated}
use yh_filemanager_vfs_stora.FileIndex.Relocate.Trashed.{IsReplaceAll, trash_file_repeats}
use yh_filemanager_vfs_stora.FileIndex.Delete.{is_from, is_other, delete_file, delete_file_gone}
use yh_filemanager_vfs_stora.FileIndex.Upsert.{
  as_i64, normalized_path_of, upsert_file_with_location, add_or_update_entry, merged, active_of,
}
use yh_filemanager_vfs_stora.FileIndex.Upsert.Laws.{get_file_metadata-upsert_file}

abbrev without_last : Text → Text
without_last [] = []
without_last (x ∷ []) = []
without_last (x ∷ y ∷ s) = x ∷ without_last (y ∷ s)

-- `skipped` characters more belong to what was replaced.
abbrev replace_from : ℕ → Text → Text → Text → Text
replace_from skipped [] from to = []
replace_from (suc k) (x ∷ s) from to = replace_from k s from to
replace_from zero (x ∷ s) from to =
    let behind = replace_from (length from - 1) s from to in
    let later = replace_from zero s from to in
    if starts_with (x ∷ s) from then to ++ behind else x ∷ later

skipped :
    (t rest from to : Text)
    → replace_from (length t) (t ++ rest) from to ≡ replace_from 0 rest from to
skipped [] rest from to = refl
skipped (x ∷ t) rest from to = skipped t rest from to

starts_with-append : (s rest : Text) → starts_with (s ++ rest) s ≡ true
unfolding starts_with
starts_with-append [] rest = refl
starts_with-append (x ∷ s) rest = ground (arith, starts_with-append s rest)

abbrev sql : Sql
sql = record {
  fold = lower_char;
  like = λ path pattern. starts_with (map lower_char path) (map lower_char (without_last pattern));
  replace = λ s from to. replace_from 0 s from to;
}

sql-IsReplaceAll : IsReplaceAll sql
unfolding IsReplaceAll
sql-IsReplaceAll = (
  λ c from to rest.
      let e : suc (length from) - 1 ≡ length from = omega arith in
      let s : starts_with ((c ∷ from) ++ rest) (c ∷ from) ≡ true =
        starts_with-append (c ∷ from) rest in
      ap₂
        (λ b k.
          if b
          then to ++ replace_from k (from ++ rest) (c ∷ from) to
          else c ∷ replace_from 0 (from ++ rest) (c ∷ from) to)
        s e
      ∙ ap (λ t. to ++ t) (skipped from rest (c ∷ from) to),
  λ from to. refl,
)

abbrev row : Text → Text → Text → Bool → IndexedFile
row id parent path is_dir = record {
  id = id;
  user_id = codes "u";
  parent_path = parent;
  name = codes "n";
  path = path;
  is_dir = is_dir;
  storage_id = none;
  backend_type = none;
  backend_key = none;
  size = ℤ.pos 4;
  physical_size = none;
  etag = none;
  protected_meta = none;
  file_created_at = none;
  file_updated_at = some 5;
  file_trashed_at = none;
  row_created_at = 1;
  row_updated_at = 1;
  row_deleted_at = none;
  favorite_color = 2;
  original_path = none;
  remark = none;
}

abbrev index : List IndexedFile
index =
    row (codes "1") (codes "/") (codes "/a") true
    ∷ row (codes "2") (codes "/a") (codes "/a/a") false
    ∷ row (codes "3") (codes "/") (codes "/ab") false
    ∷ []

index-IsKeyed : IsKeyed index
unfolding IsKeyed text_eq
index-IsKeyed = (refl, (refl, (refl, tt)))

index_unique : has_duplicates index ≡ false
unfolding text_eq
index_unique = refl

below_a : IsLiteral sql (codes "/a" ++ codes "/")
unfolding IsLiteral
below_a path = refl

moved :
    (left : List IndexedFile) × (move_file sql (codes "u") (codes "/a") (codes "/c") 9 index
      ≡ ok left)
unfolding move_file update_each update_one update_many update_from checked moved_top moved_child
    name_of parent_of text_eq starts_with split rsplit_once
moved = (_, refl)

c_outside : sql.like (codes "/c") ((codes "/a" ++ codes "/") ++ codes "%") ≡ false
unfolding starts_with
c_outside = refl

move_file-relocated_example :
    moved.0 ≡ map (relocated sql (codes "u") (codes "/a") (codes "/c") 9) index
move_file-relocated_example =
    move_file-relocated sql (codes "u") (codes "/a") (codes "/c") 9 below_a c_outside index moved.0
      index-IsKeyed index_unique moved.1

trashed :
    (left : List IndexedFile) × (trash_file sql
        (codes "u")
        (codes "/a")
        (codes "/.recycle_bin/7")
        9
        index
      ≡ ok left)
unfolding trash_file update_many update_from checked trashed_top trashed_child name_of text_eq
    starts_with split
trashed = (_, refl)

trash_file_repeats_example :
    (t : IndexedFile) × (get_elem? trashed.0 1 ≡ some t)
    × (t.path ≡ codes "/.recycle_bin/7/.recycle_bin/7")
trash_file_repeats_example =
    trash_file_repeats sql (codes "u") (codes "a") (codes "/.recycle_bin/7") 9 index trashed.0 1
      (row (codes "2") (codes "/a") (codes "/a/a") false) below_a sql-IsReplaceAll trashed.1 refl
      refl refl

-- A directory in the recycle bin, and a file that was trashed from it before.
abbrev bin : List IndexedFile
bin =
    (record (row (codes "1") (codes "/.recycle_bin") (codes "/.recycle_bin/7") true) {
      original_path = some (codes "/a");
    })
    ∷ (record (row (codes "2") (codes "/.recycle_bin") (codes "/.recycle_bin/8") false) {
      original_path = some (codes "/a/b");
    })
    ∷ []

first_in_bin :
    first_where (λ r. is_at (codes "u") (codes "/.recycle_bin/7") r && is_null r.row_deleted_at) bin
    ≡ some (record (row (codes "1") (codes "/.recycle_bin") (codes "/.recycle_bin/7") true) {
      original_path = some (codes "/a");
    })
unfolding text_eq
first_in_bin = refl

delete_file_gone_example :
    (any
        (λ r.
          is_at (codes "u") (codes "/.recycle_bin/7") r
          || is_below sql (codes "u") (codes "/.recycle_bin/7") r)
        (delete_file sql (codes "u") (codes "/.recycle_bin/7") bin)
      ≡ false)
    × (any
          (is_from sql (codes "u") (trim_end_matches b'/' (codes "/a") ++ codes "/"))
          (delete_file sql (codes "u") (codes "/.recycle_bin/7") bin)
        ≡ false)
    × (filter (is_other sql (codes "u")) (delete_file sql (codes "u") (codes "/.recycle_bin/7") bin)
        ≡ filter (is_other sql (codes "u")) bin)
delete_file_gone_example =
    delete_file_gone sql (codes "u") (codes "/.recycle_bin/7") (codes "/a") bin
      (record (row (codes "1") (codes "/.recycle_bin") (codes "/.recycle_bin/7") true) {
        original_path = some (codes "/a");
      })
      first_in_bin refl

abbrev info : VfsFileInfo
info = record {
  name = codes "ab";
  path = codes "/ab";
  is_dir = false;
  size = 77;
  modified = some 8;
  favorite_color = 0;
  has_active_share = none;
  has_active_direct = none;
  trashed_at = none;
  original_path = none;
}

upserted :
    (r : IndexedFile × List IndexedFile) × (upsert_file_with_location
        (codes "9")
        (codes "u")
        (codes "/ab/")
        info
        none
        none
        (some (codes "blob"))
        none
        none
        10
        index
      ≡ ok r)
unfolding upsert_file_with_location add_or_update_entry active_of merged update_one update_many
    update_from checked normalized_path_of text_eq trim_end_by
upserted = (_, refl)

get_file_metadata-upsert_file_example :
    (get_file_metadata (codes "u") (normalized_path_of (codes "/ab/")) upserted.0.1
      ≡ some upserted.0.0)
    × (upserted.0.0.name ≡ codes "ab")
    × (upserted.0.0.parent_path ≡ parent_or_root (normalized_path_of (codes "/ab/")))
    × (upserted.0.0.is_dir ≡ false)
    × (upserted.0.0.size ≡ as_i64 77)
    × (upserted.0.0.file_updated_at ≡ some 8)
    × (upserted.0.0.row_updated_at ≡ 10)
    × (upserted.0.0.storage_id ≡ none)
    × (upserted.0.0.backend_type ≡ none)
    × (upserted.0.0.backend_key ≡ some (codes "blob"))
    × (upserted.0.0.physical_size ≡ none)
    × (upserted.0.0.protected_meta ≡ none)
get_file_metadata-upsert_file_example =
    get_file_metadata-upsert_file (codes "9") (codes "u") (codes "/ab/") info none none
      (some (codes "blob")) none none 10 index upserted.0.1 upserted.0.0 index-IsKeyed index_unique
      upserted.1
