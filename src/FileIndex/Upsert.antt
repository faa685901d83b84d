-- ===== src/FileIndex/Upsert.antt =====
-- src/business/services/file_index_service.rs: inserting and updating one row.
pub mod Laws
use yh_filemanager_vfs_stora.Prelude.{
  ℕ, ◌-◌, ◌^◌, List, [], ◌∷◌, ◌++◌, Bool, true, false, Option, none, some, Result, ok, err,
  if◌then◌else◌, ltb,
}
use yh_filemanager_vfs_stora.Prelude.Int.{ℤ}
use yh_filemanager_vfs_stora.Prelude.Text.{Text, codes, text_eq, is_empty, trim_end_matches}
use yh_filemanager_vfs_stora.Prelude.FilePath.{parent_or_root}
use yh_filemanager_vfs_stora.Prelude.Results.{◌>>=◌}
use yh_filemanager_vfs_stora.Types.{VfsFileInfo}
use yh_filemanager_vfs_stora.FileIndex.{IndexedFile, is_at, first_where, checked, update_one}

-- `sea_orm::ActiveValue`: a column of a statement.
pub data ActiveValue {ℓ} (A : Type ℓ) : Type ℓ where
  set unchanged : A → ActiveValue A
  not_set : ActiveValue A

-- `file_index::ActiveModel`.
pub record ActiveModel : Type 0 where
  pub id : ActiveValue Text
  pub user_id : ActiveValue Text
  pub parent_path : ActiveValue Text
  pub name : ActiveValue Text
  pub path : ActiveValue Text
  pub is_dir : ActiveValue Bool
  pub storage_id : ActiveValue (Option Text)
  pub backend_type : ActiveValue (Option Text)
  pub backend_key : ActiveValue (Option Text)
  pub size : ActiveValue ℤ
  pub physical_size : ActiveValue (Option ℤ)
  pub etag : ActiveValue (Option Text)
  pub protected_meta : ActiveValue (Option Text)
  pub file_created_at : ActiveValue (Option ℕ)
  pub file_updated_at : ActiveValue (Option ℕ)
  pub file_trashed_at : ActiveValue (Option ℕ)
  pub row_created_at : ActiveValue ℕ
  pub row_updated_at : ActiveValue ℕ
  pub row_deleted_at : ActiveValue (Option ℕ)
  pub favorite_color : ActiveValue ℕ
  pub original_path : ActiveValue (Option Text)
  pub remark : ActiveValue (Option Text)

abbrev pub value_or {ℓ} : {A : Type ℓ} → A → ActiveValue A → A
value_or old (set a) = a
value_or old (unchanged a) = a
value_or old not_set = old

-- A column that the table wants.
abbrev pub column {ℓ} : {A : Type ℓ} → Text → ActiveValue A → Result Text A
column message (set a) = ok a
column message (unchanged a) = ok a
column message not_set = err message

-- The update of a row that is there.
unfoldable pub merged : ActiveModel → IndexedFile → IndexedFile
merged entry row = record row {
  parent_path = value_or row.parent_path entry.parent_path;
  name = value_or row.name entry.name;
  is_dir = value_or row.is_dir entry.is_dir;
  storage_id = value_or row.storage_id entry.storage_id;
  backend_type = value_or row.backend_type entry.backend_type;
  backend_key = value_or row.backend_key entry.backend_key;
  size = value_or row.size entry.size;
  physical_size = value_or row.physical_size entry.physical_size;
  protected_meta = value_or row.protected_meta entry.protected_meta;
  etag = value_or row.etag entry.etag;
  file_updated_at = value_or row.file_updated_at entry.file_updated_at;
  row_updated_at = value_or row.row_updated_at entry.row_updated_at;
  row_deleted_at = none;
  file_trashed_at = none;
  original_path = none;
}

abbrev not_null : Text
not_null = codes "NOT NULL constraint failed"

-- A column without a value is NULL, if it may be.
unfoldable pub inserted : ActiveModel → Result Text IndexedFile
inserted entry = do
  id ← column not_null entry.id
  user_id ← column not_null entry.user_id
  parent_path ← column not_null entry.parent_path
  name ← column not_null entry.name
  path ← column not_null entry.path
  is_dir ← column not_null entry.is_dir
  size ← column not_null entry.size
  row_created_at ← column not_null entry.row_created_at
  row_updated_at ← column not_null entry.row_updated_at
  favorite_color ← column not_null entry.favorite_color
  ok (record {
    id = id;
    user_id = user_id;
    parent_path = parent_path;
    name = name;
    path = path;
    is_dir = is_dir;
    storage_id = value_or none entry.storage_id;
    backend_type = value_or none entry.backend_type;
    backend_key = value_or none entry.backend_key;
    size = size;
    physical_size = value_or none entry.physical_size;
    etag = value_or none entry.etag;
    protected_meta = value_or none entry.protected_meta;
    file_created_at = value_or none entry.file_created_at;
    file_updated_at = value_or none entry.file_updated_at;
    file_trashed_at = value_or none entry.file_trashed_at;
    row_created_at = row_created_at;
    row_updated_at = row_updated_at;
    row_deleted_at = value_or none entry.row_deleted_at;
    favorite_color = favorite_color;
    original_path = value_or none entry.original_path;
    remark = value_or none entry.remark;
  })

-- Neither deleted nor in the recycle bin.
abbrev pub made_visible : ActiveModel → ActiveModel
made_visible entry = record entry {
  row_deleted_at = set none;
  file_trashed_at = set none;
  original_path = set none;
}

-- Behind the look for a row of the path: the row that there is now, and the table.
abbrev write_entry :
    ActiveModel
    → Option IndexedFile
    → List IndexedFile
    → Result Text (IndexedFile × List IndexedFile)
write_entry entry (some existing) rows = do
  updated ← update_one existing (merged entry) rows
  ok (merged entry existing, updated)
write_entry entry none rows = do
  row ← inserted entry
  updated ← checked (rows ++ row ∷ [])
  ok (row, updated)

unfoldable pub add_or_update_entry :
    ActiveModel → List IndexedFile → Result Text (IndexedFile × List IndexedFile)
unfolding update_one checked inserted merged
add_or_update_entry entry rows = do
  user_id ← column (codes "user_id is required for file index upsert") entry.user_id
  path ← column (codes "path is required for file index upsert") entry.path
  write_entry (made_visible entry) (first_where (is_at user_id path) rows) rows

-- `as i64`.
abbrev pub as_i64 : ℕ → ℤ
as_i64 n = if ltb n (2 ^ 63) then ℤ.pos n else ℤ.negsuc (2 ^ 64 - 1 - n)

unfoldable pub normalized_path_of : Text → Text
normalized_path_of logical_path =
    if text_eq logical_path (codes "/") then codes "/" else trim_end_matches b'/' logical_path

-- The columns of `upsert_file_with_location`; `id` is the new identifier that was drawn.
unfoldable pub active_of :
    Text
    → Text
    → Text
    → VfsFileInfo
    → Option Text
    → Option Text
    → Option Text
    → Option ℤ
    → Option Text
    → ℕ
    → ActiveModel
unfolding normalized_path_of
active_of id user_id logical_path info storage_id backend_type backend_key physical_size
      protected_meta now =
    record {
      id = set id;
      user_id = set user_id;
      parent_path = set (parent_or_root (normalized_path_of logical_path));
      name = set info.name;
      path = set (normalized_path_of logical_path);
      is_dir = set info.is_dir;
      storage_id = set storage_id;
      backend_type = set backend_type;
      backend_key = set backend_key;
      size = set (as_i64 info.size);
      physical_size = set physical_size;
      etag = not_set;
      protected_meta = set protected_meta;
      file_created_at = not_set;
      file_updated_at = set info.modified;
      file_trashed_at = not_set;
      row_created_at = set now;
      row_updated_at = set now;
      row_deleted_at = not_set;
      favorite_color = set 0;
      original_path = not_set;
      remark = not_set;
    }

unfoldable pub upsert_file_with_location :
    Text
    → Text
    → Text
    → VfsFileInfo
    → Option Text
    → Option Text
    → Option Text
    → Option ℤ
    → Option Text
    → ℕ
    → List IndexedFile
    → Result Text (IndexedFile × List IndexedFile)
unfolding active_of add_or_update_entry
upsert_file_with_location id user_id logical_path info storage_id backend_type backend_key
      physical_size protected_meta now rows =
    add_or_update_entry
      (active_of id user_id logical_path info storage_id backend_type backend_key physical_size
        protected_meta now)
      rows
