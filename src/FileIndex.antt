-- ===== src/FileIndex.antt =====
-- src/business/services/file_index_service.rs: the index of a user's files. The table is the list
-- of its rows (src/business/entities/file_index.rs). Functions of the database are a parameter,
-- and the database answers; a statement that would leave two rows of a user with one path is
-- refused by the unique index of src/business/services/db_init.rs.
pub mod Upsert
pub mod Relocate
pub mod Delete
mod Tests
use yh_filemanager_vfs_stora.Prelude.{
  ℕ, ◌≡◌, List, [], ◌∷◌, ◌++◌, map, Bool, true, false, not, ◌&&◌, ◌||◌, any, Option, none, some,
  Result, ok, err, if◌then◌else◌,
}
use yh_filemanager_vfs_stora.Prelude.Results.{◌>>=◌}
use yh_filemanager_vfs_stora.Prelude.Int.{ℤ}
use yh_filemanager_vfs_stora.Prelude.Text.{
  Text, codes, text_eq, starts_with, split, rsplit_once, is_empty,
}

-- `file_index::Model`.
pub record IndexedFile : Type 0 where
  pub id : Text
  pub user_id : Text
  pub parent_path : Text
  pub name : Text
  pub path : Text
  pub is_dir : Bool
  pub storage_id : Option Text
  pub backend_type : Option Text
  pub backend_key : Option Text
  pub size : ℤ
  pub physical_size : Option ℤ
  pub etag : Option Text
  pub protected_meta : Option Text
  pub file_created_at : Option ℕ
  pub file_updated_at : Option ℕ
  pub file_trashed_at : Option ℕ
  pub row_created_at : ℕ
  pub row_updated_at : ℕ
  pub row_deleted_at : Option ℕ
  pub favorite_color : ℕ
  pub original_path : Option Text
  pub remark : Option Text

-- SQL's `path LIKE pattern` and `REPLACE(text, from, to)`. LIKE takes two letters for the same that
-- have one `fold`: in PostgreSQL it is the letter itself, in SQLite the small one of an ASCII letter.
pub record Sql : Type 0 where
  pub fold : ℕ → ℕ
  pub like : Text → Text → Bool
  pub replace : Text → Text → Text → Text

-- A prefix without wildcards.
unfoldable pub IsLiteral : Sql → Text → Type 0
IsLiteral sql prefix =
    (path : Text)
    → sql.like path (prefix ++ codes "%") ≡ starts_with (map sql.fold path) (map sql.fold prefix)

abbrev pub is_null {ℓ} : {A : Type ℓ} → Option A → Bool
is_null none = true
is_null (some a) = false

-- The primary key of a row.
abbrev pub same_key : IndexedFile → IndexedFile → Bool
same_key a b = text_eq a.id b.id && text_eq a.user_id b.user_id

-- The filter by user and path.
abbrev pub is_at : Text → Text → IndexedFile → Bool
is_at user_id path row = text_eq row.user_id user_id && text_eq row.path path

abbrev pub filter : (IndexedFile → Bool) → List IndexedFile → List IndexedFile
filter p [] = []
filter p (row ∷ rows) = let rest = filter p rows in if p row then row ∷ rest else rest

-- `one`.
abbrev pub first_where : (IndexedFile → Bool) → List IndexedFile → Option IndexedFile
first_where p [] = none
first_where p (row ∷ rows) = let rest = first_where p rows in if p row then some row else rest

abbrev pub has_duplicates : List IndexedFile → Bool
has_duplicates [] = false
has_duplicates (row ∷ rows) = any (is_at row.user_id row.path) rows || has_duplicates rows

abbrev pub unique_failed : Text
unique_failed = codes "UNIQUE constraint failed"

-- The table that a statement leaves, if the unique index takes it.
unfoldable pub checked : List IndexedFile → Result Text (List IndexedFile)
checked rows = if has_duplicates rows then err unique_failed else ok rows

-- The rows of a statement one after the other: the unique index looks at the table after each of
-- them.
unfoldable pub update_from :
    (IndexedFile → Bool)
    → (IndexedFile → IndexedFile)
    → List IndexedFile
    → List IndexedFile
    → Result Text (List IndexedFile)
unfolding checked
update_from p f updated [] = ok updated
update_from p f updated (row ∷ later) =
    let rest = update_from p f (updated ++ f row ∷ []) later in
    let same = update_from p f (updated ++ row ∷ []) later in
    if p row then checked (updated ++ f row ∷ later) >>= (λ _. rest) else same

-- `update_many` with its filter.
unfoldable pub update_many :
    (IndexedFile → Bool)
    → (IndexedFile → IndexedFile)
    → List IndexedFile
    → Result Text (List IndexedFile)
unfolding update_from
update_many p f rows = update_from p f [] rows

-- `update` of an active model that was made of `row`: the columns that were set, by the key.
unfoldable pub update_one :
    IndexedFile → (IndexedFile → IndexedFile) → List IndexedFile → Result Text (List IndexedFile)
unfolding update_many
update_one row f = update_many (same_key row) f

-- The last part of a path, and what is before it, or the root.
abbrev pub last_segment : List Text → Text
last_segment [] = []
last_segment (s ∷ []) = s
last_segment (s ∷ t ∷ ss) = last_segment (t ∷ ss)

unfoldable pub name_of : Text → Text
name_of path = last_segment (split b'/' path)

unfoldable pub parent_of : Text → Text
parent_of path = elim (rsplit_once b'/' path) [
  | none ↦ codes "/"
  | some (parent, name) ↦ if is_empty parent then codes "/" else parent
]

unfoldable pub get_file_metadata : Text → Text → List IndexedFile → Option IndexedFile
get_file_metadata user_id path rows =
    first_where (λ row. is_at user_id path row && is_null row.row_deleted_at) rows
