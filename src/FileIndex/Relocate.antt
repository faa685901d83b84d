-- ===== src/FileIndex/Relocate.antt =====
-- src/business/services/file_index_service.rs: moving rows with what is below them, within the
-- files, into the recycle bin and out of it.
pub mod Updates
pub mod Moved
pub mod Trashed
use yh_filemanager_vfs_stora.Prelude.{
  ℕ, List, [], ◌∷◌, ◌++◌, length, Bool, not, ◌&&◌, ◌||◌, leb, Option, none, some, Result, ok, err,
  if◌then◌else◌,
}
use yh_filemanager_vfs_stora.Prelude.Text.{Text, codes, text_eq, starts_with}
use yh_filemanager_vfs_stora.Prelude.Bytes.{drop}
use yh_filemanager_vfs_stora.Prelude.Results.{◌>>=◌}
use yh_filemanager_vfs_stora.FileIndex.{
  IndexedFile, Sql, is_at, filter, first_where, update_one, update_many, name_of, parent_of,
}

-- A loop of updates over rows that were read before, each with the columns of its own row.
unfoldable pub update_each :
    (IndexedFile → IndexedFile → IndexedFile)
    → List IndexedFile
    → List IndexedFile
    → Result Text (List IndexedFile)
unfolding update_one
update_each f [] rows = ok rows
update_each f (row ∷ later) rows = do
  updated ← update_one row (f row) rows
  update_each f later updated

-- Outside the recycle bin, a row has no mark of it.
abbrev out_of_trash : Text → IndexedFile → IndexedFile
out_of_trash path row =
    if starts_with path (codes "/.recycle_bin")
    then row
    else record row { file_trashed_at = none; original_path = none }

unfoldable pub moved_top : Text → ℕ → IndexedFile → IndexedFile
moved_top dst_path now row = out_of_trash dst_path (record row {
  path = dst_path;
  name = name_of dst_path;
  parent_path = parent_of dst_path;
  row_updated_at = now;
})

-- The new path is made of the path that was read, `child.path`.
unfoldable pub moved_child : Text → Text → ℕ → IndexedFile → IndexedFile → IndexedFile
moved_child src_path dst_path now child row =
    let new_path = dst_path ++ drop (length src_path) child.path in
    out_of_trash dst_path
      (record row { path = new_path; parent_path = parent_of new_path; row_updated_at = now })

module _ (sql : Sql) where
  abbrev pub is_below : Text → Text → IndexedFile → Bool
  is_below user_id path row =
      text_eq row.user_id user_id && sql.like row.path ((path ++ codes "/") ++ codes "%")

  abbrev move_top :
      Option IndexedFile → Text → ℕ → List IndexedFile → Result Text (List IndexedFile)
  move_top none dst_path now rows = ok rows
  move_top (some top) dst_path now rows = update_one top (moved_top dst_path now) rows

  -- A transaction: what comes back is the table, or as it was where there is an error.
  unfoldable pub move_file :
      Text → Text → Text → ℕ → List IndexedFile → Result Text (List IndexedFile)
  unfolding update_one update_each moved_top moved_child
  move_file user_id src_path dst_path now rows = do
    let children = filter (is_below user_id src_path) rows
    updated ← move_top (first_where (is_at user_id src_path) rows) dst_path now rows
    update_each (moved_child src_path dst_path now) children updated

  unfoldable pub trashed_top : Text → Text → ℕ → IndexedFile → IndexedFile
  trashed_top old_path new_path now row = record row {
    path = new_path;
    name = name_of new_path;
    parent_path = codes "/.recycle_bin";
    file_trashed_at = some now;
    original_path = some old_path;
    row_updated_at = now;
  }

  unfoldable pub trashed_child : Text → Text → ℕ → IndexedFile → IndexedFile
  trashed_child old_path new_path now row = record row {
    original_path = some row.path;
    path = sql.replace row.path old_path new_path;
    parent_path = sql.replace row.parent_path old_path new_path;
    file_trashed_at = some now;
    row_updated_at = now;
  }

  unfoldable pub trash_file :
      Text → Text → Text → ℕ → List IndexedFile → Result Text (List IndexedFile)
  unfolding update_many trashed_top trashed_child
  trash_file user_id old_path new_path now rows = do
    topped ← update_many (is_at user_id old_path) (trashed_top old_path new_path now) rows
    update_many (is_below user_id old_path) (trashed_child old_path new_path now) topped

  -- `sort_by_key` of the length, which keeps the order of rows of one length.
  abbrev insert_by_length : IndexedFile → List IndexedFile → List IndexedFile
  insert_by_length row [] = row ∷ []
  insert_by_length row (other ∷ rest) =
      let later = insert_by_length row rest in
      if leb (length row.path) (length other.path) then row ∷ other ∷ rest else other ∷ later

  abbrev sort_by_length : List IndexedFile → List IndexedFile
  sort_by_length [] = []
  sort_by_length (row ∷ rows) = insert_by_length row (sort_by_length rows)

  abbrev pub restored_path_of : Text → Text → IndexedFile → Text
  restored_path_of trash_path restored_path row =
      if text_eq row.path trash_path
      then restored_path
      else restored_path ++ drop (length trash_path) row.path

  unfoldable pub restored : Text → Text → ℕ → IndexedFile → IndexedFile → IndexedFile
  restored trash_path restored_path now found row =
      let target_path = restored_path_of trash_path restored_path found in
      record row {
        path = target_path;
        name = name_of target_path;
        parent_path = parent_of target_path;
        file_trashed_at = none;
        original_path = none;
        row_updated_at = now;
      }

  unfoldable pub restore_file :
      Text → Text → Text → ℕ → List IndexedFile → Result Text (List IndexedFile)
  unfolding update_each restored
  restore_file user_id trash_path restored_path now rows =
      update_each (restored trash_path restored_path now)
        (sort_by_length
          (filter (λ row. is_at user_id trash_path row || is_below user_id trash_path row) rows))
        rows
