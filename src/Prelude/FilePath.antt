-- ===== src/Prelude/FilePath.antt =====
-- `std::path::Path` on Unix, for what the program asks of it. `parent` is that of paths without
-- `.` components.
use mathlib.Core.Bool.{Bool, ◌||◌}
use mathlib.Core.List.{List, [], ◌∷◌, ◌++◌}
use mathlib.Core.Option.{Option, none, some}
use yh_filemanager_vfs_stora.Prelude.Tests.{if◌then◌else◌}
use yh_filemanager_vfs_stora.Prelude.Text.{
  Text, codes, text_eq, is_empty, split, rsplit_once, trim_end_matches, starts_with,
}

-- The components of a path, but for its root.
abbrev components : List Text → List Text
components [] = []
components (s ∷ ss) =
    let rest = components ss in if is_empty s || text_eq s (codes ".") then rest else s ∷ rest

abbrev last_of : List Text → Option Text
last_of [] = none
last_of (s ∷ []) = some s
last_of (s ∷ t ∷ ss) = last_of (t ∷ ss)

abbrev no_parent : Option Text → Option Text
no_parent none = none
no_parent (some s) = if text_eq s (codes "..") then none else some s

-- `Path::file_name`.
unfoldable pub path_file_name : Text → Option Text
unfolding split text_eq
path_file_name path = no_parent (last_of (components (split b'/' path)))

-- `Path::parent` as a text, and `/` where it is empty or there is none.
unfoldable pub parent_or_root : Text → Text
unfolding rsplit_once
parent_or_root path = elim (rsplit_once b'/' (trim_end_matches b'/' path)) [
  | none ↦ codes "/"
  | some (before, name) ↦
      let parent = trim_end_matches b'/' before in if is_empty parent then codes "/" else parent
]

-- `Path::starts_with`.
unfoldable pub path_starts_with : Text → Text → Bool
path_starts_with path dir = text_eq path dir || starts_with path (dir ++ codes "/")
