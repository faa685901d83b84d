-- ===== src/Maintenance.antt =====
-- src/vfs/maintenance_mode.rs: the set of users whose files are locked while their operations are
-- recovered. The set is global; a guard is the obligation to unlock at the end of its scope.
use yh_filemanager_vfs_stora.Prelude.{
  ◌≡◌, Bool, true, false, not, ◌&&◌, ◌||◌, List, [], ◌∷◌, any, arith, if◌then◌else◌,
}
use yh_filemanager_vfs_stora.Prelude.Text.{Text, text_eq, text_eq_iff}

abbrev pub LockedUsers : Type 0
LockedUsers = List Text

unfoldable pub is_user_under_maintenance : Text → LockedUsers → Bool
is_user_under_maintenance user = any (λ u. text_eq u user)

-- `DashSet::insert` and `DashSet::remove`.
unfoldable pub enter_user_maintenance : Text → LockedUsers → LockedUsers
unfolding is_user_under_maintenance
enter_user_maintenance user locked =
    if is_user_under_maintenance user locked then locked else user ∷ locked

unfoldable pub exit_user_maintenance : Text → LockedUsers → LockedUsers
exit_user_maintenance user [] = []
exit_user_maintenance user (u ∷ locked) =
    let rest = exit_user_maintenance user locked in if text_eq u user then rest else u ∷ rest

-- What the end of a guard's scope does.
abbrev pub drop_guard : Text → LockedUsers → LockedUsers
drop_guard = exit_user_maintenance

abbrev pub clear_all_maintenance : LockedUsers → LockedUsers
clear_all_maintenance locked = []

abbrev pub is_maintenance_mode : LockedUsers → Bool
is_maintenance_mode [] = false
is_maintenance_mode (u ∷ locked) = true

-- Entering locks this user and no other.
pub locked-enter :
    (user other : Text) (locked : LockedUsers)
    → is_user_under_maintenance other (enter_user_maintenance user locked)
      ≡ (text_eq user other || is_user_under_maintenance other locked)
unfolding enter_user_maintenance
locked-enter user other locked = ground (arith, text_eq_iff user other)

-- Leaving unlocks this user and no other.
pub locked-exit :
    (user other : Text) (locked : LockedUsers)
    → is_user_under_maintenance other (exit_user_maintenance user locked)
      ≡ (not (text_eq user other) && is_user_under_maintenance other locked)
unfolding exit_user_maintenance is_user_under_maintenance
locked-exit user other [] = ground arith
locked-exit user other (u ∷ locked) = ground (
  arith,
  locked-exit user other locked,
  text_eq_iff user other,
  text_eq_iff u user,
  text_eq_iff u other,
)

-- The guards are not counted: where two recoveries hold a guard of one user, the end of the first
-- unlocks the user while the second is still at work.
pub locked_drop_first :
    (user : Text) (locked : LockedUsers)
    → is_user_under_maintenance user
        (drop_guard user (enter_user_maintenance user (enter_user_maintenance user locked)))
      ≡ false
locked_drop_first user locked = ground (
  arith,
  locked-exit user user (enter_user_maintenance user (enter_user_maintenance user locked)),
  text_eq_iff user user,
)
