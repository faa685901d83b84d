-- ===== src/Cache/WriteCache/Tasks/Laws.antt =====
-- src/vfs/cache/write_cache.rs: what the quota tasks add up to, the waits between attempts, and the
-- way from a logical path to a physical one and back.
use yh_filemanager_vfs_stora.Prelude.{
  ℕ, ◌≤◌, ◌<◌, ◌≡◌, refl, ◌∙◌, sym, ap, Bool, true, false, not, ◌&&◌, ◌||◌, inl, inr, Option, none,
  some, [], ◌∷◌, ◌++◌, length, length-append, arith, Bool-cases, if◌then◌else◌,
}
use yh_filemanager_vfs_stora.Prelude.Int.{ℤ, pos, ◌+ℤ◌, wrap_i64, wrap_i64_same, IsI64}
use yh_filemanager_vfs_stora.Prelude.Text.{
  Text, codes, text_eq, text_eq_iff, strip_prefix, trim_start_matches, trim_end_matches,
  trim_start_by,
}
use yh_filemanager_vfs_stora.Prelude.Table.{Table, lookup-insert, lookup-remove}
use yh_filemanager_vfs_stora.Prelude.Table
use yh_filemanager_vfs_stora.Wal.Recovery.{to_physical_user_path}
use yh_filemanager_vfs_stora.Cache.WriteCache.{
  WriteCacheManager, UserQuotaSyncTask, retry_delay_secs,
}
use yh_filemanager_vfs_stora.Cache.WriteCache.Tasks.{
  is_zero, is_exempt, schedule_quota_sync, pending_quota_delta, sync_user_quota, delta_of,
  add_delta, put_task, retried_task, physical_to_logical_path,
}

-- The wait before the next attempt is between one second and a minute, and between five seconds
-- and five minutes for a write that was logged as abnormal.
pub retry_delay_secs_bounds :
    (interval count : ℕ) (logged : Bool)
    → ((if logged then 5 else 1) ≤ retry_delay_secs interval count logged)
      × (retry_delay_secs interval count logged ≤ (if logged then 300 else 60))
unfolding retry_delay_secs
retry_delay_secs_bounds interval count true = (omega arith, omega arith)
retry_delay_secs_bounds interval count false = (omega arith, omega arith)

zero_delta : (a d : ℤ) → is_zero d ≡ true → a +ℤ d ≡ a
unfolding is_zero ◌+ℤ◌
zero_delta a d h = ground arith

zero_is : (d : ℤ) → is_zero d ≡ true → d ≡ pos 0
unfolding is_zero
zero_is d h = ground arith

from_zero : (d : ℤ) → pos 0 +ℤ d ≡ d
unfolding ◌+ℤ◌
from_zero d = ground arith

lookup-put_task :
    (user other : Text) (t : Option UserQuotaSyncTask) (tasks : Table UserQuotaSyncTask)
    → delta_of (Table.lookup other (put_task user t tasks))
      ≡ (if text_eq user other then delta_of t else delta_of (Table.lookup other tasks))
lookup-put_task user other none tasks = ground (arith, lookup-remove user other tasks)
lookup-put_task user other (some task) tasks = ground (arith, lookup-insert user other task tasks)

delta_of-add_delta :
    (user : Text) (delta : ℤ) (now : ℕ) (old : Option UserQuotaSyncTask)
    → IsI64 delta
    → delta_of (add_delta user delta now old) ≡ wrap_i64 (delta_of old +ℤ delta)
delta_of-add_delta user delta now none range =
    sym (ap wrap_i64 (from_zero delta) ∙ wrap_i64_same delta range)
delta_of-add_delta user delta now (some task) range =
    elim (Bool-cases (is_zero (wrap_i64 (task.delta +ℤ delta)))) [
      | inl y ↦ rw (y) (sym (zero_is (wrap_i64 (task.delta +ℤ delta)) y))
      | inr n ↦ rw (n) refl
    ]

delta_of-retried_task :
    (c : WriteCacheManager) (task : UserQuotaSyncTask) (now : ℕ) (old : Option UserQuotaSyncTask)
    → IsI64 task.delta
    → delta_of (some (retried_task c task now old)) ≡ wrap_i64 (delta_of old +ℤ task.delta)
delta_of-retried_task c task now none range =
    sym (ap wrap_i64 (from_zero task.delta) ∙ wrap_i64_same task.delta range)
delta_of-retried_task c task now (some current) range = refl

zero_wrapped : (a d : ℤ) → IsI64 a → is_zero d ≡ true → wrap_i64 (a +ℤ d) ≡ a
zero_wrapped a d range h = ap wrap_i64 (zero_delta a d h) ∙ wrap_i64_same a range

-- Scheduling adds the change to what is pending for the user, and to no other user; the path of a
-- thumbnail changes nothing. The sum of two `i64` wraps around.
pub pending_quota_delta-schedule_quota_sync :
    (user other path : Text) (delta : ℤ) (now : ℕ) (c : WriteCacheManager)
    → IsI64 delta
    → IsI64 (pending_quota_delta other c)
    → pending_quota_delta other (schedule_quota_sync user path delta now c) ≡ (
        if text_eq user other && not (is_exempt path)
        then wrap_i64 (pending_quota_delta other c +ℤ delta)
        else pending_quota_delta other c)
unfolding pending_quota_delta schedule_quota_sync
pending_quota_delta-schedule_quota_sync user other path delta now c range there =
    let old = Table.lookup user c.quota_sync_users in
    let t = add_delta user delta now old in
    elim (Bool-cases (is_zero delta || is_exempt path)) [
      | inl off ↦
          rw (off, schedule_quota_sync)
            (ground (arith, zero_wrapped (pending_quota_delta other c) delta there))
      | inr on ↦
          rw (on, schedule_quota_sync)
            (lookup-put_task user other t c.quota_sync_users
              ∙ ground (arith, text_eq_iff user other, delta_of-add_delta user delta now old range))
    ]

-- A task that the worker has taken and could not write is pending again, beside what was scheduled
-- meanwhile; a written one is not, and no other user is touched. The changes are `i64`, and so is
-- their sum, which wraps around.
pub pending_quota_delta-sync_user_quota :
    (user other : Text) (task : UserQuotaSyncTask) (updated : Bool) (now : ℕ)
    (c : WriteCacheManager)
    → IsI64 task.delta
    → IsI64 (pending_quota_delta other c)
    → pending_quota_delta other (sync_user_quota user task updated now c).1 ≡ (
        if text_eq user other && not updated
        then wrap_i64 (pending_quota_delta other c +ℤ task.delta)
        else pending_quota_delta other c)
unfolding pending_quota_delta sync_user_quota
pending_quota_delta-sync_user_quota user other task updated now c range there =
    let old = Table.lookup user c.quota_sync_users in
    ground (
      arith,
      text_eq_iff user other,
      zero_wrapped (pending_quota_delta other c) task.delta there,
      delta_of-retried_task c task now old range,
      lookup-insert user other (retried_task c task now old) c.quota_sync_users,
    )

trim_start_twice :
    (c : ℕ) (s : Text) → trim_start_matches c (trim_start_matches c s) ≡ trim_start_matches c s
unfolding trim_start_by
trim_start_twice c [] = refl
trim_start_twice c (x ∷ s) = ground (arith, trim_start_twice c s)

longer_not_eq : (s t : Text) → length t < length s → text_eq s t ≡ false
longer_not_eq s t h = ground (arith, text_eq_iff s t, ap {B = ℕ} length {x = s} {y = t})

strip_slash :
    (user rest : Text) → strip_prefix (user ++ (b'/' ∷ rest)) (user ++ codes "/") ≡ some rest
unfolding strip_prefix
strip_slash [] rest = ground arith
strip_slash (x ∷ user) rest = ground (arith, strip_slash user rest)

-- The physical path of a user's file leads back to the logical path, with one slash at its start
-- and none at its end.
pub physical_to_logical_path_lem :
    (user path : Text)
    → physical_to_logical_path user (to_physical_user_path user path)
      ≡ some (trim_end_matches b'/' (b'/' ∷ trim_start_matches b'/' path))
unfolding physical_to_logical_path to_physical_user_path
physical_to_logical_path_lem user path =
    let rest = trim_start_matches b'/' path in
    let physical = user ++ (b'/' ∷ rest) in
    ground (
      arith,
      longer_not_eq physical user (ground (arith, length-append user (b'/' ∷ rest))),
      strip_slash user rest,
      trim_start_twice b'/' path,
    )
