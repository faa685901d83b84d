-- ===== src/Wal/Journal/Rows.antt =====
-- The rows of the journal under the operations of src/vfs/wal/mod.rs.
use yh_filemanager_vfs_stora.Prelude.{
  ℕ, suc, ◌<◌, ◌≡◌, ◌≢◌, refl, Bool, true, false, inl, inr, Option, none, some, Result, ok, err,
  List, [], ◌∷◌, ◌++◌, All, ◌==◌, if◌then◌else◌, arith, Bool-cases, Option-cases,
}
use yh_filemanager_vfs_stora.Prelude.Text.{Text, codes}
use yh_filemanager_vfs_stora.Wal.Operation.{WalOperation, operation_name}
use yh_filemanager_vfs_stora.Wal.Status.{pending, completed, parse}
use yh_filemanager_vfs_stora.Wal.Journal.{
  Journal, WalRow, update_row, find_row, with_status, pending_row, log_operation,
  mark_issue_handled, handled_note, handled_reason,
}

-- Every id is below the next one, and no id stands twice.
abbrev pub Fresh : ℕ → List WalRow → Type 0
Fresh id rows = find_row id rows ≡ none

abbrev pub DistinctIds : List WalRow → Type 0
DistinctIds [] = Unit
DistinctIds (r ∷ rs) = Fresh r.id rs × DistinctIds rs

pub record IsJournal (j : Journal) : Type 0 where
  pub below : All (λ r. r.id < j.next_id) j.rows
  pub distinct : DistinctIds j.rows

find_row_above : (n : ℕ) (rows : List WalRow) → All (λ r. r.id < n) rows → find_row n rows ≡ none
unfolding find_row
find_row_above n [] h = refl
find_row_above n (r ∷ rs) h = ground (arith, find_row_above n rs h.1)

find_row-append :
    (n : ℕ) (rows : List WalRow) (row : WalRow)
    → find_row n (rows ++ row ∷ [])
      ≡ (elim (find_row n rows) [ none ↦ if row.id == n then some row else none | some r ↦ some r ])
unfolding find_row
find_row-append n [] row = refl
find_row-append n (r ∷ rs) row = ground (arith, find_row-append n rs row)

below-append :
    (n : ℕ) (rows : List WalRow) (row : WalRow)
    → All (λ r. r.id < n) rows
    → row.id ≡ n
    → All (λ r. r.id < suc n) (rows ++ row ∷ [])
below-append n [] row h e = (omega arith, tt)
below-append n (r ∷ rs) row h e = (omega arith, below-append n rs row h.1 e)

distinct-append :
    (rows : List WalRow) (row : WalRow)
    → DistinctIds rows
    → All (λ r. r.id < row.id) rows
    → DistinctIds (rows ++ row ∷ [])
unfolding find_row
distinct-append [] row d h = (refl, tt)
distinct-append (r ∷ rs) row d h =
    (ground (arith, find_row-append r.id rs row), distinct-append rs row d.1 h.1)

-- Logging keeps the ids distinct and below the next one, whether or not the database fails.
pub log_operation-IsJournal :
    (encode : WalOperation → Text) (user_id : Text) (op : WalOperation) (j : Journal)
    → IsJournal j
    → IsJournal (log_operation encode user_id op j).1
unfolding log_operation
log_operation-IsJournal encode user_id op j v = log_cases j.faults refl
  where
    row : WalRow
    row = pending_row j.next_id user_id (operation_name op) (encode op) j.clock

    logged :
        (fs : List Bool)
        → IsJournal (record j { rows = j.rows ++ row ∷ []; next_id = suc j.next_id; faults = fs })
    logged fs = record {
      below = below-append j.next_id j.rows row v.below refl;
      distinct = distinct-append j.rows row v.distinct v.below;
    }

    log_cases : (fs : List Bool) → j.faults ≡ fs → IsJournal (log_operation encode user_id op j).1
    log_cases [] e = rw (e, log_operation) (logged [])
    log_cases (true ∷ fs) e =
        rw (e, log_operation) (record { below = v.below; distinct = v.distinct })
    log_cases (false ∷ fs) e = rw (e, log_operation) (logged fs)

-- What is logged is found again: if the database takes the row, the id that is returned leads to
-- a pending row of the user, from whose data `decode` reads the operation back.
pub find_row-log_operation :
    (encode : WalOperation → Text) (decode : Text → Result Text WalOperation) (user_id : Text)
    (op : WalOperation) (j j' : Journal) (id : ℕ)
    → decode (encode op) ≡ ok op
    → IsJournal j
    → log_operation encode user_id op j ≡ (ok id, j')
    → (row : WalRow) × (find_row id j'.rows ≡ some row)
      × (parse row.status ≡ pending)
      × (row.user_id ≡ user_id)
      × (decode row.operation_data ≡ ok op)
unfolding log_operation parse
find_row-log_operation encode decode user_id op j j' id reads v e = (
  pending_row j.next_id user_id (operation_name op) (encode op) j.clock,
  ground (
    arith,
    find_row_above j.next_id j.rows v.below,
    find_row-append j.next_id j.rows
        (pending_row j.next_id user_id (operation_name op) (encode op) j.clock),
  ),
  refl,
  refl,
  reads,
)

abbrev map_row : (WalRow → WalRow) → Option WalRow → Option WalRow
map_row f none = none
map_row f (some r) = some (f r)

-- An update reaches the row with its id, and no other.
pub find_row-update_row :
    (n id : ℕ) (f : WalRow → WalRow) (rows : List WalRow)
    → ((r : WalRow) → (f r).id ≡ r.id)
    → find_row n (update_row id f rows)
      ≡ (if id == n then map_row f (find_row n rows) else find_row n rows)
unfolding find_row update_row
find_row-update_row n id f [] same = ground arith
find_row-update_row n id f (r ∷ rs) same =
    ground (arith, same r, find_row-update_row n id f rs same)

-- Two updates of one row are one.
pub update_row-update_row :
    (id : ℕ) (f g : WalRow → WalRow) (rows : List WalRow)
    → ((r : WalRow) → (f r).id ≡ r.id)
    → update_row id g (update_row id f rows) ≡ update_row id (λ r. g (f r)) rows
unfolding update_row
update_row-update_row id f g [] same = refl
update_row-update_row id f g (r ∷ rs) same = elim (Bool-cases (r.id == id)) [
  | inl e ↦ rw e (ground (arith, same r, update_row-update_row id f g rs same))
  | inr e ↦ rw e (ground (arith, update_row-update_row id f g rs same))
]

-- An administrator's mark on a row that the journal has, while the database answers: the row is
-- completed with the note behind the reasons that it had, and every other row is as it was. A row
-- that the journal does not have gives an error and changes nothing.
pub mark_issue_handled_lem :
    (id : ℕ) (note : Option Text) (j : Journal)
    → j.faults ≡ []
    → let (r, j') = mark_issue_handled id note j in
      ((row : WalRow)
        → find_row id j.rows ≡ some row
        → (r ≡ ok tt)
          × (find_row id j'.rows
              ≡ some (
                  with_status completed
                    (some (handled_reason row.failure_reason (handled_note note)))
                    j.clock
                    row)))
      × ((n : ℕ) → n ≢ id → find_row n j'.rows ≡ find_row n j.rows)
      × (find_row id j.rows ≡ none → (j' ≡ j) × (r ≡ err (codes "WAL log not found")))
unfolding mark_issue_handled
mark_issue_handled_lem id note j up = elim (Option-cases (find_row id j.rows)) [
  | inl e ↦ rw (up, e, mark_issue_handled) (λ row h. absurd (cc), λ n h. refl, λ h. (refl, refl))
  | inr (row, e) ↦
      let f =
        with_status completed (some (handled_reason row.failure_reason (handled_note note)))
          j.clock in
      rw (up, e, mark_issue_handled)
        (
          λ row' h. (refl, ground (arith, find_row-update_row id id f j.rows (λ r. refl))),
          λ n h. ground (arith, find_row-update_row n id f j.rows (λ r. refl)),
          λ h. absurd (cc),
        )
]
