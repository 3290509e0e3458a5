-- ===== src/Tasks/Exclusion.antt =====
-- src/hypershell_reach/tasks.py: an active execution lease, and those who do not present it.
use hypershell_reach.Base.{
  ℕ, ◌<◌, ◌≡◌, refl, ap, String, Bool, true, false, Option, none, some, arith, ltb, is_some,
}
use hypershell_reach.Base.Result.{is_ok}
use hypershell_reach.Base.Action.{Action, ◌>>=◌}
use hypershell_reach.Base.Keeps.{
  Keeps, Any, Keeps-Any, Keeps-gets, Keeps-gets_as, Keeps-lift, Keeps-raise_if,
}
use hypershell_reach.Base.Fails.{
  Fails, Fails-raise, Fails-first, Fails-then, Fails-transaction, Fails-if,
}
use hypershell_reach.Base.Table.{lookup}
use hypershell_reach.Tasks.Record.{TaskStatus, ClosingStatus}
use hypershell_reach.Tasks.Store.{
  TaskRow, LeaseRow, TaskStore, row_in, lock, directory_exists, read_dir,
}
use hypershell_reach.Tasks.Leases.{
  presents, require_execution_lease, active_execution_lease, read_execution_lease, if_active,
  authorize_execution_lease,
}
use hypershell_reach.Tasks.Edits.{TaskEdits, validate_edit_args}
use hypershell_reach.Tasks.Closing.{Readings, close_current, close}
use hypershell_reach.Tasks.Updating.{
  mark_current, mark_mutation_pending, update_current, update_archived, update_open,
  optional_closing, update_by, update,
}
use hypershell_reach.Tasks.Valid.{HasValidTasks, is_current}
use hypershell_reach.Tasks.Parts.{
  Keeps-require_writable, Keeps-validate_task_id, read_dir-IsFound, read_open-IsFound,
}

not_in_archive : (o : Option TaskRow) → is_current o ≡ true → is_some (row_in true o) ≡ false
not_in_archive none h = refl
not_in_archive (some row) h = ground arith

module _ (s : TaskStore) (task_id : String) (lease : LeaseRow) (task_lease_id : Option String)
    (clock : Readings) (v : HasValidTasks s) (leased : lookup task_id s.task_leases ≡ some lease)
    (active : clock.checked < lease.payload.expires_at)
    (foreign : presents task_lease_id lease.payload ≡ false) where
  abbrev P : TaskStore → Type 0
  P t = t ≡ s

  require_lease_at : is_ok (require_execution_lease task_id task_lease_id clock.checked s).0 ≡ false
  unfolding require_execution_lease active_execution_lease read_execution_lease if_active ◌>>=◌
  require_lease_at =
      let accepted = (v.leases task_id lease leased).accepted in
      let in_time : ltb clock.checked lease.payload.expires_at ≡ true = ground arith in ground arith

  require_lease-Fails : Fails P (require_execution_lease task_id task_lease_id clock.checked)
  require_lease-Fails = record { at = λ t p. rw p require_lease_at }

  read_one : (archived : Bool) → Keeps P Any (read_dir task_id archived)
  read_one archived =
      Keeps-Any (read_dir-IsFound task_id s (λ t p. ap (λ (x : TaskStore). x.tasks) p) archived)

  lock-Fails : {A : Type 0} (body : Action TaskStore A) → Fails P body → Fails P (lock task_id body)
  unfolding lock
  lock-Fails body k =
      Fails-then (Keeps-require_writable P)
        (λ _ _. Fails-then (Keeps-validate_task_id P task_id) (λ _ _. Fails-transaction P body k))

  mark-Fails :
      (purpose : String) → Fails P (mark_mutation_pending task_id purpose task_lease_id clock)
  unfolding mark_mutation_pending mark_current
  mark-Fails purpose = Fails-then (Keeps-require_writable P) (λ _ _. lock-Fails _ (
      Fails-then (Keeps-gets P _) (λ a _. Fails-then (Keeps-gets P _) (λ b _.
        Fails-then (Keeps-raise_if P _ _) (λ _ _. Fails-then (Keeps-raise_if P _ _) (λ _ _.
          Fails-then (Keeps-raise_if P _ _)
            (λ _ _. Fails-then (read_one false) (λ self _. Fails-first _ require_lease-Fails))))))))

  close-Fails :
      (status : ClosingStatus) (expected : Option ℕ) (edits : TaskEdits)
      → Fails P (close task_id status expected edits task_lease_id clock)
  unfolding close close_current
  close-Fails status expected edits =
      let current = (v.leases task_id lease leased).owned in
      Fails-then (Keeps-require_writable P) (λ _ _.
        Fails-then (Keeps-lift P (validate_edit_args edits)) (λ _ _. lock-Fails _ (
          Fails-then (Keeps-gets P _) (λ a _.
            Fails-then
              (Keeps-gets_as P (λ b. b ≡ directory_exists task_id true s) _
                (λ t p. ap (directory_exists task_id true) p))
              (λ in_archive is_in. Fails-then (Keeps-raise_if P _ _) (λ _ _.
                Fails-if P in_archive _ _
                  (λ there.
                    let outside = not_in_archive (lookup task_id s.tasks) current in
                    absurd (ground arith))
                  (λ _. Fails-then (Keeps-gets P _) (λ present _.
                    Fails-then (Keeps-raise_if P _ _) (λ _ _.
                      Fails-then (read_one false)
                        (λ self _. Fails-first _ require_lease-Fails))))))))))

  update_open-Fails :
      (status : Option TaskStatus) (expected : Option ℕ) (edits : TaskEdits)
      (evidence : Option String)
      → Fails P (update_open task_id status expected edits evidence task_lease_id clock)
  unfolding update_open update_archived update_current
  update_open-Fails status expected edits evidence = lock-Fails _ (
      Fails-then (Keeps-gets P _) (λ a _. Fails-then (Keeps-gets P _) (λ in_archive _.
        Fails-then (Keeps-raise_if P _ _) (λ _ _.
          Fails-if P in_archive _ _
            (λ _.
              Fails-then (read_one true)
                (λ self _. Fails-then (Keeps-raise_if P _ _) (λ _ _. Fails-raise _)))
            (λ _. Fails-then (Keeps-raise_if P _ _) (λ _ _.
              Fails-then (read_one false) (λ self _. Fails-first _ require_lease-Fails)))))))

  update_by-Fails :
      (closing : Option ClosingStatus) (status : Option TaskStatus) (expected : Option ℕ)
      (edits : TaskEdits) (evidence : Option String)
      → Fails P (update_by closing task_id status expected edits evidence task_lease_id clock)
  unfolding update_by
  update_by-Fails (some closing) status expected edits evidence =
      Fails-then (Keeps-raise_if P _ _) (λ _ _. close-Fails closing expected edits)
  update_by-Fails none status expected edits evidence =
      update_open-Fails status expected edits evidence

  update-Fails :
      (status : Option TaskStatus) (expected : Option ℕ) (edits : TaskEdits)
      (evidence : Option String)
      → Fails P (update task_id status expected edits evidence task_lease_id clock)
  unfolding update
  update-Fails status expected edits evidence = Fails-then (Keeps-require_writable P) (λ _ _.
      Fails-then (Keeps-lift P (validate_edit_args edits))
        (λ _ _. update_by-Fails (optional_closing status) status expected edits evidence))

  authorize-Fails : Fails P (authorize_execution_lease task_id task_lease_id clock.checked)
  unfolding authorize_execution_lease
  authorize-Fails = Fails-then (Keeps-require_writable P) (λ _ _. lock-Fails _ (
      Fails-then (read_open-IsFound task_id s (λ t p. ap (λ (x : TaskStore). x.tasks) p))
        (λ self _. require_lease-Fails)))

-- While a task of a store with valid rows has a lease that has not expired, `update`, `close`,
-- `mark_mutation_pending` and `authorize_execution_lease` raise for everyone who does not present
-- the ID of that lease, whatever their other arguments.
pub lease_excludes :
    (s : TaskStore) (task_id : String) (lease : LeaseRow) (task_lease_id : Option String)
    (clock : Readings) (status : Option TaskStatus) (closing : ClosingStatus) (expected : Option ℕ)
    (edits : TaskEdits) (evidence : Option String) (purpose : String)
    → HasValidTasks s
    → lookup task_id s.task_leases ≡ some lease
    → clock.checked < lease.payload.expires_at
    → presents task_lease_id lease.payload ≡ false
    → (is_ok (update task_id status expected edits evidence task_lease_id clock s).0 ≡ false)
      × (is_ok (close task_id closing expected edits task_lease_id clock s).0 ≡ false)
      × (is_ok (mark_mutation_pending task_id purpose task_lease_id clock s).0 ≡ false)
      × (is_ok (authorize_execution_lease task_id task_lease_id clock.checked s).0 ≡ false)
lease_excludes s task_id lease task_lease_id clock status closing expected edits evidence purpose v
      leased active foreign =
    (
      (update-Fails s task_id lease task_lease_id clock v leased active foreign status expected
            edits evidence).at
          s refl,
      (close-Fails s task_id lease task_lease_id clock v leased active foreign closing expected
            edits).at
          s refl,
      (mark-Fails s task_id lease task_lease_id clock v leased active foreign purpose).at s refl,
      (authorize-Fails s task_id lease task_lease_id clock v leased active foreign).at s refl,
    )
