-- ===== src/Tasks/Marking.antt =====
-- src/hypershell_reach/tasks.py: what `mark_mutation_pending` leaves when it returns.
use mathlib.Core.Path.{subst}
use hypershell_reach.Base.{◌≡◌, refl, sym, ◌∙◌, ap, String, true, false, Option, none, some}
use hypershell_reach.Base.Text.{str_eq_refl}
use hypershell_reach.Base.Keeps.{Keeps-gets, Keeps-lift, Keeps-raise_if}
use hypershell_reach.Base.Ensures.{
  Ensures, Ensures-after, Ensures-then, Ensures-transaction, Ensures-pure, Ensures-modify,
}
use hypershell_reach.Base.Table.{lookup, lookup-upsert}
use hypershell_reach.Tasks.Record.{TaskRecord, has_pending_mutation, decode}
use hypershell_reach.Tasks.Store.{TaskStore, row_of, lock, put, atomic_write}
use hypershell_reach.Tasks.Edits.{no_edits, marked_pending}
use hypershell_reach.Tasks.Closing.{Readings}
use hypershell_reach.Tasks.Updating.{mark_current, mark_mutation_pending}
use hypershell_reach.Tasks.Valid.{HasValidTasks, with_task}
use hypershell_reach.Tasks.Effect.{Pruned, tasks-Pruned}
use hypershell_reach.Tasks.Parts.{
  read_dir-IsFound, require_lease-Pruned, Keeps-require_writable, Keeps-validate_task_id,
  decode-eq-ok,
}
use hypershell_reach.Tasks.EditEffects.{
  build_updated-eq-ok, found_keyed, marked_pending-has_pending,
}

-- The store holds the record, current and marked with a pending mutation.
pub record IsMarked (task_id : String) (r : TaskRecord) (t : TaskStore) : Type 0 where
  pub there : lookup task_id t.tasks ≡ some (row_of false r)
  pub marked : has_pending_mutation r.continuity ≡ true

module _ (s : TaskStore) (v : HasValidTasks s) (task_id : String) where
  abbrev P : TaskStore → Type 0
  P = Pruned task_id s

  written-there :
      (r : TaskRecord)
      → r.id ≡ task_id
      → Ensures P (λ _ t. lookup task_id t.tasks ≡ some (row_of false r)) (atomic_write false r)
  unfolding atomic_write put
  written-there r keyed = Ensures-after (Keeps-require_writable P) (λ _ _.
      Ensures-after (Keeps-lift P (decode r)) (λ self decoded. Ensures-modify _ (λ t p.
        subst (λ x. lookup task_id (with_task false x t).tasks ≡ some (row_of false r))
          (decode-eq-ok r decoded)
          (lookup-upsert r.id task_id (row_of false r) t.tasks
            ∙ rw (keyed, str_eq_refl task_id) refl))))

  mark_current-Marks :
      (purpose : String) (task_lease_id : Option String) (clock : Readings)
      → Ensures P (IsMarked task_id) (mark_current task_id purpose task_lease_id clock)
  unfolding mark_current
  mark_current-Marks purpose task_lease_id clock =
      Ensures-after (read_dir-IsFound task_id s (λ t p. tasks-Pruned p) false) (λ self f.
        Ensures-after (require_lease-Pruned task_id task_lease_id clock.checked) (λ lease _.
          Ensures-after (Keeps-raise_if P _ _) (λ _ _.
            Ensures-after (Keeps-lift P _) (λ updated made.
              let after = marked_pending purpose self.continuity in
              let is_edited =
                build_updated-eq-ok self no_edits none (some after) none clock.now made in
              let keyed : updated.id ≡ task_id =
                ap (λ (x : TaskRecord). x.id) (sym is_edited) ∙ found_keyed s v task_id f in
              Ensures-then (written-there updated keyed) (λ _. Ensures-pure updated (λ t there.
                record {
                  there = there;
                  marked =
                      subst (λ (x : TaskRecord). has_pending_mutation x.continuity ≡ true) is_edited
                        (marked_pending-has_pending purpose self.continuity);
                }))))))

  pub mark-Marks :
      (purpose : String) (task_lease_id : Option String) (clock : Readings)
      → Ensures P (IsMarked task_id) (mark_mutation_pending task_id purpose task_lease_id clock)
  unfolding mark_mutation_pending lock
  mark-Marks purpose task_lease_id clock = Ensures-after (Keeps-require_writable P) (λ _ _.
      Ensures-after (Keeps-require_writable P) (λ _ _.
        Ensures-after (Keeps-validate_task_id P task_id) (λ _ _. Ensures-transaction (
          Ensures-after (Keeps-gets P _) (λ a _. Ensures-after (Keeps-gets P _) (λ b _.
            Ensures-after (Keeps-raise_if P _ _) (λ _ _.
              Ensures-after (Keeps-raise_if P _ _) (λ _ _.
                Ensures-after (Keeps-raise_if P _ _)
                  (λ _ _. mark_current-Marks purpose task_lease_id clock)))))))))
