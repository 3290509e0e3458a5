-- ===== src/Tasks/UpdateEffects.antt =====
-- src/hypershell_reach/tasks.py: what `update` and `close` do to the store.
use mathlib.Core.Path.{subst}
use hypershell_reach.Base.{
  ℕ, ◌≡◌, refl, sym, String, Bool, true, false, not, ◌&&◌, Option, none, some, arith, is_some,
}
use hypershell_reach.Base.Keeps.{
  Keeps, Any, Keeps-then, Keeps-pure, Keeps-gets, Keeps-lift, Keeps-raise_if, Keeps-raise,
  Keeps-weaken,
}
use hypershell_reach.Base.Leads.{Leads, Keeps-Leads, Leads-then, Leads-if, Leads-after}
use hypershell_reach.Tasks.Record.{TaskStatus, TaskContinuity, is_open, has_pending_mutation}
use hypershell_reach.Tasks.Store.{TaskStore, read_dir}
use hypershell_reach.Tasks.Edits.{TaskEdits, ContinuityPatch, or_kept}
use hypershell_reach.Tasks.Closing.{Readings}
use hypershell_reach.Tasks.Updating.{
  merge_or_keep, reconcile, drops_mark, if_changed, update_current, update_archived, update_open,
  optional_closing,
}
use hypershell_reach.Tasks.Valid.{HasValidTasks}
use hypershell_reach.Tasks.Effect.{Kind, editing, reconciling, Pruned, tasks-Pruned, Effect}
use hypershell_reach.Tasks.Parts.{IsFound, read_dir-IsFound, require_lease-Pruned, Leads-lock}
use hypershell_reach.Tasks.EditEffects.{
  found_keyed, found-IsCurrent, out, keep_out, write_edit-Leads,
}

-- Without evidence the continuity is the merged one.
abbrev IsReconciled : Option String → TaskContinuity → TaskContinuity → Type 0
IsReconciled none merged c = c ≡ merged
IsReconciled (some evidence) merged c = Unit

reconcile-IsReconciled :
    (P : TaskStore → Type 0) (evidence : Option String) (before merged : TaskContinuity)
    → Keeps P (IsReconciled evidence merged) (reconcile evidence before merged)
unfolding reconcile
reconcile-IsReconciled P none before merged = Keeps-pure P _ merged refl
reconcile-IsReconciled P (some evidence) before merged =
    Keeps-then (Keeps-raise_if P _ _) (λ _ _. Keeps-weaken (Keeps-lift P _) (λ c _. tt))

open_or_kept :
    (status : Option TaskStatus) (current : TaskStatus)
    → optional_closing status ≡ none
    → is_open current ≡ true
    → is_open (or_kept status current) ≡ true
open_or_kept none current not_closing now = now
open_or_kept (some status) current not_closing now = ground arith

update_gate :
    (patch : Option ContinuityPatch) (evidence : Option String) (before merged c : TaskContinuity)
    (may : Bool)
    → (is_some evidence ≡ true → may ≡ true)
    → drops_mark evidence before merged ≡ false
    → IsReconciled evidence merged c
    → (has_pending_mutation before
        && (not (has_pending_mutation (or_kept (if_changed patch evidence c) before)) && not may))
      ≡ false
update_gate none none before merged c may allowed gate is_c = ground arith
update_gate (some patch) none before merged c may allowed gate is_c = rw is_c (ground arith)
update_gate patch (some evidence) before merged c may allowed gate is_c =
    rw (allowed refl) (ground arith)

module _ (may : Kind → String → Bool) (s : TaskStore) (v : HasValidTasks s) (task_id : String) where
  abbrev P : TaskStore → Type 0
  P = Pruned task_id s

  abbrev R : TaskStore → Type 0
  R = Effect may s

  leave : (t : TaskStore) → P t → R t
  leave = out may s v task_id

  read_current : Keeps P (IsFound task_id false s) (read_dir task_id false)
  read_current = read_dir-IsFound task_id s (λ t p. tasks-Pruned p) false

  update_current-Leads :
      (status : Option TaskStatus) (expected : Option ℕ) (edits : TaskEdits)
      (evidence task_lease_id : Option String) (clock : Readings)
      → optional_closing status ≡ none
      → may editing task_id ≡ true
      → (is_some evidence ≡ true → may reconciling task_id ≡ true)
      → Leads P R (update_current task_id status expected edits evidence task_lease_id clock)
  unfolding update_current
  update_current-Leads status expected edits evidence task_lease_id clock not_closing editable
        allowed =
      Leads-then leave read_current (λ self f.
        Leads-then leave (require_lease-Pruned task_id task_lease_id clock.checked) (λ lease _.
          Leads-then leave (Keeps-raise_if P _ _) (λ _ _.
            Leads-then leave (Keeps-raise_if P _ _) (λ _ _.
              Leads-then leave (Keeps-raise_if P _ _) (λ _ _.
                Leads-then leave (Keeps-lift P (merge_or_keep self.continuity edits.continuity))
                  (λ merged _. Leads-then leave (Keeps-raise_if P _ _) (λ _ gate.
                    Leads-then leave (reconcile-IsReconciled P evidence self.continuity merged)
                      (λ c is_c. Leads-then leave (Keeps-lift P _) (λ updated made.
                        Leads-after
                          (write_edit-Leads may s v task_id self edits status
                            (if_changed edits.continuity evidence c) clock.now f
                            (open_or_kept status self.status not_closing
                              (found-IsCurrent s v task_id f).is_open_now)
                            (update_gate edits.continuity evidence self.continuity merged c
                              (may reconciling self.id)
                              (λ given.
                                subst (λ k. may reconciling k ≡ true)
                                  (sym (found_keyed s v task_id f)) (allowed given))
                              gate is_c)
                            made editable)
                          (λ _. keep_out may s v task_id updated))))))))))

  pub update_open-Leads :
      (status : Option TaskStatus) (expected : Option ℕ) (edits : TaskEdits)
      (evidence task_lease_id : Option String) (clock : Readings)
      → optional_closing status ≡ none
      → may editing task_id ≡ true
      → (is_some evidence ≡ true → may reconciling task_id ≡ true)
      → Leads P R (update_open task_id status expected edits evidence task_lease_id clock)
  unfolding update_open update_archived
  update_open-Leads status expected edits evidence task_lease_id clock not_closing editable
        allowed =
      Leads-lock P R leave task_id _ (
        Leads-then leave (Keeps-gets P _) (λ a _. Leads-then leave (Keeps-gets P _) (λ in_archive _.
          Leads-then leave (Keeps-raise_if P _ _) (λ _ _.
            Leads-if P R in_archive _ _
              (λ _.
                Leads-then leave (read_dir-IsFound task_id s (λ t p. tasks-Pruned p) true)
                  (λ self f.
                    Leads-then leave (Keeps-raise_if P _ _)
                      (λ _ _. Keeps-Leads (Keeps-raise P Any _) leave)))
              (λ _. Leads-then leave (Keeps-raise_if P _ _) (λ _ _.
                update_current-Leads status expected edits evidence task_lease_id clock not_closing
                  editable allowed))))))
