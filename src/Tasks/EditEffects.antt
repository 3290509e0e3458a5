-- ===== src/Tasks/EditEffects.antt =====
-- src/hypershell_reach/tasks.py: what `mark_mutation_pending` and other edits do to the store.
use mathlib.Core.Path.{subst}
use hypershell_reach.Base.{
  ℕ, ◌≡◌, refl, sym, ◌∙◌, String, Bool, true, false, not, ◌&&◌, Option, none, some, arith, is_some,
  ◌∷◌, [], any-append,
}
use hypershell_reach.Base.Text.{◌<>◌, starts_with-append}
use hypershell_reach.Base.Result.{ok}
use hypershell_reach.Base.Action.{pure}
use hypershell_reach.Base.Keeps.{Any, Keeps-pure, Keeps-gets, Keeps-lift, Keeps-raise_if}
use hypershell_reach.Base.Leads.{Leads, Keeps-Leads, Leads-then, Leads-after}
use hypershell_reach.Base.Table.{lookup}
use hypershell_reach.Tasks.Record.{
  TaskStatus, TaskContinuity, TaskRecord, is_open, has_pending_mutation, is_pending_blocker, decode,
}
use hypershell_reach.Tasks.Store.{TaskStore, atomic_write}
use hypershell_reach.Tasks.Edits.{
  TaskEdits, no_edits, edited, build_updated, marked_pending, pending_blocker, or_kept,
  settled_blockers,
}
use hypershell_reach.Tasks.Closing.{Readings}
use hypershell_reach.Tasks.Updating.{mark_current, mark_mutation_pending}
use hypershell_reach.Tasks.Valid.{HasValidTasks}
use hypershell_reach.Tasks.Effect.{
  Pruned, same, tasks-Pruned, Kind, reconciling, editing, Effect, nothing, edited_one, IsEdit,
}
use hypershell_reach.Tasks.Parts.{
  IsFound, read_dir-IsFound, require_lease-Pruned, Keeps-require_writable, Leads-lock,
  Leads-atomic_write,
}

-- A current task that is open, as it was read.
pub record IsCurrent (self : TaskRecord) : Type 0 where
  pub is_open_now : is_open self.status ≡ true
  pub undated : is_some self.archived_at ≡ false

pub build_updated-eq-ok :
    (self : TaskRecord) (edits : TaskEdits) (status : Option TaskStatus)
    (continuity : Option TaskContinuity) (archived_at : Option ℕ) (now : ℕ) {updated : TaskRecord}
    → build_updated self edits status continuity archived_at now ≡ ok updated
    → edited self edits status continuity archived_at now ≡ updated
unfolding build_updated
build_updated-eq-ok self edits status continuity archived_at now made = ground arith

edited-IsEdit :
    (may : String → Bool) (self : TaskRecord) (edits : TaskEdits) (status : Option TaskStatus)
    (continuity : Option TaskContinuity) (now : ℕ)
    → IsCurrent self
    → is_open (or_kept status self.status) ≡ true
    → (has_pending_mutation self.continuity
        && (not (has_pending_mutation (or_kept continuity self.continuity)) && not (may self.id)))
      ≡ false
    → decode (edited self edits status continuity none now)
      ≡ ok (edited self edits status continuity none now)
    → IsEdit may self (edited self edits status continuity none now)
edited-IsEdit may self edits status continuity now current open_status gate accepted = record {
  same_id = refl;
  next_revision = refl;
  same_creation = refl;
  sound = record {
    keyed = refl;
    columns = refl;
    accepted = accepted;
    placed = ground arith;
    dated = current.undated;
    settled = refl;
    finished = ground arith;
  };
  gate = gate;
}

pub and_false : (b : Bool) → (b && false) ≡ false
and_false true = refl
and_false false = refl

pending_is_pending : (purpose : String) → is_pending_blocker (pending_blocker purpose) ≡ true
unfolding is_pending_blocker
pending_is_pending purpose = starts_with-append "[reach:pending-mutation]" (
    " Mutating execution requires postcondition reconciliation before Task completion. Latest purpose: "
    <> purpose)

pub marked_pending-has_pending :
    (purpose : String) (c : TaskContinuity) → has_pending_mutation (marked_pending purpose c) ≡ true
marked_pending-has_pending purpose c = ground (
  arith,
  any-append is_pending_blocker (settled_blockers c) (pending_blocker purpose ∷ []),
  pending_is_pending purpose,
)

module _ (s : TaskStore) (v : HasValidTasks s) (task_id : String) {self : TaskRecord} where
  pub found_keyed : {archived : Bool} → IsFound task_id archived s self → self.id ≡ task_id
  found_keyed f = subst (λ x. x.id ≡ task_id) f.read (v.rows task_id f.row f.there).keyed

  pub found-IsCurrent : IsFound task_id false s self → IsCurrent self
  found-IsCurrent f =
      let w = v.rows task_id f.row f.there in
      subst IsCurrent f.read
        (record { is_open_now = ground (arith, w.placed, f.placed); undated = w.dated ∙ f.placed })

module _ (may : Kind → String → Bool) (s : TaskStore) (v : HasValidTasks s) (task_id : String) where
  abbrev P : TaskStore → Type 0
  P = Pruned task_id s

  abbrev R : TaskStore → Type 0
  R = Effect may s

  pub out : (t : TaskStore) → P t → R t
  out t p = nothing task_id p

  pub keep_out : {A : Type 0} (a : A) → Leads R R (pure a)
  keep_out a = Keeps-Leads (Keeps-pure R Any a tt) (λ t r. r)

  -- The write of an edited record, which `mark_mutation_pending` and `update` end with.
  pub write_edit-Leads :
      (self : TaskRecord) (edits : TaskEdits) (status : Option TaskStatus)
      (continuity : Option TaskContinuity) (now : ℕ) {updated : TaskRecord}
      → IsFound task_id false s self
      → is_open (or_kept status self.status) ≡ true
      → (has_pending_mutation self.continuity
          && (not (has_pending_mutation (or_kept continuity self.continuity))
              && not (may reconciling self.id)))
        ≡ false
      → build_updated self edits status continuity none now ≡ ok updated
      → may editing task_id ≡ true
      → Leads P R (atomic_write false updated)
  write_edit-Leads self edits status continuity now {updated} f open_status gate made allowed =
      let is_edited = build_updated-eq-ok self edits status continuity none now made in
      subst (λ r. Leads P R (atomic_write false r)) is_edited
        (Leads-atomic_write P R out false (edited self edits status continuity none now)
          (λ t accepted p.
            let is_edit =
              edited-IsEdit (may reconciling) self edits status continuity now
                (found-IsCurrent s v task_id f) open_status gate accepted in
            let keyed = found_keyed s v task_id f in
            edited_one f.row (edited self edits status continuity none now)
              (subst (λ k. may editing k ≡ true) (sym keyed) allowed)
              (subst (λ k. lookup k s.tasks ≡ some f.row) (sym keyed) f.there) f.placed
              (subst (λ x. IsEdit (may reconciling) x _) (sym f.read) is_edit)
              (subst (λ k. Pruned k s t) (sym keyed) p) refl))

  mark_current-Leads :
      (purpose : String) (task_lease_id : Option String) (clock : Readings)
      → may editing task_id ≡ true
      → Leads P R (mark_current task_id purpose task_lease_id clock)
  unfolding mark_current
  mark_current-Leads purpose task_lease_id clock allowed =
      Leads-then out (read_dir-IsFound task_id s (λ t p. tasks-Pruned p) false) (λ self f.
        Leads-then out (require_lease-Pruned task_id task_lease_id clock.checked) (λ lease _.
          Leads-then out (Keeps-raise_if P _ _) (λ _ _.
            Leads-then out (Keeps-lift P _) (λ updated made.
              Leads-after
                (write_edit-Leads self no_edits none (some (marked_pending purpose self.continuity))
                  clock.now f (found-IsCurrent s v task_id f).is_open_now
                  (rw (marked_pending-has_pending purpose self.continuity)
                    (and_false (has_pending_mutation self.continuity)))
                  made allowed)
                (λ _. keep_out updated)))))

  pub mark-Effect :
      (purpose : String) (task_lease_id : Option String) (clock : Readings)
      → may editing task_id ≡ true
      → Effect may s (mark_mutation_pending task_id purpose task_lease_id clock s).1
  unfolding mark_mutation_pending
  mark-Effect purpose task_lease_id clock allowed =
      let l = Leads-then out (Keeps-require_writable P) (λ _ _. Leads-lock P R out task_id _ (
        Leads-then out (Keeps-gets P _) (λ a _. Leads-then out (Keeps-gets P _) (λ b _.
          Leads-then out (Keeps-raise_if P _ _) (λ _ _.
            Leads-then out (Keeps-raise_if P _ _) (λ _ _.
              Leads-then out (Keeps-raise_if P _ _)
                (λ _ _. mark_current-Leads purpose task_lease_id clock allowed))))))) in
      l.at s same
