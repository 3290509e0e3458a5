-- ===== src/Tasks/CloseEffects.antt =====
-- src/hypershell_reach/tasks.py: what `close` does to the store, and what calls `close`.
use mathlib.Core.Path.{subst}
use hypershell_reach.Base.{
  ℕ, ◌≡◌, refl, sym, ap, ◌∙◌, String, Bool, true, false, not, ◌&&◌, Option, none, some, arith,
  Bool-cases, is_some, is_none, is_nonempty, inl, inr, and-true,
}
use hypershell_reach.Base.Result.{Error, ok, err, Result-cases}
use hypershell_reach.Base.Action.{◌>>=◌, ◌>>◌}
use hypershell_reach.Base.Keeps.{Keeps, Any, Keeps-gets, Keeps-lift, Keeps-raise_if, Keeps-raise}
use hypershell_reach.Base.Leads.{
  Leads, Keeps-Leads, Leads-then, Leads-if, Leads-after, Leads-modify,
}
use hypershell_reach.Base.Table.{lookup}
use hypershell_reach.Tasks.Record.{
  TaskStatus, ClosingStatus, as_completed, as_cancelled, status_of, TaskContinuity, TaskRecord,
  is_open, has_pending_mutation, decode,
}
use hypershell_reach.Tasks.Store.{TaskStore, atomic_write, require_writable, read_dir, put}
use hypershell_reach.Tasks.Leases.{remove_execution_lease}
use hypershell_reach.Tasks.Edits.{TaskEdits, edited, validate_edit_args, merge_optional}
use hypershell_reach.Tasks.Closing.{
  Readings, close_again, close_archived, settle_archive, close_now, close_current, close,
  is_completed,
}
use hypershell_reach.Tasks.Updating.{optional_closing, update_by, update}
use hypershell_reach.Tasks.Valid.{HasValidTasks, with_task, without_lease, is_finished}
use hypershell_reach.Tasks.Effect.{
  Kind, editing, closing, reconciling, Pruned, same, dropped, tasks-Pruned, Effect, nothing,
  closed_one, IsClose,
}
use hypershell_reach.Tasks.Parts.{
  IsFound, read_dir-IsFound, require_lease-Pruned, Keeps-require_writable, Leads-lock, sealed,
  sealed_lem, decode-eq-ok,
}
use hypershell_reach.Tasks.EditEffects.{
  IsCurrent, found_keyed, found-IsCurrent, out, keep_out, build_updated-eq-ok,
}
use hypershell_reach.Tasks.Equality.{desired_close_matches}
use hypershell_reach.Tasks.UpdateEffects.{update_open-Leads}

is_none_of : {A : Type 0} (o : Option A) → is_some o ≡ false → is_none o ≡ true
is_none_of none h = refl
is_none_of (some a) h = cc

not_committed :
    (self : TaskRecord)
    → IsCurrent self
    → (not (is_open self.status) && is_some self.archived_at) ≡ true
    → ⊥
not_committed self current committed = ground arith

sealed_read_only : (r : TaskRecord) (t : TaskStore) → t.read_only ≡ true → (sealed r t).1 ≡ t
unfolding atomic_write require_writable ◌>>=◌
sealed_read_only r t closed = ground arith

sealed_refused :
    (r : TaskRecord) (t : TaskStore) (e : Error)
    → t.read_only ≡ false
    → decode r ≡ err e
    → (sealed r t).1 ≡ t
unfolding atomic_write put require_writable ◌>>=◌
sealed_refused r t e open_store refused = ground arith

closing_is_terminal : (status : ClosingStatus) → is_open (status_of status) ≡ false
closing_is_terminal as_completed = refl
closing_is_terminal as_cancelled = refl

closed_is_finished :
    (status : ClosingStatus) (r : TaskRecord)
    → r.status ≡ status_of status
    → (is_completed status && is_some r.next_action) ≡ false
    → (is_completed status && is_nonempty r.continuity.blockers) ≡ false
    → is_finished r ≡ true
closed_is_finished as_completed r is_status no_action no_blockers =
    rw is_status (and-true (is_none_of r.next_action no_action) (ap not no_blockers))
closed_is_finished as_cancelled r is_status no_action no_blockers = rw is_status refl

closed_IsClose :
    (status : ClosingStatus) (self : TaskRecord) (edits : TaskEdits)
    (continuity : Option TaskContinuity) (archived_at now : ℕ) (r : TaskRecord)
    → edited self edits (some (status_of status)) continuity (some archived_at) now ≡ r
    → has_pending_mutation self.continuity ≡ false
    → has_pending_mutation r.continuity ≡ false
    → (is_completed status && is_some r.next_action) ≡ false
    → (is_completed status && is_nonempty r.continuity.blockers) ≡ false
    → decode r ≡ ok r
    → IsClose status self r
closed_IsClose status self edits continuity archived_at now r is_r no_mutation settled no_action
      no_blockers accepted =
    let is_status = ap (λ (x : TaskRecord). x.status) (sym is_r) in
    record {
      same_id = ap (λ (x : TaskRecord). x.id) (sym is_r);
      next_revision = ap (λ (x : TaskRecord). x.revision) (sym is_r);
      same_creation = ap (λ (x : TaskRecord). x.created_at) (sym is_r);
      sound = record {
        keyed = refl;
        columns = refl;
        accepted = accepted;
        placed = sym (ap (λ x. not (is_open x)) is_status ∙ ap not (closing_is_terminal status));
        dated = ap (λ (x : TaskRecord). is_some x.archived_at) (sym is_r);
        settled = settled;
        finished = closed_is_finished status r is_status no_action no_blockers;
      };
      closed = is_status;
      no_mutation = no_mutation;
    }

module _ (may : Kind → String → Bool) (s : TaskStore) (v : HasValidTasks s) (task_id : String) where
  abbrev P : TaskStore → Type 0
  P = Pruned task_id s

  abbrev R : TaskStore → Type 0
  R = Effect may s

  leave : (t : TaskStore) → P t → R t
  leave = out may s v task_id

  read_current : Keeps P (IsFound task_id false s) (read_dir task_id false)
  read_current = read_dir-IsFound task_id s (λ t p. tasks-Pruned p) false

  sealed-Leads :
      (r : TaskRecord)
      → ((t : TaskStore) → decode r ≡ ok r → P t → R (without_lease r.id (with_task true r t)))
      → Leads P R (sealed r)
  sealed-Leads r done = record {
    at = λ t p. elim (Bool-cases t.read_only) [
      | inl closed ↦ subst R (sym (sealed_read_only r t closed)) (leave t p)
      | inr open_store ↦ elim (Result-cases (decode r)) [
        | inr (e, refused) ↦ subst R (sym (sealed_refused r t e open_store refused)) (leave t p)
        | inl (x, read) ↦
            let accepted = subst (λ y. decode r ≡ ok y) (sym (decode-eq-ok r read)) read in
            subst R (sym (ap (λ y. y.1) (sealed_lem r t open_store accepted))) (done t accepted p)
      ]
    ];
  }

  close_now-Leads :
      (status : ClosingStatus) (expected : Option ℕ) (edits : TaskEdits) (clock : Readings)
      (self : TaskRecord)
      → IsFound task_id false s self
      → has_pending_mutation self.continuity ≡ false
      → may closing task_id ≡ true
      → Leads P R (close_now task_id status expected edits clock self)
  unfolding close_now
  close_now-Leads status expected edits clock self f no_mutation allowed =
      Leads-then leave (Keeps-raise_if P _ _) (λ _ _.
        Leads-then leave (Keeps-lift P (merge_optional self.continuity edits.continuity))
          (λ merged _. Leads-then leave (Keeps-lift P _) (λ updated made.
            Leads-then leave (Keeps-raise_if P _ _) (λ _ settled.
              Leads-then leave (Keeps-raise_if P _ _) (λ _ no_action.
                Leads-then leave (Keeps-raise_if P _ _) (λ _ no_blockers.
                  let is_r =
                    build_updated-eq-ok self edits (some (status_of status)) merged
                      (some clock.archived_at) clock.now made in
                  let keyed = found_keyed s v task_id f in
                  let keyed_r = ap (λ (x : TaskRecord). x.id) (sym is_r) ∙ keyed in
                  subst (λ k. Leads P R (do atomic_write false updated; settle_archive k)) keyed_r
                    (sealed-Leads updated (λ t accepted p.
                      closed_one status f.row updated
                        (subst (λ k. may closing k ≡ true) (sym keyed_r) allowed)
                        (subst (λ k. lookup k s.tasks ≡ some f.row) (sym keyed_r) f.there) f.placed
                        (subst (λ x. IsClose status x updated) (sym f.read)
                          (closed_IsClose status self edits merged clock.archived_at clock.now
                            updated is_r no_mutation settled no_action no_blockers accepted))
                        (subst (λ k. Pruned k s t) (sym keyed_r) p) refl))))))))

  close_current-Leads :
      (status : ClosingStatus) (expected : Option ℕ) (edits : TaskEdits)
      (task_lease_id : Option String) (clock : Readings)
      → may closing task_id ≡ true
      → Leads P R (close_current task_id status expected edits task_lease_id clock)
  unfolding close_current
  close_current-Leads status expected edits task_lease_id clock allowed =
      Leads-then leave (Keeps-gets P _) (λ a _. Leads-then leave (Keeps-raise_if P _ _) (λ _ _.
        Leads-then leave read_current (λ self f.
          Leads-then leave (require_lease-Pruned task_id task_lease_id clock.checked) (λ lease _.
            Leads-then leave (Keeps-raise_if P _ _) (λ _ no_mutation.
              Leads-then leave (Keeps-raise_if P _ _) (λ _ _.
                Leads-if P R _ _ _
                  (λ committed.
                    absurd (not_committed self (found-IsCurrent s v task_id f) committed))
                  (λ _.
                    close_now-Leads status expected edits clock self f no_mutation allowed)))))))

  close_again-Leads :
      (status : ClosingStatus) (self : TaskRecord) (agrees : Bool)
      → Leads P R (close_again task_id status self agrees)
  unfolding close_again remove_execution_lease
  close_again-Leads status self true =
      Leads-after (Leads-modify _ (λ t p. nothing task_id (dropped p)))
        (λ _. keep_out may s v task_id self)
  close_again-Leads status self false =
      Leads-then leave (Keeps-raise_if P _ _) (λ _ _. Keeps-Leads (Keeps-raise P Any _) leave)

  close_archived-Leads :
      (status : ClosingStatus) (edits : TaskEdits) → Leads P R (close_archived task_id status edits)
  unfolding close_archived
  close_archived-Leads status edits =
      Leads-then leave (read_dir-IsFound task_id s (λ t p. tasks-Pruned p) true) (λ self f.
        Leads-then leave (Keeps-raise_if P _ _) (λ _ _.
          Leads-then leave (Keeps-lift P (desired_close_matches self status edits))
            (λ agrees _. close_again-Leads status self agrees)))

  pub close-Leads :
      (status : ClosingStatus) (expected : Option ℕ) (edits : TaskEdits)
      (task_lease_id : Option String) (clock : Readings)
      → may closing task_id ≡ true
      → Leads P R (close task_id status expected edits task_lease_id clock)
  unfolding close
  close-Leads status expected edits task_lease_id clock allowed =
      Leads-then leave (Keeps-require_writable P) (λ _ _.
        Leads-then leave (Keeps-lift P (validate_edit_args edits)) (λ _ _.
          Leads-lock P R leave task_id _ (
            Leads-then leave (Keeps-gets P _) (λ a _.
              Leads-then leave (Keeps-gets P _) (λ in_archive _.
                Leads-then leave (Keeps-raise_if P _ _) (λ _ _.
                  Leads-if P R in_archive _ _ (λ _. close_archived-Leads status edits)
                    (λ _.
                      close_current-Leads status expected edits task_lease_id clock allowed)))))))

  update_by-Leads :
      (chosen : Option ClosingStatus) (status : Option TaskStatus) (expected : Option ℕ)
      (edits : TaskEdits) (evidence task_lease_id : Option String) (clock : Readings)
      → optional_closing status ≡ chosen
      → may editing task_id ≡ true
      → may closing task_id ≡ true
      → (is_some evidence ≡ true → may reconciling task_id ≡ true)
      → Leads P R (update_by chosen task_id status expected edits evidence task_lease_id clock)
  unfolding update_by
  update_by-Leads (some chosen) status expected edits evidence task_lease_id clock is_closing
        editable closable allowed =
      Leads-then leave (Keeps-raise_if P _ _)
        (λ _ _. close-Leads chosen expected edits task_lease_id clock closable)
  update_by-Leads none status expected edits evidence task_lease_id clock not_closing editable
        closable allowed =
      update_open-Leads may s v task_id status expected edits evidence task_lease_id clock
        not_closing editable allowed

  pub update-Effect :
      (status : Option TaskStatus) (expected : Option ℕ) (edits : TaskEdits)
      (evidence task_lease_id : Option String) (clock : Readings)
      → may editing task_id ≡ true
      → may closing task_id ≡ true
      → (is_some evidence ≡ true → may reconciling task_id ≡ true)
      → Effect may s (update task_id status expected edits evidence task_lease_id clock s).1
  unfolding update
  update-Effect status expected edits evidence task_lease_id clock editable closable allowed =
      let l = Leads-then leave (Keeps-require_writable P) (λ _ _.
        Leads-then leave (Keeps-lift P (validate_edit_args edits)) (λ _ _.
          update_by-Leads (optional_closing status) status expected edits evidence task_lease_id
            clock refl editable closable allowed)) in
      l.at s same
