-- ===== src/Tasks/StoreEffects.antt =====
-- src/hypershell_reach/tasks.py: what `create`, `archive` and `cleanup` do to the store.
use mathlib.Core.Path.{subst}
use hypershell_reach.Base.{
  ℕ, ◌≡◌, refl, sym, ap, ◌∙◌, String, Bool, true, false, ◌||◌, Option, none, some, [], arith,
  is_some,
}
use hypershell_reach.Base.Result.{ok}
use hypershell_reach.Base.Action.{Action}
use hypershell_reach.Base.Keeps.{
  Keeps, Any, Keeps-then, Keeps-pure, Keeps-gets, Keeps-gets_as, Keeps-lift, Keeps-or_raise,
  Keeps-raise_if,
}
use hypershell_reach.Base.Leads.{
  Leads, Keeps-Leads, Leads-then, Leads-transaction, Leads-after, Leads-modify,
}
use hypershell_reach.Base.Table.{Table, lookup, is_member, sort_by_key, HasUniqueKeys}
use hypershell_reach.Base.TableOrder.{
  rows_where, keys_of, member-keys_of, lookup-sort_by_key, rows_where-HasUniqueKeys,
  lookup-rows_where, if_passes,
}
use hypershell_reach.Tasks.Record.{TaskRecord, TaskIdentity, closing_of, decode}
use hypershell_reach.Tasks.Store.{TaskRow, TaskStore, row_in, directory_exists, get}
use hypershell_reach.Tasks.Creation.{
  TaskRequest, new_task, construct, identity_of, equivalent_task, find_equivalent_open_task,
  add_task, existing_or, create,
}
use hypershell_reach.Tasks.Edits.{no_edits}
use hypershell_reach.Tasks.Closing.{
  Readings, archive, is_expired, check_rows, cleanup_days, cleanup, without,
}
use hypershell_reach.Tasks.Valid.{HasValidTasks, TaskIsSound, with_task}
use hypershell_reach.Tasks.Effect.{
  Kind, adding, closing, removing, Pruned, same, Effect, nothing, added, removed,
}
use hypershell_reach.Tasks.Parts.{
  Keeps-require_writable, Keeps-validate_task_id, Leads-atomic_write,
}
use hypershell_reach.Tasks.CloseEffects.{close-Leads}

construct-eq-ok :
    (wanted : TaskRecord) {self : TaskRecord} → construct wanted ≡ ok self → wanted ≡ self
unfolding construct
construct-eq-ok wanted made = ground arith

is_new :
    (o : Option TaskRow) → (is_some (row_in false o) || is_some (row_in true o)) ≡ false → o ≡ none
is_new none h = refl
is_new (some row) h = ground arith

new_task_IsSound :
    (request : TaskRequest) (task_id : String) (now : ℕ) (r : TaskRecord)
    → new_task request task_id now ≡ r
    → decode r ≡ ok r
    → TaskIsSound false r
new_task_IsSound request task_id now r is_r accepted = record {
  keyed = refl;
  columns = refl;
  accepted = accepted;
  placed = rw⁻¹ is_r refl;
  dated = rw⁻¹ is_r refl;
  settled = refl;
  finished = rw⁻¹ is_r refl;
}

module _ (may : Kind → String → Bool) (s : TaskStore) where
  abbrev P : TaskStore → Type 0
  P t = t ≡ s

  abbrev R : TaskStore → Type 0
  R = Effect may s

  leave : (t : TaskStore) → P t → R t
  leave t p = rw p (nothing "" same)

  add_task-Leads :
      (request : TaskRequest) (task_id : String) (now : ℕ)
      → may adding task_id ≡ true
      → Leads P R (add_task request task_id now)
  unfolding add_task
  add_task-Leads request task_id now allowed =
      Leads-then leave (Keeps-lift P (construct (new_task request task_id now))) (λ self made.
        Leads-then leave (Keeps-require_writable P) (λ _ _.
          Leads-then leave (Keeps-validate_task_id P self.id) (λ _ _.
            Leads-then leave
              (Keeps-gets_as P (λ b. b ≡ directory_exists self.id false s) _
                (λ t p. ap (directory_exists self.id false) p))
              (λ a is_a.
                Leads-then leave
                  (Keeps-gets_as P (λ b. b ≡ directory_exists self.id true s) _
                    (λ t p. ap (directory_exists self.id true) p))
                  (λ b is_b. Leads-then leave (Keeps-raise_if P _ _) (λ _ new.
                    Leads-after
                      (Leads-atomic_write P R leave false self (λ t accepted p.
                        added self
                          (subst (λ (x : TaskRecord). may adding x.id ≡ true)
                            (construct-eq-ok (new_task request task_id now) made) allowed)
                          (is_new (lookup self.id s.tasks) (rw (is_a, is_b) at new))
                          (ap (λ (x : TaskRecord). x.revision)
                            (sym (construct-eq-ok (new_task request task_id now) made)))
                          (new_task_IsSound request task_id now self
                            (construct-eq-ok (new_task request task_id now) made) accepted)
                          (ap (with_task false self) p)))
                      (λ _. Keeps-Leads (Keeps-pure R Any self tt) (λ t r. r))))))))

  equivalent-Keeps :
      (identity : TaskIdentity) (found : Option (String × TaskRow))
      → Keeps P Any (equivalent_task identity found)
  equivalent-Keeps identity none = Keeps-pure P Any none tt
  equivalent-Keeps identity (some (task_id, row)) =
      Keeps-then (Keeps-lift P _)
        (λ self _. Keeps-then (Keeps-raise_if P _ _) (λ _ _. Keeps-pure P Any (some self) tt))

  existing_or-Leads :
      (existing : Option TaskRecord) (make : Action TaskStore TaskRecord)
      → Leads P R make
      → Leads P R (existing_or existing make)
  existing_or-Leads none make l = l
  existing_or-Leads (some r) make l = Keeps-Leads (Keeps-pure P Any r tt) leave

  pub create-Effect :
      (request : TaskRequest) (task_id : String) (now : ℕ)
      → may adding task_id ≡ true
      → Effect may s (create request task_id now s).1
  unfolding create find_equivalent_open_task
  create-Effect request task_id now allowed =
      let l = Leads-then leave (Keeps-require_writable P) (λ _ _. Leads-transaction P R _ leave (
        Leads-then leave
          (Keeps-then (Keeps-gets P _) (λ found _. equivalent-Keeps (identity_of request) found))
          (λ existing _.
            existing_or-Leads existing _ (add_task-Leads request task_id now allowed)))) in
      l.at s refl

  archived_and_free :
      (days now : ℕ) (row : TaskRow)
      → is_expired days now row ≡ true
      → (row.archived ≡ true) × (row.retained ≡ false)
  unfolding is_expired
  archived_and_free days now row expired = ground arith

  selected_passes :
      (days now : ℕ) (k : String) (row : TaskRow) (rows : Table TaskRow)
      → HasUniqueKeys s.tasks
      → rows ≡ sort_by_key (rows_where (is_expired days now) s.tasks)
      → is_member k (keys_of rows) ≡ true
      → lookup k s.tasks ≡ some row
      → is_expired days now row ≡ true
  selected_passes days now k row rows unique is_rows chosen there =
      let p = is_expired days now in
      let found =
        lookup-sort_by_key k (rows_where p s.tasks) (rows_where-HasUniqueKeys p s.tasks unique) in
      let passed = lookup-rows_where p k s.tasks unique in
      let counted = member-keys_of k rows in
      let chosen_row : is_some (if_passes p (some row)) ≡ true =
        sym (ap is_some (ap (lookup k) is_rows ∙ found ∙ passed ∙ ap (if_passes p) there))
        ∙ sym counted
        ∙ chosen in
      ground arith

  cleanup_days-Leads :
      (days : Option ℕ) (now : ℕ)
      → HasUniqueKeys s.tasks
      → ((k : String) → may removing k ≡ true)
      → Leads P R (cleanup_days days now)
  unfolding cleanup_days
  cleanup_days-Leads none now unique allowed = Keeps-Leads (Keeps-pure P Any [] tt) leave
  cleanup_days-Leads (some days) now unique allowed = Leads-transaction P R _ leave (
      Leads-then leave
        (Keeps-gets_as P (λ rows. rows ≡ sort_by_key (rows_where (is_expired days now) s.tasks)) _
          (λ t p. ap (λ (x : TaskStore). sort_by_key (rows_where (is_expired days now) x.tasks)) p))
        (λ rows is_rows. Leads-then leave (Keeps-lift P (check_rows rows)) (λ _ _.
          Leads-after
            (Leads-modify (without (keys_of rows)) (λ t p.
              removed (keys_of rows) (λ k chosen. allowed k)
                (λ k row chosen there.
                  archived_and_free days now row
                    (selected_passes days now k row rows unique is_rows chosen there))
                (ap (without (keys_of rows)) p)))
            (λ _. Keeps-Leads (Keeps-pure R Any (keys_of rows) tt) (λ t r. r)))))

  pub cleanup-Effect :
      (now : ℕ)
      → HasUniqueKeys s.tasks
      → ((k : String) → may removing k ≡ true)
      → Effect may s (cleanup now s).1
  unfolding cleanup
  cleanup-Effect now unique allowed =
      let l = Leads-then leave (Keeps-require_writable P) (λ _ _.
        Leads-then leave (Keeps-gets P _) (λ days _. cleanup_days-Leads days now unique allowed)) in
      l.at s refl

module _ (may : Kind → String → Bool) (s : TaskStore) (v : HasValidTasks s) (task_id : String) where
  abbrev Q : TaskStore → Type 0
  Q = Pruned task_id s

  keep_on : (t : TaskStore) → Q t → Effect may s t
  keep_on t p = nothing task_id p

  get-Keeps : Keeps Q Any (get task_id)
  unfolding get
  get-Keeps = Keeps-then (Keeps-validate_task_id Q task_id) (λ _ _.
      Keeps-then (Keeps-gets Q _) (λ found _. Keeps-then (Keeps-or_raise Q found _) (λ row _.
        Keeps-then (Keeps-lift Q _)
          (λ self _. Keeps-then (Keeps-raise_if Q _ _) (λ _ _. Keeps-pure Q Any self tt)))))

  pub archive-Effect :
      (clock : Readings) → may closing task_id ≡ true → Effect may s (archive task_id clock s).1
  unfolding archive
  archive-Effect clock allowed =
      let l = Leads-then keep_on (Keeps-require_writable Q) (λ _ _.
        Leads-then keep_on get-Keeps (λ self _.
          Leads-then keep_on (Keeps-or_raise Q (closing_of self.status) _)
            (λ status _. close-Leads may s v task_id status none no_edits none clock allowed))) in
      l.at s same
