-- ===== src/Tasks/History.antt =====
-- src/hypershell_reach/tasks.py: what becomes of a task over any sequence of calls.
use mathlib.Core.Path.{subst}
use mathlib.Core.Option.{some-injective}
use hypershell_reach.Base.{
  suc, ◌≡◌, refl, sym, ap, ◌∙◌, inl, inr, String, Bool, true, false, not, ◌&&◌, ◌||◌, Option, none,
  some, List, arith, Bool-cases,
}
use hypershell_reach.Base.Text.{str_eq, str_eq_iff}
use hypershell_reach.Base.Table.{lookup, is_member, upsert, lookup-upsert, lookup-delete_all}
use hypershell_reach.Tasks.Record.{TaskRecord, has_pending_mutation}
use hypershell_reach.Tasks.Store.{TaskRow, TaskStore, row_of}
use hypershell_reach.Tasks.Effect.{
  tasks-Pruned, Kind, reconciling, Effect, nothing, leased, added, edited_one, closed_one, removed,
}

-- How a change of the store shows in the row of one task: its row stays, it is edited or closed
-- (with the mark of a pending mutation kept by an edit that may not reconcile it, and no close of
-- a task that has the mark), or it was archived, is not retained, and goes.
pub data Becomes (may : String → Bool) (k : String) (row : TaskRow) : Option TaskRow → Type 0 where
  stays : {o : Option TaskRow} → o ≡ some row → Becomes may k row o
  moves :
      (archived : Bool) (r : TaskRecord) {o : Option TaskRow}
      → row.archived ≡ false
      → r.id ≡ row.payload.id
      → r.revision ≡ suc row.payload.revision
      → r.created_at ≡ row.payload.created_at
      → (has_pending_mutation row.payload.continuity
          && ((archived || not (has_pending_mutation r.continuity)) && not (may k)))
        ≡ false
      → o ≡ some (row_of archived r)
      → Becomes may k row o
  goes :
      {o : Option TaskRow}
      → row.archived ≡ true
      → row.retained ≡ false
      → o ≡ none
      → Becomes may k row o

pub upserted :
    {V : Type 0} (j k : String) (v : V) (t : List (String × V))
    → str_eq j k ≡ true
    → lookup k (upsert j v t) ≡ some v
upserted j k v t same = lookup-upsert j k v t ∙ rw same refl

pub not_upserted :
    {V : Type 0} (j k : String) (v : V) (t : List (String × V))
    → str_eq j k ≡ false
    → lookup k (upsert j v t) ≡ lookup k t
not_upserted j k v t other = lookup-upsert j k v t ∙ rw other refl

was_new :
    (j k : String) (row : TaskRow) (t : List (String × TaskRow))
    → lookup j t ≡ none
    → str_eq j k ≡ true
    → lookup k t ≡ some row
    → ⊥
was_new j k row t new same there = ground (arith, str_eq_iff j k)

module _ (may : String → Bool) (s : TaskStore) (k : String) (row : TaskRow)
    (there : lookup k s.tasks ≡ some row) where
  tasks_stay : (t : TaskStore) → t.tasks ≡ s.tasks → Becomes may k row (lookup k t.tasks)
  tasks_stay t e = stays (ap (lookup k) e ∙ there)

  written_over :
      (archived : Bool) (r : TaskRecord) (u : TaskStore) (before : TaskRow)
      → u.tasks ≡ s.tasks
      → lookup r.id s.tasks ≡ some before
      → before.archived ≡ false
      → r.id ≡ before.payload.id
      → r.revision ≡ suc before.payload.revision
      → r.created_at ≡ before.payload.created_at
      → (has_pending_mutation before.payload.continuity
          && ((archived || not (has_pending_mutation r.continuity)) && not (may before.payload.id)))
        ≡ false
      → Becomes may k row (lookup k (upsert r.id (row_of archived r) u.tasks))
  written_over archived r u before tasks found placed same_id next created gate =
      elim (Bool-cases (str_eq r.id k)) [
        | inr other ↦
            stays
              (not_upserted r.id k (row_of archived r) u.tasks other ∙ ap (lookup k) tasks ∙ there)
        | inl same ↦
            let is_k : r.id ≡ k = (str_eq_iff r.id k).0 same in
            let is_row : before ≡ row =
              some-injective _ _ (sym found ∙ ap (λ j. lookup j s.tasks) is_k ∙ there) in
            subst (λ x. Becomes may k x (lookup k (upsert r.id (row_of archived r) u.tasks))) is_row
              (moves archived r placed same_id next created
                (subst
                  (λ j.
                    (has_pending_mutation before.payload.continuity
                      && ((archived || not (has_pending_mutation r.continuity)) && not (may j)))
                    ≡ false)
                  (sym same_id ∙ is_k) gate)
                (upserted r.id k (row_of archived r) u.tasks same))
      ]

pub Effect-Becomes :
    {may : Kind → String → Bool} {s t : TaskStore} (k : String) (row : TaskRow)
    → lookup k s.tasks ≡ some row
    → Effect may s t
    → Becomes (may reconciling) k row (lookup k t.tasks)
Effect-Becomes {may} {s} {t} k row there (nothing task_id p) =
    tasks_stay (may reconciling) s k row there t (tasks-Pruned p)
Effect-Becomes {may} {s} {t} k row there (leased task_id lease p accepted current is_t) =
    tasks_stay (may reconciling) s k row there t
      (ap (λ (x : TaskStore). x.tasks) is_t ∙ tasks-Pruned p)
Effect-Becomes {may} {s} {t} k row there (added r allowed new first sound is_t) =
    elim (Bool-cases (str_eq r.id k)) [
      | inl same ↦ absurd (was_new r.id k row s.tasks new same there)
      | inr other ↦ stays (
          ap (λ (x : TaskStore). lookup k x.tasks) is_t
          ∙ not_upserted r.id k (row_of false r) s.tasks other
          ∙ there)
    ]
Effect-Becomes {may} {s} {t} k row there (edited_one before r {u} allowed found placed e p is_t) =
    subst (λ x. Becomes (may reconciling) k row (lookup k x))
      (sym (ap (λ (x : TaskStore). x.tasks) is_t))
      (written_over (may reconciling) s k row there false r u before (tasks-Pruned p) found placed
        e.same_id e.next_revision e.same_creation e.gate)
Effect-Becomes {may} {s} {t} k row there
      (closed_one status before r {u} allowed found placed c p is_t) =
    subst (λ x. Becomes (may reconciling) k row (lookup k x))
      (sym (ap (λ (x : TaskStore). x.tasks) is_t))
      (written_over (may reconciling) s k row there true r u before (tasks-Pruned p) found placed
        c.same_id c.next_revision c.same_creation (rw c.no_mutation refl))
Effect-Becomes {may} {s} {t} k row there (removed ids allowed free is_t) =
    let look = ap (λ (x : TaskStore). lookup k x.tasks) is_t ∙ lookup-delete_all ids k s.tasks in
    elim (Bool-cases (is_member k ids)) [
      | inl chosen ↦ let f = free k row chosen there in goes f.0 f.1 (look ∙ rw chosen refl)
      | inr kept ↦ stays (look ∙ rw kept there)
    ]
