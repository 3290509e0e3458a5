-- ===== src/Tasks/Gate.antt =====
-- src/hypershell_reach/tasks.py: the gate of pending mutations, and what is kept of archived tasks.
use hypershell_reach.Base.{
  ◌≡◌, refl, String, Bool, true, false, not, ◌&&◌, some, List, [], ◌∷◌, arith, all, true-and,
}
use hypershell_reach.Base.Table.{lookup}
use hypershell_reach.Tasks.Record.{has_pending_mutation}
use hypershell_reach.Tasks.Store.{TaskRow, TaskStore, row_of}
use hypershell_reach.Tasks.Valid.{HasValidTasks}
use hypershell_reach.Tasks.Calls.{Call, perform, perform_all, reconciles}
use hypershell_reach.Tasks.Steps.{Effects, here, then_one, perform-Goes}
use hypershell_reach.Tasks.Effect.{Kind, reconciling}
use hypershell_reach.Tasks.History.{Becomes, stays, moves, goes, Effect-Becomes}

-- The store has the task, marked with a pending mutation.
record IsPending (k : String) (s : TaskStore) : Type 0 where
  pub row : TaskRow
  pub there : lookup k s.tasks ≡ some row
  pub marked : has_pending_mutation row.payload.continuity ≡ true

IsPending-Becomes :
    {may : String → Bool} (k : String) (row : TaskRow) (t : TaskStore)
    → may k ≡ false
    → (row.archived && has_pending_mutation row.payload.continuity) ≡ false
    → has_pending_mutation row.payload.continuity ≡ true
    → Becomes may k row (lookup k t.tasks)
    → IsPending k t
IsPending-Becomes k row t may_not settled marked (stays e) = record {
  row = row;
  there = e;
  marked = marked;
}
IsPending-Becomes k row t may_not settled marked
      (moves archived r placed same_id next created gate e) =
    record { row = row_of archived r; there = e; marked = ground arith }
IsPending-Becomes k row t may_not settled marked (goes placed free e) = absurd (ground arith)

Effects-IsPending :
    {may : Kind → String → Bool} {s t : TaskStore} (k : String)
    → may reconciling k ≡ false
    → Effects may s t
    → IsPending k s
    → IsPending k t
Effects-IsPending k may_not here p = p
Effects-IsPending k may_not (then_one {t} {u} chain valid e) p =
    let q = Effects-IsPending k may_not chain p in
    IsPending-Becomes k q.row u may_not (valid.rows k q.row q.there).settled q.marked
      (Effect-Becomes k q.row q.there e)

is_false : (b : Bool) → not b ≡ true → b ≡ false
is_false true h = cc
is_false false h = refl

perform_all-IsPending :
    (calls : List Call) (s : TaskStore) (k : String)
    → HasValidTasks s
    → all (λ call. not (reconciles call k)) calls ≡ true
    → IsPending k s
    → (HasValidTasks (perform_all calls s)) × IsPending k (perform_all calls s)
unfolding perform_all
perform_all-IsPending [] s k v unreconciled p = (v, p)
perform_all-IsPending (call ∷ calls) s k v unreconciled p =
    let parts =
      true-and (not (reconciles call k)) (all (λ c. not (reconciles c k)) calls) unreconciled in
    let g = perform-Goes call s v in
    perform_all-IsPending calls (perform call s) k g.valid parts.1
      (Effects-IsPending k (is_false (reconciles call k) parts.0) g.chain p)

-- In a store with valid rows, a task that is marked with a pending mutation stays there, marked and
-- not archived, through every sequence of calls in which no `update` brings evidence that its
-- mutation is reconciled: no edit of its blockers takes the mark away, and it is not closed.
pub pending_until_reconciled :
    (calls : List Call) (s : TaskStore) (k : String) (row : TaskRow)
    → HasValidTasks s
    → lookup k s.tasks ≡ some row
    → has_pending_mutation row.payload.continuity ≡ true
    → all (λ call. not (reconciles call k)) calls ≡ true
    → (after : TaskRow) × (lookup k (perform_all calls s).tasks ≡ some after)
      × (has_pending_mutation after.payload.continuity ≡ true)
      × (after.archived ≡ false)
pending_until_reconciled calls s k row v there marked unreconciled =
    let (w, p) =
      perform_all-IsPending calls s k v unreconciled
        (record { row = row; there = there; marked = marked }) in
    let settled = (w.rows k p.row p.there).settled in
    let marked_after = p.marked in (p.row, p.there, p.marked, ground arith)

-- The store has the row, which is archived and retained.
kept-Becomes :
    {may : String → Bool} (k : String) (row : TaskRow) (t : TaskStore)
    → row.archived ≡ true
    → row.retained ≡ true
    → Becomes may k row (lookup k t.tasks)
    → lookup k t.tasks ≡ some row
kept-Becomes k row t placed kept (stays e) = e
kept-Becomes k row t placed kept (moves archived r current same_id next created gate e) =
    absurd (ground arith)
kept-Becomes k row t placed kept (goes current free e) = absurd (ground arith)

Effects-keep :
    {may : Kind → String → Bool} {s t : TaskStore} (k : String) (row : TaskRow)
    → row.archived ≡ true
    → row.retained ≡ true
    → Effects may s t
    → lookup k s.tasks ≡ some row
    → lookup k t.tasks ≡ some row
Effects-keep k row placed kept here there = there
Effects-keep k row placed kept (then_one {t} {u} chain valid e) there =
    kept-Becomes k row u placed kept
      (Effect-Becomes k row (Effects-keep k row placed kept chain there) e)

-- In a store with valid rows, a retained task that is archived stays as it is through every
-- sequence of calls: no call changes its record or its columns, and `cleanup` never deletes it.
pub archive_is_final :
    (calls : List Call) (s : TaskStore) (k : String) (row : TaskRow)
    → HasValidTasks s
    → lookup k s.tasks ≡ some row
    → row.archived ≡ true
    → row.retained ≡ true
    → lookup k (perform_all calls s).tasks ≡ some row
unfolding perform_all
archive_is_final [] s k row v there placed kept = there
archive_is_final (call ∷ calls) s k row v there placed kept =
    let g = perform-Goes call s v in
    archive_is_final calls (perform call s) k row g.valid
      (Effects-keep k row placed kept g.chain there) placed kept
