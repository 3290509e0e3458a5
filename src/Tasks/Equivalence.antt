-- ===== src/Tasks/Equivalence.antt =====
-- src/hypershell_reach/tasks.py: what the search for an equivalent open task finds.
use hypershell_reach.Base.{
  ℕ, ◌≡◌, refl, inl, inr, String, Bool, true, false, not, ◌||◌, Option, none, some, [], ◌∷◌, arith,
  if◌then◌else◌, Bool-cases, is_some,
}
use hypershell_reach.Base.Text.{str_eq_refl, str_leb, ◌<>◌}
use hypershell_reach.Base.Result.{ok, err, value_error, runtime_error, validation_error}
use hypershell_reach.Base.Action.{Action, settle, transaction, follow, ◌>>=◌}
use hypershell_reach.Base.Table.{Table, lookup, upsert, sort_by_key, insert_by_key}
use hypershell_reach.Base.TableOrder.{rows_where}
use hypershell_reach.Tasks.Record.{
  TaskRecord, TaskIdentity, identity_eq, optional_eq, is_task_id, is_record, has_fields, decode,
}
use hypershell_reach.Tasks.Store.{
  TaskRow, TaskStore, row_of, row_in, require_writable, validate_task_id, atomic_write, put,
}
use hypershell_reach.Tasks.Creation.{
  TaskRequest, new_task, construct, identity_of, is_equivalent, equivalent_row, equivalent_task,
  find_equivalent_open_task, add_task, existing_or, create, first_row, disagrees,
}
use hypershell_reach.Tasks.Valid.{with_task}

is_there : (o : Option TaskRow) → (is_some (row_in false o) || is_some (row_in true o)) ≡ is_some o
is_there none = refl
is_there (some row) = ground arith

-- `create` where no equivalent task is open, in each case.
pub add_task_lem :
    (request : TaskRequest) (task_id : String) (now : ℕ) (s : TaskStore)
    → s.read_only ≡ false
    → add_task request task_id now s ≡ (
        if not (has_fields (new_task request task_id now))
        then (err (validation_error "TaskRecord"), s)
        else if not (is_task_id task_id)
        then (err (value_error "invalid task ID"), s)
        else if is_some (lookup task_id s.tasks)
        then (err (runtime_error ("task already exists: " <> task_id)), s)
        else if not (is_record (new_task request task_id now))
        then (err (runtime_error "invalid task record in database"), s)
        else (ok (new_task request task_id now), with_task false (new_task request task_id now) s))
unfolding add_task construct require_writable validate_task_id atomic_write put decode ◌>>=◌
add_task_lem request task_id now s open_store = ground (arith, is_there (lookup task_id s.tasks))

optional_eq_refl : (o : Option String) → optional_eq o o ≡ true
optional_eq_refl none = refl
optional_eq_refl (some s) = str_eq_refl s

identity_eq_refl : (i : TaskIdentity) → identity_eq i i ≡ true
identity_eq_refl i =
    rw (str_eq_refl i.title, str_eq_refl i.objective, optional_eq_refl i.project_ref) refl

insert_by_key-some :
    (k : String) (row : TaskRow) (t : Table TaskRow)
    → (e : String × TaskRow) × (first_row (insert_by_key k row t) ≡ some e)
unfolding insert_by_key
insert_by_key-some k row [] = ((k, row), refl)
insert_by_key-some k row ((j, other) ∷ t) = elim (Bool-cases (str_leb k j)) [
  | inl before ↦ ((k, row), rw before refl)
  | inr after ↦ ((j, other), rw after refl)
]

nothing_first : (t : Table TaskRow) → first_row (sort_by_key t) ≡ none → t ≡ []
unfolding sort_by_key
nothing_first [] h = refl
nothing_first ((k, row) ∷ t) h =
    let (e, found) = insert_by_key-some k row (sort_by_key t) in absurd (ground arith)

-- The one row that is selected once a new one is written.
rows_where-upsert :
    (p : TaskRow → Bool) (k : String) (row : TaskRow) (t : Table TaskRow)
    → lookup k t ≡ none
    → rows_where p t ≡ []
    → p row ≡ true
    → rows_where p (upsert k row t) ≡ (k, row) ∷ []
unfolding lookup upsert
rows_where-upsert p k row [] new empty passes = rw passes refl
rows_where-upsert p k row ((j, other) ∷ t) new empty passes =
    ground (arith, rows_where-upsert p k row t)

pub agrees_with_itself :
    (request : TaskRequest) (task_id : String) (now : ℕ)
    → disagrees (identity_of request) task_id (new_task request task_id now) ≡ false
agrees_with_itself request task_id now =
    rw (str_eq_refl task_id, identity_eq_refl (identity_of request)) refl

pub found_again :
    (request : TaskRequest) (task_id : String) (now : ℕ) (s : TaskStore)
    → lookup task_id s.tasks ≡ none
    → equivalent_row (identity_of request) s ≡ none
    → equivalent_row (identity_of request) (with_task false (new_task request task_id now) s)
      ≡ some (task_id, row_of false (new_task request task_id now))
unfolding equivalent_row sort_by_key insert_by_key
found_again request task_id now s new empty =
    let p = is_equivalent (identity_of request) in
    let row = row_of false (new_task request task_id now) in
    let passes : p row ≡ true = rw (identity_eq_refl (identity_of request)) refl in
    rw
      (rows_where-upsert p task_id row s.tasks new (nothing_first (rows_where p s.tasks) empty)
        passes)
      refl

pub create_lem :
    (request : TaskRequest) (task_id : String) (now : ℕ) (s : TaskStore)
    → s.read_only ≡ false
    → create request task_id now s
      ≡ settle s (
          follow
            (equivalent_task (identity_of request) (equivalent_row (identity_of request) s) s)
            (λ existing. existing_or existing (add_task request task_id now)))
unfolding create find_equivalent_open_task require_writable transaction ◌>>=◌
create_lem request task_id now s open_store = simp open_store

-- With a row found, the outcome does not depend on the new task, and the store stays.
pub found_first :
    (i : TaskIdentity) (entry : String × TaskRow) (s : TaskStore)
    (make other : Action TaskStore TaskRecord)
    → (settle s (follow (equivalent_task i (some entry) s) (λ x. existing_or x make))
        ≡ settle s (follow (equivalent_task i (some entry) s) (λ x. existing_or x other)))
      × ((settle s (follow (equivalent_task i (some entry) s) (λ x. existing_or x make))).1 ≡ s)
unfolding ◌>>=◌ decode
found_first i (k, row) s make other = (ground arith, ground arith)
