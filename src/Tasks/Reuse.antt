-- ===== src/Tasks/Reuse.antt =====
-- src/hypershell_reach/tasks.py: `create` where there is an open task for the same work.
use mathlib.Core.Path.{subst}
use hypershell_reach.Base.{
  ℕ, ◌≡◌, refl, sym, ap, ◌∙◌, inl, inr, String, Bool, true, false, not, Option, none, some, arith,
  if◌then◌else◌, Bool-cases, Option-cases, is_some,
}
use hypershell_reach.Base.Result.{Error, ok-injective, ok, err}
use hypershell_reach.Base.Action.{pure, settle, follow, ◌>>=◌}
use hypershell_reach.Base.Table.{lookup}
use hypershell_reach.Tasks.Record.{TaskRecord, is_task_id, is_record, has_fields, decode}
use hypershell_reach.Tasks.Store.{TaskStore, row_of, require_writable}
use hypershell_reach.Tasks.Creation.{
  TaskRequest, new_task, identity_of, equivalent_row, equivalent_task, add_task, existing_or,
  create,
}
use hypershell_reach.Tasks.Valid.{with_task}
use hypershell_reach.Tasks.Equivalence.{
  add_task_lem, agrees_with_itself, found_again, create_lem, found_first,
}

writable_of_created :
    (request : TaskRequest) (task_id : String) (now : ℕ) (s : TaskStore) {r : TaskRecord}
    {t : TaskStore}
    → create request task_id now s ≡ (ok r, t)
    → s.read_only ≡ false
unfolding create require_writable ◌>>=◌
writable_of_created request task_id now s made = elim (Bool-cases s.read_only) [
  | inr open_store ↦ open_store
  | inl closed ↦ absurd (ground arith)
]

-- What an added task is.
record IsAdded (request : TaskRequest) (task_id : String) (now : ℕ) (s : TaskStore) (r : TaskRecord)
    (t : TaskStore) : Type 0 where
  pub is_new_task : r ≡ new_task request task_id now
  pub written : t ≡ with_task false (new_task request task_id now) s
  pub new : lookup task_id s.tasks ≡ none
  pub accepted : decode (new_task request task_id now) ≡ ok (new_task request task_id now)

none_of_absent : {A : Type 0} (o : Option A) → is_some o ≡ false → o ≡ none
none_of_absent none h = refl
none_of_absent (some a) h = cc

-- The only way through a ladder of four tests.
ladder_passed :
    {A S : Type 0} (a b c d : Bool) (e1 e2 e3 e4 : Error) (s : S) (x r : A) (y t : S)
    → settle s (
        if not a
        then (err e1, s)
        else if not b
        then (err e2, s)
        else if c
        then (err e3, s)
        else if not d
        then (err e4, s)
        else (ok x, y))
      ≡ (ok r, t)
    → (b ≡ true) × (c ≡ false) × (d ≡ true) × (x ≡ r) × (y ≡ t)
ladder_passed false b c d e1 e2 e3 e4 s x r y t h = absurd (ground arith)
ladder_passed true false c d e1 e2 e3 e4 s x r y t h = absurd (ground arith)
ladder_passed true true true d e1 e2 e3 e4 s x r y t h = absurd (ground arith)
ladder_passed true true false false e1 e2 e3 e4 s x r y t h = absurd (ground arith)
ladder_passed true true false true e1 e2 e3 e4 s x r y t h =
    (refl, refl, refl, ok-injective (ap (λ z. z.0) h), ap (λ z. z.1) h)

add_task-IsAdded :
    (request : TaskRequest) (task_id : String) (now : ℕ) (s : TaskStore) {r : TaskRecord}
    {t : TaskStore}
    → s.read_only ≡ false
    → settle s (add_task request task_id now s) ≡ (ok r, t)
    → IsAdded request task_id now s r t
unfolding decode
add_task-IsAdded request task_id now s {r} {t} open_store made =
    let steps = add_task_lem request task_id now s open_store in
    let (named, absent, fits, is_r, is_t) =
      ladder_passed (has_fields (new_task request task_id now)) (is_task_id task_id)
        (is_some (lookup task_id s.tasks)) (is_record (new_task request task_id now)) _ _ _ _ s _ r
        _ t (sym (ap (settle s) steps) ∙ made) in
    record {
      is_new_task = sym is_r;
      written = sym is_t;
      new = none_of_absent (lookup task_id s.tasks) absent;
      accepted = rw (fits, named) refl;
    }

found_task :
    (request : TaskRequest) (task_id : String) (now : ℕ) (u : TaskStore)
    → decode (new_task request task_id now) ≡ ok (new_task request task_id now)
    → equivalent_task
        (identity_of request)
        (some (task_id, row_of false (new_task request task_id now)))
        u
      ≡ (ok (some (new_task request task_id now)), u)
unfolding ◌>>=◌
found_task request task_id now u accepted = simp (accepted, agrees_with_itself request task_id now)

finds_added :
    (first again : TaskRequest) (id1 id2 : String) (now1 now2 : ℕ) (s : TaskStore)
    → s.read_only ≡ false
    → lookup id1 s.tasks ≡ none
    → equivalent_row (identity_of first) s ≡ none
    → decode (new_task first id1 now1) ≡ ok (new_task first id1 now1)
    → identity_of again ≡ identity_of first
    → create again id2 now2 (with_task false (new_task first id1 now1) s)
      ≡ (ok (new_task first id1 now1), with_task false (new_task first id1 now1) s)
unfolding pure
finds_added first again id1 id2 now1 now2 s open_store new empty accepted same_work =
    let u = with_task false (new_task first id1 now1) s in
    create_lem again id2 now2 u open_store
    ∙ ap
        (λ j. settle u (
          follow (equivalent_task j (equivalent_row j u) u)
            (λ x. existing_or x (add_task again id2 now2))))
        same_work
    ∙ ap
        (λ o. settle u (
          follow (equivalent_task (identity_of first) o u)
            (λ x. existing_or x (add_task again id2 now2))))
        (found_again first id1 now1 s new empty)
    ∙ ap (λ o. settle u (follow o (λ x. existing_or x (add_task again id2 now2))))
        (found_task first id1 now1 u accepted)

-- Once `create` has returned a task, `create` for the same title, objective and project, up to
-- white space at their ends, returns that task and adds nothing, whatever the other arguments.
pub create-create :
    (first again : TaskRequest) (id1 id2 : String) (now1 now2 : ℕ) (s t : TaskStore)
    (r : TaskRecord)
    → create first id1 now1 s ≡ (ok r, t)
    → identity_of again ≡ identity_of first
    → create again id2 now2 t ≡ (ok r, t)
unfolding pure
create-create first again id1 id2 now1 now2 s t r made same_work =
    let open_store = writable_of_created first id1 now1 s made in
    let i = identity_of first in
    let steps = sym (create_lem first id1 now1 s open_store) ∙ made in
    elim (Option-cases (equivalent_row i s)) [
      | inr (entry, found) ↦
          let both = found_first i entry s (add_task first id1 now1) (add_task again id2 now2) in
          let as_found = rw found at steps in
          let stayed : t ≡ s = sym (ap (λ z. z.1) as_found) ∙ both.1 in
          subst (λ u. create again id2 now2 u ≡ (ok r, u)) (sym stayed)
            (create_lem again id2 now2 s open_store
              ∙ ap
                  (λ j. settle s (
                    follow (equivalent_task j (equivalent_row j s) s)
                      (λ x. existing_or x (add_task again id2 now2))))
                  same_work
              ∙ rw found (sym both.0 ∙ as_found ∙ ap (λ u. (ok r, u)) stayed))
      | inl empty ↦
          let added : settle s (add_task first id1 now1 s) ≡ (ok r, t) = rw empty at steps in
          let w = add_task-IsAdded first id1 now1 s open_store added in
          rw (w.written, w.is_new_task)
            (finds_added first again id1 id2 now1 now2 s open_store w.new empty w.accepted
              same_work)
    ]
