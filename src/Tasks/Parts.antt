-- ===== src/Tasks/Parts.antt =====
-- src/hypershell_reach/tasks.py: the parts that the methods of `TaskStore` share, and what
-- each does to the store.
use mathlib.Core.Path.{subst}
use hypershell_reach.Base.{
  ℕ, ◌≡◌, refl, sym, ap, ◌∙◌, String, Bool, true, false, Option, none, some, arith, ltb,
}
use hypershell_reach.Base.Text.{str_eq_refl}
use hypershell_reach.Base.Result.{ok}
use hypershell_reach.Base.Action.{Action, ◌>>=◌, ◌>>◌}
use hypershell_reach.Base.Keeps.{
  Keeps, Any, Keeps-then, Keeps-Any, Keeps-pure, Keeps-gets, Keeps-gets_as, Keeps-lift,
  Keeps-or_raise, Keeps-raise_if, Keeps-modify, Keeps-if, Keeps-weaken,
}
use hypershell_reach.Base.Leads.{Leads, Leads-then, Leads-transaction, Leads-modify}
use hypershell_reach.Base.Table.{lookup, upsert, lookup-upsert, upsert-upsert}
use hypershell_reach.Tasks.Record.{TaskExecutionLease, TaskRecord, is_lease, decode}
use hypershell_reach.Tasks.Store.{
  TaskRow, LeaseRow, TaskStore, row_of, row_in, directory_row, read_open, require_writable,
  validate_task_id, lock, read_dir, put, atomic_write, move_to_archive,
}
use hypershell_reach.Tasks.Leases.{
  remove_execution_lease, read_execution_lease, decode_lease, if_active, active_execution_lease,
  require_execution_lease,
}
use hypershell_reach.Tasks.Closing.{settle_archive}
use hypershell_reach.Tasks.Valid.{with_task, without_lease}
use hypershell_reach.Tasks.Effect.{Pruned, dropped}

-- A record that was read in a directory of `s`.
pub record IsFound (task_id : String) (archived : Bool) (s : TaskStore) (self : TaskRecord)
    : Type 0 where
  pub row : TaskRow
  pub there : lookup task_id s.tasks ≡ some row
  pub placed : row.archived ≡ archived
  pub read : row.payload ≡ self

pub decode-eq-ok :
    (payload : TaskRecord) {self : TaskRecord} → decode payload ≡ ok self → payload ≡ self
unfolding decode
decode-eq-ok payload read = ground arith

row_in-eq-some :
    (archived : Bool) (o : Option TaskRow) {row : TaskRow}
    → row_in archived o ≡ some row
    → (o ≡ some row) × (row.archived ≡ archived)
row_in-eq-some true o e = ground arith
row_in-eq-some false o e = ground arith

module _ (task_id : String) (s : TaskStore) {P : TaskStore → Type 0}
    (same_tasks : (t : TaskStore) → P t → t.tasks ≡ s.tasks) where
  pub read_dir-IsFound :
      (archived : Bool) → Keeps P (IsFound task_id archived s) (read_dir task_id archived)
  unfolding read_dir
  read_dir-IsFound archived =
      Keeps-then
        (Keeps-gets_as P (λ o. o ≡ directory_row task_id archived s)
          (directory_row task_id archived)
          (λ t p. ap (λ x. row_in archived (lookup task_id x)) (same_tasks t p)))
        (λ o is_row. Keeps-then (Keeps-or_raise P o _) (λ row is_some_row.
          Keeps-then (Keeps-lift P (decode row.payload)) (λ self decoded.
            Keeps-then (Keeps-raise_if P _ _) (λ _ _.
              Keeps-pure P (IsFound task_id archived s) self (
                let parts =
                  row_in-eq-some archived (lookup task_id s.tasks) (sym is_row ∙ is_some_row) in
                record {
                  row = row;
                  there = parts.0;
                  placed = parts.1;
                  read = decode-eq-ok row.payload decoded;
                })))))

  pub read_open-IsFound : Keeps P (IsFound task_id false s) (read_open task_id)
  unfolding read_open
  read_open-IsFound = Keeps-then (Keeps-gets P _) (λ a _. Keeps-then (Keeps-raise_if P a _) (λ _ _.
      Keeps-then (Keeps-gets P _) (λ b _. Keeps-then (Keeps-raise_if P _ _) (λ _ _.
        Keeps-then (read_dir-IsFound false) (λ self found.
          Keeps-then (Keeps-raise_if P _ _)
            (λ _ _. Keeps-pure P (IsFound task_id false s) self found))))))

abbrev pub is_optional_lease : Option TaskExecutionLease → Bool
is_optional_lease none = true
is_optional_lease (some lease) = is_lease lease

abbrev pub IsAccepted : Option TaskExecutionLease → Type 0
IsAccepted lease = is_optional_lease lease ≡ true

decode_lease-IsAccepted :
    (task_id : String) (o : Option LeaseRow) {lease : Option TaskExecutionLease}
    → decode_lease task_id o ≡ ok lease
    → IsAccepted lease
decode_lease-IsAccepted task_id none decoded = ground arith
decode_lease-IsAccepted task_id (some row) decoded = ground arith

module _ (task_id : String) {s : TaskStore} where
  remove-Pruned : Keeps (Pruned task_id s) Any (remove_execution_lease task_id)
  unfolding remove_execution_lease
  remove-Pruned = Keeps-modify (Pruned task_id s) _ (λ t p. dropped p)

  if_active-Pruned :
      (checked : ℕ) (lease : Option TaskExecutionLease)
      → is_optional_lease lease ≡ true
      → Keeps (Pruned task_id s) IsAccepted (if_active task_id checked lease)
  unfolding if_active
  if_active-Pruned checked none accepted = Keeps-pure (Pruned task_id s) IsAccepted none refl
  if_active-Pruned checked (some lease) accepted =
      Keeps-if (Pruned task_id s) IsAccepted (ltb checked lease.expires_at) _ _
        (λ active. Keeps-pure (Pruned task_id s) IsAccepted (some lease) accepted)
        (λ expired.
          Keeps-then remove-Pruned (λ _ _. Keeps-pure (Pruned task_id s) IsAccepted none refl))

  pub active-Pruned :
      (checked : ℕ) → Keeps (Pruned task_id s) IsAccepted (active_execution_lease task_id checked)
  unfolding active_execution_lease read_execution_lease
  active-Pruned checked =
      Keeps-then
        (Keeps-then (Keeps-gets (Pruned task_id s) _) (λ found _.
          Keeps-weaken (Keeps-lift (Pruned task_id s) (decode_lease task_id found))
            (λ lease decoded. decode_lease-IsAccepted task_id found decoded)))
        (λ lease accepted. if_active-Pruned checked lease accepted)

  pub require_lease-Pruned :
      (task_lease_id : Option String) (checked : ℕ)
      → Keeps (Pruned task_id s) Any (require_execution_lease task_id task_lease_id checked)
  unfolding require_execution_lease
  require_lease-Pruned task_lease_id checked = Keeps-then (active-Pruned checked) (λ lease _.
      Keeps-then (Keeps-raise_if (Pruned task_id s) _ _)
        (λ _ _. Keeps-pure (Pruned task_id s) Any lease tt))

-- `require_writable` and `validate_task_id` keep anything.
module _ (P : TaskStore → Type 0) where
  pub Keeps-require_writable : Keeps P Any require_writable
  unfolding require_writable
  Keeps-require_writable =
      Keeps-then (Keeps-gets P _) (λ closed _. Keeps-Any (Keeps-raise_if P _ _))

  pub Keeps-validate_task_id : (task_id : String) → Keeps P Any (validate_task_id task_id)
  unfolding validate_task_id
  Keeps-validate_task_id task_id = Keeps-Any (Keeps-raise_if P _ _)

module _ (P R : TaskStore → Type 0) (out : (t : TaskStore) → P t → R t) where
  pub Leads-lock :
      {A : Type 0} (task_id : String) (body : Action TaskStore A)
      → Leads P R body
      → Leads P R (lock task_id body)
  unfolding lock
  Leads-lock {A} task_id body l = Leads-then out (Keeps-require_writable P) (λ _ _.
      Leads-then out (Keeps-validate_task_id P task_id) (λ _ _. Leads-transaction P R body out l))

  -- The write of a record that the database accepts.
  pub Leads-atomic_write :
      (archived : Bool) (r : TaskRecord)
      → ((t : TaskStore) → decode r ≡ ok r → P t → R (with_task archived r t))
      → Leads P R (atomic_write archived r)
  unfolding atomic_write put
  Leads-atomic_write archived r written = Leads-then out (Keeps-require_writable P) (λ _ _.
      Leads-then out (Keeps-lift P (decode r)) (λ self decoded. Leads-modify _ (λ t p.
        subst (λ x. R (with_task archived x t)) (decode-eq-ok r decoded)
          (written t (subst (λ x. decode r ≡ ok x) (sym (decode-eq-ok r decoded)) decoded) p))))

-- The tail of a close: the write, the move and the end of the lease.
abbrev pub sealed : TaskRecord → Action TaskStore TaskRecord
sealed r = do atomic_write false r; settle_archive r.id

pub atomic_write_lem :
    (archived : Bool) (r : TaskRecord) (t : TaskStore)
    → t.read_only ≡ false
    → decode r ≡ ok r
    → atomic_write archived r t ≡ (ok tt, with_task archived r t)
unfolding atomic_write put require_writable ◌>>=◌
atomic_write_lem archived r t open_store accepted = ground arith

read_dir_lem :
    (task_id : String) (archived : Bool) (row : TaskRow) (t : TaskStore)
    → lookup task_id t.tasks ≡ some row
    → row.archived ≡ archived
    → decode row.payload ≡ ok row.payload
    → row.payload.id ≡ task_id
    → read_dir task_id archived t ≡ (ok row.payload, t)
unfolding read_dir ◌>>=◌
read_dir_lem task_id true row t there placed accepted keyed = ground (arith, str_eq_refl task_id)
read_dir_lem task_id false row t there placed accepted keyed = ground (arith, str_eq_refl task_id)

settle_archive_lem :
    (r : TaskRecord) (t : TaskStore)
    → decode r ≡ ok r
    → settle_archive r.id (with_task false r t) ≡ (ok r, without_lease r.id (with_task true r t))
unfolding settle_archive move_to_archive remove_execution_lease ◌>>=◌
settle_archive_lem r t accepted =
    let look = lookup-upsert r.id r.id (row_of false r) t.tasks in
    let again = upsert-upsert r.id (row_of true r) (row_of false r) t.tasks in
    let found : lookup r.id (upsert r.id (row_of true r) t.tasks) ≡ some (row_of true r) =
      lookup-upsert r.id r.id (row_of true r) t.tasks ∙ rw (str_eq_refl r.id) refl in
    simp (look, str_eq_refl, again)
      (read_dir_lem r.id true (row_of true r) (without_lease r.id (with_task true r t)) found refl
        accepted refl)

pub sealed_lem :
    (r : TaskRecord) (t : TaskStore)
    → t.read_only ≡ false
    → decode r ≡ ok r
    → sealed r t ≡ (ok r, without_lease r.id (with_task true r t))
unfolding ◌>>=◌
sealed_lem r t open_store accepted =
    simp (atomic_write_lem false r t open_store accepted, settle_archive_lem r t accepted)
