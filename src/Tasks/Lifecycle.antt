-- ===== src/Tasks/Lifecycle.antt =====
-- src/hypershell_reach/tasks.py: the life of one task, as a specification, over any sequence of calls.
use mathlib.Core.Path.{subst}
use hypershell_reach.Base.{
  ℕ, ◌≡◌, refl, sym, ap, ◌∙◌, inl, inr, String, Bool, true, false, not, ◌&&◌, Option, none, some,
  List, [], ◌∷◌, Bool-cases,
}
use hypershell_reach.Base.Text.{str_eq, str_eq_iff}
use hypershell_reach.Base.Table.{lookup, is_member, upsert, lookup-delete_all}
use hypershell_reach.Tasks.Record.{TaskRecord, has_pending_mutation}
use hypershell_reach.Tasks.Store.{TaskRow, TaskStore, row_of}
use hypershell_reach.Tasks.Valid.{HasValidTasks}
use hypershell_reach.Tasks.Effect.{
  tasks-Pruned, Kind, reconciling, removing, Effect, nothing, leased, added, edited_one, closed_one,
  removed,
}
use hypershell_reach.Tasks.Closing.{Readings}
use hypershell_reach.Tasks.Calls.{Call, repaired, perform, perform_all, permits}
use hypershell_reach.Tasks.Steps.{
  Effects, here, then_one, Performs, once, repairs, perform-Performs, perform-Goes,
}
use hypershell_reach.Tasks.History.{upserted, not_upserted}
use hypershell_reach.Tasks.Life.{
  Life, Transition, Moves, Lives, absent, current, archived, starts, edits, closes, goes, rests,
  moves, over, lives, life_of,
}

life_at_current : (row : TaskRow) → row.archived ≡ false → life_of (some row) ≡ current row.payload
life_at_current row placed = rw placed refl

-- One transition, between what two rows look like.
step :
    {may : Kind → Bool} {a a' b b' : Life} → a ≡ a' → b ≡ b' → Transition may a' b' → Moves may a b
step {may} {a} {a'} {b} {b'} e f t =
    subst (λ x. Moves may x b) (sym e) (subst (Moves may a') (sym f) (moves t))

-- A record that is written under an ID, for a transition of the task with that ID.
written :
    (may : Kind → String → Bool) (s u : TaskStore) (k : String) (placed : Bool) (r : TaskRecord)
    → u.tasks ≡ s.tasks
    → Transition
        (λ kind. may kind r.id)
        (life_of (lookup r.id s.tasks))
        (life_of (some (row_of placed r)))
    → Moves
        (λ kind. may kind k)
        (life_of (lookup k s.tasks))
        (life_of (lookup k (upsert r.id (row_of placed r) u.tasks)))
written may s u k placed r tasks t = elim (Bool-cases (str_eq r.id k)) [
  | inl same ↦
      let is_k : r.id ≡ k = (str_eq_iff r.id k).0 same in
      step refl (ap life_of (upserted r.id k (row_of placed r) u.tasks same)) (
        subst
          (λ j.
            Transition (λ kind. may kind j) (life_of (lookup j s.tasks))
              (life_of (some (row_of placed r))))
          is_k t)
  | inr other ↦ rests (
      ap life_of
        (ap (lookup k) (sym tasks) ∙ sym (not_upserted r.id k (row_of placed r) u.tasks other)))
]

-- A current row that is written over.
written_over :
    (may : Kind → String → Bool) (s u : TaskStore) (k : String) (placed : Bool) (row : TaskRow)
    (r : TaskRecord)
    → u.tasks ≡ s.tasks
    → lookup r.id s.tasks ≡ some row
    → row.archived ≡ false
    → Transition (λ kind. may kind r.id) (current row.payload) (life_of (some (row_of placed r)))
    → Moves
        (λ kind. may kind k)
        (life_of (lookup k s.tasks))
        (life_of (lookup k (upsert r.id (row_of placed r) u.tasks)))
written_over may s u k placed row r tasks found is_current t = written may s u k placed r tasks (
    subst (λ o. Transition (λ kind. may kind r.id) o (life_of (some (row_of placed r))))
      (sym (ap life_of found ∙ life_at_current row is_current)) t)

-- A row that is deleted, if it is there.
removed-Moves :
    {may : Kind → Bool} (o : Option TaskRow) {after : Life}
    → may removing ≡ true
    → ((row : TaskRow) → o ≡ some row → (row.archived ≡ true) × (row.retained ≡ false))
    → after ≡ absent
    → Moves may (life_of o) after
removed-Moves none allowed free gone = rests (sym gone)
removed-Moves (some row) allowed free gone =
    let (placed, unretained) = free row refl in
    step (rw (placed, unretained) refl) gone (goes row.payload allowed)

Effect-Moves :
    {may : Kind → String → Bool} {s t : TaskStore} (k : String)
    → Effect may s t
    → Moves (λ kind. may kind k) (life_of (lookup k s.tasks)) (life_of (lookup k t.tasks))
Effect-Moves k (nothing task_id p) = rests (ap (λ x. life_of (lookup k x)) (sym (tasks-Pruned p)))
Effect-Moves k (leased task_id lease p accepted is_current is_t) =
    rests
      (ap (λ x. life_of (lookup k x)) (sym (ap (λ (x : TaskStore). x.tasks) is_t ∙ tasks-Pruned p)))
Effect-Moves {may} {s} k (added r allowed new first sound is_t) =
    subst
      (λ (x : TaskStore).
        Moves (λ kind. may kind k) (life_of (lookup k s.tasks)) (life_of (lookup k x.tasks)))
      (sym is_t)
      (written may s s k false r refl (
        subst (λ o. Transition (λ kind. may kind r.id) (life_of o) (current r)) (sym new)
          (starts r allowed first)))
Effect-Moves {may} {s} k (edited_one row r {u} allowed found placed e p is_t) =
    subst
      (λ (x : TaskStore).
        Moves (λ kind. may kind k) (life_of (lookup k s.tasks)) (life_of (lookup k x.tasks)))
      (sym is_t)
      (written_over may s u k false row r (tasks-Pruned p) found placed (
        edits row.payload r allowed e.next_revision e.same_creation (
          subst
            (λ j.
              (has_pending_mutation row.payload.continuity
                && (not (has_pending_mutation r.continuity) && not (may reconciling j)))
              ≡ false)
            (sym e.same_id) e.gate)))
Effect-Moves {may} {s} k (closed_one status row r {u} allowed found placed c p is_t) =
    subst
      (λ (x : TaskStore).
        Moves (λ kind. may kind k) (life_of (lookup k s.tasks)) (life_of (lookup k x.tasks)))
      (sym is_t)
      (written_over may s u k true row r (tasks-Pruned p) found placed
        (closes row.payload r allowed c.next_revision c.same_creation c.no_mutation))
Effect-Moves {may} {s} {t} k (removed ids allowed free is_t) =
    let look = ap (λ (x : TaskStore). lookup k x.tasks) is_t ∙ lookup-delete_all ids k s.tasks in
    elim (Bool-cases (is_member k ids)) [
      | inr kept ↦
          let stays : lookup k t.tasks ≡ lookup k s.tasks = look ∙ rw kept refl in
          rests (sym (ap life_of stays))
      | inl chosen ↦
          let gone : lookup k t.tasks ≡ none = look ∙ rw chosen refl in
          removed-Moves (lookup k s.tasks) (allowed k chosen) (λ row found. free k row chosen found)
            (ap life_of gone)
    ]

-- A call that removes nothing leaves what is archived.
not_archived :
    {may : Kind → Bool} {r : TaskRecord} {retained : Bool} {b : Life}
    → may removing ≡ false
    → Transition may (archived r retained) b
    → ⊥
not_archived never (goes r allowed) = cc

-- `repair` makes a chain of closes, of which one at most is of the task.
repair-Moves :
    (clock : ℕ → Readings) (k : String) {a b c : Life}
    → Moves (λ kind. permits (repaired clock) kind k) a b
    → Moves (λ kind. permits (repaired clock) kind k) b c
    → Moves (λ kind. permits (repaired clock) kind k) a c
repair-Moves clock k {c = c} (rests e) m =
    subst (λ x. Moves (λ kind. permits (repaired clock) kind k) x c) (sym e) m
repair-Moves clock k {a = a} m (rests e) =
    subst (Moves (λ kind. permits (repaired clock) kind k) a) e m
repair-Moves clock k (moves (starts r allowed first)) (moves t) = cc
repair-Moves clock k (moves (edits before after allowed next created gate)) (moves t) = cc
repair-Moves clock k (moves (closes before after allowed next created settled)) (moves t) =
    absurd (not_archived refl t)
repair-Moves clock k (moves (goes r allowed)) (moves t) = cc

repairs-Moves :
    (clock : ℕ → Readings) {s t : TaskStore} (k : String)
    → Effects (permits (repaired clock)) s t
    → Moves
        (λ kind. permits (repaired clock) kind k)
        (life_of (lookup k s.tasks))
        (life_of (lookup k t.tasks))
repairs-Moves clock k here = rests refl
repairs-Moves clock k (then_one chain valid e) =
    repair-Moves clock k (repairs-Moves clock k chain) (Effect-Moves k e)

Performs-Moves :
    (call : Call) (s t : TaskStore) (k : String)
    → Performs call s t
    → Moves (λ kind. permits call kind k) (life_of (lookup k s.tasks)) (life_of (lookup k t.tasks))
Performs-Moves call s t k (once e) = Effect-Moves k e
Performs-Moves call s t k (repairs clock is g) =
    subst
      (λ c.
        Moves (λ kind. permits c kind k) (life_of (lookup k s.tasks)) (life_of (lookup k t.tasks)))
      (sym is) (repairs-Moves clock k g.chain)

-- From a store whose rows are valid, every sequence of calls, returning or raising, takes each task
-- through its specified life, in which every call either leaves the task as it is, record and
-- placement, or makes one transition. Only a `create` that drew its ID starts a task, which was
-- not there, at revision 1. Only a call on the task edits it, and only such a call, or `repair`,
-- archives it; both write the next revision and keep the time of its creation. An edit drops the mark
-- of a pending mutation only if the call brings evidence for it, and only a task without that mark is
-- archived. From the archive a task only goes, by `cleanup`, if it is not retained.
pub perform_all-Lives :
    (calls : List Call) (s : TaskStore) (k : String)
    → HasValidTasks s
    → Lives k calls (life_of (lookup k s.tasks)) (life_of (lookup k (perform_all calls s).tasks))
unfolding perform_all
perform_all-Lives [] s k v = over
perform_all-Lives (call ∷ calls) s k v =
    lives (Performs-Moves call s (perform call s) k (perform-Performs call s v))
      (perform_all-Lives calls (perform call s) k (perform-Goes call s v).valid)
