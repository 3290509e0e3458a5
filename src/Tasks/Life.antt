-- ===== src/Tasks/Life.antt =====
-- src/hypershell_reach/tasks.py: the life of one task, as a specification.
use hypershell_reach.Base.{
  suc, ◌≡◌, String, Bool, true, false, not, ◌&&◌, Option, none, some, List, [], ◌∷◌, if◌then◌else◌,
}
use hypershell_reach.Tasks.Record.{TaskRecord, has_pending_mutation}
use hypershell_reach.Tasks.Store.{TaskRow}
use hypershell_reach.Tasks.Effect.{Kind, adding, editing, reconciling, closing, removing}
use hypershell_reach.Tasks.Calls.{Call, permits}

-- The specification: a task is not there, or it is current with a record, or it is archived with
-- a record and is retained or not.
pub data Life : Type 0 where
  absent : Life
  current : TaskRecord → Life
  archived : TaskRecord → Bool → Life

-- What one call does to one task, for what it may do to it.
pub data Transition (may : Kind → Bool) : Life → Life → Type 0 where
  starts : (r : TaskRecord) → may adding ≡ true → r.revision ≡ 1 → Transition may absent (current r)
  edits :
      (before after : TaskRecord)
      → may editing ≡ true
      → after.revision ≡ suc before.revision
      → after.created_at ≡ before.created_at
      → (has_pending_mutation before.continuity
          && (not (has_pending_mutation after.continuity) && not (may reconciling)))
        ≡ false
      → Transition may (current before) (current after)
  closes :
      (before after : TaskRecord)
      → may closing ≡ true
      → after.revision ≡ suc before.revision
      → after.created_at ≡ before.created_at
      → has_pending_mutation before.continuity ≡ false
      → Transition may (current before) (archived after after.retained)
  goes : (r : TaskRecord) → may removing ≡ true → Transition may (archived r false) absent

-- One call makes at most one transition of a task, and else leaves its record as it is.
pub data Moves (may : Kind → Bool) (a b : Life) : Type 0 where
  rests : a ≡ b → Moves may a b
  moves : Transition may a b → Moves may a b

pub data Lives (k : String) : List Call → Life → Life → Type 0 where
  over : {a : Life} → Lives k [] a a
  lives :
      {call : Call} {calls : List Call} {a b c : Life}
      → Moves (λ kind. permits call kind k) a b
      → Lives k calls b c
      → Lives k (call ∷ calls) a c

-- What the specification sees of a row.
abbrev pub life_of : Option TaskRow → Life
life_of none = absent
life_of (some row) = if row.archived then archived row.payload row.retained else current row.payload
