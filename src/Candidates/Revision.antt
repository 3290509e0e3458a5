-- ===== src/Candidates/Revision.antt =====
-- src/hypershell_reach/candidates.py: what one call of a method may make of a record.
use mathlib.Core.Path.{subst}
use hypershell_reach.Base.{
  ℕ, suc, ◌≤◌, ◌≡◌, refl, sym, ◌⊎◌, inl, inr, String, Bool, true, false, Option, none, some, arith,
}
use hypershell_reach.Base.Result.{
  Result, ok, err, ok-injective, as_validation-eq-ok, refuse-eq-ok, Result-cases, ok_parts,
}
use hypershell_reach.Candidates.Record.{
  CandidateState, CandidateRecord, CandidateReference, CandidateProblem, check_fields, validate,
}
use hypershell_reach.Candidates.Store.{is_allowed_transition}
use hypershell_reach.Candidates.Changes.{
  Revision, rewritten, revised, CandidateChanges, updated_by, occurred_again, moved_to, linked_to,
  recounts, or_current, is_linkable, moved_record, linked_record,
}

-- No method leads out of these states.
abbrev pub is_terminal : CandidateState → Bool
is_terminal CandidateState.not_warranted = true
is_terminal CandidateState.implemented = true
is_terminal CandidateState.automated = true
is_terminal _ = false

-- The validators change nothing.
pub validate_same : (r : CandidateRecord) {r' : CandidateRecord} → validate r ≡ ok r' → r' ≡ r
unfolding validate
validate_same r h =
    let (done, same, checked) =
      ok_parts (check_fields r) (λ _. ok r) (as_validation-eq-ok "CandidateRecord" _ h) in
    sym (ok-injective same)

pub record IsRevision (current updated : CandidateRecord) : Type 0 where
  pub accepted : validate updated ≡ ok updated
  pub same_id : updated.id ≡ current.id
  pub same_birth : updated.created_at ≡ current.created_at
  pub next_revision : updated.revision ≡ suc current.revision
  pub recurs : current.problem.recurrence_count ≤ updated.problem.recurrence_count
  pub moves :
      ((updated.promotion.state ≡ current.promotion.state)
        × (updated.promotion.state_reason ≡ current.promotion.state_reason))
      ⊎ (is_allowed_transition current.promotion.state updated.promotion.state ≡ true)
  pub settled :
      is_terminal current.promotion.state ≡ true → updated.implementation ≡ current.implementation

abbrev pub Revises : (CandidateRecord → Result Revision) → Type 0
Revises change =
    (current updated : CandidateRecord)
    → change current ≡ ok (rewritten updated)
    → IsRevision current updated

revised-eq-ok :
    (r : CandidateRecord) {updated : CandidateRecord}
    → revised r ≡ ok (rewritten updated)
    → (updated ≡ r) × (validate r ≡ ok r)
unfolding revised
revised-eq-ok r {updated} h = elim (Result-cases (validate r)) [
  | inl (r', accepted) ↦
      let same : r' ≡ r = validate_same r accepted in
      let given : ok (rewritten r') ≡ ok (rewritten updated) = rw (accepted, revised) at h in
      (cc, cc)
  | inr (e, refused) ↦ let never : err e ≡ ok (rewritten updated) = rw (refused, revised) at h in cc
]

-- A revision is what `revised` was given, once its parts are known to be one.
IsRevision-of :
    (current r : CandidateRecord) {updated : CandidateRecord}
    → revised r ≡ ok (rewritten updated)
    → (validate r ≡ ok r → IsRevision current r)
    → IsRevision current updated
IsRevision-of current r h parts =
    let (same, accepted) = revised-eq-ok r h in
    subst (λ x. IsRevision current x) (sym same) (parts accepted)

kept_count :
    (problem : Option CandidateProblem) (current : CandidateRecord)
    → recounts problem current ≡ false
    → current.problem.recurrence_count ≤ (or_current problem current.problem).recurrence_count
kept_count none current h = omega arith
kept_count (some problem) current h = ground arith

pub updated_by-Revises : (changes : CandidateChanges) (now : ℕ) → Revises (updated_by changes now)
unfolding updated_by
updated_by-Revises changes now current updated h =
    let (counted, h') = refuse-eq-ok (recounts changes.problem current) _ _ h in
    IsRevision-of current _ h' λ accepted. record {
      accepted = accepted;
      same_id = refl;
      same_birth = refl;
      next_revision = refl;
      recurs = kept_count changes.problem current counted;
      moves = inl (refl, refl);
      settled = λ over. refl;
    }

pub occurred_again-Revises : (now : ℕ) → Revises (occurred_again now)
unfolding occurred_again
occurred_again-Revises now current updated h = IsRevision-of current _ h λ accepted. record {
  accepted = accepted;
  same_id = refl;
  same_birth = refl;
  next_revision = refl;
  recurs = omega arith;
  moves = inl (refl, refl);
  settled = λ over. refl;
}

pub no_way_out :
    (state target : CandidateState)
    → is_allowed_transition state target ≡ true
    → is_terminal state ≡ false
no_way_out state target h = ground arith

moved_parts :
    (target : CandidateState) (reason : String) (reference : Option CandidateReference) (now : ℕ)
    (current updated : CandidateRecord)
    → moved_to target reason reference now current ≡ ok (rewritten updated)
    → (is_allowed_transition current.promotion.state target ≡ true)
      × (revised (moved_record target reason reference now current) ≡ ok (rewritten updated))
unfolding moved_to
moved_parts target reason reference now current updated h = ground arith

pub moved_to-Revises :
    (target : CandidateState) (reason : String) (reference : Option CandidateReference) (now : ℕ)
    → Revises (moved_to target reason reference now)
moved_to-Revises target reason reference now current updated h =
    let (legal, written) = moved_parts target reason reference now current updated h in
    let going = no_way_out current.promotion.state target legal in
    IsRevision-of current (moved_record target reason reference now current) written λ accepted.
      record {
        accepted = accepted;
        same_id = refl;
        same_birth = refl;
        next_revision = refl;
        recurs = omega arith;
        moves = inr legal;
        settled = λ over. cc;
      }

not_linkable : (state : CandidateState) → is_linkable state ≡ true → is_terminal state ≡ false
not_linkable state h = ground arith

linked_parts :
    (task_id : String) (now : ℕ) (current updated : CandidateRecord)
    → linked_to task_id now current ≡ ok (rewritten updated)
    → (is_linkable current.promotion.state ≡ true)
      × (revised (linked_record task_id now current) ≡ ok (rewritten updated))
unfolding linked_to
linked_parts task_id now current updated h = ground arith

pub linked_to-Revises : (task_id : String) (now : ℕ) → Revises (linked_to task_id now)
linked_to-Revises task_id now current updated h =
    let (linkable, written) = linked_parts task_id now current updated h in
    let going = not_linkable current.promotion.state linkable in
    IsRevision-of current (linked_record task_id now current) written λ accepted. record {
      accepted = accepted;
      same_id = refl;
      same_birth = refl;
      next_revision = refl;
      recurs = omega arith;
      moves = inl (refl, refl);
      settled = λ over. cc;
    }
