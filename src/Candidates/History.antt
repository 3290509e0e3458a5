-- ===== src/Candidates/History.antt =====
-- src/hypershell_reach/candidates.py: what a record may become, and what the revision number is for.
use mathlib.Core.Path.{subst}
use mathlib.Core.Option.{some-injective}
use hypershell_reach.Base.{
  ℕ, suc, ◌≤◌, ◌<◌, ◌≡◌, refl, sym, ap, ◌∙◌, ◌⊎◌, inl, inr, String, true, false, none, some, arith,
  Bool-cases, ◌==◌,
}
use hypershell_reach.Base.Text.{str_eq, str_eq_iff}
use hypershell_reach.Base.Result.{Result, err}
use hypershell_reach.Base.Table.{lookup, lookup-upsert}
use hypershell_reach.Candidates.Record.{CandidateRecord, is_candidate_id}
use hypershell_reach.Candidates.Store.{CandidateRow, CandidateStore, row_of}
use hypershell_reach.Candidates.Changes.{Revision, revise, stale}
use hypershell_reach.Candidates.Revision.{IsRevision, Revises, is_terminal, no_way_out}
use hypershell_reach.Candidates.Frame.{HasValidCandidates, with_row, revise_lem}
use hypershell_reach.Candidates.Steps.{
  Effect, nothing, added, revised_one, Reach, here, next, Step-Effect, Reach-HasValidCandidates,
}

pub record Later (old new : CandidateRecord) : Type 0 where
  pub same_id : new.id ≡ old.id
  pub same_birth : new.created_at ≡ old.created_at
  pub recurs : old.problem.recurrence_count ≤ new.problem.recurrence_count
  pub revisions : (new ≡ old) ⊎ (old.revision < new.revision)
  pub settled :
      is_terminal old.promotion.state ≡ true
      → (new.promotion.state ≡ old.promotion.state)
        × (new.promotion.state_reason ≡ old.promotion.state_reason)
        × (new.implementation ≡ old.implementation)

Later-refl : (r : CandidateRecord) → Later r r
Later-refl r = record {
  same_id = refl;
  same_birth = refl;
  recurs = omega arith;
  revisions = inl refl;
  settled = λ over. (refl, refl, refl);
}

settled_after :
    (mid new : CandidateRecord)
    → IsRevision mid new
    → is_terminal mid.promotion.state ≡ true
    → (new.promotion.state ≡ mid.promotion.state)
      × (new.promotion.state_reason ≡ mid.promotion.state_reason)
      × (new.implementation ≡ mid.implementation)
settled_after mid new r over = elim r.moves [
  | inl (state, reason) ↦ (state, reason, r.settled over)
  | inr legal ↦ let going = no_way_out mid.promotion.state new.promotion.state legal in cc
]

revision_grows :
    (old mid new : CandidateRecord)
    → (mid ≡ old) ⊎ (old.revision < mid.revision)
    → new.revision ≡ suc mid.revision
    → old.revision < new.revision
revision_grows old mid new (inl same) step =
    let was : mid.revision ≡ old.revision = ap (λ (x : CandidateRecord). x.revision) same in
    omega arith
revision_grows old mid new (inr less) step = omega arith

Later-IsRevision :
    {old mid new : CandidateRecord} → Later old mid → IsRevision mid new → Later old new
Later-IsRevision {old} {mid} {new} l r = record {
  same_id = r.same_id ∙ l.same_id;
  same_birth = r.same_birth ∙ l.same_birth;
  recurs = omega (arith, l.recurs, r.recurs);
  revisions = inr (revision_grows old mid new l.revisions r.next_revision);
  settled = λ over.
      let (state, reason, implementation) = l.settled over in
      let (state', reason', implementation') =
        settled_after mid new r (ap is_terminal state ∙ over) in
      (state' ∙ state, reason' ∙ reason, implementation' ∙ implementation);
}

abbrev HasLater : String → CandidateRecord → CandidateStore → Type 0
HasLater k old s = (row : CandidateRow) × (lookup k s.candidates ≡ some row) × Later old row.payload

found_after_write :
    (k : String) (old r : CandidateRecord) (s : CandidateStore)
    → (r.id ≡ k → Later old r)
    → HasLater k old s
    → HasLater k old (with_row r s)
found_after_write k old r s ours (row, found, later) = elim (Bool-cases (str_eq r.id k)) [
  | inl same ↦ (
    row_of r,
    lookup-upsert r.id k (row_of r) s.candidates ∙ rw same refl,
    ours ((str_eq_iff r.id k).0 same),
  )
  | inr other ↦ (row, lookup-upsert r.id k (row_of r) s.candidates ∙ rw (other, found) refl, later)
]

-- A new record's ID was free.
not_added :
    (k : String) (old r : CandidateRecord) (s : CandidateStore)
    → lookup r.id s.candidates ≡ none
    → HasLater k old s
    → r.id ≡ k
    → Later old r
not_added k old r s new (row, found, later) ours =
    let same : lookup k s.candidates ≡ none = ap (λ i. lookup i s.candidates) (sym ours) ∙ new in cc

Effect-HasLater :
    (k : String) (old : CandidateRecord) {s t : CandidateStore}
    → Effect s t
    → HasLater k old s
    → HasLater k old t
Effect-HasLater k old (nothing same) h = subst (HasLater k old) (sym same) h
Effect-HasLater k old {s} (added r new accepted same) h =
    subst (HasLater k old) (sym same) (found_after_write k old r s (not_added k old r s new h) h)
Effect-HasLater k old {s} (revised_one mid r found is_one same) (row, was, later) =
    subst (HasLater k old) (sym same) (
      found_after_write k old r s
        (λ ours.
          let both : mid ≡ row =
            some-injective _ _ (sym found ∙ ap (λ i. lookup i s.candidates) ours ∙ was) in
          Later-IsRevision later (subst (λ (x : CandidateRow). IsRevision x.payload r) both is_one))
        (row, was, later))

-- However the methods are called from a store with valid rows, a record is never lost, and what it
-- becomes has its ID and time of creation, counts no fewer occurrences, is the very same record or
-- has a larger revision number, and, once the record is not warranted, implemented or automated,
-- has its state, reason, task and final reference for good.
pub Reach-Later :
    {s t : CandidateStore} (candidate_id : String) (row : CandidateRow)
    → HasValidCandidates s
    → lookup candidate_id s.candidates ≡ some row
    → Reach s t
    → (row' : CandidateRow) × (lookup candidate_id t.candidates ≡ some row')
      × Later row.payload row'.payload
Reach-Later candidate_id row v found here = (row, found, Later-refl row.payload)
Reach-Later candidate_id row v found (next r st) =
    Effect-HasLater candidate_id row.payload (Step-Effect (Reach-HasValidCandidates v r) st)
      (Reach-Later candidate_id row v found r)

still_ahead :
    (old new : CandidateRecord) (expected : ℕ)
    → Later old new
    → expected < old.revision
    → (new.revision == expected) ≡ false
still_ahead old new expected later ahead =
    let grown = later.revisions in
    elim grown [
      | inl same ↦
          let as_before : new.revision ≡ old.revision =
            ap (λ (x : CandidateRecord). x.revision) same in
          ground arith
      | inr less ↦ ground arith
    ]

-- No update is lost: once a record has gone past a revision, every call that expects that revision
-- is refused as stale and changes nothing, however many calls of the methods came between.
pub stale_is_refused :
    {s t : CandidateStore} (candidate_id : String) (row : CandidateRow) (expected : ℕ)
    (change : CandidateRecord → Result Revision)
    → HasValidCandidates s
    → lookup candidate_id s.candidates ≡ some row
    → expected < row.payload.revision
    → Reach s t
    → t.read_only ≡ false
    → is_candidate_id candidate_id ≡ true
    → Revises change
    → (current : ℕ) × (revise candidate_id expected change t ≡ (err (stale expected current), t))
stale_is_refused {t = t} candidate_id row expected change v found ahead r open_store named revises =
    let (row', found', later) = Reach-Later candidate_id row v found r in
    let past = still_ahead row.payload row'.payload expected later ahead in
    (
      row'.payload.revision,
      revise_lem candidate_id expected change t revises (Reach-HasValidCandidates v r)
          ∙ simp (open_store, named, found', past),
    )
