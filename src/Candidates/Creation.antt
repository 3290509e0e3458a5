-- ===== src/Candidates/Creation.antt =====
-- src/hypershell_reach/candidates.py: `create` without an ID, which draws one until it is free.
use hypershell_reach.Base.{
  ℕ, zero, suc, ◌<◌, ◌≡◌, refl, sym, ap, ◌∙◌, inl, inr, String, true, false, none, some, arith,
  Option-cases, Bool-cases, ◌==◌, is_some,
}
use hypershell_reach.Base.Text.{str_eq_refl, ◌<>◌}
use hypershell_reach.Base.Result.{ok, err, value_error}
use hypershell_reach.Base.Table.{lookup}
use hypershell_reach.Candidates.Record.{is_candidate_id, validate}
use hypershell_reach.Candidates.Store.{
  CandidateRow, CandidateStore, CandidateRequest, new_candidate, create_with, create_generated,
  create,
}
use hypershell_reach.Candidates.Frame.{with_row, create_with_lem}
use hypershell_reach.Candidates.Steps.{create_none_lem}

module _ (request : CandidateRequest) (generated : ℕ → String) (now : ℕ) (s : CandidateStore)
    (once : (request.problem.recurrence_count == 1) ≡ true) (open_store : s.read_only ≡ false)
    (named : (i : ℕ) → is_candidate_id (generated i) ≡ true)
    (accepted : (i : ℕ)
      → validate (new_candidate request (generated i) now)
        ≡ ok (new_candidate request (generated i) now)) where
  on_free :
      (i : ℕ)
      → lookup (generated i) s.candidates ≡ none
      → create_with request (generated i) now s ≡ (
        ok (new_candidate request (generated i) now),
        with_row (new_candidate request (generated i) now) s,
      )
  on_free i free =
      create_with_lem request (generated i) now s
      ∙ simp (open_store, once, named i, free, accepted i)

  on_taken :
      (i : ℕ)
      → is_some (lookup (generated i) s.candidates) ≡ true
      → create_with request (generated i) now s
        ≡ (err (value_error ("candidate already exists: " <> generated i)), s)
  on_taken i taken =
      create_with_lem request (generated i) now s ∙ simp (open_store, once, named i, taken)

  less_than :
      (n i : ℕ) (row : CandidateRow)
      → i < suc n
      → lookup (generated i) s.candidates ≡ none
      → lookup (generated n) s.candidates ≡ some row
      → i < n
  less_than n i row less free there = elim (Bool-cases (i == n)) [
    | inl last ↦
        let same : i ≡ n = ground arith in
        let never : none ≡ some row =
          sym free ∙ ap (λ k. lookup (generated k) s.candidates) same ∙ there in
        cc
    | inr other ↦ ground arith
  ]

  generated_finds :
      (n i : ℕ)
      → i < n
      → lookup (generated i) s.candidates ≡ none
      → (j : ℕ) × (j < n)
        × (lookup (generated j) s.candidates ≡ none)
        × (create_generated n request generated now s ≡ (
          ok (new_candidate request (generated j) now),
          with_row (new_candidate request (generated j) now) s,
        ))
  unfolding create_generated
  generated_finds zero i less free = absurd (omega arith)
  generated_finds (suc n) i less free = elim (Option-cases (lookup (generated n) s.candidates)) [
    | inl here ↦ (n, omega arith, here, rw (on_free n here) refl)
    | inr (row, there) ↦
        let taken = on_taken n (rw there refl) in
        let (j, in_range, was_free, made) =
          generated_finds n i (less_than n i row less free there) free in
        (
          j,
          omega arith,
          was_free,
          simp (taken, str_eq_refl ("candidate already exists: " <> generated n), made),
        )
  ]

  -- `create` without an ID succeeds if one of the 32 IDs that it may draw is free, for a writable
  -- store and a request that gives a valid record with any of them: it writes the new record under
  -- one of them that was free, and changes nothing else.
  pub create_finds_free :
      (i : ℕ)
      → i < 32
      → lookup (generated i) s.candidates ≡ none
      → (j : ℕ) × (j < 32)
        × (lookup (generated j) s.candidates ≡ none)
        × (create none request generated now s ≡ (
          ok (new_candidate request (generated j) now),
          with_row (new_candidate request (generated j) now) s,
        ))
  create_finds_free i less free =
      let (j, in_range, was_free, made) = generated_finds 32 i less free in
      (
        j,
        in_range,
        was_free,
        create_none_lem request generated now s ∙ simp (open_store, once, made),
      )
