-- ===== src/Candidates/Changes.antt =====
-- src/hypershell_reach/candidates.py: the methods of `CandidateStore` that revise a record, over the
-- store of Candidates/Store.
use hypershell_reach.Base.{
  ℕ, suc, String, Bool, true, false, not, ◌&&◌, Option, none, some, ◌==◌, is_some, is_none,
  if◌then◌else◌,
}
use hypershell_reach.Base.Text.{show, str_eq, ◌<>◌}
use hypershell_reach.Base.Result.{
  Error, value_error, Result, ok, err, refuse, as_validation, ◌>>◌ as ◌>>>◌,
}
use hypershell_reach.Base.Action.{Action, pure, lift, raise_if, ◌>>=◌, ◌>>◌}
use hypershell_reach.Candidates.Record.{
  CandidateState, approved, blocked, state_name, CandidateProblem, CandidateProposal,
  CandidateOwnership, CandidateReference, CandidateImplementation, CandidateRecord, is_delivered,
  check_implementation, validate,
}
use hypershell_reach.Candidates.Store.{
  CandidateStore, atomic_write, get, is_allowed_transition, lock, require_writable,
}

-- What a method makes of the record it read: the same, or a revised one to be written.
pub data Revision : Type 0 where
  unchanged : Revision
  rewritten : CandidateRecord → Revision

-- `CandidateRecord.model_validate(current.model_copy(update=…).model_dump())`
unfoldable pub revised : CandidateRecord → Result Revision
revised updated = elim (validate updated) [ ok self ↦ ok (rewritten self) | err e ↦ err e ]

unfoldable pub write_revision : CandidateRecord → Revision → Action CandidateStore CandidateRecord
unfolding atomic_write
write_revision current unchanged = pure current
write_revision current (rewritten updated) = do atomic_write updated; pure updated

abbrev pub stale : ℕ → ℕ → Error
stale expected current =
    value_error
      ("stale candidate revision: expected " <> (show expected <> (", current " <> show current)))

-- The frame that `update`, `record_occurrence`, `transition` and `link_task` share: the lock, the
-- record, the test of its revision, what `change` makes of it, and the write.
unfoldable pub revise :
    String → ℕ → (CandidateRecord → Result Revision) → Action CandidateStore CandidateRecord
unfolding require_writable lock get write_revision
revise candidate_id expected_revision change = do
  require_writable
  lock candidate_id (do
    current ← get candidate_id
    raise_if (not (current.revision == expected_revision))
        (stale expected_revision current.revision)
    revision ← lift (change current)
    write_revision current revision)

-- The keyword arguments of `update`.
pub record CandidateChanges : Type 0 where
  pub title : Option String
  pub problem : Option CandidateProblem
  pub proposal : Option CandidateProposal
  pub ownership : Option CandidateOwnership
  pub promotion_rationale : Option String

abbrev pub or_current {ℓ} : {A : Type ℓ} → Option A → A → A
or_current none current = current
or_current (some value) current = value

-- `problem.recurrence_count != current.problem.recurrence_count`
abbrev pub recounts : Option CandidateProblem → CandidateRecord → Bool
recounts none current = false
recounts (some problem) current = not (problem.recurrence_count == current.problem.recurrence_count)

unfoldable pub updated_by : CandidateChanges → ℕ → CandidateRecord → Result Revision
unfolding revised
updated_by changes now current =
    refuse (recounts changes.problem current)
      (value_error "candidate recurrence_count cannot change through update; use record_occurrence")
    >>> revised (record current {
      revision = suc current.revision;
      updated_at = now;
      title = or_current changes.title current.title;
      problem = or_current changes.problem current.problem;
      proposal = or_current changes.proposal current.proposal;
      ownership = or_current changes.ownership current.ownership;
      promotion = record current.promotion {
        rationale = or_current changes.promotion_rationale current.promotion.rationale;
      };
    })

abbrev pub update : String → ℕ → CandidateChanges → ℕ → Action CandidateStore CandidateRecord
update candidate_id expected_revision changes now =
    revise candidate_id expected_revision (updated_by changes now)

unfoldable pub occurred_again : ℕ → CandidateRecord → Result Revision
unfolding revised
occurred_again now current = revised (record current {
  revision = suc current.revision;
  problem = record current.problem { recurrence_count = suc current.problem.recurrence_count };
  updated_at = now;
})

abbrev pub record_occurrence : String → ℕ → ℕ → Action CandidateStore CandidateRecord
record_occurrence candidate_id expected_revision now =
    revise candidate_id expected_revision (occurred_again now)

abbrev pub moved_record :
    CandidateState → String → Option CandidateReference → ℕ → CandidateRecord → CandidateRecord
moved_record target_state state_reason final_reference now current = record current {
  revision = suc current.revision;
  promotion = record current.promotion { state = target_state; state_reason = some state_reason };
  implementation = record current.implementation { final_reference = final_reference };
  updated_at = now;
}

unfoldable pub moved_to :
    CandidateState → String → Option CandidateReference → ℕ → CandidateRecord → Result Revision
unfolding revised
moved_to target_state state_reason final_reference now current =
    refuse (not (is_allowed_transition current.promotion.state target_state)) (
      value_error (
        "invalid candidate transition: "
        <> (state_name current.promotion.state <> (" -> " <> state_name target_state))))
    >>> (refuse (is_delivered target_state && is_none final_reference) (
          value_error
            (state_name target_state <> " transition requires a final capability reference"))
        >>> (refuse (not (is_delivered target_state) && is_some final_reference) (
              value_error
                "final capability reference is valid only for implemented or automated transition")
            >>> revised (moved_record target_state state_reason final_reference now current)))

abbrev pub transition :
    String
    → ℕ
    → CandidateState
    → String
    → Option CandidateReference
    → ℕ
    → Action CandidateStore CandidateRecord
transition candidate_id expected_revision target_state state_reason final_reference now =
    revise candidate_id expected_revision (moved_to target_state state_reason final_reference now)

-- `current.promotion.state in {"approved", "blocked"}`
abbrev pub is_linkable : CandidateState → Bool
is_linkable approved = true
is_linkable blocked = true
is_linkable _ = false

abbrev pub is_text_of : Option String → String → Bool
is_text_of none s = false
is_text_of (some t) s = str_eq t s

abbrev pub linked_implementation : String → CandidateRecord → CandidateImplementation
linked_implementation task_id current = record current.implementation { task_id = some task_id }

abbrev pub linked_record : String → ℕ → CandidateRecord → CandidateRecord
linked_record task_id now current = record current {
  revision = suc current.revision;
  implementation = linked_implementation task_id current;
  updated_at = now;
}

unfoldable pub linked_to : String → ℕ → CandidateRecord → Result Revision
unfolding revised
linked_to task_id now current =
    refuse (not (is_linkable current.promotion.state))
      (value_error "implementation task can be linked only after candidate approval")
    >>> (as_validation "CandidateImplementation"
          (check_implementation (linked_implementation task_id current))
        >>> (if is_text_of current.implementation.task_id task_id
            then ok unchanged
            else revised (linked_record task_id now current)))

abbrev pub link_task : String → ℕ → String → ℕ → Action CandidateStore CandidateRecord
link_task candidate_id expected_revision task_id now =
    revise candidate_id expected_revision (linked_to task_id now)
