-- ===== src/Tasks/Equality.antt =====
-- src/hypershell_reach/tasks.py: the comparisons of `_desired_close_matches`. pydantic compares models
-- by their fields.
use hypershell_reach.Base.{
  String, Bool, true, false, not, ◌&&◌, Option, none, some, List, [], ◌∷◌, is_some, if◌then◌else◌,
}
use hypershell_reach.Base.Text.{str_eq}
use hypershell_reach.Base.Result.{Result, ok, ◌>>=◌}
use hypershell_reach.Tasks.Record.{
  status_eq, ClosingStatus, status_of, EvidenceClass, observed, configured, documented, planned,
  unknown, AssumptionImpact, low, medium, high, TaskSource, TaskAssumption, TaskContinuity,
  TaskRecord, optional_eq,
}
use hypershell_reach.Tasks.Store.{bool_eq}
use hypershell_reach.Tasks.Edits.{TaskEdits, ContinuityPatch, merge_continuity}

abbrev pub class_eq : EvidenceClass → EvidenceClass → Bool
class_eq observed observed = true
class_eq configured configured = true
class_eq documented documented = true
class_eq planned planned = true
class_eq unknown unknown = true
class_eq _ _ = false

abbrev pub impact_eq : AssumptionImpact → AssumptionImpact → Bool
impact_eq low low = true
impact_eq medium medium = true
impact_eq high high = true
impact_eq _ _ = false

abbrev pub source_eq : TaskSource → TaskSource → Bool
source_eq a b =
    class_eq a.classification b.classification
    && (str_eq a.reference b.reference && str_eq a.purpose b.purpose)

abbrev pub assumption_eq : TaskAssumption → TaskAssumption → Bool
assumption_eq a b =
    str_eq a.statement b.statement
    && (class_eq a.evidence_class b.evidence_class
        && (impact_eq a.impact_if_wrong b.impact_if_wrong && str_eq a.decision b.decision))

abbrev pub list_eq {ℓ} : {A : Type ℓ} → (A → A → Bool) → List A → List A → Bool
list_eq eq [] [] = true
list_eq eq (x ∷ xs) (y ∷ ys) = eq x y && list_eq eq xs ys
list_eq eq _ _ = false

unfoldable pub continuity_eq : TaskContinuity → TaskContinuity → Bool
continuity_eq a b =
    optional_eq a.authorization b.authorization
    && (list_eq source_eq a.sources b.sources
        && (list_eq str_eq a.completed b.completed
            && (list_eq str_eq a.validation b.validation
                && (list_eq str_eq a.cleanup b.cleanup
                    && (optional_eq a.recovery b.recovery
                        && (list_eq str_eq a.blockers b.blockers
                            && list_eq assumption_eq a.assumptions b.assumptions))))))

-- `value is not None and current != value` does not hold.
abbrev pub agrees {ℓ} : {A : Type ℓ} → (A → A → Bool) → Option A → A → Bool
agrees eq none current = true
agrees eq (some value) current = eq current value

abbrev pub agrees_optional : Option String → Option String → Bool
agrees_optional none current = true
agrees_optional (some value) current = optional_eq current (some value)

-- The comparisons before that of the continuity.
abbrev pub agrees_on_fields : TaskRecord → ClosingStatus → TaskEdits → Bool
agrees_on_fields self status edits =
    status_eq self.status (status_of status)
    && (agrees str_eq edits.title self.title
        && (agrees str_eq edits.objective self.objective
            && (agrees_optional edits.project_ref self.project_ref
                && (not (edits.clear_project_ref && is_some self.project_ref)
                    && (agrees_optional edits.next_action self.next_action
                        && not (edits.clear_next_action && is_some self.next_action))))))

unfoldable pub agrees_on_continuity : TaskRecord → Option ContinuityPatch → Result Bool
unfolding merge_continuity continuity_eq
agrees_on_continuity self none = ok true
agrees_on_continuity self (some patch) =
    merge_continuity self.continuity patch >>= λ merged. ok (continuity_eq self.continuity merged)

-- `_desired_close_matches`
unfoldable pub desired_close_matches : TaskRecord → ClosingStatus → TaskEdits → Result Bool
unfolding agrees_on_continuity
desired_close_matches self status edits =
    if agrees_on_fields self status edits
    then (agrees_on_continuity self edits.continuity >>= λ same.
        ok (same && agrees bool_eq edits.retained self.retained))
    else ok false
