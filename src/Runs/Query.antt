-- ===== src/Runs/Query.antt =====
-- src/hypershell_reach/runs.py: the queries of `RunStore`, `list` and `count`. An argument of `list`
-- or `count` is a natural number, so what the code says of a negative one is left out.
use Prim.Native.Char.{code}
use hypershell_reach.Base.{
  ℕ, zero, suc, ◌+◌, String, Bool, true, false, not, ◌&&◌, ◌||◌, Option, none, some, List, [], ◌∷◌,
  ◌++◌, leb, ltb, ◌==◌, if◌then◌else◌, take, length, keep, any,
}
use hypershell_reach.Base.Text.{str_eq, str_len, str_leb, is_upper}
use hypershell_reach.Base.Result.{Result, ok, value_error, refuse, ◌>>=◌, ◌>>◌}
use hypershell_reach.Base.Table.{Table}
use hypershell_reach.Runs.Record.{
  RunRecord, RunStatus, RunOperation, run_command, run_shell, run_script, RunExecutionMode, sync,
  async, RunExecutionClass, normal, heavy, Unicode, validate,
}
use hypershell_reach.Runs.Summary.{status_name}
use hypershell_reach.Runs.Store.{RunRow, RunStore}

abbrev pub operation_name : RunOperation → String
operation_name run_command = "run_command"
operation_name run_shell = "run_shell"
operation_name run_script = "run_script"

abbrev pub mode_name : RunExecutionMode → String
mode_name sync = "sync"
mode_name async = "async"

abbrev pub class_name : RunExecutionClass → String
class_name normal = "normal"
class_name heavy = "heavy"

-- The filters of `list` and `count`; a filter that is `None` is left out.
pub record RunFilters : Type 0 where
  pub status : Option RunStatus
  pub task_id : Option String
  pub target : Option String
  pub operation : Option RunOperation
  pub execution_mode : Option RunExecutionMode
  pub execution_class : Option RunExecutionClass
  pub retained : Option Bool
  pub ambiguous : Option Bool
  pub started_after : Option ℕ
  pub started_before : Option ℕ
  pub ended_after : Option ℕ
  pub ended_before : Option ℕ
  pub q : Option String

-- SQLite's `lower`, which changes the letters of ASCII only, on a character.
abbrev pub lower : ℕ → ℕ
lower c = if is_upper c then c + 32 else c

abbrev pub is_prefix : String → String → Bool
is_prefix String.[] s = true
is_prefix (String.◌∷◌ c p) String.[] = false
is_prefix (String.◌∷◌ c p) (String.◌∷◌ d s) = (lower (code c) == lower (code d)) && is_prefix p s

-- `instr(lower(text), lower(q)) > 0`
abbrev pub occurs : String → String → Bool
occurs q String.[] = is_prefix q ""
occurs q (String.◌∷◌ c s) = is_prefix q (String.◌∷◌ c s) || occurs q s

-- `coalesce(field, '')`
abbrev pub or_empty : Option String → String
or_empty none = ""
or_empty (some s) = s

abbrev pub searched : RunRow → List String
searched row =
    let self = row.payload in
    self.id
    ∷ self.target
    ∷ operation_name self.operation
    ∷ or_empty self.purpose
    ∷ or_empty self.result_summary
    ∷ or_empty self.result_ref
    ∷ or_empty self.script_id
    ∷ []

abbrev pub same_text : Option String → String → Bool
same_text none value = true
same_text (some wanted) value = str_eq wanted value

abbrev pub same_optional : Option String → Option String → Bool
same_optional none value = true
same_optional (some wanted) none = false
same_optional (some wanted) (some value) = str_eq wanted value

abbrev pub same_flag : Option Bool → Bool → Bool
same_flag none value = true
same_flag (some true) value = value
same_flag (some false) value = not value

abbrev pub from_on : Option ℕ → Option ℕ → Bool
from_on none value = true
from_on (some cutoff) none = false
from_on (some cutoff) (some value) = leb cutoff value

abbrev pub up_to : Option ℕ → Option ℕ → Bool
up_to none value = true
up_to (some cutoff) none = false
up_to (some cutoff) (some value) = leb value cutoff

abbrev pub named_by {ℓ} : {A : Type ℓ} → (A → String) → Option A → Option String
named_by name none = none
named_by name (some value) = some (name value)

abbrev pub found_by : Option String → RunRow → Bool
found_by none row = true
found_by (some q) row = any (occurs q) (searched row)

-- The condition that `_query_parts` writes.
unfoldable pub selects : RunFilters → RunRow → Bool
unfolding status_name
selects filters row =
    same_text (named_by status_name filters.status) (status_name row.status)
    && (same_optional filters.task_id row.task_id
        && (same_text filters.target row.target
            && (same_text (named_by operation_name filters.operation) (operation_name row.operation)
                && (same_text (named_by mode_name filters.execution_mode)
                      (mode_name row.execution_mode)
                    && (same_text (named_by class_name filters.execution_class)
                          (class_name row.execution_class)
                        && (same_flag filters.retained row.retained
                            && (same_flag filters.ambiguous row.ambiguous
                                && (from_on filters.started_after (some row.started_at)
                                    && (up_to filters.started_before (some row.started_at)
                                        && (from_on filters.ended_after row.ended_at
                                            && (up_to filters.ended_before row.ended_at
                                                && found_by filters.q row)))))))))))

abbrev pub is_long : Option String → Bool
is_long none = false
is_long (some q) = ltb 512 (str_len q)

abbrev pub check_filters : RunFilters → Result (Unit {0})
check_filters filters =
    refuse (is_long filters.q) (value_error "run query text must be at most 512 characters")

pub data RunSort : Type 0 where
  by_id by_started_at by_ended_at by_status by_target by_operation by_mode by_class : RunSort

-- A value as SQLite orders it: NULL, then numbers, then texts.
pub data SortValue : Type 0 where
  null : SortValue
  number : ℕ → SortValue
  text : String → SortValue

abbrev pub value_leb : SortValue → SortValue → Bool
value_leb null b = true
value_leb (number m) null = false
value_leb (number m) (number n) = leb m n
value_leb (number m) (text t) = true
value_leb (text s) (text t) = str_leb s t
value_leb (text s) _ = false

abbrev pub ended_value : Option ℕ → SortValue
ended_value none = null
ended_value (some n) = number n

abbrev pub sort_value : RunSort → String × RunRow → SortValue
sort_value by_id (run_id, row) = text run_id
sort_value by_started_at (run_id, row) = number row.started_at
sort_value by_ended_at (run_id, row) = ended_value row.ended_at
sort_value by_status (run_id, row) = text (status_name row.status)
sort_value by_target (run_id, row) = text row.target
sort_value by_operation (run_id, row) = text (operation_name row.operation)
sort_value by_mode (run_id, row) = text (mode_name row.execution_mode)
sort_value by_class (run_id, row) = text (class_name row.execution_class)

-- `ORDER BY expression,id`
abbrev pub entry_leb : RunSort → String × RunRow → String × RunRow → Bool
entry_leb sort a b =
    let first = value_leb (sort_value sort a) (sort_value sort b) in
    let second = value_leb (sort_value sort b) (sort_value sort a) in
    first && (not second || str_leb a.0 b.0)

abbrev pub insert_entry : RunSort → String × RunRow → Table RunRow → Table RunRow
insert_entry sort entry [] = entry ∷ []
insert_entry sort entry (other ∷ rest) =
    if entry_leb sort entry other
    then entry ∷ other ∷ rest
    else other ∷ insert_entry sort entry rest

abbrev pub sort_entries : RunSort → Table RunRow → Table RunRow
sort_entries sort [] = []
sort_entries sort (entry ∷ rest) = insert_entry sort entry (sort_entries sort rest)

abbrev pub reverse {ℓ} : {A : Type ℓ} → List A → List A
reverse [] = []
reverse (x ∷ xs) = reverse xs ++ (x ∷ [])

abbrev pub drop {ℓ} : {A : Type ℓ} → ℕ → List A → List A
drop zero xs = xs
drop (suc n) [] = []
drop (suc n) (x ∷ xs) = drop n xs

abbrev pub selected : RunFilters → RunStore → Table RunRow
selected filters s = keep (λ entry. selects filters entry.1) s.runs

-- IDs are unique, so the order by `DESC` is the other one reversed.
abbrev pub in_order : RunSort → Bool → Table RunRow → Table RunRow
in_order sort descending rows =
    if descending then reverse (sort_entries sort rows) else sort_entries sort rows

-- `LIMIT ? OFFSET ?`
abbrev pub page : ℕ → ℕ → Table RunRow → Table RunRow
page limit offset rows = take limit (drop offset rows)

module _ ⦃u : Unicode⦄ where
  -- `RunRecord.model_validate_json` of each row.
  abbrev pub validate_rows : Table RunRow → Result (List RunRecord)
  validate_rows [] = ok []
  validate_rows ((run_id, row) ∷ rest) =
      validate row.payload >>= λ self. validate_rows rest >>= λ others. ok (self ∷ others)

  unfoldable pub list_runs :
      RunFilters → RunSort → Bool → ℕ → ℕ → RunStore → Result (List RunRecord)
  unfolding selects
  list_runs filters sort descending limit offset s =
      refuse (ltb limit 1 || ltb 500 limit) (value_error "run list limit must be between 1 and 500")
      >> (check_filters filters
          >> validate_rows (page limit offset (in_order sort descending (selected filters s))))

unfoldable pub count_runs : RunFilters → RunStore → Result ℕ
unfolding selects
count_runs filters s = check_filters filters >> ok (length (selected filters s))
