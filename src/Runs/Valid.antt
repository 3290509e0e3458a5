-- ===== src/Runs/Valid.antt =====
-- src/hypershell_reach/runs.py: what `RunRecord`'s validators accept they accept unchanged, so that a
-- record once validated can be written and read back.
use hypershell_reach.Base.{◌≤◌, ◌≡◌, sym, String, true, false, ◌||◌, Option, none, some, ltb, arith}
use mathlib.Core.Path.{subst}
use hypershell_reach.Base.Text.{str_len, strip-strip}
use hypershell_reach.Base.Result.{Result, ok, optional, ok_parts, ok-injective}
use hypershell_reach.Runs.Record.{
  RunRecord, Unicode, normalize_run_purpose, normalize_result_ref, validate_result_summary,
  fits_error_type, validate_schema_fields, validate_fields, validate,
}
use hypershell_reach.Runs.Printable.{IsLine}

module _ ⦃u : Unicode⦄ where
  normalize_run_purpose_fixed :
      (value : String) {normalized : String}
      → normalize_run_purpose value ≡ ok normalized
      → normalize_run_purpose normalized ≡ ok normalized
  unfolding normalize_run_purpose
  normalize_run_purpose_fixed value h = ground (arith, strip-strip value)

  normalize_result_ref_fixed :
      (value : String) {normalized : String}
      → normalize_result_ref value ≡ ok normalized
      → normalize_result_ref normalized ≡ ok normalized
  unfolding normalize_result_ref
  normalize_result_ref_fixed value h = ground (arith, strip-strip value)

  -- What has to hold of a record for the validators to return it unchanged.
  pub record IsWellFormed (self : RunRecord) : Type 0 where
    pub version : (ltb self.schema_version 1 || ltb 4 self.schema_version) ≡ false
    pub purpose_fixed : optional normalize_run_purpose self.purpose ≡ ok self.purpose
    pub summary_fixed : validate_result_summary self.result_summary ≡ ok self.result_summary
    pub ref_fixed : optional normalize_result_ref self.result_ref ≡ ok self.result_ref
    pub timeout_in_range : (ltb self.timeout_seconds 1 || ltb 900 self.timeout_seconds) ≡ false
    pub error_type_fits : fits_error_type self.error_type ≡ true
    pub schema_fixed : validate_schema_fields self ≡ ok tt

  pub validate_of_IsWellFormed : (r : RunRecord) → IsWellFormed r → validate r ≡ ok r
  unfolding validate_fields validate
  validate_of_IsWellFormed r w = rw (
    w.version, w.purpose_fixed, w.summary_fixed, w.ref_fixed, w.timeout_in_range, w.error_type_fits,
    w.schema_fixed,
  )

  optional_fixed :
      (f : String → Result String)
      → ((v : String) (n : String) → f v ≡ ok n → f n ≡ ok n)
      → (o : Option String) {p : Option String} → optional f o ≡ ok p
      → optional f p ≡ ok p
  optional_fixed f fixed none h = ground arith
  optional_fixed f fixed (some v) {p} h =
      let (n, same, made) = ok_parts (f v) (λ b. ok (some b)) h in
      subst (λ q. optional f q ≡ ok q) (ok-injective same) (rw (fixed v n made))

  validate_result_summary_same :
      (o : Option String) {p : Option String} → validate_result_summary o ≡ ok p → p ≡ o
  unfolding validate_result_summary
  validate_result_summary_same none h = cc
  validate_result_summary_same (some v) h = ground arith

  -- What each validator said of the fields of a record that was accepted.
  validated_parts :
      (r : RunRecord) {r' : RunRecord}
      → validate r ≡ ok r'
      → ((ltb r'.schema_version 1 || ltb 4 r'.schema_version) ≡ false)
        × (optional normalize_run_purpose r.purpose ≡ ok r'.purpose)
        × (validate_result_summary r.result_summary ≡ ok r'.result_summary)
        × (optional normalize_result_ref r.result_ref ≡ ok r'.result_ref)
        × ((ltb r'.timeout_seconds 1 || ltb 900 r'.timeout_seconds) ≡ false)
        × (fits_error_type r'.error_type ≡ true)
        × (validate_schema_fields r' ≡ ok tt)
  unfolding validate validate_fields
  validated_parts r h = ground arith

  pub validate-IsWellFormed :
      (r : RunRecord) {r' : RunRecord} → validate r ≡ ok r' → IsWellFormed r'
  validate-IsWellFormed r {r'} h =
      let (version, purpose, summary, result_ref, timeout, error, schema) = validated_parts r h in
      record {
        version = version;
        purpose_fixed =
            optional_fixed normalize_run_purpose normalize_run_purpose_fixed r.purpose purpose;
        summary_fixed =
            subst (λ o. validate_result_summary o ≡ ok r'.result_summary)
              (sym (validate_result_summary_same r.result_summary summary)) summary;
        ref_fixed =
            optional_fixed normalize_result_ref normalize_result_ref_fixed r.result_ref result_ref;
        timeout_in_range = timeout;
        error_type_fits = error;
        schema_fixed = schema;
      }

  -- What the validators of `RunRecord` make of a record that they accept, they accept again as it
  -- is.
  pub validate-validate :
      (r : RunRecord) {r' : RunRecord} → validate r ≡ ok r' → validate r' ≡ ok r'
  validate-validate r {r'} h = validate_of_IsWellFormed r' (validate-IsWellFormed r h)

  pub summary_of_line :
      (s : String) → IsLine s → str_len s ≤ 512 → validate_result_summary (some s) ≡ ok (some s)
  unfolding validate_result_summary
  summary_of_line s line short = ground arith

  pub validate-request :
      (r : RunRecord) {r' : RunRecord}
      → validate r ≡ ok r'
      → (r'.may_mutate ≡ r.may_mutate)
        × (r'.task_id ≡ r.task_id)
        × (r'.idempotent ≡ r.idempotent)
        × (r'.timeout_seconds ≡ r.timeout_seconds)
        × (r'.target ≡ r.target)
  unfolding validate validate_fields
  validate-request r h = ground arith

  pub validate-id : (r : RunRecord) {r' : RunRecord} → validate r ≡ ok r' → r'.id ≡ r.id
  unfolding validate validate_fields
  validate-id r h = ground arith
