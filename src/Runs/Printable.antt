-- ===== src/Runs/Printable.antt =====
-- src/hypershell_reach/runs.py: the texts that the store writes into a summary.
use hypershell_reach.Base.{
  ℕ, suc, ◌≡◌, refl, String, Bool, true, false, ◌&&◌, Option, none, some, leb, arith, ◌∙◌, true-and,
  and-true, Bool-cases, inl, inr,
}
use hypershell_reach.Base.Text.{
  show, str_all, str_len, is_empty, ◌<>◌, str_take, str_all-append, is_empty-append, str_all-take,
  is_ascii, ascii-show,
}
use Prim.Native.Char.{code}
use hypershell_reach.Base.Int.{ℤ, pos, negsuc, show_ℤ}
use hypershell_reach.Runs.Record.{
  Unicode, RunStatus, RunRecord, is_ambiguous, running, succeeded, remote_error, transport_error,
  timeout, local_error, interrupted, unknown,
}
use hypershell_reach.Runs.Summary.{
  Execution, status_name, get_bytes, get_truncated, show_bytes, show_flag, show_exit_code,
  ambiguity, execution_lead, stream_metadata, internal_lead, no_content_persisted,
  execution_result_summary, internal_result_summary, bounded_result_summary,
}

module _ ⦃u : Unicode⦄ where
  abbrev pub is_text : String → Bool
  is_text = str_all u.is_printable

  -- A text of printable ASCII characters is printable.
  pub printable_of_ascii : (s : String) → str_all is_ascii s ≡ true → is_text s ≡ true
  printable_of_ascii String.[] h = refl
  printable_of_ascii (String.◌∷◌ c s) h =
      let (first, rest) = true-and _ _ h in
      and-true (u.ascii_printable (code c) first) (printable_of_ascii s rest)

  -- A literal, and texts that are joined.
  text_lit : (s : String) → str_all is_ascii s ≡ true → is_text s ≡ true
  text_lit s h = printable_of_ascii s h

  text-append : (s t : String) → is_text s ≡ true → is_text t ≡ true → is_text (s <> t) ≡ true
  text-append s t p q = str_all-append u.is_printable s t ∙ and-true p q

  text-show : (n : ℕ) → is_text (show n) ≡ true
  text-show n = printable_of_ascii (show n) (ascii-show n)

  text-show_ℤ : (n : ℤ) → is_text (show_ℤ n) ≡ true
  text-show_ℤ (pos n) = text-show n
  text-show_ℤ (negsuc n) = text-append "-" (show (suc n)) (text_lit "-" refl) (text-show (suc n))

  text-bounded_result_summary :
      (s : String) → is_text s ≡ true → is_text (bounded_result_summary s) ≡ true
  unfolding bounded_result_summary
  text-bounded_result_summary s h = elim (Bool-cases (leb (str_len s) 512)) [
    | inl short ↦ rw short h
    | inr long ↦ rw long (
        text-append (str_take 500 s) " [truncated]" (str_all-take u.is_printable 500 s h)
          (text_lit " [truncated]" refl))
  ]

  -- A text that a summary may be: printable and not empty.
  abbrev pub IsLine : String → Type 0
  IsLine s = (is_text s ≡ true) × (is_empty s ≡ false)

  IsLine-append : (s t : String) → IsLine s → is_text t ≡ true → IsLine (s <> t)
  IsLine-append s t (p, filled) q = (text-append s t p q, is_empty-append s t ∙ rw filled)

  IsLine-bounded_result_summary : (s : String) → IsLine s → IsLine (bounded_result_summary s)
  unfolding bounded_result_summary
  IsLine-bounded_result_summary s h = elim (Bool-cases (leb (str_len s) 512)) [
    | inl short ↦ rw short h
    | inr long ↦ rw long (
      text-append (str_take 500 s) " [truncated]" (str_all-take u.is_printable 500 s h.0)
          (text_lit " [truncated]" refl),
      is_empty-append (str_take 500 s) " [truncated]" ∙ ground arith,
    )
  ]

  text-show_bytes : (b : Option ℕ) → is_text (show_bytes b) ≡ true
  unfolding show_bytes
  text-show_bytes none = text_lit "None" refl
  text-show_bytes (some n) = text-show n

  text-show_flag : (b : Option Bool) → is_text (show_flag b) ≡ true
  unfolding show_flag
  text-show_flag none = text_lit "None" refl
  text-show_flag (some true) = text_lit "True" refl
  text-show_flag (some false) = text_lit "False" refl

  text-show_exit_code : (b : Option ℤ) → is_text (show_exit_code b) ≡ true
  unfolding show_exit_code
  text-show_exit_code none = text_lit "None" refl
  text-show_exit_code (some n) = text-show_ℤ n

  text-ambiguity : (m : Bool) (st : RunStatus) → is_text (ambiguity m st) ≡ true
  unfolding ambiguity
  text-ambiguity m st = elim (Bool-cases (m && is_ambiguous st)) [
    | inl yes_it_is ↦
        rw yes_it_is (text_lit " A mutating operation may have an ambiguous outcome." refl)
    | inr not_so ↦ rw not_so refl
  ]

  IsLine-lit : (s : String) → str_all is_ascii s ≡ true → is_empty s ≡ false → IsLine s
  IsLine-lit s h filled = (text_lit s h, filled)

  -- A literal, a value and a literal.
  IsLine-around :
      (s v t : String)
      → str_all is_ascii s ≡ true
      → is_empty s ≡ false
      → is_text v ≡ true
      → str_all is_ascii t ≡ true
      → IsLine (s <> v <> t)
  IsLine-around s v t hs filled hv ht =
      IsLine-append s (v <> t) (IsLine-lit s hs filled) (text-append v t hv (text_lit t ht))

  text-status_name : (st : RunStatus) → is_text (status_name st) ≡ true
  unfolding status_name
  text-status_name running = text_lit "running" refl
  text-status_name succeeded = text_lit "succeeded" refl
  text-status_name remote_error = text_lit "remote_error" refl
  text-status_name transport_error = text_lit "transport_error" refl
  text-status_name timeout = text_lit "timeout" refl
  text-status_name local_error = text_lit "local_error" refl
  text-status_name interrupted = text_lit "interrupted" refl
  text-status_name unknown = text_lit "unknown" refl

  IsLine-execution_lead :
      (r : RunRecord) (x : Execution) (st : RunStatus) → IsLine (execution_lead r x st)
  unfolding execution_lead
  IsLine-execution_lead r x succeeded =
      IsLine-around "Execution succeeded with exit_code=" (show_exit_code x.exit_code) "." refl refl
        (text-show_exit_code x.exit_code) refl
  IsLine-execution_lead r x remote_error =
      IsLine-around "Remote execution failed with exit_code=" (show_exit_code x.exit_code) "." refl
        refl (text-show_exit_code x.exit_code) refl
  IsLine-execution_lead r x transport_error =
      IsLine-lit "SSH transport failed before a trustworthy remote result was available." refl refl
  IsLine-execution_lead r x timeout =
      IsLine-around "Execution timed out after " (show r.timeout_seconds) " seconds." refl refl
        (text-show r.timeout_seconds) refl
  IsLine-execution_lead r x st =
      IsLine-around "Execution ended with status=" (status_name st) "." refl refl
        (text-status_name st) refl

  -- A literal, a value, and printable text behind them.
  text_field :
      (s v t : String)
      → str_all is_ascii s ≡ true
      → is_text v ≡ true
      → is_text t ≡ true
      → is_text (s <> v <> t) ≡ true
  text_field s v t hs hv ht = text-append s (v <> t) (text_lit s hs) (text-append v t hv ht)

  text-stream_metadata : (x : Execution) → is_text (stream_metadata x) ≡ true
  unfolding stream_metadata
  text-stream_metadata x = text_field _ _ _ refl (text-show_bytes (get_bytes x.stdout)) (
      text_field _ _ _ refl (text-show_bytes (get_bytes x.stderr)) (
        text_field _ _ _ refl (text-show_flag (get_truncated x.stdout))
          (text_field _ _ _ refl (text-show_flag (get_truncated x.stderr)) (text_lit "." refl))))

  pub IsLine-execution_result_summary :
      (r : RunRecord) (x : Execution) → IsLine (execution_result_summary r x)
  unfolding execution_result_summary
  IsLine-execution_result_summary r x = IsLine-bounded_result_summary _ (
      IsLine-append _ _ (IsLine-execution_lead r x x.status) (
        text-append " " _ (text_lit " " refl)
          (text-append _ _ (text-stream_metadata x) (text-ambiguity r.may_mutate x.status))))

  IsLine-internal_lead :
      (st : RunStatus) (error_type : String)
      → is_text error_type ≡ true
      → IsLine (internal_lead st error_type)
  unfolding internal_lead
  IsLine-internal_lead local_error e h = IsLine-around _ _ _ refl refl h refl
  IsLine-internal_lead interrupted e h = IsLine-around _ _ _ refl refl h refl
  IsLine-internal_lead st e h = IsLine-around _ _ _ refl refl h refl

  pub IsLine-internal_result_summary :
      (r : RunRecord) (st : RunStatus) (error_type : String)
      → is_text error_type ≡ true
      → IsLine (internal_result_summary r st error_type)
  unfolding internal_result_summary
  IsLine-internal_result_summary r st e h = IsLine-bounded_result_summary _ (
      IsLine-append _ _ (IsLine-internal_lead st e h) (
        text-append no_content_persisted _ (text_lit no_content_persisted refl)
          (text-ambiguity r.may_mutate st)))
