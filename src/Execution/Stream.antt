-- ===== src/Execution/Stream.antt =====
-- src/hypershell_reach/execution.py: reading a stream within a limit, and what `run_ssh` returns.
use hypershell_reach.Base.{
  ℕ, zero, suc, ◌+◌, ◌-◌, ◌≡◌, refl, sym, ap, ◌∙◌, String, Bool, true, false, Option, some, List,
  [], ◌∷◌, ◌++◌, arith, ltb, if◌then◌else◌, length, take, length-append, Bool-cases, inl, inr,
}
use hypershell_reach.Base.Int.{ℤ}
use hypershell_reach.Runs.Summary.{StreamResult, Execution}
use hypershell_reach.Runs.Store.{is_execution_status}
use hypershell_reach.Config.Model.{Target}
use hypershell_reach.Execution.Ssh.{classify_status, redact, is_exit_code}

-- What the loop of `_read_bounded` holds: the bytes retained, and the number of bytes read.
pub record Reading : Type 0 where
  pub retained : List ℕ
  pub total : ℕ

abbrev pub is_end : List ℕ → Bool
is_end [] = true
is_end (byte ∷ chunk) = false

abbrev pub read_chunk : ℕ → Reading → List ℕ → Reading
read_chunk limit self chunk = record {
  total = self.total + length chunk;
  retained =
      if ltb (length self.retained) limit
      then self.retained ++ take (limit - length self.retained) chunk
      else self.retained;
}

-- The loop over the chunks that `reader.read` returns, until an empty one.
unfoldable pub read_from : ℕ → Reading → List (List ℕ) → Reading
read_from limit self [] = self
read_from limit self (chunk ∷ chunks) =
    let rest = read_from limit (read_chunk limit self chunk) chunks in
    if is_end chunk then self else rest

-- `decode` is Python's UTF-8 decoding with replacement.
module _ (decode : List ℕ → String) where
  unfoldable pub read_bounded : ℕ → List (List ℕ) → StreamResult
  unfolding read_from
  read_bounded limit chunks =
      let reading = read_from limit (record { retained = []; total = 0 }) chunks in
      record {
        text = decode reading.retained;
        bytes = reading.total;
        truncated = ltb limit reading.total;
      }

-- The dictionary that `run_ssh` returns, for what the process did.
unfoldable pub ssh_result :
    String → Target → Bool → Option ℤ → ℕ → StreamResult → StreamResult → Execution
ssh_result target_id target timed_out exit_code duration_ms stdout stderr = record {
  target = target_id;
  status = classify_status timed_out exit_code;
  exit_code = exit_code;
  timed_out = timed_out;
  duration_ms = some duration_ms;
  stdout = some stdout;
  stderr = some (record stderr { text = redact stderr.text target_id target });
}

-- Everything that was read before the end of the stream.
abbrev pub content : List (List ℕ) → List ℕ
content [] = []
content (chunk ∷ chunks) = let rest = content chunks in if is_end chunk then [] else chunk ++ rest

retained_lem :
    (limit : ℕ) (xs chunk : List ℕ)
    → (if ltb (length (take limit xs)) limit
        then take limit xs ++ take (limit - length (take limit xs)) chunk
        else take limit xs)
      ≡ take limit (xs ++ chunk)
retained_lem zero xs chunk = refl
retained_lem (suc n) [] chunk = ground arith
retained_lem (suc n) (x ∷ xs) chunk = ground (arith, retained_lem n xs chunk)

-- A chunk more, with `so_far` read before.
read_chunk_lem :
    (limit : ℕ) (so_far chunk : List ℕ)
    → read_chunk limit (record { retained = take limit so_far; total = length so_far }) chunk
      ≡ record { retained = take limit (so_far ++ chunk); total = length (so_far ++ chunk) }
read_chunk_lem limit so_far chunk =
    rw (retained_lem limit so_far chunk, length-append so_far chunk) refl

take-nil : (n : ℕ) → take {A = ℕ} n [] ≡ []
take-nil zero = refl
take-nil (suc n) = refl

append-nil : (xs : List ℕ) → xs ++ [] ≡ xs
append-nil [] = refl
append-nil (x ∷ xs) = ap (λ t. x ∷ t) (append-nil xs)

append-append : (xs ys zs : List ℕ) → (xs ++ ys) ++ zs ≡ xs ++ (ys ++ zs)
append-append [] ys zs = refl
append-append (x ∷ xs) ys zs = ap (λ t. x ∷ t) (append-append xs ys zs)

abbrev reading_of : ℕ → List ℕ → Reading
reading_of limit bytes = record { retained = take limit bytes; total = length bytes }

read_from_lem :
    (limit : ℕ) (so_far : List ℕ) (chunks : List (List ℕ))
    → read_from limit (reading_of limit so_far) chunks ≡ reading_of limit (so_far ++ content chunks)
unfolding read_from
read_from_lem limit so_far [] = ap (reading_of limit) (sym (append-nil so_far))
read_from_lem limit so_far ([] ∷ chunks) = ap (reading_of limit) (sym (append-nil so_far))
read_from_lem limit so_far ((byte ∷ chunk) ∷ chunks) =
    ap (λ reading. read_from limit reading chunks) (read_chunk_lem limit so_far (byte ∷ chunk))
    ∙ read_from_lem limit (so_far ++ (byte ∷ chunk)) chunks
    ∙ ap (reading_of limit) (append-append so_far (byte ∷ chunk) (content chunks))

-- However a stream comes in chunks, `_read_bounded` retains its first `limit` bytes, counts all of
-- them, and says that it was truncated just when there are more than `limit`.
pub read_bounded_lem :
    (decode : List ℕ → String) (limit : ℕ) (chunks : List (List ℕ))
    → read_bounded decode limit chunks ≡ record {
      text = decode (take limit (content chunks));
      bytes = length (content chunks);
      truncated = ltb limit (length (content chunks));
    }
unfolding read_bounded
read_bounded_lem decode limit chunks =
    let start : reading_of limit [] ≡ record { retained = []; total = 0 } =
      ap (λ (bytes : List ℕ). record { retained = bytes; total = 0 }) (take-nil limit) in
    ap
      (λ (reading : Reading). record {
        text = decode reading.retained;
        bytes = reading.total;
        truncated = ltb limit reading.total;
      })
      (ap (λ reading. read_from limit reading chunks) (sym start) ∙ read_from_lem limit [] chunks)

classified_is_execution :
    (timed_out : Bool) (exit_code : Option ℤ)
    → is_execution_status (classify_status timed_out exit_code) ≡ true
classified_is_execution true exit_code = refl
classified_is_execution false exit_code = elim (Bool-cases (is_exit_code 0 exit_code)) [
  | inl success ↦ rw success refl
  | inr failure ↦ elim (Bool-cases (is_exit_code 255 exit_code)) [
    | inl transport ↦ rw (failure, transport) refl
    | inr remote ↦ rw (failure, remote) refl
  ]
]

-- Whatever the process did, `finish` accepts the status that `run_ssh` gives it.
ssh_result_is_execution :
    (target_id : String) (target : Target) (timed_out : Bool) (exit_code : Option ℤ)
    (duration_ms : ℕ) (stdout stderr : StreamResult)
    → is_execution_status
        (ssh_result target_id target timed_out exit_code duration_ms stdout stderr).status
      ≡ true
unfolding ssh_result
ssh_result_is_execution target_id target timed_out exit_code duration_ms stdout stderr =
    classified_is_execution timed_out exit_code
