-- ===== src/Server/Termination.antt =====
-- src/hypershell_reach/server.py: the number of turns of `_await_terminal_execution`, and what it tells.
use hypershell_reach.Base.{
  ℕ, zero, suc, ◌+◌, ◌*◌, ◌≤◌, ◌≡◌, refl, inl, inr, String, true, false, Option, some, leb, arith,
  Bool-cases,
}
use hypershell_reach.Base.Result.{Error, Result, ok, err}
use hypershell_reach.Runs.Record.{RunRecord, Unicode, is_running}
use hypershell_reach.Runs.Store.{RunStore}
use hypershell_reach.Runs.Operations.{get}
use hypershell_reach.Executor.Await.{AwaitAnswer, answer, not_needed, not_attempted}
use hypershell_reach.Server.Waiting.{
  sleep_time, poll_read, after_poll, poll, await_from, deadline_of, await_terminal_execution,
}

-- What the loop may tell: a run that has ended, one that runs when the deadline has come, or the
-- error of a read.
pub data Told (deadline : ℕ) (now : ℕ) (read : Result RunRecord) : Result AwaitAnswer → Type 0 where
  over :
      (r : RunRecord)
      → read ≡ ok r
      → is_running r.status ≡ false
      → Told deadline now read (ok (answer r true not_needed))
  late :
      (r : RunRecord)
      → read ≡ ok r
      → is_running r.status ≡ true
      → deadline ≤ now
      → Told deadline now read (ok (answer r false not_attempted))
  unread : (e : Error) → read ≡ err e → Told deadline now read (err e)

module _ ⦃u : Unicode⦄ (run_id : String) (deadline : ℕ) (clock : ℕ → ℕ) (runs : ℕ → RunStore) where
  -- The loop has told what it saw at some turn.
  pub record HasTold (out : Option (Result AwaitAnswer)) : Type 0 where
    pub turn : ℕ
    pub reply : Result AwaitAnswer
    pub is_out : out ≡ some reply
    pub told : Told deadline (clock turn) (get run_id (runs turn)).0 reply

  -- One turn tells, or sleeps before the deadline.
  polled :
      (n : ℕ) (rest : Option (Result AwaitAnswer))
      → (clock n + sleep_time deadline (clock n) ≤ clock (suc n)
          → suc (clock n) ≤ deadline
          → HasTold rest)
      → clock n + sleep_time deadline (clock n) ≤ clock (suc n)
      → (read : Result RunRecord) → (get run_id (runs n)).0 ≡ read
      → HasTold (after_poll (poll_read deadline (clock n) read) rest)
  polled n rest later sleeping (err e) is_read = record {
    turn = n;
    reply = err e;
    is_out = refl;
    told = unread e is_read;
  }
  polled n rest later sleeping (ok r) is_read = elim (Bool-cases (is_running r.status)) [
    | inr ended ↦ rw ended (record {
      turn = n;
      reply = ok (answer r true not_needed);
      is_out = refl;
      told = over r is_read ended;
    })
    | inl going ↦ elim (Bool-cases (leb deadline (clock n))) [
      | inl passed ↦
          rw (going, passed)
            (record {
              turn = n;
              reply = ok (answer r false not_attempted);
              is_out = refl;
              told = late r is_read going (ground arith);
            })
      | inr early ↦ rw (going, early) (later sleeping (ground arith))
    ]
  ]

  sleeps_on :
      (turns now next : ℕ)
      → deadline ≤ now + suc turns * 50_000
      → now + sleep_time deadline now ≤ next
      → suc now ≤ deadline
      → deadline ≤ next + turns * 50_000
  sleeps_on turns now next enough sleeping early = ground arith

  await_from-HasTold :
      (turns n : ℕ)
      → ((m : ℕ) → clock m + sleep_time deadline (clock m) ≤ clock (suc m))
      → deadline ≤ clock n + turns * 50_000
      → HasTold (await_from run_id deadline clock runs (suc turns) n)
  unfolding await_from poll
  await_from-HasTold zero n sleeping enough =
      polled n _ (λ slept early. absurd (omega arith)) (sleeping n) (get run_id (runs n)).0 refl
  await_from-HasTold (suc turns) n sleeping enough =
      polled n _
        (λ slept early.
          await_from-HasTold turns (suc n) sleeping
            (sleeps_on turns (clock n) (clock (suc n)) enough slept early))
        (sleeping n) (get run_id (runs n)).0 refl

-- If the clock does not go back before the first turn, and every sleep lasts at least as long as it
-- was asked for, `_await_terminal_execution` ends within 20 turns for each second that it may wait
-- and one more, whatever the store holds at each turn: with the error of a read, or with the run as
-- it was read at some turn, which it calls terminal just when the run had ended, and else the
-- deadline had come.
pub await_terminates :
    ⦃u : Unicode⦄
    → (run_id : String) (max_wait_seconds started : ℕ) (clock : ℕ → ℕ) (runs : ℕ → RunStore)
    → started ≤ clock 0
    → ((m : ℕ)
        → clock m + sleep_time (deadline_of started max_wait_seconds) (clock m) ≤ clock (suc m))
    → HasTold run_id (deadline_of started max_wait_seconds) clock runs (
        await_terminal_execution run_id max_wait_seconds started clock runs
          (suc (max_wait_seconds * 20)))
unfolding await_terminal_execution
await_terminates run_id max_wait_seconds started clock runs begun sleeping =
    await_from-HasTold run_id (deadline_of started max_wait_seconds) clock runs
      (max_wait_seconds * 20) 0 sleeping (omega arith)
