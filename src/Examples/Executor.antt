-- ===== src/Examples/Executor.antt =====
-- src/hypershell_reach/config.py, hypershell_reach/execution.py and hypershell_reach/executor.py: the
-- theorems at a service with one host.
use mathlib.Core.Path.{subst}
use hypershell_reach.Base.{
  ℕ, ◌<◌, ◌≡◌, ◌≢◌, ◌⊎◌, inl, inr, refl, ap, ◌∙◌, not, length, ltb, Bool-cases, if◌then◌else◌,
  String, true, false, none, some, [], ◌∷◌,
}
use hypershell_reach.Base.Text.{◌<>◌, str_eq, is_space}
use hypershell_reach.Base.Result.{ok, err, runtime_error}
use hypershell_reach.Base.Table.{lookup, lookup-upsert}
use hypershell_reach.Config.Model.{
  ReachConfig, Target, check_config, enabled_target, check_ssh, is_target_id,
}
use hypershell_reach.Config.Limits.{HasLimits, enabled_target-HasLimits}
use hypershell_reach.Runs.Record.{RunExecutionClass, unknown, interrupted, is_sync, is_running}
use hypershell_reach.Runs.Store.{
  RunStore, RunRow, was_interrupted, internal_status, row_of, ended_internally, serialize,
}
use hypershell_reach.Runs.Operations.{finish_without_execution}
use hypershell_reach.Runs.Ending.{with_run, finish_without_execution_lem}
use hypershell_reach.Execution.Lease.{is_locked, acquire_execution_lease}
use hypershell_reach.Execution.Slots.{slot_of, acquire_execution_lease-cases}
use hypershell_reach.Execution.Stream.{read_bounded, read_bounded_lem, content}
use hypershell_reach.Executor.Service.{
  Executor, OwnedTask, Phase, waiting, executing, awaiting, cancel, cancel_answer,
  reconcile_completed_task,
}
use hypershell_reach.Executor.Cancel.{
  after_cancel, cancel_executing, cancel_waiting, mark_lost_running,
}
use hypershell_reach.Executor.Steps.{Reach, here, next, cancel_requested}
use hypershell_reach.Executor.Leases.{HoldsLeases}
use hypershell_reach.Executor.Limit.{Reach-HoldsLeases}
use hypershell_reach.Executor.Await.{
  TellsTerminal, await_turn, await_after_yield, await-TellsTerminal,
}
use hypershell_reach.Executor.Owned.{HasOwners}
use hypershell_reach.Executor.Orphans.{HasTask, HasNoOrphans}
use hypershell_reach.Executor.Ownership.{reconciled_run_is_over, Reach-HasNoOrphans}
use hypershell_reach.Examples.Runs.{
  store, store-IsValid, going, going_found, the_id, ascii, going-is_running,
}

abbrev web : Target
web = record {
  display_name = "Web";
  capabilities = "sh" ∷ [];
  enabled = true;
  connect_timeout_seconds = none;
  max_timeout_seconds = some 600;
  max_synchronous_timeout_seconds = none;
  max_output_bytes = none;
  max_heavy_concurrency = some 1;
  ssh = record {
    host = some "web.example";
    port = 22;
    user = "reach";
    identity_file = "/etc/reach/id";
    known_hosts_file = "/etc/reach/known_hosts";
  };
}

abbrev pub config : ReachConfig
config = record {
  defaults = record {
    connect_timeout_seconds = 10;
    max_timeout_seconds = 300;
    max_synchronous_timeout_seconds = none;
    max_output_bytes = 262_144;
  };
  max_concurrency = 2;
  state_targets = [];
  targets = ("web", web) ∷ [];
}

pub config_accepted : check_config config ≡ ok tt
unfolding check_config check_ssh is_space is_target_id
config_accepted = refl

web_chosen : enabled_target config "web" ≡ ok web
unfolding enabled_target lookup
web_chosen = refl

enabled_target-HasLimits_example : HasLimits config web
enabled_target-HasLimits_example =
    enabled_target-HasLimits config "web" web config_accepted web_chosen

acquire_execution_lease-cases_example :
    ((k : ℕ) × (k < 2)
      × (is_locked (slot_of "web" k) (slot_of "web" 0 ∷ []) ≡ false)
      × (acquire_execution_lease "web" RunExecutionClass.heavy (some 2) (slot_of "web" 0 ∷ [])
          ≡ (ok (some (slot_of "web" k)), slot_of "web" k ∷ slot_of "web" 0 ∷ [])))
    ⊎ (((k : ℕ) → k < 2 → is_locked (slot_of "web" k) (slot_of "web" 0 ∷ []) ≡ true)
        × (acquire_execution_lease "web" RunExecutionClass.heavy (some 2) (slot_of "web" 0 ∷ []) ≡ (
          err (runtime_error ("heavy execution limit reached for target " <> "web")),
          slot_of "web" 0 ∷ [],
        )))
acquire_execution_lease-cases_example =
    acquire_execution_lease-cases "web" RunExecutionClass.heavy 2 (slot_of "web" 0 ∷ []) refl

read_bounded_lem_example :
    read_bounded (λ bytes. "text") 3 ((1 ∷ 2 ∷ []) ∷ (3 ∷ 4 ∷ []) ∷ [] ∷ []) ≡ record {
      text = "text";
      bytes = length (content ((1 ∷ 2 ∷ []) ∷ (3 ∷ 4 ∷ []) ∷ [] ∷ []));
      truncated = ltb 3 (length (content ((1 ∷ 2 ∷ []) ∷ (3 ∷ 4 ∷ []) ∷ [] ∷ [])));
    }
read_bounded_lem_example =
    read_bounded_lem (λ bytes. "text") 3 ((1 ∷ 2 ∷ []) ∷ (3 ∷ 4 ∷ []) ∷ [] ∷ [])

-- The service while the run of the other examples is executed, and while it waits.
abbrev task : Phase → OwnedTask
task phase = record { phase = phase; cancelling = false }

abbrev service : Phase → Executor
service phase = record {
  config = config;
  is_started = true;
  store = store;
  tasks = (the_id, task phase) ∷ [];
  leases = [];
  cancel_reasons = [];
  locks = [];
}

task_found : (phase : Phase) → lookup the_id (service phase).tasks ≡ some (task phase)
unfolding lookup
task_found phase = refl

going_is_async : is_sync (row_of going).payload.execution_mode ≡ false
unfolding row_of serialize
going_is_async = refl

cancel_executing_example :
    ((cancel the_id 9 (service executing)).0 ≡ ok awaiting)
    × ((cancel_answer the_id true (after_cancel the_id executing 9 (service executing)).store).0
        ≡ ok (interrupted, true))
    × (lookup the_id (after_cancel the_id executing 9 (service executing)).tasks ≡ none)
    × (lookup the_id (after_cancel the_id executing 9 (service executing)).cancel_reasons ≡ none)
cancel_executing_example =
    cancel_executing the_id 9 (row_of going) (task executing) (service executing) store-IsValid refl
      refl going_found going_is_async going-is_running (task_found executing) refl

cancel_waiting_example :
    ((after_cancel the_id waiting 9 (service waiting)).store
      ≡ with_run the_id
          (ended_internally (row_of going).payload unknown "ExecutorOwnershipLost" 9)
          store)
    × ((cancel_answer the_id true (after_cancel the_id waiting 9 (service waiting)).store).0
        ≡ ok (unknown, false))
    × (lookup the_id (after_cancel the_id waiting 9 (service waiting)).tasks ≡ none)
    × (lookup the_id (after_cancel the_id waiting 9 (service waiting)).cancel_reasons
        ≡ some "ExplicitCancellation")
cancel_waiting_example =
    cancel_waiting the_id 9 (row_of going) (task waiting) (service waiting) store-IsValid refl refl
      going_found going_is_async going-is_running (task_found waiting) refl

none_is_not_some : {A : Type 0} {a : A} → none ≢ some a
none_is_not_some h = cc

only_row :
    (k : String) (row : RunRow)
    → lookup k store.runs ≡ some row
    → HasTask true (service waiting).tasks k
unfolding lookup
only_row k row found = elim (Bool-cases (str_eq the_id k)) [
  | inl same ↦ rw same refl
  | inr other ↦ absurd (none_is_not_some (rw other at found))
]

service-HoldsLeases : HoldsLeases (service waiting)
unfolding lookup
service-HoldsLeases = record {
  owned = λ k l found. absurd (none_is_not_some found);
  locked = λ k l found. absurd (none_is_not_some found);
  alone = λ j k l f g. absurd (none_is_not_some f);
  below = λ k l found. absurd (none_is_not_some found);
}

abbrev Quiet : RunStore → RunStore → Type 0
Quiet s t = s ≡ t

abbrev cancelled_service : Executor
cancelled_service = (cancel the_id 9 (service waiting)).1

to_cancelled : Reach Quiet (service waiting) cancelled_service
to_cancelled = next here (cancel_requested the_id 9)

Reach-HoldsLeases_example : HoldsLeases cancelled_service
Reach-HoldsLeases_example = Reach-HoldsLeases service-HoldsLeases to_cancelled

service-HasNoOrphans : HasNoOrphans (service waiting)
unfolding lookup
service-HasNoOrphans = record {
  owners = record {
    valid = store-IsValid;
    writable = refl;
    owned = λ k row found going. only_row k row found;
  };
  reasons = λ k reason found. absurd (none_is_not_some found);
}

Reach-HasNoOrphans_example : HasNoOrphans cancelled_service
Reach-HasNoOrphans_example =
    Reach-HasNoOrphans (λ Owned s t same h. subst (HasOwners Owned) same h) service-HasNoOrphans
      to_cancelled

lost_store :
    (reconcile_completed_task the_id 9 (service waiting)).store
    ≡ with_run the_id
        (ended_internally (row_of going).payload unknown "ExecutorOwnershipLost" 9)
        store
unfolding reconcile_completed_task
lost_store =
    mark_lost_running the_id 9 (row_of going) store store-IsValid refl going_found going-is_running

abbrev lost_row : RunRow
lost_row = row_of (ended_internally (row_of going).payload unknown "ExecutorOwnershipLost" 9)

lost_found :
    lookup the_id (reconcile_completed_task the_id 9 (service waiting)).store.runs ≡ some lost_row
lost_found =
    ap (λ (s : RunStore). lookup the_id s.runs) lost_store
    ∙ lookup-upsert the_id the_id lost_row store.runs

reconciled_run_is_over_example : is_running lost_row.payload.status ≡ false
reconciled_run_is_over_example =
    reconciled_run_is_over the_id 9 (service waiting) lost_row store-IsValid refl refl lost_found

finish_without_execution_lem_example :
    finish_without_execution the_id was_interrupted "ServerRestart" 9 store ≡ (
      if not (is_running (row_of going).payload.status)
      then (ok (row_of going).payload, store)
      else (
        ok (
            ended_internally
              (row_of going).payload
              (internal_status was_interrupted)
              "ServerRestart"
              9),
        with_run the_id
            (ended_internally
              (row_of going).payload
              (internal_status was_interrupted)
              "ServerRestart"
              9)
            store,
      ))
finish_without_execution_lem_example =
    finish_without_execution_lem the_id was_interrupted "ServerRestart" 9 (row_of going) store
      store-IsValid refl going_found

await-TellsTerminal_example :
    TellsTerminal (await_turn the_id 9 true none store).0
    × TellsTerminal (await_after_yield the_id 9 store).0
await-TellsTerminal_example =
    await-TellsTerminal the_id 9 true none (row_of going) store store-IsValid refl going_found
