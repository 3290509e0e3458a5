-- ===== src/Config/Limits.antt =====
-- src/hypershell_reach/config.py: the limits that a validated configuration gives.
use hypershell_reach.Base.{
  ℕ, zero, suc, ◌≤◌, ◌≡◌, String, true, false, not, ◌&&◌, Option, none, some, [], ◌∷◌, arith,
}
use hypershell_reach.Base.Result.{ok}
use hypershell_reach.Base.Table.{Table, lookup, AllRows, AllRows-lookup}
use hypershell_reach.Config.Model.{
  Defaults, Target, ReachConfig, check_defaults, check_target, check_targets, check_timeouts,
  check_target_ids, check_config, enabled_target, resolved_connect_timeout, resolved_max_timeout,
  resolved_max_synchronous_timeout, resolved_max_output, optional_in_range, in_range, or_else,
  has_host,
}

-- A limit that a target sets, or else the default, is in the range of both.
or_else_range :
    (low high : ℕ) (o : Option ℕ) (default : ℕ)
    → optional_in_range low high o ≡ true
    → in_range low high default ≡ true
    → (low ≤ or_else o default) × (or_else o default ≤ high)
or_else_range low high none default h k = ground arith
or_else_range low high (some zero) default h k = ground arith
or_else_range low high (some (suc n)) default h k = ground arith

split :
    (target : Target) (rest : Table Target)
    → check_targets (("", target) ∷ rest) ≡ ok tt
    → (check_target target ≡ ok tt) × (check_targets rest ≡ ok tt)
split target rest h = ground arith

check_targets_rows :
    (t : Table Target)
    → check_targets t ≡ ok tt
    → AllRows (λ _ target. check_target target ≡ ok tt) t
check_targets_rows [] h = tt
check_targets_rows ((k, target) ∷ rest) h =
    let (first, others) = split target rest h in (first, check_targets_rows rest others)

split_timeouts :
    (self : ReachConfig) (target_id : String) (target : Target) (rest : Table Target)
    → check_timeouts self ((target_id, target) ∷ rest) ≡ ok tt
    → (resolved_max_synchronous_timeout self target ≤ resolved_max_timeout self target)
      × (check_timeouts self rest ≡ ok tt)
split_timeouts self target_id target rest h = ground arith

check_timeouts_rows :
    (self : ReachConfig) (t : Table Target)
    → check_timeouts self t ≡ ok tt
    → AllRows
        (λ _ target.
          resolved_max_synchronous_timeout self target ≤ resolved_max_timeout self target)
        t
check_timeouts_rows self [] h = tt
check_timeouts_rows self ((k, target) ∷ rest) h =
    let (low, others) = split_timeouts self k target rest h in
    (low, check_timeouts_rows self rest others)

config_parts :
    (self : ReachConfig)
    → check_config self ≡ ok tt
    → (check_defaults self.defaults ≡ ok tt)
      × (check_targets self.targets ≡ ok tt)
      × (check_timeouts self self.targets ≡ ok tt)
unfolding check_config check_target_ids
config_parts self h = ground arith

-- What the validators leave of a target's limits.
pub record HasLimits (self : ReachConfig) (target : Target) : Type 0 where
  pub connect :
      (1 ≤ resolved_connect_timeout self target) × (resolved_connect_timeout self target ≤ 60)
  pub execution : (1 ≤ resolved_max_timeout self target) × (resolved_max_timeout self target ≤ 900)
  pub synchronous : resolved_max_synchronous_timeout self target ≤ resolved_max_timeout self target
  pub output :
      (1_024 ≤ resolved_max_output self target) × (resolved_max_output self target ≤ 1_048_576)
  pub reachable : has_host target.ssh ≡ true

defaults_parts :
    (self : Defaults)
    → check_defaults self ≡ ok tt
    → (in_range 1 60 self.connect_timeout_seconds ≡ true)
      × (in_range 1 900 self.max_timeout_seconds ≡ true)
      × (in_range 1_024 1_048_576 self.max_output_bytes ≡ true)
unfolding check_defaults
defaults_parts self h = ground arith

target_parts :
    (self : Target)
    → check_target self ≡ ok tt
    → (optional_in_range 1 60 self.connect_timeout_seconds ≡ true)
      × (optional_in_range 1 900 self.max_timeout_seconds ≡ true)
      × (optional_in_range 1_024 1_048_576 self.max_output_bytes ≡ true)
      × ((self.enabled && not (has_host self.ssh)) ≡ false)
unfolding check_target
target_parts self h = ground arith

pub enabled_parts :
    (self : ReachConfig) (target_id : String) (target : Target)
    → enabled_target self target_id ≡ ok target
    → (lookup target_id self.targets ≡ some target) × (target.enabled ≡ true)
unfolding enabled_target
enabled_parts self target_id target h = ground arith

-- In a configuration that the validators accept, every target that executions may use has a host,
-- timeouts from 1 to 900 seconds to run and from 1 to 60 to connect, a synchronous timeout within
-- its timeout, and an output limit from 1024 to 1048576 bytes.
pub enabled_target-HasLimits :
    (self : ReachConfig) (target_id : String) (target : Target)
    → check_config self ≡ ok tt
    → enabled_target self target_id ≡ ok target
    → HasLimits self target
enabled_target-HasLimits self target_id target valid chosen =
    let (defaults, targets, timeouts) = config_parts self valid in
    let (found, enabled) = enabled_parts self target_id target chosen in
    let accepted =
      AllRows-lookup _ target_id self.targets (check_targets_rows self.targets targets) found in
    let within =
      AllRows-lookup _ target_id self.targets (check_timeouts_rows self self.targets timeouts)
        found in
    let (connect, execution, output) = defaults_parts self.defaults defaults in
    let (own_connect, own_execution, own_output, hosted) = target_parts target accepted in
    record {
      connect =
          or_else_range 1 60 target.connect_timeout_seconds self.defaults.connect_timeout_seconds
            own_connect connect;
      execution =
          or_else_range 1 900 target.max_timeout_seconds self.defaults.max_timeout_seconds
            own_execution execution;
      synchronous = within;
      output =
          or_else_range 1_024 1_048_576 target.max_output_bytes self.defaults.max_output_bytes
            own_output output;
      reachable = ground arith;
    }
