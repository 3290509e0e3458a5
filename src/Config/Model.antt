-- ===== src/Config/Model.antt =====
-- src/hypershell_reach/config.py: `ReachConfig`, for what executions read of it, its validators, and
-- the resolution of limits. The paths of the workspace and the sources of tools and skills are left
-- out, but for the targets that Hermes skill sources name.
use Prim.Native.Char.{code}
use hypershell_reach.Base.{
  ℕ, zero, suc, String, Bool, true, false, not, ◌&&◌, ◌||◌, Option, none, some, List, [], ◌∷◌, leb,
  ltb, ◌==◌, any, all,
}
use hypershell_reach.Base.Text.{
  str_len, str_all, str_any, is_empty, is_space, is_digit, is_lower, ◌<>◌,
}
use hypershell_reach.Base.Result.{Result, ok, err, value_error, refuse, as_validation, ◌>>◌}
use hypershell_reach.Base.Table.{Table, lookup}
use hypershell_reach.Tools.Model.{is_capability}

pub record Defaults : Type 0 where
  pub connect_timeout_seconds : ℕ
  pub max_timeout_seconds : ℕ
  pub max_synchronous_timeout_seconds : Option ℕ
  pub max_output_bytes : ℕ

pub record SshConfig : Type 0 where
  pub host : Option String
  pub port : ℕ
  pub user : String
  pub identity_file : String
  pub known_hosts_file : String

pub record Target : Type 0 where
  pub display_name : String
  pub capabilities : List String  -- sorted and without repeats
  pub enabled : Bool
  pub connect_timeout_seconds : Option ℕ
  pub max_timeout_seconds : Option ℕ
  pub max_synchronous_timeout_seconds : Option ℕ
  pub max_output_bytes : Option ℕ
  pub max_heavy_concurrency : Option ℕ
  pub ssh : SshConfig

pub record ReachConfig : Type 0 where
  pub defaults : Defaults
  pub max_concurrency : ℕ  -- `executor.max_concurrency`
  pub state_targets : List String  -- `source.state.target` of the remote Hermes sources
  pub targets : Table Target

abbrev pub in_range : ℕ → ℕ → ℕ → Bool
in_range low high n = leb low n && leb n high

abbrev pub optional_in_range : ℕ → ℕ → Option ℕ → Bool
optional_in_range low high none = true
optional_in_range low high (some n) = in_range low high n

-- `_TARGET_ID.fullmatch`
unfoldable pub is_target_id : String → Bool
is_target_id String.[] = false
is_target_id (String.◌∷◌ c s) =
    (is_lower (code c) || is_digit (code c))
    && (leb (str_len s) 62 && str_all (λ d. is_lower d || (is_digit d || (d == b'-'))) s)

unfoldable pub check_defaults : Defaults → Result (Unit {0})
check_defaults self =
    refuse
      (not (
        in_range 1 60 self.connect_timeout_seconds
        && (in_range 1 900 self.max_timeout_seconds
            && (optional_in_range 1 900 self.max_synchronous_timeout_seconds
                && in_range 1_024 1_048_576 self.max_output_bytes))))
      (value_error "Defaults")

abbrev pub is_absolute : String → Bool
is_absolute String.[] = false
is_absolute (String.◌∷◌ c s) = code c == b'/'

abbrev pub is_user_character : ℕ → Bool
is_user_character c = is_lower c || (is_digit c || ((c == b'_') || (c == b'-')))

-- The rest of `^[a-z_][a-z0-9_-]*[$]?$`, after its first character.
abbrev pub is_user_tail : String → Bool
is_user_tail String.[] = true
is_user_tail (String.◌∷◌ c s) =
    (is_user_character (code c) && is_user_tail s) || ((code c == b'$') && is_empty s)

abbrev pub is_user : String → Bool
is_user String.[] = false
is_user (String.◌∷◌ c s) =
    (is_lower (code c) || (code c == b'_')) && (leb (str_len s) 63 && is_user_tail s)

abbrev pub is_host : Option String → Bool
is_host none = true
is_host (some value) =
    leb 1 (str_len value)
    && (leb (str_len value) 255 && not (str_any is_space value || str_any (λ c. c == 0) value))

unfoldable pub check_ssh : SshConfig → Result (Unit {0})
check_ssh self = do
  refuse (not (is_host self.host)) (value_error "host must not contain whitespace or NUL bytes")
  refuse (not (in_range 1 65_535 self.port && is_user self.user)) (value_error "SSHConfig")
  refuse (not (is_absolute self.identity_file && is_absolute self.known_hosts_file))
      (value_error "SSH file paths must be absolute")

abbrev pub has_host : SshConfig → Bool
has_host self = elim self.host [ none ↦ false | some host ↦ not (is_empty host) ]

unfoldable pub check_target : Target → Result (Unit {0})
unfolding is_capability
check_target self = do
  refuse
      (not (
        in_range 1 100 (str_len self.display_name)
        && (optional_in_range 1 60 self.connect_timeout_seconds
            && (optional_in_range 1 900 self.max_timeout_seconds
                && (optional_in_range 1 900 self.max_synchronous_timeout_seconds
                    && (optional_in_range 1_024 1_048_576 self.max_output_bytes
                        && optional_in_range 1 16 self.max_heavy_concurrency))))))
      (value_error "Target")
  refuse (not (all is_capability self.capabilities)) (value_error "invalid capabilities")
  check_ssh self.ssh
  refuse (self.enabled && not (has_host self.ssh))
      (value_error "enabled targets require an SSH host")

-- Python's `value or default`: zero counts as no value.
abbrev pub or_else : Option ℕ → ℕ → ℕ
or_else none default = default
or_else (some zero) default = default
or_else (some (suc n)) default = suc n

unfoldable pub enabled_target : ReachConfig → String → Result Target
enabled_target self target_id = elim (lookup target_id self.targets) [
  | none ↦ err (value_error ("unknown target: " <> target_id))
  | some target ↦
      refuse (not target.enabled) (value_error ("target is disabled: " <> target_id)) >> ok target
]

abbrev pub resolved_connect_timeout : ReachConfig → Target → ℕ
resolved_connect_timeout self target =
    or_else target.connect_timeout_seconds self.defaults.connect_timeout_seconds

abbrev pub resolved_max_timeout : ReachConfig → Target → ℕ
resolved_max_timeout self target =
    or_else target.max_timeout_seconds self.defaults.max_timeout_seconds

abbrev pub resolved_max_synchronous_timeout : ReachConfig → Target → ℕ
resolved_max_synchronous_timeout self target =
    or_else target.max_synchronous_timeout_seconds
      (or_else self.defaults.max_synchronous_timeout_seconds (resolved_max_timeout self target))

abbrev pub resolved_max_output : ReachConfig → Target → ℕ
resolved_max_output self target = or_else target.max_output_bytes self.defaults.max_output_bytes

abbrev pub exceeds : Option ℕ → ℕ → Bool
exceeds none limit = false
exceeds (some n) limit = ltb limit n

abbrev pub is_known : Table Target → String → Bool
is_known targets target_id = elim (lookup target_id targets) [ none ↦ false | some target ↦ true ]

abbrev pub check_targets : Table Target → Result (Unit {0})
check_targets [] = ok tt
check_targets ((target_id, target) ∷ rest) = check_target target >> check_targets rest

-- The loop over the targets in `validate_target_ids`.
abbrev pub check_timeouts : ReachConfig → Table Target → Result (Unit {0})
check_timeouts self [] = ok tt
check_timeouts self ((target_id, target) ∷ rest) =
    refuse (ltb (resolved_max_timeout self target) (resolved_max_synchronous_timeout self target)) (
      value_error
        ("target " <> (target_id <> " synchronous timeout cannot exceed the execution timeout")))
    >> check_timeouts self rest

-- `validate_target_ids`
unfoldable pub check_target_ids : ReachConfig → Result (Unit {0})
check_target_ids self = do
  refuse (elim self.targets [ [] ↦ true | x ∷ xs ↦ false ])
      (value_error "at least one target is required")
  refuse (any (λ entry. not (is_target_id entry.0)) self.targets) (value_error "invalid target IDs")
  refuse (not (all (is_known self.targets) self.state_targets))
      (value_error "unknown Hermes skill-state targets")
  refuse (exceeds self.defaults.max_synchronous_timeout_seconds self.defaults.max_timeout_seconds)
      (value_error "default synchronous timeout cannot exceed the execution timeout")
  check_timeouts self self.targets

-- `ReachConfig.model_validate`
unfoldable pub check_config : ReachConfig → Result (Unit {0})
unfolding check_defaults check_target check_target_ids
check_config self = as_validation "ReachConfig" (do
  check_defaults self.defaults
  refuse (not (in_range 1 16 self.max_concurrency)) (value_error "ExecutorConfig")
  check_targets self.targets
  check_target_ids self)
