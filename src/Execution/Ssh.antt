-- ===== src/Execution/Ssh.antt =====
-- src/hypershell_reach/execution.py: the argument vector of `ssh`, the redaction of its messages, and
-- the status of an execution.
use hypershell_reach.Base.{
  ℕ, zero, suc, ◌-◌, String, Bool, false, not, Option, none, some, List, [], ◌∷◌, ◌++◌, leb, ◌==◌,
  keep, if◌then◌else◌,
}
use hypershell_reach.Base.Text.{str_len, str_any, is_empty, show, starts_with, ◌<>◌}
use hypershell_reach.Base.Int.{ℤ, pos}
use hypershell_reach.Base.Result.{Result, ok, value_error, refuse, ◌>>◌}
use hypershell_reach.Config.Model.{SshConfig, Target, has_host}
use hypershell_reach.Runs.Record.{RunStatus, succeeded, remote_error, transport_error, timeout}

-- `ssh.host or ""`
abbrev pub host_text : Option String → String
host_text none = ""
host_text (some host) = host

abbrev pub ssh_options : SshConfig → ℕ → List String
ssh_options ssh connect_timeout_seconds =
    "-F"
    ∷ "/dev/null"
    ∷ "-T"
    ∷ "-o"
    ∷ "BatchMode=yes"
    ∷ "-o"
    ∷ "IdentitiesOnly=yes"
    ∷ "-o"
    ∷ "StrictHostKeyChecking=yes"
    ∷ "-o"
    ∷ ("UserKnownHostsFile=" <> ssh.known_hosts_file)
    ∷ "-o"
    ∷ "GlobalKnownHostsFile=/dev/null"
    ∷ "-o"
    ∷ "PasswordAuthentication=no"
    ∷ "-o"
    ∷ "KbdInteractiveAuthentication=no"
    ∷ "-o"
    ∷ "NumberOfPasswordPrompts=0"
    ∷ "-o"
    ∷ "PreferredAuthentications=publickey"
    ∷ "-o"
    ∷ "ForwardAgent=no"
    ∷ "-o"
    ∷ "ClearAllForwardings=yes"
    ∷ "-o"
    ∷ "PermitLocalCommand=no"
    ∷ "-o"
    ∷ "ProxyCommand=none"
    ∷ "-o"
    ∷ "ControlMaster=no"
    ∷ "-o"
    ∷ "UpdateHostKeys=no"
    ∷ "-o"
    ∷ "VerifyHostKeyDNS=no"
    ∷ "-o"
    ∷ "RequestTTY=no"
    ∷ "-o"
    ∷ ("ConnectTimeout=" <> show connect_timeout_seconds)
    ∷ "-o"
    ∷ "ConnectionAttempts=1"
    ∷ "-o"
    ∷ "ServerAliveInterval=15"
    ∷ "-o"
    ∷ "ServerAliveCountMax=2"
    ∷ "-p"
    ∷ show ssh.port
    ∷ "-i"
    ∷ ssh.identity_file
    ∷ []

unfoldable pub build_ssh_argv : Target → ℕ → String → Result (List String)
build_ssh_argv target connect_timeout_seconds remote_command = do
  let ssh = target.ssh
  refuse (not (has_host ssh)) (value_error "target SSH host is missing")
  refuse (str_any (λ c. c == 0) remote_command)
      (value_error "remote command must not contain NUL bytes")
  ok (
      "/usr/bin/ssh"
      ∷ (ssh_options ssh connect_timeout_seconds
          ++ ((ssh.user <> ("@" <> host_text ssh.host)) ∷ remote_command ∷ [])))

-- `str.replace(old, new)` for an `old` that is not empty: from the left, without overlaps. `skip`
-- counts the characters of a match that are still to be passed over.
abbrev pub replace_from : String → String → ℕ → String → String
replace_from old new skip String.[] = ""
replace_from old new (suc skip) (String.◌∷◌ c s) = replace_from old new skip s
replace_from old new zero (String.◌∷◌ c s) =
    let after = replace_from old new (str_len old - 1) s in
    let rest = replace_from old new zero s in
    if starts_with (String.◌∷◌ c s) old then new <> after else String.◌∷◌ c rest

-- `sorted(…, key=len, reverse=True)`, which keeps the order of texts of one length.
abbrev pub insert_longest : String → List String → List String
insert_longest value [] = value ∷ []
insert_longest value (other ∷ rest) =
    if leb (str_len other) (str_len value)
    then value ∷ other ∷ rest
    else other ∷ insert_longest value rest

abbrev pub longest_first : List String → List String
longest_first [] = []
longest_first (value ∷ rest) = insert_longest value (longest_first rest)

abbrev pub replace_all : List String → String → String → String
replace_all [] label text = text
replace_all (value ∷ rest) label text = replace_all rest label (replace_from value label 0 text)

abbrev pub address : SshConfig → String
address ssh = if has_host ssh then ssh.user <> ("@" <> host_text ssh.host) else ""

unfoldable pub redact : String → String → Target → String
redact text target_id target =
    let ssh = target.ssh in
    let values = ssh.identity_file ∷ ssh.known_hosts_file ∷ host_text ssh.host ∷ address ssh ∷ [] in
    replace_all (longest_first (keep (λ value. not (is_empty value)) values))
      ("[" <> (target_id <> "]")) text

abbrev pub is_exit_code : ℕ → Option ℤ → Bool
is_exit_code n (some (pos m)) = m == n
is_exit_code n _ = false

abbrev pub classify_status : Bool → Option ℤ → RunStatus
classify_status timed_out exit_code =
    if timed_out
    then timeout
    else if is_exit_code 0 exit_code
    then succeeded
    else if is_exit_code 255 exit_code
    then transport_error
    else remote_error
