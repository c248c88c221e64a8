-- ===== src/Executor/Sandbox.antt =====
-- obase/zero_egress_sandbox.py: the command firewall, the environment and `run`. The process that is
-- started is a parameter.
use obase.Base.{
  ℕ, Bool, false, not, ◌&&◌, ◌||◌, Option, none, some, String, string_eq, nat_eq, List, [], ◌∷◌,
  first, contains, Result, ok, err, ◌==◌, if◌then◌else◌, select,
}
use obase.Base.Dict.{Dict}
use obase.Base.Int.{ℤ, pos, negsuc}
use Prim.Native.String.{◌++◌ as join}
use text.Mathlib.Text.{starts_with}
use obase.Executor.Status.{Status, succeeded, blocked, timed_out, failed}
use obase.Base.Text.{lower, strip, is_in, take, lstrip, rstrip}

abbrev pub network_commands : List String
network_commands =
    "curl" ∷ "wget" ∷ "nc" ∷ "ncat" ∷ "telnet" ∷ "ssh" ∷ "scp" ∷ "sftp" ∷ "ftp" ∷ "git fetch"
    ∷ "git pull" ∷ "git push" ∷ "pip install" ∷ "pip download" ∷ "npm install" ∷ "apt-get" ∷ "apt "
    ∷ "yum" ∷ "dnf" ∷ "docker pull" ∷ "dig" ∷ "nslookup" ∷ "ping" ∷ "traceroute" ∷ "hostname -I"
    ∷ "ifconfig" ∷ "ip addr" ∷ []

abbrev pub Env : Type 0
Env = Dict String String

pub record Sandbox : Type 0 where
  pub deny_network : Bool
  pub use_network_namespace : Bool
  pub netns_available : Bool
  pub max_output_chars : ℕ
  pub strip_proxy_env : Bool

abbrev pub is_banned : String → String → Bool
is_banned lowered banned = lowered == banned || starts_with lowered banned

unfoldable pub check_command : Sandbox → String → Option String
unfolding lower lstrip rstrip
check_command sandbox command =
    if sandbox.deny_network
    then elim (first (is_banned (lower (strip command))) network_commands) [
      | none ↦ none
      | some banned ↦ some (join "network command denied: " (strip banned))
    ]
    else none

abbrev pub is_secret : String → Bool
is_secret key =
    is_in "proxy" (lower key)
    || contains
        ("AWS_ACCESS_KEY_ID" ∷ "AWS_SECRET_ACCESS_KEY" ∷ "OPENAI_API_KEY" ∷ "ANTHROPIC_API_KEY"
          ∷ "DASHSCOPE_API_KEY" ∷ [])
        key

-- The process's environment is the argument.
unfoldable pub sanitized_env : Sandbox → Env → Env
unfolding lower
sanitized_env sandbox environ =
    if sandbox.strip_proxy_env then select (λ p. not (is_secret p.0)) environ else environ

-- Elapsed times, and the timeout in the text of its reason, are left out.
pub record SandboxResult : Type 0 where
  pub status : Status
  pub exit_code : Option ℤ
  pub stdout : String
  pub stderr : String
  pub reason : String

abbrev pub with_reason : Status → String → SandboxResult
with_reason status reason = record {
  status = status;
  exit_code = none;
  stdout = "";
  stderr = "";
  reason = reason;
}

pub data SandboxError : Type 0 where
  empty_command no_shell : SandboxError

-- What came of a process: FileNotFoundError, another OSError, the timeout, or its code and output.
pub data Spawned : Type 0 where
  no_file : Spawned
  os_error : String → Spawned
  killed : Spawned
  exited : ℤ → String → String → Spawned

-- A process of an argument list, a directory, an environment and a timeout, on the files.
abbrev pub Process : Type 0
Process = List String → Option String → Env → ℤ → Env → Spawned × Env

abbrev pub argv_of : Sandbox → String → List String
argv_of sandbox command =
    if sandbox.use_network_namespace && sandbox.netns_available
    then "unshare" ∷ "-n" ∷ "sh" ∷ "-c" ∷ command ∷ []
    else "sh" ∷ "-c" ∷ command ∷ []

abbrev pub is_zero : ℤ → Bool
is_zero (pos n) = n == 0
is_zero (negsuc n) = false

unfoldable pub finished : Sandbox → Spawned → Result SandboxError SandboxResult
unfolding take
finished sandbox no_file = err no_shell
finished sandbox (os_error text) = ok (with_reason failed (join "cannot execute: " text))
finished sandbox killed = ok (with_reason timed_out "timed out")
finished sandbox (exited code stdout stderr) = ok (record {
  status = if is_zero code then succeeded else failed;
  exit_code = some code;
  stdout = take sandbox.max_output_chars stdout;
  stderr = take sandbox.max_output_chars stderr;
  reason = "";
})

-- `env or self.sanitized_env()`: an empty environment is not used.
abbrev pub env_or : Env → Env → Env
env_or [] other = other
env_or (p ∷ env) other = p ∷ env

unfoldable pub run :
    Sandbox
    → Process
    → Env
    → String
    → ℤ
    → Option String
    → Env
    → Env
    → Result SandboxError SandboxResult × Env
unfolding check_command sanitized_env finished
run sandbox process environ command timeout cwd env files =
    if strip command == ""
    then (err empty_command, files)
    else elim (check_command sandbox command) [
      | some reason ↦ (ok (with_reason blocked reason), files)
      | none ↦
          let (spawned, files') =
            process (argv_of sandbox command) cwd (env_or env (sanitized_env sandbox environ))
              timeout files in
          (finished sandbox spawned, files')
    ]
