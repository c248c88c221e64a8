-- ===== src/Executor/Subprocess.antt =====
-- obase/hardened_executor.py: `_resolve_egress`, `execute_subprocess` and `_sanitize_env`. The host of a
-- URL (`urlparse(…).hostname`) and the process are parameters.
use obase.Base.{
  Bool, true, not, ◌&&◌, ◌||◌, Option, none, some, String, string_eq, List, [], ◌∷◌, exists, select,
  first, Result, ok, err, ◌==◌, if◌then◌else◌,
}
use Prim.Native.String.{◌++◌ as join}
use text.Mathlib.Text.{starts_with}
use obase.Capability.Tokens.{CapabilityToken, Payload}
use obase.Base.Text.{lower, is_in, split, take, cut_words}
use obase.Executor.Status.{Status, succeeded, refused, blocked, honeypot_trip, failed}
use obase.Executor.Envelope.{ResourceEnvelope, validate_envelope, allows}
use obase.Executor.Sandbox.{
  Sandbox, Env, SandboxResult, SandboxError, Process, with_reason, check_command, sanitized_env,
  run,
}
use obase.Executor.Probe.{Files, Trips, plant, check_touched, cleanup}
use obase.Executor.Records.{
  Failure, bad_envelope, bad_token, circuit_open, network_denied, probe_touched, stopped, process,
  Executor, Options, World, Host, set_log, audit, breaker_open, env_of,
}
use obase.Executor.Execute.{verify}

-- The sandbox that `__init__` makes.
abbrev pub sandbox_of : Executor → Sandbox
sandbox_of ex = record {
  deny_network = true;
  use_network_namespace = ex.use_network_namespace;
  netns_available = ex.netns_available;
  max_output_chars = 20_000;
  strip_proxy_env = true;
}

abbrev is_url : String → Bool
is_url part = starts_with part "http://" || starts_with part "https://"

abbrev egress_of : (String → Option String) → List String → Option String
egress_of hostname [] = none
egress_of hostname (tool ∷ parts) =
    if tool == "curl" || tool == "wget"
    then elim (first is_url parts) [ none ↦ none | some url ↦ hostname url ]
    else none

unfoldable pub resolve_egress : (String → Option String) → String → Option String
unfolding cut_words
resolve_egress hostname command = egress_of hostname (split command)

abbrev pub is_sensitive : String → Bool
is_sensitive key =
    is_in "proxy" (lower key)
    || exists (λ prefix. starts_with key prefix)
        ("AWS_" ∷ "OPENAI_" ∷ "ANTHROPIC_" ∷ "DASHSCOPE_" ∷ "GEMINI_" ∷ "DEEPSEEK_" ∷ "TOGETHER_"
          ∷ "GROQ_" ∷ "HF_" ∷ "HUGGINGFACE_" ∷ [])

unfoldable pub sanitize_env : Env → Env
unfolding lower
sanitize_env env = select (λ p. not (is_sensitive p.0)) env

-- The environment that is handed to the sandbox.
abbrev pub clean_env : Sandbox → Env → Option Env → Env
clean_env sandbox environ none = sanitized_env sandbox environ
clean_env sandbox environ (some vars) = sanitize_env vars

-- The network policy's reason against a command.
abbrev denial : Option String → Option String
denial none = none
denial (some reason) = some (join "network denied by envelope: " reason)

abbrev bad_egress : ResourceEnvelope → Option String → Option String
bad_egress env none = none
bad_egress env (some host) =
    if allows env.network host none
    then none
    else some (join "egress host not allowed by envelope: " host)

unfoldable pub network_stop :
    (String → Option String) → Executor → ResourceEnvelope → String → Option String
unfolding check_command resolve_egress allows
network_stop hostname ex env command =
    if env.network.mode == "deny_all"
    then denial (check_command (sandbox_of ex) command)
    else if env.network.mode == "allowlist"
    then bad_egress env (resolve_egress hostname command)
    else none

-- The dict that is returned: the sandbox's, with an error and the trips.
pub record RunResult : Type 0 where
  pub result : SandboxResult
  pub error : Option Failure
  pub honey_trips : Trips

abbrev pub rejected : Status → String → Option Failure → RunResult
rejected status reason error = record {
  result = with_reason status reason;
  error = error;
  honey_trips = [];
}

-- `if trips and run_result.get("status") == "ok"`
abbrev pub judge_run : Trips → Status → SandboxResult → RunResult
judge_run (t ∷ trips) succeeded result = record {
  result = record result { status = honeypot_trip };
  error = some probe_touched;
  honey_trips = t ∷ trips;
}
judge_run trips _ result = record { result = result; error = none; honey_trips = trips }

module _ (sign : String → String → String) (encode : Payload → String)
    (decode : String → Option Payload) (hostname : String → Option String) where
  -- After the sandbox: the bait's check and removal, audit. An exception of the sandbox passes
  -- through, and leaves the bait.
  unfoldable pub settle :
      Options
      → World
      → CapabilityToken
      → String
      → String
      → Files
      → Host
      → Result SandboxError SandboxResult × Files
      → Result SandboxError RunResult × Host
  unfolding check_touched cleanup audit take
  settle options w tok cap command baits host (err e, files) =
      (err e, record host { files = files })
  settle options w tok cap command baits host (ok result, files) =
      let trips = check_touched baits files in
      let r = judge_run trips result.status result in
      let (entry, log) =
        audit w.writable "subprocess" tok cap r.result.status (process (take 200 command) trips)
          host.log in
      (ok r, set_log options.audits (record host { files = cleanup baits files }) log)

  abbrev pub baited : Options → World → Files → Files × Files
  baited options w files = if options.use_honeypot then plant w.bait none [] files else ([], files)

  -- From the bait on.
  unfoldable pub run_command :
      Executor
      → Options
      → World
      → CapabilityToken
      → String
      → ResourceEnvelope
      → Process
      → Env
      → Option Env
      → String
      → Option String
      → Host
      → Result SandboxError RunResult × Host
  unfolding plant run settle sanitize_env sanitized_env
  run_command ex options w tok cap env process_of environ vars command cwd host =
      let sandbox = sandbox_of ex in
      let (baits, files) = baited options w host.files in
      settle options w tok cap command baits host (
        run sandbox process_of environ command env.wallclock_s cwd (clean_env sandbox environ vars)
          files)

  -- From the network policy on.
  unfoldable pub police :
      Executor
      → Options
      → World
      → CapabilityToken
      → String
      → ResourceEnvelope
      → Process
      → Env
      → Option Env
      → String
      → Option String
      → Host
      → Result SandboxError RunResult × Host
  unfolding network_stop run_command audit
  police ex options w tok cap env process_of environ vars command cwd host =
      elim (network_stop hostname ex env command) [
        | some reason ↦
            let (entry, log) =
              audit w.writable "subprocess" tok cap blocked (stopped (network_denied reason))
                host.log in
            (ok (rejected blocked reason none), set_log options.audits host log)
        | none ↦ run_command ex options w tok cap env process_of environ vars command cwd host
      ]

  unfoldable pub execute_subprocess :
      Executor
      → Options
      → World
      → String
      → String
      → Option ResourceEnvelope
      → Process
      → Env
      → Option Env
      → String
      → Option String
      → Host
      → Result SandboxError RunResult × Host
  unfolding police verify validate_envelope breaker_open
  execute_subprocess ex options w token cap env process_of environ vars command cwd host =
      elim (validate_envelope (env_of env)) [
        | err e ↦ (ok (rejected failed "" (some (bad_envelope e))), host)
        | ok _ ↦ elim (verify sign encode decode ex w.now token (some cap)) [
          | err e ↦ (ok (rejected refused "" (some (bad_token e))), host)
          | ok tok ↦
              if options.use_breaker && breaker_open ex.breaker
              then (ok (rejected blocked "" (some circuit_open)), host)
              else police ex options w tok cap (env_of env) process_of environ vars command cwd host
        ]
      ]
