-- ===== src/Executor/Tests.antt =====
-- Runs of the executor, and its theorems at concrete inputs.
use obase.Base.{
  ℕ, ◌≡◌, ◌≢◌, ◌↔◌, ◌⊎◌, refl, true, false, some, none, Option, String, string_eq, nat_eq, List, [],
  ◌∷◌, ok, err, if◌then◌else◌, Result,
}
use obase.Base.Dict.{insert, erase, lookup}
use obase.Base.Int.{ℤ, pos}
use obase.Capability.Split.{rsplit, has_dot}
use obase.Capability.Tokens.{
  CapabilityToken, Payload, has_capability, is_expired, from_payload, verify_parts,
  verify_capability_token, check_capability, expired, default,
}
use obase.Base.Text.{lower, lstrip, rstrip, cut_words, take}
use obase.Executor.Status.{Status, succeeded, blocked, failed, timed_out, honeypot_trip}
use obase.Executor.Envelope.{
  ResourceEnvelope, default_envelope, allows, validate_envelope, write_allowed,
}
use obase.Executor.Sandbox.{
  Env, Process, exited, check_command, sanitized_env, finished, run, argv_of, is_secret,
}
use obase.Executor.Probe.{Files, removed, plant, check_touched, cleanup}
use obase.Executor.Records.{
  Executor, Options, World, Host, ExecutionResult, Ran, done, late, no_limiter, async, log_record,
  breaker_open, acquire_rate, await_rate, audit, judge, env_of, bad_token,
}
use obase.Executor.Execute.{
  granting, verify, guard, run_guarded, through, execute, aexecute, never_late,
}
use obase.Executor.Guarded.{IsAdmitted, IsStopped, execute_guarded}
use obase.Executor.Audited.{IsAudited, execute-IsAudited}
use obase.Executor.Bait.{default_body, IsTidied, execute_bait}
use obase.Executor.Subprocess.{
  sandbox_of, is_sensitive, resolve_egress, sanitize_env, network_stop, settle, baited, run_command,
  police, execute_subprocess,
}
use obase.Executor.Started.{IsCleared, subprocess-IsCleared}
use obase.Executor.Secrets.{execute_subprocess-child_env}

program : Unit {0}
unfolding string_eq nat_eq rsplit has_dot has_capability is_expired from_payload verify_parts
    verify_capability_token check_capability lower lstrip rstrip cut_words take allows
    validate_envelope write_allowed check_command sanitized_env finished run plant check_touched
    cleanup insert erase lookup log_record breaker_open acquire_rate await_rate audit granting
    verify guard run_guarded through execute aexecute resolve_egress sanitize_env network_stop
    settle run_command police execute_subprocess
program = tt

abbrev payload : Payload
payload = record {
  sub = some "scheduler";
  caps = some ("executor.*" ∷ []);
  env = none;
  iss = some "obase";
  iat = some 10;
  exp = some 15;
  nonce = some "n";
}

abbrev tok : CapabilityToken
tok = record {
  subject = "scheduler";
  capabilities = "executor.*" ∷ [];
  envelope_ref = none;
  issuer = "obase";
  issued_at = 10;
  expires_at = 15;
  nonce = "n";
}

abbrev sign : String → String → String
sign secret text = "sig"

abbrev encode : Payload → String
encode p = "p"

abbrev decode : String → Option Payload
decode s = some payload

abbrev plain : Executor
plain = record {
  secret = "k";
  default_capability = "executor.execute";
  breaker = none;
  limiter = no_limiter;
  use_network_namespace = false;
  netns_available = true;
}

abbrev everything : Options
everything = record {
  use_breaker = true;
  use_rate_limit = true;
  use_honeypot = true;
  audits = true;
}

abbrev early : World
early = record { now = 12; bait = "/tmp/a_.env.probe"; writable = false }

abbrev host : Host
host = record {
  files = ("/etc/passwd", "root") ∷ [];
  log = record { entries = []; file = some [] };
}

-- A function that reads nothing and writes one file.
abbrev writes : Files → Result String ℕ × Files
writes files = (ok 7, insert "/out" "x" files)

-- One that deletes every file.
abbrev wipes : Files → Result String ℕ × Files
wipes files = (ok 7, [])

abbrev call :
    Executor → Options → World → (Files → Result String ℕ × Files) → ExecutionResult ℕ × Host
call ex options w f = execute sign encode decode ex options w "p.sig" none none (some f) host

execute_well :
    (call plain everything early writes).0
    ≡ record { status = succeeded; outcome = some 7; error = none; honey_trips = [] }
unfolding program
execute_well = refl

execute_files :
    (call plain everything early writes).1.files ≡ ("/etc/passwd", "root") ∷ ("/out", "x") ∷ []
unfolding program
execute_files = refl

execute_trips :
    (call plain everything early wipes).0.honey_trips ≡ ("/tmp/a_.env.probe", removed) ∷ []
unfolding program
execute_trips = refl

execute_late :
    (call plain everything (record early { now = 16 }) writes).0.error ≡ some (bad_token expired)
unfolding program
execute_late = refl

-- A limiter whose `acquire` is a coroutine stops every call of `execute`.
execute_async :
    (call (record plain { limiter = async (ok tt) }) everything early writes).0.status ≡ blocked
unfolding program
execute_async = refl

-- A breaker without `is_open` stops none.
execute_no_is_open :
    (call (record plain { breaker = some none }) everything early writes).0.status ≡ succeeded
unfolding program
execute_no_is_open = refl

-- A function that wipes the files and fails.
abbrev wipes_late : ℤ → Files → Ran ℕ × Files
wipes_late limit files = (late, [])

aexecute_trips :
    (aexecute sign encode decode plain everything early "p.sig" none none
      (some wipes_late)
      none
      host).0.status
    ≡ timed_out
unfolding program
aexecute_trips = refl

abbrev hostname : String → Option String
hostname url = some "example.com"

abbrev good : Process
good argv cwd env limit files = (exited (pos 0) "out" "", files)

abbrev command_status : Option ResourceEnvelope → String → Result Status String
command_status env command =
    elim (execute_subprocess sign encode decode hostname plain everything early "p.sig"
      "executor.subprocess" env good [] none command none host).0 [
        | err e ↦ err failed
        | ok r ↦ ok r.result.reason
      ]

subprocess_curl :
    command_status none " CURL http://example.com/"
    ≡ ok "network denied by envelope: network command denied: curl"
unfolding program
subprocess_curl = refl

abbrev listed : ResourceEnvelope
listed = record default_envelope {
  network = record { mode = "allowlist"; egress_allow = "example.com" ∷ [] };
}

-- An allowed host is still denied by the sandbox.
subprocess_allowlisted :
    command_status (some listed) "curl http://example.com/" ≡ ok "network command denied: curl"
unfolding program
subprocess_allowlisted = refl

subprocess_echo : command_status none "echo 1" ≡ ok ""
unfolding program
subprocess_echo = refl

-- A blank command raises, with the bait left behind.
subprocess_blank :
    (execute_subprocess sign encode decode hostname plain everything early "p.sig"
      "executor.subprocess" none good [] none " " none host).1.files
    ≡ ("/etc/passwd", "root") ∷ ("/tmp/a_.env.probe", default_body) ∷ []
unfolding program
subprocess_blank = refl

hostname_passes : check_command (sandbox_of plain) "hostname -I" ≡ none
unfolding program
hostname_passes = refl

abbrev one_key : Env
one_key = ("GEMINI_API_KEY", "s") ∷ ("PATH", "/bin") ∷ []

sanitize_env_gemini : sanitize_env one_key ≡ ("PATH", "/bin") ∷ []
unfolding program
sanitize_env_gemini = refl

sanitized_env_gemini : sanitized_env (sandbox_of plain) one_key ≡ one_key
unfolding program
sanitized_env_gemini = refl

rule_with_port :
    allows (record { mode = "allowlist"; egress_allow = "example.com:443" ∷ [] }) "example.com" none
    ≡ false
unfolding program
rule_with_port = refl

abbrev some_writes : Option (Files → Result String ℕ × Files)
some_writes = some writes

execute_guarded_example :
    ((t : CapabilityToken) × IsAdmitted sign encode decode plain everything 12 "p.sig" none
        (env_of none)
        (ok tt)
        t
      × (call plain everything early writes
          ≡ run_guarded sign encode decode judge "execute" everything early t "executor.execute"
              (never_late sign encode decode some_writes)
              host))
    ⊎ IsStopped sign encode decode host (call plain everything early writes)
unfolding program
execute_guarded_example =
    execute_guarded sign encode decode plain everything early "p.sig" none none some_writes host

execute-IsAudited_example :
    IsAudited sign encode decode "execute" tok "executor.execute" host
      (call plain everything early writes)
    × IsAudited sign encode decode "aexecute" tok "executor.execute" host (
        aexecute sign encode decode plain everything early "p.sig" none none
          (some wipes_late)
          none
          host)
unfolding program
execute-IsAudited_example =
    execute-IsAudited sign encode decode plain everything early "p.sig" none none some_writes
      (some wipes_late) none host refl refl refl

-- A coroutine that deletes every file and returns.
abbrev wipes_soon : ℤ → Files → Ran ℕ × Files
wipes_soon limit files = (done 7, [])

execute_bait_example :
    let (r, host') = call plain everything early writes in
    let (r', host'') =
      aexecute sign encode decode plain everything early "p.sig" none none
        (some wipes_soon)
        none
        host in
    let left = (writes (insert early.bait default_body host.files)).1 in
    (((r.status ≡ honeypot_trip) ↔ (lookup early.bait left ≢ some default_body))
      × IsTidied early.bait left host'.files)
    × (((r'.status ≡ honeypot_trip) ↔ ((lookup early.bait [] ≢ some default_body) × Unit {0}))
        × IsTidied early.bait [] host''.files)
unfolding program
execute_bait_example =
    execute_bait sign encode decode plain everything early "p.sig" none none writes wipes_soon none
      host refl refl refl

subprocess-IsCleared_example :
    IsCleared sign encode decode hostname plain everything 12 "p.sig" "executor.subprocess" listed
      "curl http://example.com/"
    ⊎ ((p p' : Process)
        → execute_subprocess sign encode decode hostname plain everything early "p.sig"
            "executor.subprocess"
            (some listed)
            p
            []
            none
            "curl http://example.com/"
            none
            host
          ≡ execute_subprocess sign encode decode hostname plain everything early "p.sig"
              "executor.subprocess"
              (some listed)
              p'
              []
              none
              "curl http://example.com/"
              none
              host)
subprocess-IsCleared_example =
    subprocess-IsCleared sign encode decode hostname plain everything early "p.sig"
      "executor.subprocess" (some listed) [] none "curl http://example.com/" none host

abbrev resolve : String → List String
resolve path = "srv" ∷ path ∷ []

-- A process that prints its search path.
abbrev prints_path : Process
prints_path argv cwd env timeout files = (exited (pos 0) (default "" (lookup "PATH" env)) "", files)

execute_subprocess-child_env_example :
    let (baits, files) = baited sign encode decode hostname everything early host.files in
    (child : Env) × (execute_subprocess sign encode decode hostname plain everything early "p.sig"
        "executor.subprocess" none prints_path one_key
        (some one_key)
        "echo $PATH"
        none
        host
      ≡ (let (spawned, files') =
            prints_path
              (argv_of (sandbox_of plain) "echo $PATH")
              none
              child
              (env_of none).wallclock_s
              files in
          settle sign encode decode hostname everything early tok "executor.subprocess" "echo $PATH"
            baits host
            (finished (sandbox_of plain) spawned, files')))
    × ((key : String)
        → ((given : Env) × (some one_key ≡ some given)
            × (lookup key child ≡ (if is_sensitive key then none else lookup key given)))
          ⊎ ((◌≡◌ {A = Option Env} (some one_key) none
                ⊎ ((given : Env) × (some one_key ≡ some given) × (sanitize_env given ≡ [])))
              × (lookup key child ≡ (if is_secret key then none else lookup key one_key))))
unfolding program
execute_subprocess-child_env_example =
    execute_subprocess-child_env sign encode decode hostname plain everything early "p.sig"
      "executor.subprocess" none prints_path one_key (some one_key) "echo $PATH" none host refl refl
      refl refl refl refl
