-- ===== src/Executor/Execute.antt =====
-- obase/hardened_executor.py: `_verify`, the guards, `execute` and `aexecute`. The function is a parameter,
-- on the files.
use obase.Base.{
  ℕ, ◌&&◌, Option, none, some, String, string_eq, [], Result, ok, err, ◌>>=◌, ◌==◌, if◌then◌else◌,
}
use obase.Base.Int.{ℤ}
use obase.Capability.Tokens.{
  CapabilityToken, Payload, Error, denied, verify_capability_token, check_capability, or_fresh,
  default,
}
use obase.Executor.Envelope.{ResourceEnvelope, validate_envelope}
use obase.Executor.Status.{Status, refused, blocked, failed}
use obase.Executor.Probe.{Files, Trips, plant, check_touched, cleanup}
use obase.Executor.Records.{
  Failure, Executor, breaker_open, acquire_rate, await_rate, Options, World, Host, ExecutionResult,
  audit, stopped_result, Gate, Ran, outcome_of, status_of, judge, judge_ok, set_log, env_of,
  bad_envelope, bad_token, circuit_open, rate_limited, stopped, ran, stop, block, pass, done, threw,
}

-- The end of `_verify`: a token that verifies must grant the capability.
unfoldable pub granting : String → Result Error CapabilityToken → Result Error CapabilityToken
unfolding check_capability
granting required (err e) = err e
granting required (ok tok) = check_capability tok required >>= λ _. ok tok

module _ (sign : String → String → String) (encode : Payload → String)
    (decode : String → Option Payload) where
  -- `_verify`
  unfoldable pub verify : Executor → ℕ → String → Option String → Result Error CapabilityToken
  unfolding verify_capability_token granting
  verify ex now token required =
      if token == ""
      then err denied
      else granting (or_fresh required ex.default_capability)
          (verify_capability_token sign encode decode ex.secret none now token)

  -- The guards of `execute` and `aexecute`, with what acquiring the rate came to.
  unfoldable pub guard :
      Executor
      → Options
      → ℕ
      → String
      → Option String
      → ResourceEnvelope
      → Result String (Unit {0})
      → Gate
  unfolding verify validate_envelope breaker_open
  guard ex options now token cap env acquired = elim (validate_envelope env) [
    | err e ↦ stop failed (bad_envelope e)
    | ok _ ↦ elim (verify ex now token cap) [
      | err e ↦ stop refused (bad_token e)
      | ok tok ↦
          if options.use_breaker && breaker_open ex.breaker
          then block tok circuit_open
          else elim (if options.use_rate_limit then acquired else ok tt) [
            | err text ↦ block tok (rate_limited text)
            | ok _ ↦ pass tok
          ]
    ]
  ]

  module _ {V : Type 0} where
    -- The run behind the guards: bait, function, the bait's check and removal, audit.
    unfoldable pub run_guarded :
        (Trips → Status × Option Failure → Status × Option Failure)
        → String
        → Options
        → World
        → CapabilityToken
        → String
        → Option (Files → Ran V × Files)
        → Host
        → ExecutionResult V × Host
    unfolding plant check_touched cleanup audit
    run_guarded judging action options w tok cap fn host =
        let (baits, files) =
          if options.use_honeypot then plant w.bait none [] host.files else ([], host.files) in
        let (ran_to, files') : Option (Ran V) × Files = elim fn [
          | none ↦ (none, files)
          | some f ↦ let (o, files') = f files in (some o, files')
        ] in
        let trips = check_touched baits files' in
        let (status, error) = judging trips (status_of ran_to) in
        let (entry, log) = audit w.writable action tok cap status (ran trips error) host.log in
        (
          record {
            status = status;
            outcome = elim ran_to [ none ↦ none | some o ↦ outcome_of o ];
            error = error;
            honey_trips = trips;
          },
          set_log options.audits (record host { files = cleanup baits files' }) log,
        )

    -- What `execute` and `aexecute` do with the guards' answer.
    unfoldable pub through :
        (Trips → Status × Option Failure → Status × Option Failure)
        → String
        → Options
        → World
        → String
        → Option (Files → Ran V × Files)
        → Gate
        → Host
        → ExecutionResult V × Host
    unfolding run_guarded audit
    through judging action options w cap fn (stop status f) host = (stopped_result status f, host)
    through judging action options w cap fn (block tok f) host =
        let (entry, log) = audit w.writable action tok cap blocked (stopped f) host.log in
        (stopped_result blocked f, set_log options.audits host log)
    through judging action options w cap fn (pass tok) host =
        run_guarded judging action options w tok cap fn host

    abbrev pub never_late :
        Option (Files → Result String V × Files) → Option (Files → Ran V × Files)
    never_late none = none
    never_late (some f) = some (λ files.
        let (r, files') = f files in (elim r [ ok v ↦ done v | err text ↦ threw text ], files'))

    abbrev pub limited : ℤ → Option (ℤ → Files → Ran V × Files) → Option (Files → Ran V × Files)
    limited limit none = none
    limited limit (some f) = some (f limit)

    unfoldable pub execute :
        Executor
        → Options
        → World
        → String
        → Option String
        → Option ResourceEnvelope
        → Option (Files → Result String V × Files)
        → Host
        → ExecutionResult V × Host
    unfolding guard through acquire_rate
    execute ex options w token cap env fn host =
        through judge "execute" options w (or_fresh cap ex.default_capability) (never_late fn)
          (guard ex options w.now token cap (env_of env) (acquire_rate ex.limiter)) host

    -- The function is given the timeout that `wait_for` holds it to.
    unfoldable pub aexecute :
        Executor
        → Options
        → World
        → String
        → Option String
        → Option ResourceEnvelope
        → Option (ℤ → Files → Ran V × Files)
        → Option ℤ
        → Host
        → ExecutionResult V × Host
    unfolding guard through await_rate
    aexecute ex options w token cap env fn timeout host =
        let limit = default (env_of env).wallclock_s timeout in
        through judge_ok "aexecute" options w (or_fresh cap ex.default_capability)
          (limited limit fn) (guard ex options w.now token cap (env_of env) (await_rate ex.limiter))
          host
