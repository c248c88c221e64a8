-- ===== src/Executor/Guarded.antt =====
-- What is run, and what the action log says of it.
use obase.Base.{
  ℕ, ◌≡◌, ◌≢◌, ◌⊎◌, refl, subst, Bool, true, false, ◌&&◌, Option, none, String, string_eq, Result,
  ok, err, ◌==◌, if◌then◌else◌, arith, Bool-cases, inl, inr,
}
use obase.Capability.Tokens.{
  CapabilityToken, Payload, Error, denied, has_capability, verify_capability_token,
  check_capability, or_fresh,
}
use obase.Executor.Envelope.{ResourceEnvelope, validate_envelope}
use obase.Executor.Probe.{Files}
use obase.Executor.Status.{succeeded, blocked}
use obase.Executor.Records.{
  Failure, stopped, ActionLog, Executor, Options, World, Host, ExecutionResult, Gate, stop, block,
  pass, Ran, audit, breaker_open, acquire_rate, env_of, judge, set_log,
}
use obase.Executor.Execute.{granting, verify, guard, run_guarded, through, never_late, execute}

pub Result-cases :
    {E A : Type 0} (r : Result E A) → ((a : A) × (r ≡ ok a)) ⊎ ((e : E) × (r ≡ err e))
Result-cases (ok a) = inl (a, refl)
Result-cases (err e) = inr (e, refl)

files-set_log :
    (audits : Bool) (host : Host) (log : ActionLog) → (set_log audits host log).files ≡ host.files
files-set_log true host log = refl
files-set_log false host log = refl

module _ (sign : String → String → String) (encode : Payload → String)
    (decode : String → Option Payload) where
  -- The envelope is in order, the token verifies and grants the capability, and neither the breaker
  -- nor the limiter stops the call.
  abbrev pub IsAdmitted :
      Executor
      → Options
      → ℕ
      → String
      → Option String
      → ResourceEnvelope
      → Result String (Unit {0})
      → CapabilityToken
      → Type 0
  IsAdmitted ex options now token cap env acquired tok =
      (validate_envelope env ≡ ok tt)
      × (verify_capability_token sign encode decode ex.secret none now token ≡ ok tok)
      × (has_capability tok (or_fresh cap ex.default_capability) ≡ true)
      × (options.use_breaker && breaker_open ex.breaker ≡ false)
      × ((if options.use_rate_limit then acquired else ok tt) ≡ ok tt)

  unfoldable pub VerifySays :
      Executor → ℕ → String → Option String → Result Error CapabilityToken → Type 0
  VerifySays ex now token cap (err e) = Unit
  VerifySays ex now token cap (ok tok) =
      (verify_capability_token sign encode decode ex.secret none now token ≡ ok tok)
      × (has_capability tok (or_fresh cap ex.default_capability) ≡ true)

  granting-VerifySays :
      (ex : Executor) (now : ℕ) (token : String) (cap : Option String)
      (r : Result Error CapabilityToken)
      → verify_capability_token sign encode decode ex.secret none now token ≡ r
      → VerifySays ex now token cap (granting (or_fresh cap ex.default_capability) r)
  unfolding granting check_capability VerifySays
  granting-VerifySays ex now token cap (err e) is = tt
  granting-VerifySays ex now token cap (ok tok) is =
      elim (Bool-cases (has_capability tok (or_fresh cap ex.default_capability))) [
        | inl has ↦ rw (granting, check_capability, has) (is, has)
        | inr lacks ↦ rw (granting, check_capability, lacks) tt
      ]

  pub verify-VerifySays :
      (ex : Executor) (now : ℕ) (token : String) (cap : Option String)
      → VerifySays ex now token cap (verify sign encode decode ex now token cap)
  unfolding verify VerifySays
  verify-VerifySays ex now token cap = by_test (token == "")
    where
      granted : Result Error CapabilityToken
      granted =
          granting (or_fresh cap ex.default_capability)
            (verify_capability_token sign encode decode ex.secret none now token)

      by_test : (b : Bool) → VerifySays ex now token cap (if b then err denied else granted)
      by_test true = tt
      by_test false = granting-VerifySays ex now token cap _ refl

  GuardSays :
      Executor
      → Options
      → ℕ
      → String
      → Option String
      → ResourceEnvelope
      → Result String (Unit {0})
      → Gate
      → Type 0
  GuardSays ex options now token cap env acquired (stop status f) = status ≢ succeeded
  GuardSays ex options now token cap env acquired (block tok f) = Unit
  GuardSays ex options now token cap env acquired (pass tok) =
      IsAdmitted ex options now token cap env acquired tok

  guard-GuardSays :
      (ex : Executor) (options : Options) (now : ℕ) (token : String) (cap : Option String)
      (env : ResourceEnvelope) (acquired : Result String (Unit {0}))
      → GuardSays ex options now token cap env acquired
          (guard sign encode decode ex options now token cap env acquired)
  unfolding guard GuardSays VerifySays
  guard-GuardSays ex options now token cap env acquired =
      elim (Result-cases (validate_envelope env)) [
        | inr (e, bad) ↦ rw (guard, bad) (λ h. ground (arith, h))
        | inl (u, valid) ↦ elim (Result-cases (verify sign encode decode ex now token cap)) [
          | inr (e, bad) ↦ rw (guard, valid, bad) (λ h. ground (arith, h))
          | inl (tok, good) ↦
              let (verified, granted) =
                subst (VerifySays ex now token cap) good (verify-VerifySays ex now token cap) in
              elim (Bool-cases (options.use_breaker && breaker_open ex.breaker)) [
                | inl cut ↦ rw (guard, valid, good, cut) tt
                | inr closed ↦
                    elim (Result-cases (if options.use_rate_limit then acquired else ok tt)) [
                      | inr (text, full) ↦ rw (guard, valid, good, closed, full) tt
                      | inl (v, free) ↦
                          rw (guard, valid, good, closed, free)
                            (valid, verified, granted, closed, free)
                    ]
              ]
        ]
      ]

  module _ {V : Type 0} where
    -- A call that is stopped leaves the files alone and has no outcome.
    abbrev pub IsStopped : Host → ExecutionResult V × Host → Type 0
    IsStopped host (r, host') =
        (r.status ≢ succeeded) × (r.outcome ≡ none) × (host'.files ≡ host.files)

    through-IsStopped :
        (action : String) (options : Options) (w : World) (cap : String)
        (fn : Option (Files → Ran V × Files)) (tok : CapabilityToken) (f : Failure) (host : Host)
        → IsStopped host
            (through sign encode decode judge action options w cap fn (block tok f) host)
    unfolding through
    through-IsStopped action options w cap fn tok f host = (
      λ h. ground (arith, h),
      refl,
      files-set_log options.audits host
          (audit w.writable action tok cap blocked (stopped f) host.log).1,
    )

    -- `execute` runs the function only behind an envelope that is in order and a token that verifies
    -- and grants the capability, with the breaker not open and the limiter granting, where these are
    -- used; in every other case the function is not run: the result is not "ok", has no outcome, and
    -- the files are as they were.
    pub execute_guarded :
        (ex : Executor) (options : Options) (w : World) (token : String) (cap : Option String)
        (env : Option ResourceEnvelope) (fn : Option (Files → Result String V × Files))
        (host : Host)
        → ((tok : CapabilityToken) × IsAdmitted ex options w.now token cap
              (env_of env)
              (acquire_rate ex.limiter)
              tok
            × (execute sign encode decode ex options w token cap env fn host
                ≡ run_guarded sign encode decode judge "execute" options w tok
                    (or_fresh cap ex.default_capability)
                    (never_late sign encode decode fn)
                    host))
          ⊎ IsStopped host (execute sign encode decode ex options w token cap env fn host)
    unfolding execute through GuardSays
    execute_guarded ex options w token cap env fn host =
        by_gate
          (guard sign encode decode ex options w.now token cap (env_of env)
            (acquire_rate ex.limiter))
          (guard-GuardSays ex options w.now token cap (env_of env) (acquire_rate ex.limiter))
      where
        by_gate :
            (g : Gate)
            → GuardSays ex options w.now token cap (env_of env) (acquire_rate ex.limiter) g
            → let out =
                through sign encode decode judge "execute" options w
                  (or_fresh cap ex.default_capability)
                  (never_late sign encode decode fn)
                  g
                  host in
              ((tok : CapabilityToken) × IsAdmitted ex options w.now token cap
                  (env_of env)
                  (acquire_rate ex.limiter)
                  tok
                × (out
                    ≡ run_guarded sign encode decode judge "execute" options w tok
                        (or_fresh cap ex.default_capability)
                        (never_late sign encode decode fn)
                        host))
              ⊎ IsStopped host out
        by_gate (stop status f) says = inr (says, refl, refl)
        by_gate (block tok f) says = inr (
            through-IsStopped "execute" options w (or_fresh cap ex.default_capability)
              (never_late sign encode decode fn) tok f host)
        by_gate (pass tok) says = inl (tok, says, refl)
