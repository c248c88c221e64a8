-- ===== src/Executor/Started.antt =====
-- When `execute_subprocess` starts a process.
use obase.Base.{
  ℕ, ◌≡◌, ◌⊎◌, refl, ap, subst, true, false, ◌&&◌, Option, none, some, String, string_eq, ok, ◌==◌,
  Bool-cases, Option-cases, inl, inr,
}
use obase.Base.Int.{ℤ}
use obase.Capability.Tokens.{
  CapabilityToken, Payload, has_capability, or_fresh, verify_capability_token,
}
use obase.Base.Text.{strip}
use obase.Executor.Envelope.{ResourceEnvelope, validate_envelope}
use obase.Executor.Sandbox.{Sandbox, Env, Process, check_command, run}
use obase.Executor.Records.{Executor, Options, World, Host, breaker_open, env_of}
use obase.Executor.Execute.{verify}
use obase.Executor.Guarded.{Result-cases, VerifySays, verify-VerifySays}
use obase.Executor.Subprocess.{
  sandbox_of, clean_env, network_stop, settle, baited, run_command, police, execute_subprocess,
}

-- A command that the firewall names, or that is blank, starts nothing in the sandbox.
run-same :
    (sandbox : Sandbox) (p p' : Process) (environ : Env) (command : String) (timeout : ℤ)
    (cwd : Option String) (env files : Env)
    → (strip command == "" ≡ true)
      ⊎ ((reason : String) × (check_command sandbox command ≡ some reason))
    → run sandbox p environ command timeout cwd env files
      ≡ run sandbox p' environ command timeout cwd env files
unfolding run
run-same sandbox p p' environ command timeout cwd env files (inl blank) = rw (run, blank) refl
run-same sandbox p p' environ command timeout cwd env files (inr (reason, named)) =
    elim (Bool-cases (strip command == "")) [
      | inl blank ↦ rw (run, blank) refl
      | inr full ↦ rw (run, full, named) refl
    ]

module _ (sign : String → String → String) (encode : Payload → String)
    (decode : String → Option Payload) (hostname : String → Option String) where
  run_command-same :
      (ex : Executor) (options : Options) (w : World) (tok : CapabilityToken) (cap : String)
      (env : ResourceEnvelope) (p p' : Process) (environ : Env) (vars : Option Env)
      (command : String) (cwd : Option String) (host : Host)
      → (strip command == "" ≡ true)
        ⊎ ((reason : String) × (check_command (sandbox_of ex) command ≡ some reason))
      → run_command sign encode decode hostname ex options w tok cap env p environ vars command cwd
          host
        ≡ run_command sign encode decode hostname ex options w tok cap env p' environ vars command
            cwd host
  unfolding run_command
  run_command-same ex options w tok cap env p p' environ vars command cwd host stopped =
      let (baits, files) = baited sign encode decode hostname options w host.files in
      ap (settle sign encode decode hostname options w tok cap command baits host) (
        run-same (sandbox_of ex) p p' environ command env.wallclock_s cwd
          (clean_env (sandbox_of ex) environ vars) files stopped)

  -- What a process is started behind.
  abbrev pub IsCleared :
      Executor → Options → ℕ → String → String → ResourceEnvelope → String → Type 0
  IsCleared ex options now token cap env command =
      (validate_envelope env ≡ ok tt)
      × ((tok : CapabilityToken) × (verify_capability_token sign encode decode ex.secret none now
              token
            ≡ ok tok)
          × (has_capability tok (or_fresh (some cap) ex.default_capability) ≡ true))
      × (options.use_breaker && breaker_open ex.breaker ≡ false)
      × (network_stop hostname ex env command ≡ none)
      × (strip command == "" ≡ false)
      × (check_command (sandbox_of ex) command ≡ none)

  -- A process is started only if the envelope is in order, the token verifies and grants the
  -- capability, the breaker is not open, the network policy has nothing against the command, and the
  -- firewall names none of it, also where the policy is an allowlist; in every other case the
  -- outcome is the same whatever a process would do.
  pub subprocess-IsCleared :
      (ex : Executor) (options : Options) (w : World) (token cap : String)
      (env : Option ResourceEnvelope) (environ : Env) (vars : Option Env) (command : String)
      (cwd : Option String) (host : Host)
      → IsCleared ex options w.now token cap (env_of env) command
        ⊎ ((p p' : Process)
            → execute_subprocess sign encode decode hostname ex options w token cap env p environ
                vars command cwd host
              ≡ execute_subprocess sign encode decode hostname ex options w token cap env p' environ
                  vars command cwd host)
  unfolding execute_subprocess police VerifySays
  subprocess-IsCleared ex options w token cap env environ vars command cwd host =
      elim (Result-cases (validate_envelope (env_of env))) [
        | inr (e, bad) ↦ inr (λ p p'. rw (execute_subprocess, bad) refl)
        | inl (u, valid) ↦
            elim (Result-cases (verify sign encode decode ex w.now token (some cap))) [
              | inr (e, bad) ↦ inr (λ p p'. rw (execute_subprocess, valid, bad) refl)
              | inl (tok, good) ↦
                  elim (Bool-cases (options.use_breaker && breaker_open ex.breaker)) [
                    | inl cut ↦ inr (λ p p'. rw (execute_subprocess, valid, good, cut) refl)
                    | inr closed ↦
                        elim (Option-cases (network_stop hostname ex (env_of env) command)) [
                          | inr (reason, denied) ↦ inr (λ p p'.
                              rw (execute_subprocess, valid, good, closed, police, denied) refl)
                          | inl free ↦
                              let same : (strip command == "" ≡ true)
                                    ⊎ ((reason : String) × (check_command (sandbox_of ex) command
                                          ≡ some reason))
                                  → (p p' : Process)
                                  → execute_subprocess sign encode decode hostname ex options w
                                      token cap env p environ vars command cwd host
                                    ≡ execute_subprocess sign encode decode hostname ex options w
                                        token cap env p' environ vars command cwd host =
                                λ stopped p p'.
                                  rw (execute_subprocess, valid, good, closed, police, free)
                                    (run_command-same ex options w tok cap (env_of env) p p' environ
                                      vars command cwd host stopped) in
                              elim (Bool-cases (strip command == "")) [
                                | inl blank ↦ inr (same (inl blank))
                                | inr full ↦
                                    elim (Option-cases (check_command (sandbox_of ex) command)) [
                                      | inr named ↦ inr (same (inr named))
                                      | inl silent ↦
                                          let (verified, granted) =
                                            subst
                                              (VerifySays sign encode decode ex w.now token
                                                (some cap))
                                              good
                                              (verify-VerifySays sign encode decode ex w.now token
                                                (some cap)) in
                                          inl (
                                            valid,
                                            (tok, verified, granted),
                                            closed,
                                            free,
                                            full,
                                            silent,
                                          )
                                    ]
                              ]
                        ]
                  ]
            ]
      ]
