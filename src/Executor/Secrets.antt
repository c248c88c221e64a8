-- ===== src/Executor/Secrets.antt =====
-- The environment of a process that `execute_subprocess` starts.
use obase.Base.{
  ◌≡◌, ◌⊎◌, refl, ap, ◌∙◌, Bool, true, false, not, ◌&&◌, ◌==◌, ok, Option, none, some, String,
  string_eq, [], ◌∷◌, select, if◌then◌else◌, arith, Bool-cases, inl, inr,
}
use obase.Base.Dict.{lookup}
use obase.Base.Text.{strip}
use obase.Capability.Tokens.{CapabilityToken, Payload}
use obase.Executor.Envelope.{ResourceEnvelope, validate_envelope}
use obase.Executor.Sandbox.{
  Sandbox, Env, Process, is_secret, check_command, sanitized_env, argv_of, finished, env_or, run,
}
use obase.Executor.Records.{Executor, Options, World, Host, breaker_open, env_of}
use obase.Executor.Execute.{verify}
use obase.Executor.Subprocess.{
  sandbox_of, is_sensitive, sanitize_env, clean_env, network_stop, settle, baited, run_command,
  police, execute_subprocess,
}

lookup-select :
    (bad : String → Bool) (key : String) (env : Env)
    → lookup key (select (λ p. not (bad p.0)) env) ≡ (if bad key then none else lookup key env)
unfolding lookup
lookup-select bad key [] = ground arith
lookup-select bad key ((k, v) ∷ env) = elim (Bool-cases (bad k)) [
  | inl dropped ↦ rw dropped (ground (arith, lookup-select bad key env, dropped))
  | inr kept ↦ rw kept (ground (arith, lookup-select bad key env, kept))
]

lookup-child_env :
    (sandbox : Sandbox) (environ : Env) (vars : Option Env) (key : String)
    → sandbox.strip_proxy_env ≡ true
    → let child = env_or (clean_env sandbox environ vars) (sanitized_env sandbox environ) in
      ((given : Env) × (vars ≡ some given)
        × (lookup key child ≡ (if is_sensitive key then none else lookup key given)))
      ⊎ (((vars ≡ none) ⊎ ((given : Env) × (vars ≡ some given) × (sanitize_env given ≡ [])))
          × (lookup key child ≡ (if is_secret key then none else lookup key environ)))
unfolding sanitize_env sanitized_env
lookup-child_env sandbox environ none key on = inr (
  inl refl,
  rw (sanitized_env, on)
      (ap (lookup key) (env_or_self (select (λ p. not (is_secret p.0)) environ))
        ∙ lookup-select is_secret key environ),
)
  where
    env_or_self : (env : Env) → env_or env env ≡ env
    env_or_self [] = refl
    env_or_self (p ∷ env) = refl
lookup-child_env sandbox environ (some given) key on = elim (empty_or (sanitize_env given)) [
  | inl gone ↦ inr (
    inr (given, refl, gone),
    ap (λ e. lookup key (env_or e (sanitized_env sandbox environ))) gone
        ∙ rw (sanitized_env, on) (lookup-select is_secret key environ),
  )
  | inr kept ↦ inl (
    given,
    refl,
    ap (lookup key) (kept (sanitized_env sandbox environ)) ∙ lookup-select is_sensitive key given,
  )
]
  where
    empty_or : (env : Env) → (env ≡ []) ⊎ ((other : Env) → env_or env other ≡ env)
    empty_or [] = inl refl
    empty_or (p ∷ env) = inr (λ other. refl)

module _ (sign : String → String → String) (encode : Payload → String)
    (decode : String → Option Payload) (hostname : String → Option String) where
  -- What `execute_subprocess` comes to where nothing stops the command: it starts the process, on the
  -- files with the bait in them, in an environment where a name is what follows. Where the caller
  -- gives variables and some of them are kept, what the caller gives it, unless it is a proxy's or
  -- begins like a credential; where the caller gives none, or none is kept, what the executor's own
  -- environment gives it, unless it is a proxy's or one of five credentials.
  pub execute_subprocess-child_env :
      (ex : Executor) (options : Options) (w : World) (token cap : String)
      (env : Option ResourceEnvelope) (process : Process) (environ : Env) (vars : Option Env)
      (command : String) (cwd : Option String) (host : Host) {tok : CapabilityToken}
      → validate_envelope (env_of env) ≡ ok tt
      → verify sign encode decode ex w.now token (some cap) ≡ ok tok
      → options.use_breaker && breaker_open ex.breaker ≡ false
      → network_stop hostname ex (env_of env) command ≡ none
      → strip command == "" ≡ false
      → check_command (sandbox_of ex) command ≡ none
      → let (baits, files) = baited sign encode decode hostname options w host.files in
        (child : Env) × (execute_subprocess sign encode decode hostname ex options w token cap env
            process environ vars command cwd host
          ≡ (let (spawned, files') =
                process
                  (argv_of (sandbox_of ex) command)
                  cwd
                  child
                  (env_of env).wallclock_s
                  files in
              settle sign encode decode hostname options w tok cap command baits host
                (finished (sandbox_of ex) spawned, files')))
        × ((key : String)
            → ((given : Env) × (vars ≡ some given)
                × (lookup key child ≡ (if is_sensitive key then none else lookup key given)))
              ⊎ (((vars ≡ none) ⊎ ((given : Env) × (vars ≡ some given) × (sanitize_env given ≡ [])))
                  × (lookup key child ≡ (if is_secret key then none else lookup key environ))))
  unfolding execute_subprocess police run_command run
  execute_subprocess-child_env ex options w token cap env process environ vars command cwd host
        valid good closed free full silent =
      (
        env_or (clean_env (sandbox_of ex) environ vars) (sanitized_env (sandbox_of ex) environ),
        rw (execute_subprocess, valid, good, closed, police, free, run_command, run, full, silent)
            refl,
        λ key. lookup-child_env (sandbox_of ex) environ vars key refl,
      )
