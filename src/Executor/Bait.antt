-- ===== src/Executor/Bait.antt =====
-- What the honeypot tells of a run.
use obase.Base.{
  ◌≡◌, ◌≢◌, ◌↔◌, refl, sym, ap, ◌∙◌, Bool, true, false, Option, none, some, String, string_eq, [],
  ◌∷◌, Result, ok, err, ◌==◌, if◌then◌else◌, arith, Option-cases, inl, inr,
}
use obase.Base.Dict.{lookup, insert, erase, lookup-erase}
use mathlib.Core.Option.{none-ne-some}
use obase.Base.Int.{ℤ}
use obase.Capability.Tokens.{CapabilityToken, Payload, or_fresh, default}
use obase.Executor.Envelope.{ResourceEnvelope}
use obase.Executor.Probe.{Files, Reason, Trips, touch_of, plant, check_touched, cleanup}
use obase.Executor.Status.{Status, honeypot_trip}
use obase.Executor.Records.{
  Failure, Options, World, Host, Ran, done, threw, late, judge, judge_ok, status_of, set_log,
  ActionLog, Executor, pass, acquire_rate, await_rate, env_of,
}
use obase.Executor.Execute.{guard, run_guarded, through, execute, aexecute}

abbrev pub default_body : String
default_body = "STRATUM_PROBE_<redacted_secret>_DO_NOT_READ"

-- One bait in the files: as it was, or not.
touch_of_iff :
    (original : String) (now : Option String)
    → (touch_of original now ≡ none) ↔ (now ≡ some original)
touch_of_iff original none = (λ h. ground (arith, h), λ h. ground (arith, h))
touch_of_iff original (some text) = (λ h. ground (arith, h), λ h. ground (arith, h))

-- The trips of a probe with one bait.
one_bait :
    (path body : String) (files : Files)
    → (check_touched ((path, body) ∷ []) files ≡ []) ↔ (lookup path files ≡ some body)
unfolding check_touched
one_bait path body files = elim (Option-cases (touch_of body (lookup path files))) [
  | inl same ↦
      (λ h. (touch_of_iff body (lookup path files)).0 same, λ h. rw (check_touched, same) refl)
  | inr (reason, touched) ↦ (
    λ h. absurd (differ (rw (check_touched, touched) at h)),
    λ h. absurd (none-ne-some reason (sym ((touch_of_iff body (lookup path files)).1 h) ∙ touched)),
  )
]
  where
    differ : {t : String × Reason} {ts : Trips} → t ∷ ts ≡ [] → ⊥
    differ h = ground (arith, h)

abbrev pub IsDone : {V : Type 0} → Ran V → Type 0
IsDone (done v) = Unit
IsDone _ = ⊥

judge_iff :
    {V : Type 0} (trips : Trips) (o : Ran V)
    → ((judge trips (status_of (some o))).0 ≡ honeypot_trip) ↔ (trips ≢ [])
judge_iff [] (done v) = (λ h. ground (arith, h), λ h. absurd (h refl))
judge_iff [] (threw text) = (λ h. ground (arith, h), λ h. absurd (h refl))
judge_iff [] late = (λ h. ground (arith, h), λ h. absurd (h refl))
judge_iff (t ∷ trips) o = (λ h e. ground (arith, e), λ h. refl)

judge_ok_iff :
    {V : Type 0} (trips : Trips) (o : Ran V)
    → ((judge_ok trips (status_of (some o))).0 ≡ honeypot_trip) ↔ ((trips ≢ []) × IsDone o)
judge_ok_iff [] (done v) = (λ h. ground (arith, h), λ h. absurd (h.0 refl))
judge_ok_iff [] (threw text) = (λ h. ground (arith, h), λ h. absurd (h.0 refl))
judge_ok_iff [] late = (λ h. ground (arith, h), λ h. absurd (h.0 refl))
judge_ok_iff (t ∷ trips) (done v) = (λ h. (λ e. ground (arith, e), tt), λ h. refl)
judge_ok_iff (t ∷ trips) (threw text) = (λ h. ground (arith, h), λ h. absurd h.1)
judge_ok_iff (t ∷ trips) late = (λ h. ground (arith, h), λ h. absurd h.1)

touched_iff :
    (bait : String) (left : Files)
    → (check_touched ((bait, default_body) ∷ []) left ≢ []) ↔ (lookup bait left ≢ some default_body)
touched_iff bait left = (
  λ h e. h ((one_bait bait default_body left).1 e),
  λ h e. h ((one_bait bait default_body left).0 e),
)

-- The file of the bait is gone, and the others are as they were left.
abbrev pub IsTidied : String → Files → Files → Type 0
IsTidied bait left after =
    (path : String) → lookup path after ≡ (if path == bait then none else lookup path left)

module _ (sign : String → String → String) (encode : Payload → String)
    (decode : String → Option Payload) {V : Type 0} where
  abbrev left_by : (Files → Ran V × Files) → World → Host → Ran V × Files
  left_by f w host = f (insert w.bait default_body host.files)

  -- The run's result and files with the honeypot on.
  run_guarded-is :
      (judging : Trips → Status × Option Failure → Status × Option Failure) (action : String)
      (options : Options) (w : World) (tok : CapabilityToken) (cap : String)
      (f : Files → Ran V × Files) (host : Host)
      → options.use_honeypot ≡ true
      → let (r, host') =
          run_guarded sign encode decode judging action options w tok cap (some f) host in
        let (o, left) = left_by f w host in
        (r.status
          ≡ (judging (check_touched ((w.bait, default_body) ∷ []) left) (status_of (some o))).0)
        × (host'.files ≡ erase w.bait left)
  unfolding run_guarded plant cleanup insert
  run_guarded-is judging action options w tok cap f host on =
      (rw (run_guarded, on) refl, rw (run_guarded, on) (files-set_log options.audits _ _))
    where
      files-set_log :
          (audits : Bool) (host : Host) (log : ActionLog)
          → (set_log audits host log).files ≡ host.files
      files-set_log true host log = refl
      files-set_log false host log = refl

  run_guarded-judge :
      (action : String) (options : Options) (w : World) (tok : CapabilityToken) (cap : String)
      (f : Files → Ran V × Files) (host : Host)
      → options.use_honeypot ≡ true
      → let (r, host') =
          run_guarded sign encode decode judge action options w tok cap (some f) host in
        let left = (left_by f w host).1 in
        ((r.status ≡ honeypot_trip) ↔ (lookup w.bait left ≢ some default_body))
        × IsTidied w.bait left host'.files
  run_guarded-judge action options w tok cap f host on =
      let (o, left) = left_by f w host in
      let (status, files) = run_guarded-is judge action options w tok cap f host on in
      let trips = check_touched ((w.bait, default_body) ∷ []) left in
      let touched = touched_iff w.bait left in
      (
        (
          λ h. touched.0 ((judge_iff trips o).0 (sym status ∙ h)),
          λ h. status ∙ (judge_iff trips o).1 (touched.1 h),
        ),
        λ path. ap (lookup path) files ∙ lookup-erase path w.bait left,
      )

  run_guarded-judge_ok :
      (action : String) (options : Options) (w : World) (tok : CapabilityToken) (cap : String)
      (f : Files → Ran V × Files) (host : Host)
      → options.use_honeypot ≡ true
      → let (r, host') =
          run_guarded sign encode decode judge_ok action options w tok cap (some f) host in
        let (o, left) = left_by f w host in
        ((r.status ≡ honeypot_trip) ↔ ((lookup w.bait left ≢ some default_body) × IsDone o))
        × IsTidied w.bait left host'.files
  run_guarded-judge_ok action options w tok cap f host on =
      let (o, left) = left_by f w host in
      let (status, files) = run_guarded-is judge_ok action options w tok cap f host on in
      let trips = check_touched ((w.bait, default_body) ∷ []) left in
      let touched = touched_iff w.bait left in
      (
        (
          λ h. let (t, d) = (judge_ok_iff trips o).0 (sym status ∙ h) in (touched.0 t, d),
          λ h. status ∙ (judge_ok_iff trips o).1 (touched.1 h.0, h.1),
        ),
        λ path. ap (lookup path) files ∙ lookup-erase path w.bait left,
      )

  -- With the honeypot on and the guards passed, `execute` reports a trip if and only if the function
  -- deleted the bait or changed it, however it ended; `aexecute` if and only if the function also
  -- returned a value. Afterwards the bait is gone, and every other file is as the function left it.
  pub execute_bait :
      (ex : Executor) (options : Options) (w : World) (token : String) (cap : Option String)
      (env : Option ResourceEnvelope) (f : Files → Result String V × Files)
      (g : ℤ → Files → Ran V × Files) (timeout : Option ℤ) (host : Host)
      {tok tok' : CapabilityToken}
      → options.use_honeypot ≡ true
      → guard sign encode decode ex options w.now token cap (env_of env) (acquire_rate ex.limiter)
        ≡ pass tok
      → guard sign encode decode ex options w.now token cap (env_of env) (await_rate ex.limiter)
        ≡ pass tok'
      → let (r, host') = execute sign encode decode ex options w token cap env (some f) host in
        let (r', host'') =
          aexecute sign encode decode ex options w token cap env (some g) timeout host in
        let files = insert w.bait default_body host.files in
        let left = (f files).1 in
        let (o, left') = g (default (env_of env).wallclock_s timeout) files in
        (((r.status ≡ honeypot_trip) ↔ (lookup w.bait left ≢ some default_body))
          × IsTidied w.bait left host'.files)
        × (((r'.status ≡ honeypot_trip) ↔ ((lookup w.bait left' ≢ some default_body) × IsDone o))
            × IsTidied w.bait left' host''.files)
  unfolding execute aexecute through
  execute_bait ex options w token cap env f g timeout host {tok} {tok'} on passed passed' = (
    rw (execute, passed, through)
        (run_guarded-judge "execute" options w tok (or_fresh cap ex.default_capability)
          (λ files.
            let (r, files') = f files in (elim r [ ok v ↦ done v | err text ↦ threw text ], files'))
          host on),
    rw (aexecute, passed', through)
        (run_guarded-judge_ok "aexecute" options w tok' (or_fresh cap ex.default_capability)
          (g (default (env_of env).wallclock_s timeout)) host on),
  )
