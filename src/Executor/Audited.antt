-- ===== src/Executor/Audited.antt =====
-- The action log of calls that come past the token.
use obase.Base.{
  ◌≡◌, refl, sym, ◌∙◌, subst, Bool, true, false, ◌&&◌, Option, none, some, String, string_eq, [],
  ◌∷◌, ◌++◌, Result, ok, if◌then◌else◌, arith, Bool-cases, inl, inr,
}
use obase.Base.Int.{ℤ}
use obase.Capability.Tokens.{CapabilityToken, Payload, or_fresh, default}
use obase.Executor.Envelope.{ResourceEnvelope, validate_envelope}
use obase.Executor.Probe.{Files, Trips}
use obase.Executor.Status.{Status, blocked}
use obase.Executor.Records.{
  Failure, circuit_open, rate_limited, Detail, Entry, ActionLog, Executor, Options, World, stopped,
  Host, ExecutionResult, Gate, block, pass, Ran, audit, log_record, write_line, breaker_open,
  acquire_rate, await_rate, env_of, judge, judge_ok, set_log,
}
use obase.Executor.Execute.{
  verify, guard, run_guarded, through, execute, aexecute, never_late, limited,
}
use obase.Executor.Guarded.{Result-cases}

entry_of : String → CapabilityToken → String → Status → Detail → Entry
entry_of action tok cap outcome detail = record {
  action = action;
  subject = tok.subject;
  capability = cap;
  outcome = outcome;
  actor = "system";
  detail = detail;
}

-- The entry is kept in memory, also where the disk refuses its line.
log_record-entries :
    (writable : Bool) (e : Entry) (log : ActionLog)
    → (log_record writable e log).1.entries ≡ log.entries ++ e ∷ []
unfolding log_record
log_record-entries writable e log = elim (Result-cases (write_line writable e log.file)) [
  | inl (file, written) ↦ rw (log_record, written) refl
  | inr (u, failed) ↦ rw (log_record, failed) refl
]

audit-entries :
    (writable : Bool) (action : String) (tok : CapabilityToken) (cap : String) (outcome : Status)
    (detail : Detail) (log : ActionLog)
    → (audit writable action tok cap outcome detail log).1.entries
      ≡ log.entries ++ entry_of action tok cap outcome detail ∷ []
unfolding audit entry_of
audit-entries writable action tok cap outcome detail log =
    let e = entry_of action tok cap outcome detail in
    let done = log_record writable e log in
    elim (Result-cases done.0) [
      | inl (u, fine) ↦ rw (audit, fine) (log_record-entries writable e log)
      | inr (u, lost) ↦ rw (audit, lost) (log_record-entries writable e log)
    ]

set_log-entries :
    {audits : Bool} (host : Host) (log : ActionLog)
    → audits ≡ true
    → (set_log audits host log).log.entries ≡ log.entries
set_log-entries {audits = true} host log h = refl
set_log-entries {audits = false} host log h = absurd (ground (arith, h))

module _ (sign : String → String → String) (encode : Payload → String)
    (decode : String → Option Payload) {V : Type 0} where
  -- One more entry than before: of the action, the token's subject, the capability and the status that
  -- the call returns.
  abbrev pub IsAudited :
      String → CapabilityToken → String → Host → ExecutionResult V × Host → Type 0
  IsAudited action tok cap host (r, host') =
      (detail : Detail) × (host'.log.entries
        ≡ host.log.entries
          ++ record {
            action = action;
            subject = tok.subject;
            capability = cap;
            outcome = r.status;
            actor = "system";
            detail = detail;
          }
            ∷ [])

  run_guarded-IsAudited :
      (judging : Trips → Status × Option Failure → Status × Option Failure) (action : String)
      (options : Options) (w : World) (tok : CapabilityToken) (cap : String)
      (fn : Option (Files → Ran V × Files)) (host : Host)
      → options.audits ≡ true
      → IsAudited action tok cap host
          (run_guarded sign encode decode judging action options w tok cap fn host)
  unfolding run_guarded entry_of
  run_guarded-IsAudited judging action options w tok cap none host on =
      (_, set_log-entries _ _ on ∙ audit-entries w.writable action tok cap _ _ host.log)
  run_guarded-IsAudited judging action options w tok cap (some f) host on =
      (_, set_log-entries _ _ on ∙ audit-entries w.writable action tok cap _ _ host.log)

  through-IsAudited :
      (judging : Trips → Status × Option Failure → Status × Option Failure) (action : String)
      (ex : Executor) (options : Options) (w : World) (token : String) (cap : Option String)
      (env : ResourceEnvelope) (acquired : Result String (Unit {0}))
      (fn : Option (Files → Ran V × Files)) (host : Host) {tok : CapabilityToken}
      → options.audits ≡ true
      → validate_envelope env ≡ ok tt
      → verify sign encode decode ex w.now token cap ≡ ok tok
      → IsAudited action tok (or_fresh cap ex.default_capability) host (
          through sign encode decode judging action options w
            (or_fresh cap ex.default_capability)
            fn
            (guard sign encode decode ex options w.now token cap env acquired)
            host)
  unfolding guard through entry_of
  through-IsAudited judging action ex options w token cap env acquired fn host {tok} on valid good =
      elim (Bool-cases (options.use_breaker && breaker_open ex.breaker)) [
        | inl cut ↦
            at_gate {g = block tok circuit_open} (rw (guard, valid, good, cut) refl)
              (blocking circuit_open)
        | inr closed ↦ elim (Result-cases (if options.use_rate_limit then acquired else ok tt)) [
          | inr (text, full) ↦
              at_gate {g = block tok (rate_limited text)}
                (rw (guard, valid, good, closed, full) refl) (blocking (rate_limited text))
          | inl (v, free) ↦ at_gate {g = pass tok} (rw (guard, valid, good, closed, free) refl) (
              run_guarded-IsAudited judging action options w tok
                (or_fresh cap ex.default_capability) fn host on)
        ]
      ]
    where
      after : Gate → ExecutionResult V × Host
      after g =
          through sign encode decode judging action options w (or_fresh cap ex.default_capability)
            fn g host

      at_gate :
          {g : Gate}
          → guard sign encode decode ex options w.now token cap env acquired ≡ g
          → IsAudited action tok (or_fresh cap ex.default_capability) host (after g)
          → IsAudited action tok
              (or_fresh cap ex.default_capability)
              host
              (after (guard sign encode decode ex options w.now token cap env acquired))
      at_gate is h =
          subst (λ g. IsAudited action tok (or_fresh cap ex.default_capability) host (after g))
            (sym is) h

      blocking :
          (f : Failure)
          → IsAudited action tok (or_fresh cap ex.default_capability) host (after (block tok f))
      blocking f = (
        stopped f,
        set_log-entries host
              (audit w.writable action tok (or_fresh cap ex.default_capability) blocked (stopped f)
                host.log).1
              on
            ∙ audit-entries w.writable action tok (or_fresh cap ex.default_capability) blocked
                (stopped f) host.log,
      )

  -- With auditing on, a call of `execute` or of `aexecute` whose envelope is in order and whose token is
  -- accepted adds exactly one entry to the log in memory, with the token's subject and the status that
  -- it returns: whether it was blocked, ran well, failed or tripped the probe, and whether or not the
  -- disk took the line.
  pub execute-IsAudited :
      (ex : Executor) (options : Options) (w : World) (token : String) (cap : Option String)
      (env : Option ResourceEnvelope) (fn : Option (Files → Result String V × Files))
      (afn : Option (ℤ → Files → Ran V × Files)) (timeout : Option ℤ) (host : Host)
      {tok : CapabilityToken}
      → options.audits ≡ true
      → validate_envelope (env_of env) ≡ ok tt
      → verify sign encode decode ex w.now token cap ≡ ok tok
      → let cap' = or_fresh cap ex.default_capability in
        IsAudited "execute" tok cap' host
          (execute sign encode decode ex options w token cap env fn host)
        × IsAudited "aexecute" tok cap' host
            (aexecute sign encode decode ex options w token cap env afn timeout host)
  unfolding execute aexecute
  execute-IsAudited ex options w token cap env fn afn timeout host on valid good = (
    through-IsAudited judge "execute" ex options w token cap (env_of env) (acquire_rate ex.limiter)
        (never_late sign encode decode fn) host on valid good,
    through-IsAudited judge_ok "aexecute" ex options w token cap (env_of env)
        (await_rate ex.limiter)
        (limited sign encode decode (default (env_of env).wallclock_s timeout) afn) host on valid
        good,
  )
