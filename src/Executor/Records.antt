-- ===== src/Executor/Records.antt =====
-- obase/hardened_executor.py: `ActionLog`, results, options and the parts of the guards that are no method of
-- their own. Breaker and limiter are what the executor sees of them. Elapsed times are left out.
use obase.Base.{
  ℕ, ◌-◌, Bool, true, false, Option, none, some, String, string_eq, List, [], ◌∷◌, ◌++◌, length,
  Result, ok, err,
}
use obase.Capability.Tokens.{CapabilityToken, Error, default}
use obase.Executor.Envelope.{ResourceEnvelope, EnvelopeError, default_envelope}
use obase.Executor.Status.{Status, succeeded, timed_out, honeypot_trip, failed}
use obase.Executor.Probe.{Files, Trips}

pub data Failure : Type 0 where
  bad_envelope : EnvelopeError → Failure
  bad_token : Error → Failure
  circuit_open : Failure
  rate_limited : String → Failure
  no_function : Failure
  raised : String → Failure
  out_of_time : Failure
  probe_touched : Failure
  network_denied : String → Failure

pub data Detail : Type 0 where
  stopped : Failure → Detail
  ran : Trips → Option Failure → Detail
  process : String → Trips → Detail

pub record Entry : Type 0 where
  pub action : String
  pub subject : String
  pub capability : String
  pub outcome : Status
  pub actor : String
  pub detail : Detail

-- The entries in memory, and the lines of the file, if there is one.
pub record ActionLog : Type 0 where
  pub entries : List Entry
  pub file : Option (List Entry)

-- What the file becomes, `none` where the disk refuses the write.
abbrev pub write_line : Bool → Entry → Option (List Entry) → Result (Unit {0}) (Option (List Entry))
write_line writable e none = ok none
write_line true e (some lines) = ok (some (lines ++ e ∷ []))
write_line false e (some lines) = err tt

-- `ActionLog.record`; the error is ActionLogError.
unfoldable pub log_record : Bool → Entry → ActionLog → Result (Unit {0}) (Unit {0}) × ActionLog
log_record writable e log = elim (write_line writable e log.file) [
  | err _ ↦ (err tt, record log { entries = log.entries ++ e ∷ [] })
  | ok file ↦ (ok tt, record { entries = log.entries ++ e ∷ []; file = file })
]

-- What `acquire` of a limiter is.
pub data Limiter : Type 0 where
  no_limiter no_acquire : Limiter
  sync async : Result String (Unit {0}) → Limiter

pub record Executor : Type 0 where
  pub secret : String
  pub default_capability : String
  -- No breaker, one without `is_open`, or what its `is_open` is.
  pub breaker : Option (Option Bool)
  pub limiter : Limiter
  pub use_network_namespace : Bool
  pub netns_available : Bool

unfoldable pub breaker_open : Option (Option Bool) → Bool
breaker_open none = false
breaker_open (some none) = false
breaker_open (some (some is_open)) = is_open

-- `_acquire_rate`, of `execute`.
unfoldable pub acquire_rate : Limiter → Result String (Unit {0})
acquire_rate no_limiter = ok tt
acquire_rate no_acquire = ok tt
acquire_rate (sync r) = r
acquire_rate (async r) = err "hardened_executor: async rate limiter requires aexecute"

-- The acquisition in `aexecute`.
unfoldable pub await_rate : Limiter → Result String (Unit {0})
await_rate no_limiter = ok tt
await_rate no_acquire = ok tt
await_rate (sync r) = r
await_rate (async r) = r

pub record Options : Type 0 where
  pub use_breaker : Bool
  pub use_rate_limit : Bool
  pub use_honeypot : Bool
  pub audits : Bool

-- What the surroundings give to one call: the time, the path of the bait, and whether the disk takes
-- the line.
pub record World : Type 0 where
  pub now : ℕ
  pub bait : String
  pub writable : Bool

pub record Host : Type 0 where
  pub files : Files
  pub log : ActionLog

pub record ExecutionResult (V : Type 0) : Type 0 where
  pub status : Status
  pub outcome : Option V
  pub error : Option Failure
  pub honey_trips : Trips

-- `_audit`: the entry's index, or `none` where the write failed.
unfoldable pub audit :
    Bool → String → CapabilityToken → String → Status → Detail → ActionLog → Option ℕ × ActionLog
unfolding log_record
audit writable action tok cap outcome detail log =
    let e : Entry = record {
      action = action;
      subject = tok.subject;
      capability = cap;
      outcome = outcome;
      actor = "system";
      detail = detail;
    } in
    let (r, log') = log_record writable e log in
    elim r [ ok _ ↦ (some (length log'.entries - 1), log') | err _ ↦ (none, log') ]

abbrev pub stopped_result : {V : Type 0} → Status → Failure → ExecutionResult V
stopped_result status f = record {
  status = status;
  outcome = none;
  error = some f;
  honey_trips = [];
}

-- How far the guards let a call come.
pub data Gate : Type 0 where
  stop : Status → Failure → Gate
  block : CapabilityToken → Failure → Gate
  pass : CapabilityToken → Gate

-- What a function came to: a value, an exception, or the timeout.
pub data Ran (V : Type 0) : Type 0 where
  done : V → Ran V
  threw : String → Ran V
  late : Ran V

abbrev pub outcome_of : {V : Type 0} → Ran V → Option V
outcome_of (done v) = some v
outcome_of _ = none

abbrev pub status_of : {V : Type 0} → Option (Ran V) → Status × Option Failure
status_of none = (failed, some no_function)
status_of (some (done v)) = (succeeded, none)
status_of (some (threw text)) = (failed, some (raised text))
status_of (some late) = (timed_out, some out_of_time)

-- `if trips` of `execute`, and `if trips and status == "ok"` of `aexecute`.
abbrev pub judge : Trips → Status × Option Failure → Status × Option Failure
judge [] v = v
judge (t ∷ trips) v = (honeypot_trip, some probe_touched)

abbrev pub judge_ok : Trips → Status × Option Failure → Status × Option Failure
judge_ok (t ∷ trips) (succeeded, e) = (honeypot_trip, some probe_touched)
judge_ok _ v = v

abbrev pub set_log : Bool → Host → ActionLog → Host
set_log true host log = record host { log = log }
set_log false host log = host

-- `envelope or DEFAULT_ENVELOPE`
abbrev pub env_of : Option ResourceEnvelope → ResourceEnvelope
env_of env = default default_envelope env
