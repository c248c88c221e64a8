-- ===== src/Executor/Envelope.antt =====
-- obase/resource_limits.py: `NetworkPolicy`, `ResourceEnvelope` and their checks. What a path resolves to
-- is the file system's, a parameter: the list of its parts.
use obase.Base.{
  ℕ, Bool, true, false, not, ◌&&◌, ◌||◌, Option, none, some, String, string_eq, List, [], ◌∷◌,
  exists, Result, ok, err, ◌==◌, if◌then◌else◌,
}
use obase.Base.Int.{ℤ, pos, negsuc}
use text.Mathlib.Text.{starts_with}
use Prim.Native.String.{◌++◌ as join}
use obase.Base.Text.{is_in}

pub record NetworkPolicy : Type 0 where
  pub mode : String
  pub egress_allow : List String

pub record ResourceEnvelope : Type 0 where
  pub name : String
  pub cpu_seconds : ℤ
  pub memory_mb : ℤ
  pub wallclock_s : ℤ
  pub network : NetworkPolicy
  pub write_scope : List String
  pub max_stdout_bytes : ℕ

abbrev pub default_envelope : ResourceEnvelope
default_envelope = record {
  name = "default-denied";
  cpu_seconds = pos 30;
  memory_mb = pos 512;
  wallclock_s = pos 60;
  network = record { mode = "deny_all"; egress_allow = [] };
  write_scope = [];
  max_stdout_bytes = 1_048_576;
}

-- The text of a port, `none` where none is given.
abbrev pub target : String → Option String → String
target host none = host
target host (some port) = join host (join ":" port)

-- One round of the loop of `allows`.
abbrev pub admits : String → Option String → String → Bool
admits host port rule = target host port == rule || (not (is_in ":" rule) && rule == host)

unfoldable pub allows : NetworkPolicy → String → Option String → Bool
allows policy host port =
    if policy.mode == "deny_all" then false else exists (admits host port) policy.egress_allow

pub data EnvelopeError : Type 0 where
  negative_limit bad_mode bad_scope : EnvelopeError

abbrev pub is_negative : ℤ → Bool
is_negative (pos n) = false
is_negative (negsuc n) = true

-- `Path(scope).is_absolute()`, on POSIX.
abbrev pub is_absolute : String → Bool
is_absolute scope = starts_with scope "/"

unfoldable pub validate_envelope : ResourceEnvelope → Result EnvelopeError (Unit {0})
validate_envelope env =
    if is_negative env.cpu_seconds || is_negative env.wallclock_s || is_negative env.memory_mb
    then err negative_limit
    else if not (env.network.mode == "deny_all" || env.network.mode == "allowlist")
    then err bad_mode
    else if exists (λ scope. not (is_absolute scope)) env.write_scope
    then err bad_scope
    else ok tt

-- `target.relative_to(base)` does not raise.
abbrev pub is_under : List String → List String → Bool
is_under parts [] = true
is_under [] (b ∷ base) = false
is_under (p ∷ parts) (b ∷ base) = p == b && is_under parts base

unfoldable pub write_allowed : (String → List String) → ResourceEnvelope → String → Bool
write_allowed resolve env path =
    exists (λ scope. is_under (resolve path) (resolve scope)) env.write_scope
