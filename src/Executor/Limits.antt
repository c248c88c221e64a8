-- ===== src/Executor/Limits.antt =====
-- What an envelope allows.
use obase.Base.{
  ◌≡◌, ◌≢◌, ◌↔◌, ◌⊎◌, refl, true, false, Option, String, string_eq, List, [], ◌∷◌, ◌++◌, arith, inl,
  inr,
}
use obase.Base.Members.{In, exists_iff}
use obase.Base.Text.{is_in}
use obase.Executor.Envelope.{
  NetworkPolicy, ResourceEnvelope, target, admits, allows, is_under, write_allowed,
}

-- A rule that names the target, or the host alone.
abbrev pub IsNamed : String → Option String → String → Type 0
IsNamed host port rule = (target host port ≡ rule) ⊎ ((is_in ":" rule ≡ false) × (rule ≡ host))

admits_iff :
    (host : String) (port : Option String) (rule : String)
    → (admits host port rule ≡ true) ↔ IsNamed host port rule
admits_iff host port rule = (
  λ h. ground (arith, h),
  λ h. elim h [ inl same ↦ ground (arith, same) | inr (bare, same) ↦ ground (arith, bare, same) ],
)

-- A policy allows a host, with a port or without, if and only if its mode is not "deny_all" and one of
-- its rules is the target itself, or is a host without a port and is this host. A rule with a port
-- so never matches where no port is given.
pub allows_iff :
    (policy : NetworkPolicy) (host : String) (port : Option String)
    → (allows policy host port ≡ true) ↔ (
        (policy.mode ≢ "deny_all")
        × ((rule : String) × In rule policy.egress_allow × IsNamed host port rule))
unfolding allows
allows_iff policy host port = (out, back)
  where
    out :
        allows policy host port ≡ true
        → (policy.mode ≢ "deny_all")
          × ((rule : String) × In rule policy.egress_allow × IsNamed host port rule)
    out h =
        let (rule, m, hit) =
          (exists_iff (admits host port) policy.egress_allow).0 (ground (arith, h)) in
        (λ e. ground (arith, h, e), (rule, m, (admits_iff host port rule).0 hit))

    back :
        (policy.mode ≢ "deny_all")
          × ((rule : String) × In rule policy.egress_allow × IsNamed host port rule)
        → allows policy host port ≡ true
    back (open_mode, (rule, m, named)) =
        let some_rule =
          (exists_iff (admits host port) policy.egress_allow).1
            (rule, m, (admits_iff host port rule).1 named) in
        ground (arith, open_mode, some_rule)

is_under_iff :
    (parts base : List String)
    → (is_under parts base ≡ true) ↔ ((rest : List String) × (parts ≡ base ++ rest))
is_under_iff parts [] = (λ h. (parts, refl), λ h. refl)
is_under_iff [] (b ∷ base) = (λ h. ground (arith, h), λ h. ground (arith, h.1))
is_under_iff (p ∷ parts) (b ∷ base) = (
  λ h.
      let same : p ≡ b = ground (arith, h) in
      let (rest, is) = (is_under_iff parts base).0 (ground (arith, h)) in
      (rest, rw (same, is) refl),
  λ h.
      let (rest, is) = h in
      let same : p ≡ b = ground (arith, is) in
      let tail : parts ≡ base ++ rest = ground (arith, is) in
      let under = (is_under_iff parts base).1 (rest, tail) in ground (arith, same, under),
)

-- A path may be written if and only if what it resolves to lies at or below what some scope of the
-- envelope resolves to, part by part: an envelope without scopes allows no path, and "/a/bc" is not
-- under "/a/b".
pub write_allowed_iff :
    (resolve : String → List String) (env : ResourceEnvelope) (path : String)
    → (write_allowed resolve env path ≡ true) ↔ (
        (scope : String) × In scope env.write_scope
        × ((rest : List String) × (resolve path ≡ resolve scope ++ rest)))
unfolding write_allowed
write_allowed_iff resolve env path = (
  λ h.
      let (scope, m, under) =
        (exists_iff (λ scope. is_under (resolve path) (resolve scope)) env.write_scope).0 h in
      (scope, m, (is_under_iff (resolve path) (resolve scope)).0 under),
  λ h.
      let (scope, m, below) = h in
      (exists_iff (λ scope. is_under (resolve path) (resolve scope)) env.write_scope).1
        (scope, m, (is_under_iff (resolve path) (resolve scope)).1 below),
)
