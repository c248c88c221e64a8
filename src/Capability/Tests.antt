-- ===== src/Capability/Tests.antt =====
-- Tokens, and the theorems at them. The signature of these tests is the secret itself, and one payload
-- has a code.
use obase.Base.{
  ◌+◌, ◌≡◌, ◌≤◌, ◌↔◌, refl, true, false, none, some, Option, String, string_eq, nat_eq, [], ◌∷◌, ok,
  err, arith, inr,
}
use obase.Base.Members.{In}
use obase.Capability.Split.{rsplit, has_dot}
use obase.Capability.Tokens.{
  CapabilityToken, Payload, denied, expired, has_capability, is_expired, new_token, to_payload,
  from_payload, revoke, issue_capability_token, verify_parts, verify_capability_token,
  check_capability,
}
use obase.Capability.Verified.{IsGood, verified-IsGood, verify-issue}
use obase.Capability.Matching.{IsCovered, has_capability_iff}

program : Unit {0}
unfolding string_eq nat_eq rsplit has_dot has_capability is_expired new_token to_payload
    from_payload revoke issue_capability_token verify_parts verify_capability_token check_capability
program = tt

abbrev tok : CapabilityToken
tok = record {
  subject = "scheduler";
  capabilities = "executor.*" ∷ [];
  envelope_ref = none;
  issuer = "obase";
  issued_at = 10;
  expires_at = 15;
  nonce = "n";
}

abbrev payload : Payload
payload = record {
  sub = some "scheduler";
  caps = some ("executor.*" ∷ []);
  env = none;
  iss = some "obase";
  iat = some 10;
  exp = some 15;
  nonce = some "n";
}

abbrev sign : String → String → String
sign secret text = "sig"

abbrev encode : Payload → String
encode p = "p"

abbrev decode : String → Option Payload
decode s = some payload

tok_made : new_token "scheduler" ("executor.*" ∷ []) none 5 "obase" none 10 "n" ≡ tok
unfolding program
tok_made = refl

issued :
    issue_capability_token sign encode decode "k" "scheduler"
      ("executor.*" ∷ [])
      none
      5
      "obase"
      none
      10
      "n"
    ≡ ok "p.sig"
unfolding program
issued = refl

covered : check_capability tok "executor.restart" ≡ ok tt
unfolding program
covered = refl

not_covered : check_capability tok "executors" ≡ err denied
unfolding program
not_covered = refl

too_late : verify_capability_token sign encode decode "k" none 16 "p.sig" ≡ err expired
unfolding program
too_late = refl

accepted : verify_capability_token sign encode decode "k" none 12 "p.sig" ≡ ok tok
unfolding program
accepted = refl

verified-IsGood_example : IsGood sign encode decode "k" none 12 "p.sig" tok
verified-IsGood_example = verified-IsGood sign encode decode "k" none 12 "p.sig" accepted

decodes :
    decode
      (encode (to_payload (new_token "scheduler" ("executor.*" ∷ []) none 5 "obase" none 10 "n")))
    ≡ some (to_payload (new_token "scheduler" ("executor.*" ∷ []) none 5 "obase" none 10 "n"))
unfolding program
decodes = refl

no_dot : (text : String) → has_dot (sign "k" text) ≡ false
unfolding program
no_dot text = refl

in_time : 12 ≤ 10 + 5
in_time = omega arith

verify-issue_example :
    verify_capability_token sign encode decode "k" none 12 "p.sig"
    ≡ ok (new_token "scheduler" ("executor.*" ∷ []) none 5 "obase" none 10 "n")
verify-issue_example =
    verify-issue sign encode decode "k" "scheduler" ("executor.*" ∷ []) none 5 "obase" none 10 12
      "n" "p.sig" none no_dot decodes (inr in_time) refl issued

has_capability_iff_example :
    (has_capability tok "executor.restart" ≡ true)
    ↔ ((granted : String) × In granted tok.capabilities × IsCovered "executor.restart" granted)
has_capability_iff_example = has_capability_iff tok "executor.restart"
