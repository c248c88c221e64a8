-- ===== src/Capability/Tokens.antt =====
-- obase/permission_contract.py: tokens, `issue_capability_token`, `verify_capability_token`,
-- `check_capability` and the revoker. `sign`, `encode` and `decode` are parameters; `decode` gives
-- `none` where base64 or JSON raises. A set of names is the list of its sorted elements.
use obase.Base.{
  ℕ, ◌+◌, Bool, true, false, ◌&&◌, Option, none, some, String, string_eq, List, [], ◌∷◌, ltb,
  exists, contains, Result, ok, err, ◌>>=◌, ◌==◌, if◌then◌else◌,
}
use Prim.Native.String.{◌++◌ as join}
use obase.Capability.Split.{rsplit, covers}

pub record CapabilityToken : Type 0 where
  pub subject : String
  pub capabilities : List String
  pub envelope_ref : Option String
  pub issuer : String
  pub issued_at : ℕ
  pub expires_at : ℕ
  pub nonce : String

-- The dict of a payload; `none` is a key that is missing.
pub record Payload : Type 0 where
  pub sub : Option String
  pub caps : Option (List String)
  pub env : Option String
  pub iss : Option String
  pub iat : Option ℕ
  pub exp : Option ℕ
  pub nonce : Option String

pub data Error : Type 0 where
  capability_error expired revoked denied : Error

unfoldable pub has_capability : CapabilityToken → String → Bool
unfolding covers
has_capability tok required = exists (covers required) tok.capabilities

unfoldable pub is_expired : CapabilityToken → ℕ → Bool
is_expired tok now = ltb 0 tok.expires_at && ltb tok.expires_at now

abbrev pub default {ℓ} : {A : Type ℓ} → A → Option A → A
default a none = a
default a (some b) = b

unfoldable pub to_payload : CapabilityToken → Payload
to_payload tok = record {
  sub = some tok.subject;
  caps = some tok.capabilities;
  env = tok.envelope_ref;
  iss = some tok.issuer;
  iat = some tok.issued_at;
  exp = some tok.expires_at;
  nonce = some tok.nonce;
}

unfoldable pub from_payload : Payload → Result Error CapabilityToken
from_payload p = elim p.sub [
  | none ↦ err capability_error
  | some sub ↦ ok (record {
    subject = sub;
    capabilities = default [] p.caps;
    envelope_ref = p.env;
    issuer = default "obase" p.iss;
    issued_at = default 0 p.iat;
    expires_at = default 0 p.exp;
    nonce = default "" p.nonce;
  })
]

abbrev pub is_empty {ℓ} : {A : Type ℓ} → List A → Bool
is_empty [] = true
is_empty _ = false

abbrev pub or_fresh : Option String → String → String
or_fresh none fresh = fresh
or_fresh (some s) fresh = if s == "" then fresh else s

unfoldable pub new_token :
    String → List String → Option String → ℕ → String → Option String → ℕ → String → CapabilityToken
new_token subject caps env ttl issuer given now fresh = record {
  subject = subject;
  capabilities = caps;
  envelope_ref = env;
  issuer = issuer;
  issued_at = now;
  expires_at = if ltb 0 ttl then now + ttl else 0;
  nonce = or_fresh given fresh;
}

-- The nonces that are revoked.
abbrev pub Revoker : Type 0
Revoker = List String

unfoldable pub revoke : String → Revoker → Revoker
revoke nonce revoker = if contains revoker nonce then revoker else nonce ∷ revoker

abbrev pub is_revoked : Revoker → String → Bool
is_revoked revoker nonce = contains revoker nonce

abbrev pub refuse : Bool → Error → Result Error (Unit {0})
refuse true e = err e
refuse false e = ok tt

module _ (sign : String → String → String) (encode : Payload → String)
    (decode : String → Option Payload) where
  unfoldable pub issue_capability_token :
      String
      → String
      → List String
      → Option String
      → ℕ
      → String
      → Option String
      → ℕ
      → String
      → Result Error String
  unfolding new_token to_payload
  issue_capability_token secret subject caps env ttl issuer given now fresh =
      refuse (secret == "") capability_error >>= λ _.
      refuse (subject == "") capability_error >>= λ _.
      refuse (is_empty caps) capability_error >>= λ _.
      let payload = encode (to_payload (new_token subject caps env ttl issuer given now fresh)) in
      ok (join payload (join "." (sign secret payload)))

  -- The checks once the token is split.
  unfoldable pub verify_parts :
      String → Option Revoker → ℕ → String × String → Result Error CapabilityToken
  unfolding is_expired from_payload
  verify_parts secret revoker now (payload, signature) =
      if signature == sign secret payload
      then elim (decode payload) [
        | none ↦ err capability_error
        | some p ↦
            (from_payload p >>= λ tok. refuse (is_expired tok now) expired >>= λ _.
            refuse (is_revoked (default [] revoker) tok.nonce) revoked >>= λ _. ok tok)
      ]
      else err capability_error

  unfoldable pub verify_capability_token :
      String → Option Revoker → ℕ → String → Result Error CapabilityToken
  unfolding verify_parts rsplit
  verify_capability_token secret revoker now token =
      if token == "" then err capability_error else elim (rsplit token) [
        | none ↦ err capability_error
        | some parts ↦ verify_parts secret revoker now parts
      ]

unfoldable pub check_capability : CapabilityToken → String → Result Error (Unit {0})
unfolding has_capability
check_capability tok required = if has_capability tok required then ok tt else err denied
