-- ===== src/Capability/Verified.antt =====
-- What verification accepts.
use obase.Base.{
  ℕ, ◌+◌, ◌≤◌, ◌≡◌, ◌⊎◌, refl, sym, ap, ◌∙◌, subst, Bool, true, false, Option, some, String,
  string_eq, List, [], Result, ok, err, ◌>>=◌, ◌==◌, arith, Option-cases, Bool-cases, inl, inr,
}
use Prim.Native.String.{◌++◌ as join}
use mathlib.Core.Option.{none-ne-some}
use obase.Capability.Split.{rsplit, has_dot, rsplit-join}
use obase.Capability.Tokens.{
  CapabilityToken, Payload, Error, capability_error, expired, revoked, Revoker, is_revoked, default,
  refuse, is_empty, or_fresh, new_token, to_payload, from_payload, is_expired,
  issue_capability_token, verify_parts, verify_capability_token,
}

module _ (sign : String → String → String) (encode : Payload → String)
    (decode : String → Option Payload) where
  -- The token's signature is the secret's for its payload, which decodes to what is returned, and
  -- that is neither expired nor revoked.
  abbrev pub IsGood : String → Option Revoker → ℕ → String → CapabilityToken → Type 0
  IsGood secret revoker now token tok =
      (payload : String) × (rsplit token ≡ some (payload, sign secret payload))
      × (p : Payload) × (decode payload ≡ some p)
      × (from_payload p ≡ ok tok)
      × (is_expired tok now ≡ false)
      × (is_revoked (default [] revoker) tok.nonce ≡ false)

  AcceptSays : String → Option Revoker → ℕ → String → Result Error CapabilityToken → Type 0
  AcceptSays secret revoker now token (ok tok) = IsGood secret revoker now token tok
  AcceptSays secret revoker now token (err e) = Unit

  checked :
      (secret : String) (revoker : Option Revoker) (now : ℕ) (token payload : String) (p : Payload)
      → rsplit token ≡ some (payload, sign secret payload)
      → decode payload ≡ some p
      → (r : Result Error CapabilityToken) → from_payload p ≡ r
      → AcceptSays secret revoker now token (
          r >>= λ tok. refuse (is_expired tok now) expired >>= λ _.
          refuse (is_revoked (default [] revoker) tok.nonce) revoked >>= λ _. ok tok)
  unfolding AcceptSays
  checked secret revoker now token payload p split decoded (err e) from = tt
  checked secret revoker now token payload p split decoded (ok tok) from =
      elim (Bool-cases (is_expired tok now)) [
        | inl late ↦ rw late tt
        | inr fresh ↦ elim (Bool-cases (is_revoked (default [] revoker) tok.nonce)) [
          | inl gone ↦ rw (fresh, gone) tt
          | inr kept ↦ rw (fresh, kept) (payload, split, p, decoded, from, fresh, kept)
        ]
      ]

  verify-AcceptSays :
      (secret : String) (revoker : Option Revoker) (now : ℕ) (token : String)
      → AcceptSays secret revoker now token
          (verify_capability_token sign encode decode secret revoker now token)
  unfolding AcceptSays verify_capability_token verify_parts
  verify-AcceptSays secret revoker now token = elim (Bool-cases (token == "")) [
    | inl empty ↦ rw (verify_capability_token, empty) tt
    | inr full ↦ elim (Option-cases (rsplit token)) [
      | inl whole ↦ rw (verify_capability_token, full, whole) tt
      | inr ((payload, signature), split) ↦ elim (Bool-cases (signature == sign secret payload)) [
        | inr differs ↦ rw (verify_capability_token, full, split, verify_parts, differs) tt
        | inl same ↦ elim (Option-cases (decode payload)) [
          | inl broken ↦ rw (verify_capability_token, full, split, verify_parts, same, broken) tt
          | inr (p, decoded) ↦
              rw (verify_capability_token, full, split, verify_parts, same, decoded)
                (checked secret revoker now token payload p
                  (split ∙ ap (λ s. some (payload, s)) (ground (arith, same))) decoded
                  (from_payload p) refl)
        ]
      ]
    ]
  ]

  -- Whatever token `verify_capability_token` accepts carries the secret's signature of its payload, and
  -- is the token that the payload decodes to, neither expired nor revoked.
  pub verified-IsGood :
      (secret : String) (revoker : Option Revoker) (now : ℕ) (token : String)
      {tok : CapabilityToken}
      → verify_capability_token sign encode decode secret revoker now token ≡ ok tok
      → IsGood secret revoker now token tok
  unfolding AcceptSays
  verified-IsGood secret revoker now token accepted =
      subst (AcceptSays secret revoker now token) accepted
        (verify-AcceptSays secret revoker now token)

  from-to_payload : (tok : CapabilityToken) → from_payload (to_payload tok) ≡ ok tok
  unfolding from_payload to_payload
  from-to_payload tok = refl

  not_late :
      (subject : String) (caps : List String) (env : Option String) (ttl : ℕ) (issuer : String)
      (given : Option String) (now later : ℕ) (fresh : String)
      → (ttl ≡ 0) ⊎ (later ≤ now + ttl)
      → is_expired (new_token subject caps env ttl issuer given now fresh) later ≡ false
  unfolding is_expired new_token
  not_late subject caps env ttl issuer given now later fresh h = ground (arith, h)

  joined-full : (p s : String) → has_dot s ≡ false → join p (join "." s) == "" ≡ false
  unfolding rsplit
  joined-full p s h = elim (Bool-cases (join p (join "." s) == "")) [
    | inr full ↦ full
    | inl empty ↦
        let nothing : join p (join "." s) ≡ "" = ground (arith, empty) in
        absurd (none-ne-some (p, s) (sym (ap rsplit nothing) ∙ rsplit-join p s h))
  ]

  refuse-passes :
      {A : Type 0} (b : Bool) (e : Error) (f : Unit {0} → Result Error A) (a : A)
      → (refuse b e >>= f) ≡ ok a
      → f tt ≡ ok a
  refuse-passes true e f a h = absurd (ground (arith, h))
  refuse-passes false e f a h = h

  ok-injective : {A : Type 0} (a b : A) → ◌≡◌ {A = Result Error A} (ok a) (ok b) → a ≡ b
  ok-injective a b h = ground (arith, h)

  -- A token that is issued verifies under the same secret, and comes back with every field that it was
  -- issued with: until its time to live is over, or at any time if that is 0, as long as its nonce is
  -- not revoked; where its payload decodes to what was encoded and signatures contain no dot.
  pub verify-issue :
      (secret subject : String) (caps : List String) (env : Option String) (ttl : ℕ)
      (issuer : String) (given : Option String) (now later : ℕ) (fresh token : String)
      (revoker : Option Revoker)
      → let tok = new_token subject caps env ttl issuer given now fresh in
        ((payload : String) → has_dot (sign secret payload) ≡ false)
        → decode (encode (to_payload tok)) ≡ some (to_payload tok)
        → (ttl ≡ 0) ⊎ (later ≤ now + ttl)
        → is_revoked (default [] revoker) (or_fresh given fresh) ≡ false
        → issue_capability_token sign encode decode secret subject caps env ttl issuer given now
            fresh
          ≡ ok token
        → verify_capability_token sign encode decode secret revoker later token ≡ ok tok
  unfolding verify_capability_token verify_parts issue_capability_token new_token
  verify-issue secret subject caps env ttl issuer given now later fresh token revoker plain decodes
        in_time kept issued =
      let tok = new_token subject caps env ttl issuer given now fresh in
      let payload = encode (to_payload tok) in
      let signature = sign secret payload in
      let made : join payload (join "." signature) ≡ token = ok-injective _ _ (
        refuse-passes (is_empty caps) capability_error _ token (
          refuse-passes (subject == "") capability_error _ token
            (refuse-passes (secret == "") capability_error _ token issued))) in
      let same : signature == signature ≡ true = ground arith in
      let late : is_expired tok later ≡ false =
        not_late subject caps env ttl issuer given now later fresh in_time in
      rw
        (
          ← made,
          verify_capability_token,
          joined-full payload signature (plain payload),
          rsplit-join payload signature (plain payload),
          verify_parts,
          same,
          decodes,
          from-to_payload tok,
          late,
          kept,
        )
        refl
