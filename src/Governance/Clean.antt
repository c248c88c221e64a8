-- ===== src/Governance/Clean.antt =====
-- What redaction leaves.
use obase.Base.{
  ◌≡◌, ◌⊎◌, refl, ap, Bool, true, false, String, List, [], if◌then◌else◌, arith, Bool-cases, inl,
  inr,
}
use obase.Governance.Redact.{
  Value, null, boolean, number, text, sequence, mapping, object, Values, no_values, more_values,
  Entries, no_entries, entry, secret_key, redacted, redact, redact_values, redact_entries,
  redact_payload,
}

-- At every depth, a value under a key that looks secret is the mark, and no object is left.
abbrev mutual
  pub IsClean : Value → Type 0
  IsClean (sequence values) = AreClean values
  IsClean (mapping entries) = EntriesClean entries
  IsClean (object name) = ⊥
  IsClean _ = Unit

  pub AreClean : Values → Type 0
  AreClean no_values = Unit
  AreClean (more_values v values) = IsClean v × AreClean values

  pub EntriesClean : Entries → Type 0
  EntriesClean no_entries = Unit
  EntriesClean (entry key v entries) =
      ((secret_key key ≡ false) ⊎ (v ≡ text redacted)) × IsClean v × EntriesClean entries

-- One value under a key.
entry-IsClean :
    (key : String) (v : Value) (b : Bool)
    → secret_key key ≡ b
    → IsClean v
    → ((secret_key key ≡ false) ⊎ ((if b then text redacted else v) ≡ text redacted))
      × IsClean (if b then text redacted else v)
entry-IsClean key v true is clean = (inr refl, tt)
entry-IsClean key v false is clean = (inl is, clean)

mutual
  unfolding redact redact_values redact_entries

  redact-IsClean : (secrets : List String) (v : Value) → IsClean (redact secrets v)
  redact-IsClean secrets null = tt
  redact-IsClean secrets (boolean b) = tt
  redact-IsClean secrets (number n) = tt
  redact-IsClean secrets (text s) = tt
  redact-IsClean secrets (sequence values) = redact_values-AreClean secrets values
  redact-IsClean secrets (mapping entries) = redact_entries-EntriesClean secrets entries
  redact-IsClean secrets (object name) = tt

  redact_values-AreClean :
      (secrets : List String) (values : Values) → AreClean (redact_values secrets values)
  redact_values-AreClean secrets no_values = tt
  redact_values-AreClean secrets (more_values v values) =
      (redact-IsClean secrets v, redact_values-AreClean secrets values)

  redact_entries-EntriesClean :
      (secrets : List String) (entries : Entries) → EntriesClean (redact_entries secrets entries)
  redact_entries-EntriesClean secrets no_entries = tt
  redact_entries-EntriesClean secrets (entry key v entries) =
      let (marked, clean) =
        entry-IsClean key (redact secrets v) (secret_key key) refl (redact-IsClean secrets v) in
      (marked, clean, redact_entries-EntriesClean secrets entries)

mutual
  unfolding redact redact_values redact_entries

  redact_clean : (v : Value) → IsClean v → redact [] v ≡ v
  redact_clean null h = refl
  redact_clean (boolean b) h = refl
  redact_clean (number n) h = refl
  redact_clean (text s) h = refl
  redact_clean (sequence values) h = ap sequence (redact_clean_values values h)
  redact_clean (mapping entries) h = ap mapping (redact_clean_entries entries h)
  redact_clean (object name) h = absurd h

  redact_clean_values : (values : Values) → AreClean values → redact_values [] values ≡ values
  redact_clean_values no_values h = refl
  redact_clean_values (more_values v values) (h, hs) =
      rw (redact_clean v h, redact_clean_values values hs) refl

  redact_clean_entries :
      (entries : Entries) → EntriesClean entries → redact_entries [] entries ≡ entries
  redact_clean_entries no_entries h = refl
  redact_clean_entries (entry key v entries) (marked, h, hs) = elim (Bool-cases (secret_key key)) [
    | inr plain ↦ rw (plain, redact_clean v h, redact_clean_entries entries hs) refl
    | inl secret ↦ elim marked [
      | inl plain ↦ absurd (ground (arith, plain, secret))
      | inr mark ↦ rw (secret, redact_clean_entries entries hs, mark) refl
    ]
  ]

-- Whatever value and secrets `redact_payload` is given, at every depth of what it returns a value under
-- a key that looks secret is "[REDACTED]", and objects of other types are gone; redacting that again
-- without secrets changes nothing.
pub redact_payload-IsClean :
    (value : Value) (secrets : List String)
    → let out = redact_payload value secrets in IsClean out × (redact_payload out [] ≡ out)
unfolding redact_payload
redact_payload-IsClean value secrets =
    let clean = redact-IsClean _ value in (clean, redact_clean _ clean)
