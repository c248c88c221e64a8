-- ===== src/Capability/Matching.antt =====
-- What a capability grants, against the texts themselves.
use Prim.Native.String.{String, [], ◌∷◌, ◌++◌}
use Prim.Native.String.append
use Prim.Native.Char.{Char}
use obase.Base.{
  ◌≡◌, ◌⊎◌, ◌↔◌, refl, sym, ap, subst, ◌∙◌, true, ◌&&◌, string_eq, ◌==◌, arith, Bool-cases, inl,
  inr,
}
use obase.Base.Members.{In, exists_iff, or_iff, and_iff}
use text.Mathlib.TextBridge.{IsPrefix}
use text.Mathlib.TextEquality.{starts_with_iff}
use text.Mathlib.Text.{starts_with}
use obase.Capability.Split.{is_wildcard, stem, covers_wild, covers}
use obase.Capability.Tokens.{CapabilityToken, has_capability}

stem-cons : (c : Char) (s : String) → is_wildcard s ≡ true → stem (c ∷ s) ≡ c ∷ stem s
unfolding is_wildcard stem
stem-cons c [] h = absurd (ground (arith, h))
stem-cons c (d ∷ s) h = refl

is_wildcard_sound :
    (s : String) → is_wildcard s ≡ true → (p : String) × (s ≡ p ++ ".*") × (stem s ≡ p ++ ".")
unfolding is_wildcard stem
is_wildcard_sound [] h = absurd (ground (arith, h))
is_wildcard_sound (c ∷ s) h = elim (Bool-cases ((c ∷ s) == ".*")) [
  | inl end ↦
      let same : c ∷ s ≡ ".*" = ground (arith, end) in
      ([], same ∙ sym (append.nil ".*"), ap stem same ∙ sym (append.nil "."))
  | inr more ↦
      let (p, is, cut) = is_wildcard_sound s (rw more at h) in
      (
        c ∷ p,
        ap (λ t. c ∷ t) is ∙ sym (append.cons c p ".*"),
        stem-cons c s (rw more at h) ∙ ap (λ t. c ∷ t) cut ∙ sym (append.cons c p "."),
      )
]

is_wildcard_complete :
    (p : String) → (is_wildcard (p ++ ".*") ≡ true) × (stem (p ++ ".*") ≡ p ++ ".")
unfolding is_wildcard stem
is_wildcard_complete [] =
    (ap is_wildcard (append.nil ".*") ∙ dot_star, ap stem (append.nil ".*") ∙ sym (append.nil "."))
  where
    dot_star : is_wildcard ".*" ≡ true
    dot_star = ground arith
is_wildcard_complete (c ∷ p) =
    let (wild, cut) = is_wildcard_complete p in
    (
      ap is_wildcard (append.cons c p ".*") ∙ still_wild wild,
      ap stem (append.cons c p ".*")
          ∙ stem-cons c (p ++ ".*") wild
          ∙ ap (λ t. c ∷ t) cut
          ∙ sym (append.cons c p "."),
    )
  where
    still_wild : is_wildcard (p ++ ".*") ≡ true → is_wildcard (c ∷ (p ++ ".*")) ≡ true
    still_wild h = ground (arith, h)

-- The same name, or one of the two is some text followed by ".*" and that text with its dot begins the
-- other.
abbrev pub IsCovered : String → String → Type 0
IsCovered required granted =
    (granted ≡ required)
    ⊎ ((p : String) × (required ≡ p ++ ".*") × IsPrefix (p ++ ".") granted)
    ⊎ ((p : String) × (granted ≡ p ++ ".*") × IsPrefix (p ++ ".") required)

-- One of the two tests of `has_capability` on a wildcard.
wild_iff :
    (wild other : String)
    → (is_wildcard wild && starts_with other (stem wild) ≡ true)
      ↔ ((p : String) × (wild ≡ p ++ ".*") × IsPrefix (p ++ ".") other)
wild_iff wild other =
    let both = and_iff (is_wildcard wild) (starts_with other (stem wild)) in
    let there = starts_with_iff other (stem wild) in
    (
      λ h.
          let (w, begins) = both.0 h in
          let (p, is, cut) = is_wildcard_sound wild w in
          (p, is, subst (λ s. IsPrefix s other) cut (there.0 begins)),
      λ (p, is, begins).
          let (w, cut) = is_wildcard_complete p in
          both.1 (
            ap is_wildcard is ∙ w,
            there.1 (subst (λ s. IsPrefix s other) (sym (ap stem is ∙ cut)) begins),
          ),
    )

covers_iff :
    (required granted : String) → (covers required granted ≡ true) ↔ IsCovered required granted
unfolding covers covers_wild
covers_iff required granted =
    let same = or_iff (granted == required) (covers_wild required granted) in
    let either =
      or_iff (is_wildcard required && starts_with granted (stem required))
        (is_wildcard granted && starts_with required (stem granted)) in
    let there = wild_iff required granted in
    let here = wild_iff granted required in
    (
      λ h. elim (same.0 h) [
        | inl e ↦ inl (ground (arith, e))
        | inr e ↦ elim (either.0 e) [ inl w ↦ inr (inl (there.0 w)) | inr w ↦ inr (inr (here.0 w)) ]
      ],
      λ h. elim h [
        | inl e ↦ same.1 (inl (ground (arith, e)))
        | inr (inl w) ↦ same.1 (inr (either.1 (inl (there.1 w))))
        | inr (inr w) ↦ same.1 (inr (either.1 (inr (here.1 w))))
      ],
    )

-- A token has a required capability exactly if one of its capabilities is it, or one of the two is
-- some text followed by ".*" and that text with its dot begins the other.
pub has_capability_iff :
    (tok : CapabilityToken) (required : String)
    → (has_capability tok required ≡ true)
      ↔ ((granted : String) × In granted tok.capabilities × IsCovered required granted)
unfolding has_capability covers
has_capability_iff tok required =
    let any = exists_iff (covers required) tok.capabilities in
    (
      λ h.
          let (granted, among, hit) = any.0 h in
          (granted, among, (covers_iff required granted).0 hit),
      λ (granted, among, c). any.1 (granted, among, (covers_iff required granted).1 c),
    )
