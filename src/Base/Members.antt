-- ===== src/Base/Members.antt =====
-- Membership that keeps the position, and a SQL table's UPDATE over a list of rows.
use Prim.Native.Nat.{◌<◌}
use mathlib.Core.Path.{◌≡◌, refl, subst}
use mathlib.Core.Logic.{◌⊎◌, ◌↔◌, inl, inr}
use mathlib.Core.Bool.{Bool, true, false, ◌||◌, ◌&&◌, cond}
use mathlib.Core.List.{List, [], ◌∷◌, ◌++◌}
use native.Mathlib.Omega.{arith}
use obase.Base.Equality.{if◌then◌else◌}
use obase.Base.Lists.{All, select, count, exists}

-- UPDATE … SET f WHERE p; the number of rows changed is `count p rows`.
unfoldable pub update_where {ℓ} : {A : Type ℓ} → (A → Bool) → (A → A) → List A → List A
update_where p f [] = []
update_where p f (x ∷ xs) = (if p x then f x else x) ∷ update_where p f xs

module _ {A : Type 0} where
  abbrev pub In : A → List A → Type 0
  In x [] = ⊥
  In x (y ∷ ys) = (x ≡ y) ⊎ In x ys

  pub In-append_left : (x : A) (xs ys : List A) → In x xs → In x (xs ++ ys)
  In-append_left x [] ys m = elim m [ ]
  In-append_left x (y ∷ xs) ys (inl e) = inl e
  In-append_left x (y ∷ xs) ys (inr m) = inr (In-append_left x xs ys m)

  pub In-All {κ} : (P : A → Type κ) (x : A) (xs : List A) → All P xs → In x xs → P x
  In-All P x [] h m = elim m [ ]
  In-All P x (y ∷ xs) h (inl e) = rw e h.0
  In-All P x (y ∷ xs) h (inr m) = In-All P x xs h.1 m

  -- A row that the condition leaves out stays; one that it takes is replaced.
  pub In-update_skip :
      (p : A → Bool) (f : A → A) (x : A) (xs : List A)
      → p x ≡ false
      → In x xs
      → In x (update_where p f xs)
  unfolding update_where
  In-update_skip p f x [] h m = elim m [ ]
  In-update_skip p f x (y ∷ xs) h (inl e) = inl (rw (← e, h))
  In-update_skip p f x (y ∷ xs) h (inr m) = inr (In-update_skip p f x xs h m)

  pub In-update_hit :
      (p : A → Bool) (f : A → A) (x : A) (xs : List A)
      → p x ≡ true
      → In x xs
      → In (f x) (update_where p f xs)
  unfolding update_where
  In-update_hit p f x [] h m = elim m [ ]
  In-update_hit p f x (y ∷ xs) h (inl e) = inl (rw (← e, h))
  In-update_hit p f x (y ∷ xs) h (inr m) = inr (In-update_hit p f x xs h m)

  pub count-pos : (p : A → Bool) (x : A) (xs : List A) → p x ≡ true → In x xs → 0 < count p xs
  count-pos p x [] h m = elim m [ ]
  count-pos p x (y ∷ xs) h (inl e) = rw (← e, h) (omega arith)
  count-pos p x (y ∷ xs) h (inr m) = ground (arith, count-pos p x xs h m)

  In-cond :
      (b : Bool) (x y : A) (ys : List A)
      → In x (cond b (y ∷ ys) ys)
      → (b ≡ true) × (x ≡ y) ⊎ In x ys
  In-cond true x y ys (inl e) = inl (refl, e)
  In-cond true x y ys (inr m) = inr m
  In-cond false x y ys m = inr m

  pub In-select : (p : A → Bool) (x : A) (xs : List A) → In x (select p xs) → In x xs × (p x ≡ true)
  In-select p x [] m = elim m [ ]
  In-select p x (y ∷ xs) m = elim (In-cond (p y) x y (select p xs) m) [
    | inl (hit, e) ↦ (inl e, rw e hit)
    | inr m' ↦ let (m'', h) = In-select p x xs m' in (inr m'', h)
  ]

pub or_iff : (a b : Bool) → (a || b ≡ true) ↔ ((a ≡ true) ⊎ (b ≡ true))
or_iff true b = (λ h. inl refl, λ h. refl)
or_iff false b = (λ h. inr h, λ h. elim h [ inl e ↦ ground (arith, e) | inr e ↦ e ])

pub and_iff : (a b : Bool) → (a && b ≡ true) ↔ ((a ≡ true) × (b ≡ true))
and_iff true b = (λ h. (refl, h), λ h. h.1)
and_iff false b = (λ h. absurd (ground (arith, h)), λ h. h.0)

-- `any` finds an element.
pub exists_iff :
    {A : Type 0} (p : A → Bool) (xs : List A)
    → (exists p xs ≡ true) ↔ ((x : A) × In x xs × (p x ≡ true))
exists_iff p [] = (λ h. absurd (ground (arith, h)), λ (x, among, hit). elim among [ ])
exists_iff p (x ∷ xs) =
    let rest = exists_iff p xs in
    let either = or_iff (p x) (exists p xs) in
    (
      λ h. elim (either.0 h) [
        | inl hit ↦ (x, inl refl, hit)
        | inr more ↦ let (y, among, hit) = rest.0 more in (y, inr among, hit)
      ],
      λ (y, among, hit). elim among [
        | inl e ↦ either.1 (inl (subst (λ z. p z ≡ true) e hit))
        | inr more ↦ either.1 (inr (rest.1 (y, more, hit)))
      ],
    )
