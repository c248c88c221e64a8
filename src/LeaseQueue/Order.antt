-- ===== src/LeaseQueue/Order.antt =====
-- Which row a lease takes.
use obase.Base.{
  ℕ, ◌+◌, ◌≡◌, refl, subst, true, false, Option, none, some, String, string_eq, List, [], ◌∷◌,
  arith, All, All-map, Bool-cases, Option-cases, inl, inr,
}
use obase.Base.Members.{In}
use obase.LeaseQueue.{Item, Table, Lease, can_lease, comes_before, first_row, take_lease}

comes_before_asym : (x y : Item) → comes_before x y ≡ true → comes_before y x ≡ false
unfolding comes_before
comes_before_asym x y h = ground arith

comes_before_irrefl : (x : Item) → comes_before x x ≡ false
unfolding comes_before
comes_before_irrefl x = ground arith

not_before_trans :
    (x y z : Item) → comes_before x y ≡ false → comes_before y z ≡ false → comes_before x z ≡ false
unfolding comes_before
not_before_trans x y z h k = ground arith

-- No row comes before the one that is found.
abbrev pub IsFirst : Item → List Item → Type 0
IsFirst x rows = In x rows × All (λ y. comes_before y x ≡ false) rows

first_row-none : (rows : List Item) → first_row rows ≡ none → rows ≡ []
unfolding first_row
first_row-none [] h = refl
first_row-none (x ∷ rows) h = ground arith

pub first_row-IsFirst : (rows : List Item) {x : Item} → first_row rows ≡ some x → IsFirst x rows
unfolding first_row
first_row-IsFirst [] h = cc
first_row-IsFirst (y ∷ rows) {x} h = elim (Option-cases (first_row rows)) [
  | inl empty ↦
      let e : y ≡ x = ground arith in
      rw (first_row-none rows empty)
        (subst (λ w. IsFirst w (y ∷ [])) e (inl refl, (comes_before_irrefl y, tt)))
  | inr (z, found) ↦
      let (m, before) = first_row-IsFirst rows found in
      elim (Bool-cases (comes_before z y)) [
        | inl better ↦
            let e : z ≡ x = ground arith in
            subst (λ w. IsFirst w (y ∷ rows)) e (inr m, (comes_before_asym z y better, before))
        | inr keep ↦
            let e : y ≡ x = ground arith in
            subst (λ w. IsFirst w (y ∷ rows)) e
              (
                inl refl,
                (
                  comes_before_irrefl y,
                  All-map (λ w h'. not_before_trans w z y h' keep) rows before,
                ),
              )
      ]
]

-- What each ending of `lease` says.
abbrev pub LeaseSays : String → ℕ → ℕ → ℕ → String → Table → Option Lease × Table → Type 0
LeaseSays worker timeout max_attempts now fresh rows (none, rows') =
    (rows' ≡ rows) × All (λ x. can_lease now max_attempts x ≡ false) rows
LeaseSays worker timeout max_attempts now fresh rows (some l, rows') =
    (x : Item) × In x rows
    × (can_lease now max_attempts x ≡ true)
    × All (λ y. can_lease now max_attempts y ≡ true → comes_before y x ≡ false) rows
    × (l.item_id ≡ x.item_id)
    × (l.lease_id ≡ fresh)
    × (l.attempts ≡ x.attempts + 1)
    × In (take_lease worker fresh (now + timeout) now x) rows'
