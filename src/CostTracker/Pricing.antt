-- ===== src/CostTracker/Pricing.antt =====
-- The pricing table after `register_pricing`.
use obase.Base.{
  ℕ, ◌≡◌, refl, ◌∙◌, sym, ◌≢◌, Bool, true, false, not, Option, some, String, string_eq, List, [],
  ◌∷◌, ◌++◌, arith, select, if◌then◌else◌, Bool-cases, inl, inr, count, count-append,
}
use obase.CostTracker.{Key, PricingEntry, matches, find_price, or_default, register_pricing}

matches→eq : (k : Key) (e : PricingEntry) → matches k e ≡ true → e.key ≡ k
matches→eq k e h = ground arith

matches_self : (k : Key) (price : ℕ) → matches k (record { key = k; price_usd = price }) ≡ true
matches_self k price = ground arith

-- Two keys that one entry matches are matched by the same entries.
matches_both :
    (j k : Key) (e : PricingEntry) (price : ℕ)
    → matches j e ≡ true
    → matches k e ≡ true
    → matches j (record { key = k; price_usd = price }) ≡ true
matches_both j k e price hj hk =
    rw (sym (matches→eq k e hk) ∙ matches→eq j e hj) (matches_self j price)

eq→matches : (k : Key) (e : PricingEntry) → e.key ≡ k → matches k e ≡ true
eq→matches k e h = ground arith

matches_other :
    (j k : Key) (e : PricingEntry) (price : ℕ)
    → matches j e ≡ true
    → matches k e ≡ false
    → matches j (record { key = k; price_usd = price }) ≡ false
matches_other j k e price hit other =
    elim (Bool-cases (matches j (record { key = k; price_usd = price }))) [
      | inl same ↦
          let k_eq : k ≡ j = matches→eq j (record { key = k; price_usd = price }) same in
          cc (eq→matches k e (matches→eq j e hit ∙ sym k_eq))
      | inr differ ↦ differ
    ]

count_self :
    (k : Key) (price : ℕ) → count (matches k) (record { key = k; price_usd = price } ∷ []) ≡ 1
count_self k price = rw (matches_self k price)

replace : Key → ℕ → List PricingEntry → List PricingEntry
replace k price entries =
    select (λ e. not (matches k e)) entries ++ record { key = k; price_usd = price } ∷ []

find-replace :
    (j k : Key) (price : ℕ) (entries : List PricingEntry)
    → find_price j (replace k price entries) ≡ (
        if matches j (record { key = k; price_usd = price })
        then some (record { key = k; price_usd = price })
        else find_price j entries)
unfolding find_price replace
find-replace j k price [] = refl
find-replace j k price (e ∷ entries) = elim (Bool-cases (matches k e)) [
  | inl same ↦ elim (Bool-cases (matches j e)) [
    | inl hit ↦ rw (same, find-replace j k price entries, matches_both j k e price hit same)
    | inr miss ↦ rw (same, miss, find-replace j k price entries)
  ]
  | inr other ↦ elim (Bool-cases (matches j e)) [
    | inl hit ↦ rw (other, hit, matches_other j k e price hit other)
    | inr miss ↦ rw (other, miss, find-replace j k price entries)
  ]
]

count-select-not {ℓ} :
    {A : Type ℓ} (p : A → Bool) (xs : List A) → count p (select (λ x. not (p x)) xs) ≡ 0
count-select-not p [] = refl
count-select-not p (x ∷ xs) = ground (arith, count-select-not p xs)

-- After a price is registered, a lookup of its key (an empty or missing tier read as "default")
-- gives the new price and a lookup of any other key what it gave before; the table holds exactly
-- one entry for the key.
pub find-register_pricing :
    (provider unit : String) (price : ℕ) (category : String) (tier : Option String) (j : Key)
    (entries : List PricingEntry)
    → let k : Key = record {
      category = category;
      provider = provider;
      model_or_tier = or_default tier;
      unit = unit;
    } in
      let after = register_pricing provider unit price category tier entries in
      (find_price k after ≡ some (record { key = k; price_usd = price }))
      × (j ≢ k → find_price j after ≡ find_price j entries)
      × (count (matches k) after ≡ 1)
unfolding register_pricing replace
find-register_pricing provider unit price category tier j entries =
    let k : Key = record {
      category = category;
      provider = provider;
      model_or_tier = or_default tier;
      unit = unit;
    } in
    let new : PricingEntry = record { key = k; price_usd = price } in
    (
      rw (find-replace k k price entries, matches_self k price),
      λ other. elim (Bool-cases (matches j new)) [
        | inl same ↦ absurd (other (sym (matches→eq j new same)))
        | inr differ ↦ rw (find-replace j k price entries, differ)
      ],
      rw (count-append (matches k) (select (λ e. not (matches k e)) entries) (new ∷ []))
          (omega (arith, count-select-not (matches k) entries, count_self k price)),
    )
