-- ===== src/LeaseQueue/Sweep.antt =====
-- What a sweep does to each row.
use obase.Base.{
  ℕ, ◌≡◌, refl, ap, inl, inr, Bool, true, false, string_eq, List, [], ◌∷◌, arith, All, select,
  Bool-cases, if◌then◌else◌, leb,
}
use obase.Base.Members.{In, In-select, In-update_skip}
use obase.LeaseQueue.{
  Item, Table, has_item, is_expired, to_pending, to_failed, sweep_rows, sweep_expired,
}
use obase.LeaseQueue.Unique.{UniqueIds, same_row}

All-of-In : {P : Item → Type 0} (rows : List Item) → ((y : Item) → In y rows → P y) → All P rows
All-of-In [] h = tt
All-of-In (y ∷ rows) h = (h y (inl refl), All-of-In rows (λ z n. h z (inr n)))

has_item-eq : (x y : Item) → has_item y.item_id x ≡ true → x.item_id ≡ y.item_id
has_item-eq x y h = ground arith

-- A row that a condition takes, where it does not take `x`, has another id.
pub not_has_item :
    (p : Item → Bool) (rows : Table) (x y : Item)
    → UniqueIds rows
    → In x rows
    → In y rows
    → p x ≡ false
    → p y ≡ true
    → has_item y.item_id x ≡ false
not_has_item p rows x y u m n px py = elim (Bool-cases (has_item y.item_id x)) [
  | inl same ↦ cc (ap p (same_row rows x y u m n (has_item-eq x y same)))
  | inr other ↦ other
]

sweep_rows-keeps :
    (max_attempts now : ℕ) (x : Item) (expired rows : List Item)
    → All (λ y. has_item y.item_id x ≡ false) expired
    → In x rows
    → In x (sweep_rows max_attempts now expired rows)
unfolding sweep_rows
sweep_rows-keeps max_attempts now x [] rows others m = m
sweep_rows-keeps max_attempts now x (y ∷ expired) rows others m =
    sweep_rows-keeps max_attempts now x expired _ others.1
      (In-update_skip (has_item y.item_id) _ x rows others.0 m)

pub sweep_expired-keeps :
    (max_attempts now : ℕ) (x : Item) (rows : Table)
    → UniqueIds rows
    → is_expired now x ≡ false
    → In x rows
    → In x (sweep_expired max_attempts now rows).1
unfolding sweep_expired
sweep_expired-keeps max_attempts now x rows u live m =
    sweep_rows-keeps max_attempts now x (select (is_expired now) rows) rows
      (All-of-In (select (is_expired now) rows) λ y n.
        let (n', gone) = In-select (is_expired now) y rows n in
        not_has_item (is_expired now) rows x y u m n' live gone)
      m

-- What the sweep makes of an expired row.
abbrev pub swept : ℕ → ℕ → Item → Item
swept max_attempts now x = if leb max_attempts x.attempts then to_failed now x else to_pending now x
