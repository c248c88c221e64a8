-- ===== src/LeaseQueue/Unique.antt =====
-- The primary key of the table, and rows of calls on the queue.
use obase.Base.{
  ℕ, ◌≡◌, refl, ◌∙◌, sym, ap, subst, ◌≢◌, inl, inr, Bool, true, false, Option, String, string_eq,
  List, [], ◌∷◌, ◌++◌, arith, All, All-append, ◌||◌, exists, select, Bool-cases, Option-cases,
  if◌then◌else◌, leb,
}
use obase.Base.Int.{ℤ}
use obase.Base.Members.{In, update_where, In-All}
use obase.LeaseQueue.{
  Item, Table, has_item, can_lease, is_expired, first_row, or_fresh, enqueue, lease, renew,
  complete, release, fail, sweep_rows, sweep_expired,
}

-- The primary key.
abbrev pub UniqueIds : Table → Type 0
UniqueIds [] = Unit
UniqueIds (x ∷ rows) = All (λ y. y.item_id ≢ x.item_id) rows × UniqueIds rows

abbrev AllOther : String → Table → Type 0
AllOther id rows = All (λ y. y.item_id ≢ id) rows

module _ (p : Item → Bool) (f : Item → Item) (keeps : (x : Item) → (f x).item_id ≡ x.item_id) where
  updated_id : (b : Bool) (x : Item) → (if b then f x else x).item_id ≡ x.item_id
  updated_id true x = keeps x
  updated_id false x = refl

  update-AllOther :
      (id : String) (rows : Table) → AllOther id rows → AllOther id (update_where p f rows)
  unfolding update_where
  update-AllOther id [] h = tt
  update-AllOther id (x ∷ rows) h =
      (λ e. h.0 (sym (updated_id (p x) x) ∙ e), update-AllOther id rows h.1)

  update-UniqueIds : (rows : Table) → UniqueIds rows → UniqueIds (update_where p f rows)
  unfolding update_where
  update-UniqueIds [] h = tt
  update-UniqueIds (x ∷ rows) h = (
    subst (λ id. AllOther id (update_where p f rows)) (sym (updated_id (p x) x))
        (update-AllOther x.item_id rows h.0),
    update-UniqueIds rows h.1,
  )

or_false : (a b : Bool) → (a || b) ≡ false → (a ≡ false) × (b ≡ false)
or_false a b h = ground arith

has_item_ne : (x y : Item) → has_item x.item_id y ≡ false → x.item_id ≢ y.item_id
has_item_ne x y h = λ e. ground arith

UniqueIds-snoc :
    (rows : Table) (x : Item)
    → UniqueIds rows
    → exists (has_item x.item_id) rows ≡ false
    → UniqueIds (rows ++ x ∷ [])
UniqueIds-snoc [] x u h = (tt, tt)
UniqueIds-snoc (y ∷ rows) x u h =
    let (other, absent) = or_false (has_item x.item_id y) (exists (has_item x.item_id) rows) h in
    (
      All-append (λ w. w.item_id ≢ y.item_id) rows (x ∷ []) u.0 (has_item_ne x y other, tt),
      UniqueIds-snoc rows x u.1 absent,
    )

pub same_row :
    (rows : Table) (x y : Item)
    → UniqueIds rows
    → In x rows
    → In y rows
    → x.item_id ≡ y.item_id
    → x ≡ y
same_row [] x y u m n e = elim m [ ]
same_row (z ∷ rows) x y u (inl a) (inl b) e = a ∙ sym b
same_row (z ∷ rows) x y u (inl a) (inr n) e =
    absurd (In-All (λ w. w.item_id ≢ z.item_id) y rows u.0 n (sym e ∙ ap (λ w. w.item_id) a))
same_row (z ∷ rows) x y u (inr m) (inl b) e =
    absurd (In-All (λ w. w.item_id ≢ z.item_id) x rows u.0 m (e ∙ ap (λ w. w.item_id) b))
same_row (z ∷ rows) x y u (inr m) (inr n) e = same_row rows x y u.1 m n e

-- A call of one of the queue's methods, with its clock reading and the ids that it draws.
pub data Op : Type 0 where
  enqueues : String → ℤ → Option String → ℕ → String → Op
  leases : String → ℕ → ℕ → ℕ → String → Op
  renews : String → ℕ → ℕ → Op
  completes releases fails : String → ℕ → Op
  sweeps : ℕ → ℕ → Op

unfoldable pub apply : Op → Table → Table
apply (enqueues payload priority id now fresh) rows = (enqueue payload priority id now fresh rows).1
apply (leases worker timeout max_attempts now fresh) rows =
    (lease worker timeout max_attempts now fresh rows).1
apply (renews id timeout now) rows = (renew id timeout now rows).1
apply (completes id now) rows = (complete id now rows).1
apply (releases id now) rows = (release id now rows).1
apply (fails id now) rows = (fail id now rows).1
apply (sweeps max_attempts now) rows = (sweep_expired max_attempts now rows).1

unfoldable pub run : List Op → Table → Table
run [] rows = rows
run (op ∷ ops) rows = run ops (apply op rows)

enqueue-UniqueIds :
    (payload : String) (priority : ℤ) (id : Option String) (now : ℕ) (fresh : String) (rows : Table)
    → UniqueIds rows
    → UniqueIds (enqueue payload priority id now fresh rows).1
unfolding enqueue
enqueue-UniqueIds payload priority id now fresh rows u =
    elim (Bool-cases (exists (has_item (or_fresh id fresh)) rows)) [
      | inl taken ↦ rw taken u
      | inr new ↦ rw new (UniqueIds-snoc rows _ u new)
    ]

lease-UniqueIds :
    (worker : String) (timeout max_attempts now : ℕ) (fresh : String) (rows : Table)
    → UniqueIds rows
    → UniqueIds (lease worker timeout max_attempts now fresh rows).1
unfolding lease
lease-UniqueIds worker timeout max_attempts now fresh rows u =
    elim (Option-cases (first_row (select (can_lease now max_attempts) rows))) [
      | inl empty ↦ rw (empty, lease) u
      | inr (x, found) ↦ rw (found, lease) (update-UniqueIds _ _ (λ _. refl) rows u)
    ]

sweep_rows-UniqueIds :
    (max_attempts now : ℕ) (expired rows : List Item)
    → UniqueIds rows
    → UniqueIds (sweep_rows max_attempts now expired rows)
unfolding sweep_rows
sweep_rows-UniqueIds max_attempts now [] rows u = u
sweep_rows-UniqueIds max_attempts now (x ∷ expired) rows u =
    elim (Bool-cases (leb max_attempts x.attempts)) [
      | inl spent ↦
          rw (spent, sweep_rows)
            (sweep_rows-UniqueIds max_attempts now expired _
              (update-UniqueIds _ _ (λ _. refl) rows u))
      | inr left ↦
          rw (left, sweep_rows)
            (sweep_rows-UniqueIds max_attempts now expired _
              (update-UniqueIds _ _ (λ _. refl) rows u))
    ]

pub apply-UniqueIds : (op : Op) (rows : Table) → UniqueIds rows → UniqueIds (apply op rows)
unfolding apply renew complete release fail sweep_expired
apply-UniqueIds (enqueues payload priority id now fresh) rows u =
    enqueue-UniqueIds payload priority id now fresh rows u
apply-UniqueIds (leases worker timeout max_attempts now fresh) rows u =
    lease-UniqueIds worker timeout max_attempts now fresh rows u
apply-UniqueIds (renews id timeout now) rows u = update-UniqueIds _ _ (λ _. refl) rows u
apply-UniqueIds (completes id now) rows u = update-UniqueIds _ _ (λ _. refl) rows u
apply-UniqueIds (releases id now) rows u = update-UniqueIds _ _ (λ _. refl) rows u
apply-UniqueIds (fails id now) rows u = update-UniqueIds _ _ (λ _. refl) rows u
apply-UniqueIds (sweeps max_attempts now) rows u =
    sweep_rows-UniqueIds max_attempts now (select (is_expired now) rows) rows u
