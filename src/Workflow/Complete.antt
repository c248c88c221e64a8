-- ===== src/Workflow/Complete.antt =====
-- The sort leaves no node out where the nodes can be ranked.
use obase.Base.{
  ℕ, zero, suc, ◌+◌, ◌≤◌, ◌<◌, ◌≡◌, ◌≢◌, refl, sym, ap, ◌∙◌, subst, Bool, true, false, not, ◌||◌,
  String, string_eq, nat_eq, List, [], ◌∷◌, ◌++◌, contains, length, length-append, append_assoc,
  append-nil, select, ok, length-select-le, ◌==◌, if◌then◌else◌, arith, Bool-cases, inl, inr,
}
use obase.Base.Int.{ℤ, pos, negsuc}
use obase.Base.Dict.{insert}
use obase.Workflow.Sort.{
  Edges, Degrees, targets, degree, minus_one, is_zero, relax, process, layers_from, total,
}
use obase.Workflow.Counts.{open_to, open_edges, contains-append, degree-insert}
use obase.Workflow.Steps.{NoDup, Fits, process-Fits}

-- Every node of degree 0 is in the list, and the list has nodes only.
abbrev pub Covers : List String → Degrees → List String → Type 0
Covers nodes degrees found =
    ((x : String) → contains nodes x ≡ true → degree x degrees ≡ pos 0 → contains found x ≡ true)
    × ((x : String) → contains found x ≡ true → contains nodes x ≡ true)

abbrev pub AreNodes : List String → List String → Type 0
AreNodes nodes xs = (x : String) → contains xs x ≡ true → contains nodes x ≡ true

relax-Covers :
    (nodes ts base queue : List String) (degrees : Degrees)
    → AreNodes nodes ts
    → Covers nodes degrees (base ++ queue)
    → let (degrees', queue') = relax ts (degrees, queue) in Covers nodes degrees' (base ++ queue')
unfolding relax
relax-Covers nodes [] base queue degrees known h = h
relax-Covers nodes (t ∷ ts) base queue degrees known (full, among) =
    let left = minus_one (degree t degrees) in
    relax-Covers nodes ts base (if is_zero left then queue ++ t ∷ [] else queue)
      (insert t left degrees) (λ x m. known x (ground (arith, m))) (by_left left)
  where
    longer :
        (x : String)
        → contains (base ++ (queue ++ t ∷ [])) x ≡ (contains (base ++ queue) x || x == t)
    longer x =
        ap (λ l. contains l x) (sym (append_assoc base queue (t ∷ [])))
        ∙ contains-append (base ++ queue) (t ∷ []) x
        ∙ ground arith

    stays :
        (z : ℤ)
        → z ≢ pos 0
        → (x : String) → contains nodes x ≡ true
        → degree x (insert t z degrees) ≡ pos 0
        → contains (base ++ queue) x ≡ true
    stays z nonzero x m d = elim (Bool-cases (x == t)) [
      | inl same ↦ absurd (nonzero (sym (degree-insert x t z degrees ∙ rw same refl) ∙ d))
      | inr apart ↦ full x m (sym (degree-insert x t z degrees ∙ rw apart refl) ∙ d)
    ]

    by_left :
        (z : ℤ)
        → Covers nodes (insert t z degrees) (base ++ (if is_zero z then queue ++ t ∷ [] else queue))
    by_left (pos zero) = (
      λ x m d. elim (Bool-cases (x == t)) [
        | inl same ↦ ground (arith, longer x, same)
        | inr apart ↦
            let before : degree x degrees ≡ pos 0 =
              sym (degree-insert x t (pos 0) degrees ∙ rw apart refl) ∙ d in
            ground (arith, longer x, full x m before)
      ],
      λ x m. elim (Bool-cases (x == t)) [
        | inl same ↦ known x (ground (arith, same))
        | inr apart ↦ among x (ground (arith, longer x, m, apart))
      ],
    )
    by_left (pos (suc k)) = (stays (pos (suc k)) (λ e. ground (arith, e)), among)
    by_left (negsuc k) = (stays (negsuc k) (λ e. ground (arith, e)), among)

process-Covers :
    (nodes : List String) (edges : Edges) (layer done queue : List String) (degrees : Degrees)
    → ((p : String) → AreNodes nodes (targets p edges))
    → Covers nodes degrees (done ++ (layer ++ queue))
    → let (degrees', queue') = process edges layer (degrees, queue) in
      Covers nodes degrees' ((done ++ layer) ++ queue')
unfolding process
process-Covers nodes edges [] done queue degrees known h =
    subst (λ (d : List String). Covers nodes degrees (d ++ queue)) (sym (append-nil done)) h
process-Covers nodes edges (p ∷ layer) done queue degrees known h =
    let ts = targets p edges in
    let (degrees', queue') = relax ts (degrees, queue) in
    let first_done =
      relax-Covers nodes ts (done ++ p ∷ layer) queue degrees (known p)
        (subst (Covers nodes degrees) (sym (append_assoc done (p ∷ layer) queue)) h) in
    let moved : (done ++ p ∷ layer) ++ queue' ≡ (done ++ p ∷ []) ++ (layer ++ queue') =
      append_assoc done (p ∷ layer) queue' ∙ sym (append_assoc done (p ∷ []) (layer ++ queue')) in
    let last = process edges layer (degrees', queue') in
    subst (λ (d : List String). Covers nodes last.0 (d ++ last.1))
      (append_assoc done (p ∷ []) layer)
      (process-Covers nodes edges layer (done ++ p ∷ []) queue' degrees' known
        (subst (Covers nodes degrees') moved first_done))

-- The loop ends with all that it found, as many as its layers have.
pub layers_from-Covers :
    (nodes : List String) (fuel : ℕ) (edges : Edges) (done queue : List String) (degrees : Degrees)
    → ((p : String) → AreNodes nodes (targets p edges))
    → Fits (λ x. open_to done x edges) degrees (done ++ queue)
    → Covers nodes degrees (done ++ queue)
    → length queue + open_edges done edges ≤ fuel
    → (layers : List (List String)) × (layers_from fuel edges degrees queue ≡ ok layers)
      × (found : List String) × (last : Degrees) × Fits (λ x. open_to found x edges) last found
      × Covers nodes last found
      × (length found ≡ length done + total layers)
unfolding layers_from
layers_from-Covers nodes fuel edges done [] degrees known fits covers enough = (
  [],
  refl,
  done,
  degrees,
  subst (Fits (λ x. open_to done x edges) degrees) (append-nil done) fits,
  subst (Covers nodes degrees) (append-nil done) covers,
  omega arith,
)
layers_from-Covers nodes zero edges done (n ∷ queue) degrees known fits covers enough =
    absurd (omega (arith, enough))
layers_from-Covers nodes (suc fuel) edges done (n ∷ queue) degrees known fits covers enough =
    let layer = n ∷ queue in
    let whole : done ++ layer ≡ done ++ (layer ++ []) =
      ap (λ l. done ++ l) (sym (append-nil layer)) in
    let (fits', bound) =
      process-Fits edges layer done [] degrees
        (subst (λ (l : List String). Fits (λ x. open_to done x edges) degrees l) whole fits) in
    let covers' =
      process-Covers nodes edges layer done [] degrees known
        (subst (Covers nodes degrees) whole covers) in
    let (degrees', queue') = process edges layer (degrees, []) in
    let (layers, is, found, last, fits'', covers'', size) =
      layers_from-Covers nodes fuel edges (done ++ layer) queue' degrees' known fits' covers'
        (omega (arith, bound, enough)) in
    (
      layer ∷ layers,
      rw (layers_from, is) refl,
      found,
      last,
      fits'',
      covers'',
      omega (arith, size, length-append done layer),
    )

pub contains-kept :
    (p : String → Bool) (ys : List String) (y : String)
    → p y ≡ true
    → contains ys y ≡ true
    → contains (select p ys) y ≡ true
contains-kept p [] y hit m = absurd (ground (arith, m))
contains-kept p (z ∷ ys) y hit m = elim (Bool-cases (y == z)) [
  | inl same ↦
      let there : y ≡ z = ground (arith, same) in
      let hit' : p z ≡ true = sym (ap p there) ∙ hit in rw hit' (rw same refl)
  | inr apart ↦
      let rest = contains-kept p ys y hit (rw apart at m) in
      elim (Bool-cases (p z)) [ inl kept ↦ rw (kept, apart) rest | inr cut ↦ rw cut rest ]
]

length-select-lt :
    (p : String → Bool) (ys : List String) (y : String)
    → p y ≡ false
    → contains ys y ≡ true
    → length (select p ys) < length ys
length-select-lt p [] y miss m = absurd (ground (arith, m))
length-select-lt p (z ∷ ys) y miss m = elim (Bool-cases (y == z)) [
  | inl same ↦
      let there : y ≡ z = ground (arith, same) in
      let miss' : p z ≡ false = sym (ap p there) ∙ miss in
      rw miss' (omega (arith, length-select-le p ys))
  | inr apart ↦
      let rest = length-select-lt p ys y miss (rw apart at m) in
      elim (Bool-cases (p z)) [
        | inl kept ↦ rw kept (omega (arith, rest))
        | inr cut ↦ rw cut (omega (arith, rest))
      ]
]

-- Different nodes among others are no more than those.
pub NoDup-length-le :
    (xs ys : List String)
    → NoDup xs
    → ((x : String) → contains xs x ≡ true → contains ys x ≡ true)
    → length xs ≤ length ys
NoDup-length-le [] ys distinct sub = omega arith
NoDup-length-le (x ∷ xs) ys (new, distinct) sub =
    let other : String → Bool = λ y. not (y == x) in
    let self : x == x ≡ true = ground arith in
    let fewer = length-select-lt other ys x (rw self refl) (sub x (rw self refl)) in
    let rest = NoDup-length-le xs (select other ys) distinct (λ y m. elim (Bool-cases (y == x)) [
      | inl same ↦
          let there : y ≡ x = ground (arith, same) in
          absurd (ground (arith, new, sym (ap (contains xs) there) ∙ m))
      | inr apart ↦ contains-kept other ys y (rw apart refl) (sub y (rw (apart, m) refl))
    ]) in
    omega (arith, fewer, rest)
