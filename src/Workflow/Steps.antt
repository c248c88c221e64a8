-- ===== src/Workflow/Steps.antt =====
-- One layer of the sort.
use obase.Base.{
  ℕ, zero, suc, ◌+◌, ◌≤◌, ◌≡◌, refl, sym, ap, ◌∙◌, subst, Bool, true, false, String, string_eq,
  List, [], ◌∷◌, ◌++◌, contains, length, append_assoc, append-nil, length-append, ◌==◌,
  if◌then◌else◌, arith, Bool-cases, inl, inr,
}
use obase.Base.Int.{pos}
use obase.Base.Dict.{insert}
use obase.Workflow.Sort.{Edges, Degrees, targets, degree, minus_one, is_zero, relax, process}
use obase.Workflow.Counts.{
  open_to, open_edges, times, contains-append, open_to-done, open_edges-done, degree-insert,
}

abbrev pub NoDup : List String → Type 0
NoDup [] = Unit
NoDup (x ∷ xs) = (contains xs x ≡ false) × NoDup xs

NoDup-snoc :
    (xs : List String) (t : String) → NoDup xs → contains xs t ≡ false → NoDup (xs ++ t ∷ [])
NoDup-snoc [] t h new = (refl, tt)
NoDup-snoc (x ∷ xs) t (h, hs) new = (
  ground (arith, contains-append xs (t ∷ []) x, h, new),
  NoDup-snoc xs t hs (ground (arith, new)),
)

-- Degrees that are counts, and a list of different nodes of degree 0.
abbrev pub Fits : (String → ℕ) → Degrees → List String → Type 0
Fits counts degrees nodes =
    ((x : String) → degree x degrees ≡ pos (counts x))
    × NoDup nodes
    × ((x : String) → contains nodes x ≡ true → degree x degrees ≡ pos 0)

-- One target.
relax_one :
    (t : String) (ts : List String) (counts : String → ℕ) (base queue : List String)
    (degrees : Degrees)
    → Fits (λ x. counts x + times x (t ∷ ts)) degrees (base ++ queue)
    → let left = minus_one (degree t degrees) in
      Fits
        (λ x. counts x + times x ts)
        (insert t left degrees)
        (base ++ (if is_zero left then queue ++ t ∷ [] else queue))
unfolding times
relax_one t ts counts base queue degrees (is, distinct, zeros) =
    let met : degree t degrees ≡ pos (suc (counts t + times t ts)) = is t ∙ ap pos (ground arith) in
    let new : contains (base ++ queue) t ≡ false = elim (Bool-cases (contains (base ++ queue) t)) [
      | inr new ↦ new
      | inl old ↦ absurd (ground (arith, sym (zeros t old) ∙ met))
    ] in
    rw met (by_left (counts t + times t ts) refl new)
  where
    now :
        (k : ℕ)
        → counts t + times t ts ≡ k
        → (x : String) → degree x (insert t (pos k) degrees) ≡ pos (counts x + times x ts)
    now k at x = degree-insert x t (pos k) degrees ∙ (elim (Bool-cases (x == t)) [
      | inl same ↦
          let here : x ≡ t = ground (arith, same) in
          rw same (ap pos (sym at ∙ ap (λ y. counts y + times y ts) (sym here)))
      | inr apart ↦ rw apart (is x ∙ ap pos (ground (arith, apart)))
    ])

    by_left :
        (k : ℕ)
        → counts t + times t ts ≡ k
        → contains (base ++ queue) t ≡ false
        → Fits
            (λ x. counts x + times x ts)
            (insert t (pos k) degrees)
            (base ++ (if is_zero (pos k) then queue ++ t ∷ [] else queue))
    by_left zero at new = (
      now zero at,
      subst NoDup (append_assoc base queue (t ∷ [])) (NoDup-snoc (base ++ queue) t distinct new),
      λ x m. degree-insert x t (pos 0) degrees ∙ (elim (Bool-cases (x == t)) [
        | inl same ↦ rw same refl
        | inr apart ↦ rw apart (
            zeros x (
              ground (
                arith,
                contains-append (base ++ queue) (t ∷ []) x,
                apart,
                ap (λ l. contains l x) (append_assoc base queue (t ∷ [])) ∙ m,
              )))
      ]),
    )
    by_left (suc k) at new = (
      now (suc k) at,
      distinct,
      λ x m.
          let zero_there = zeros x m in
          degree-insert x t (pos (suc k)) degrees ∙ (elim (Bool-cases (x == t)) [
            | inl same ↦
                let here : x ≡ t = ground (arith, same) in
                absurd (ground (arith, new, sym (ap (contains (base ++ queue)) here) ∙ m))
            | inr apart ↦ rw apart zero_there
          ]),
    )

Fits-same :
    (counts counts' : String → ℕ) (degrees : Degrees) (nodes nodes' : List String)
    → ((x : String) → counts x ≡ counts' x)
    → nodes ≡ nodes'
    → Fits counts degrees nodes
    → Fits counts' degrees nodes'
Fits-same counts counts' degrees nodes nodes' same list (is, distinct, zeros) = (
  λ x. is x ∙ ap pos (same x),
  subst NoDup list distinct,
  λ x m. zeros x (ap (λ l. contains l x) list ∙ m),
)

relax-Fits :
    (ts : List String) (counts : String → ℕ) (base queue : List String) (degrees : Degrees)
    → Fits (λ x. counts x + times x ts) degrees (base ++ queue)
    → let (degrees', queue') = relax ts (degrees, queue) in
      Fits counts degrees' (base ++ queue') × (length queue' ≤ length queue + length ts)
unfolding relax times
relax-Fits [] counts base queue degrees h = (
  Fits-same (λ x. counts x + 0) counts degrees (base ++ queue) (base ++ queue) (λ x. omega arith)
      refl h,
  omega arith,
)
relax-Fits (t ∷ ts) counts base queue degrees h =
    let left = minus_one (degree t degrees) in
    let queue' = if is_zero left then queue ++ t ∷ [] else queue in
    let longer : length queue' ≤ suc (length queue) = grows (is_zero left) in
    let (fits, bound) =
      relax-Fits ts counts base queue' (insert t left degrees)
        (relax_one t ts counts base queue degrees h) in
    (fits, omega (arith, bound, longer))
  where
    grows : (b : Bool) → length (if b then queue ++ t ∷ [] else queue) ≤ suc (length queue)
    grows true = omega (arith, length-append queue (t ∷ []))
    grows false = omega arith

NoDup-apart : (xs ys : List String) (p : String) → NoDup (xs ++ p ∷ ys) → contains xs p ≡ false
NoDup-apart [] ys p h = refl
NoDup-apart (x ∷ xs) ys p (new, h) =
    ground (arith, contains-append xs (p ∷ ys) x, new, NoDup-apart xs ys p h)

-- A layer whose nodes come after those that are done.
pub process-Fits :
    (edges : Edges) (layer done queue : List String) (degrees : Degrees)
    → Fits (λ x. open_to done x edges) degrees (done ++ (layer ++ queue))
    → let (degrees', queue') = process edges layer (degrees, queue) in
      Fits (λ x. open_to (done ++ layer) x edges) degrees' ((done ++ layer) ++ queue')
      × (length queue' + open_edges (done ++ layer) edges ≤ length queue + open_edges done edges)
unfolding process
process-Fits edges [] done queue degrees h =
    let none_more : done ≡ done ++ [] = sym (append-nil done) in
    (
      Fits-same (λ x. open_to done x edges) (λ x. open_to (done ++ []) x edges) degrees
          (done ++ queue) ((done ++ []) ++ queue) (λ x. ap (λ d. open_to d x edges) none_more)
          (ap (λ d. d ++ queue) none_more) h,
      omega (arith, ap (λ d. open_edges d edges) none_more),
    )
process-Fits edges (p ∷ layer) done queue degrees h =
    let done' = done ++ p ∷ [] in
    let ts = targets p edges in
    let new = NoDup-apart done (layer ++ queue) p h.1 in
    let ready =
      Fits-same (λ x. open_to done x edges) (λ x. open_to done' x edges + times x ts) degrees
        (done ++ (p ∷ layer ++ queue)) ((done ++ p ∷ layer) ++ queue)
        (λ x. open_to-done done p x edges new) (sym (append_assoc done (p ∷ layer) queue)) h in
    let (degrees', queue') = relax ts (degrees, queue) in
    let (fits, bound) =
      relax-Fits ts (λ x. open_to done' x edges) (done ++ p ∷ layer) queue degrees ready in
    let moved : (done ++ p ∷ layer) ++ queue' ≡ done' ++ (layer ++ queue') =
      append_assoc done (p ∷ layer) queue' ∙ sym (append_assoc done (p ∷ []) (layer ++ queue')) in
    let next =
      Fits-same (λ x. open_to done' x edges) (λ x. open_to done' x edges) degrees'
        ((done ++ p ∷ layer) ++ queue') (done' ++ (layer ++ queue')) (λ x. refl) moved fits in
    let (fits', bound') = process-Fits edges layer done' queue' degrees' next in
    let closed = open_edges-done done p edges new in
    let whole : done' ++ layer ≡ done ++ p ∷ layer = append_assoc done (p ∷ []) layer in
    let last = process edges layer (degrees', queue') in
    (
      Fits-same (λ x. open_to (done' ++ layer) x edges) (λ x. open_to (done ++ p ∷ layer) x edges)
          last.0 ((done' ++ layer) ++ last.1) ((done ++ p ∷ layer) ++ last.1)
          (λ x. ap (λ d. open_to d x edges) whole) (ap (λ d. d ++ last.1) whole) fits',
      omega (arith, bound, bound', closed, ap (λ d. open_edges d edges) whole),
    )
