-- ===== src/Workflow/Alarms.antt =====
-- The search for a cycle finds none where the nodes can be ranked.
use obase.Base.{
  ℕ, zero, suc, ◌+◌, ◌<◌, ◌≡◌, refl, ap, ◌∙◌, subst, Bool, true, false, some, String, string_eq,
  List, [], ◌∷◌, length, All, Result, ok, err, ◌>>=◌, ◌==◌, if◌then◌else◌, arith, Bool-cases, inl,
  inr,
}
use obase.Base.Dict.{lookup, insert, lookup-insert}
use obase.Workflow.Colors.{HasEnded, detect_cycle-HasEnded}
use obase.Workflow.Sort.{
  SortError, cycle_error, out_of_fuel, Edges, targets, Color, white, gray, black, Colors, or_white,
  color, visit, dfs, search, all_white, detect_cycle,
}

abbrev is_gray : Color → Bool
is_gray gray = true
is_gray _ = false

abbrev grays : Colors → String → Bool
grays colors x = is_gray (color x colors)

grays-insert :
    (x n : String) (c : Color) (colors : Colors)
    → grays (insert n c colors) x ≡ (if x == n then is_gray c else grays colors x)
grays-insert x n c colors =
    ap (λ o. is_gray (or_white o)) (lookup-insert x n c colors) ∙ pull (x == n)
  where
    pull :
        (b : Bool)
        → is_gray (or_white (if b then some c else lookup x colors))
          ≡ (if b then is_gray c else grays colors x)
    pull true = refl
    pull false = refl

-- An edge leads to a higher rank.
abbrev pub IsRanked : (String → ℕ) → Edges → Type 0
IsRanked rank [] = Unit
IsRanked rank ((src, dst) ∷ edges) = (rank src < rank dst) × IsRanked rank edges

targets-IsRanked :
    (rank : String → ℕ) (node : String) (edges : Edges)
    → IsRanked rank edges
    → All (λ t. rank node < rank t) (targets node edges)
unfolding targets
targets-IsRanked rank node [] h = tt
targets-IsRanked rank node ((src, dst) ∷ edges) (up, h) = elim (Bool-cases (src == node)) [
  | inl hit ↦
      let same : src ≡ node = ground (arith, hit) in
      rw hit (subst (λ (s : String). rank s < rank dst) same up, targets-IsRanked rank node edges h)
  | inr miss ↦ rw miss (targets-IsRanked rank node edges h)
]

module _ (rank : String → ℕ) where
  Below : ℕ → Colors → Type 0
  Below k colors = (x : String) → grays colors x ≡ true → rank x < k

  -- No cycle is reported, and what is gray afterwards was gray before.
  Quiet : Colors → Result SortError Colors → Type 0
  Quiet colors (ok colors') = (x : String) → grays colors' x ≡ true → grays colors x ≡ true
  Quiet colors (err cycle_error) = ⊥
  Quiet colors (err out_of_fuel) = Unit

  Quiet-bind :
      (colors : Colors) (r : Result SortError Colors) (f : Colors → Result SortError Colors)
      → Quiet colors r
      → ((colors' : Colors)
          → ((x : String) → grays colors' x ≡ true → grays colors x ≡ true)
          → Quiet colors (f colors'))
      → Quiet colors (r >>= f)
  unfolding Quiet
  Quiet-bind colors (ok colors') f h next = next colors' h
  Quiet-bind colors (err cycle_error) f h next = h
  Quiet-bind colors (err out_of_fuel) f h next = tt

  Quiet-after :
      (colors colors' : Colors) (r : Result SortError Colors)
      → ((x : String) → grays colors' x ≡ true → grays colors x ≡ true)
      → Quiet colors' r
      → Quiet colors r
  unfolding Quiet
  Quiet-after colors colors' (ok last) keeps h = λ x m. keeps x (h x m)
  Quiet-after colors colors' (err cycle_error) keeps h = h
  Quiet-after colors colors' (err out_of_fuel) keeps h = tt

  IsQuiet : (String → Colors → Result SortError Colors) → Type 0
  IsQuiet go = (n : String) (colors : Colors) → Below (rank n) colors → Quiet colors (go n colors)

  visit-Quiet :
      (go : String → Colors → Result SortError Colors) (k : ℕ) (ns : List String) (colors : Colors)
      → IsQuiet go
      → All (λ t. k < rank t) ns
      → Below (suc k) colors
      → Quiet colors (visit go ns colors)
  unfolding visit Quiet Below IsQuiet
  visit-Quiet go k [] colors quiet up below = λ x h. h
  visit-Quiet go k (n ∷ ns) colors quiet (higher, up) below =
      by_color (color n colors) refl (visit-Quiet go k ns colors quiet up below) (λ colors' keeps.
        Quiet-after colors colors' (visit go ns colors') keeps
          (visit-Quiet go k ns colors' quiet up (λ x h. below x (keeps x h))))
    where
      by_color :
          (c : Color)
          → color n colors ≡ c
          → Quiet colors (visit go ns colors)
          → ((colors' : Colors)
              → ((x : String) → grays colors' x ≡ true → grays colors x ≡ true)
              → Quiet colors (visit go ns colors'))
          → Quiet colors (elim c [
            | gray ↦ err cycle_error
            | white ↦ go n colors >>= λ colors'. visit go ns colors'
            | black ↦ visit go ns colors
          ])
      by_color gray at rest next = absurd (omega (arith, higher, below n (ap is_gray at)))
      by_color black at rest next = rest
      by_color white at rest next =
          Quiet-bind colors (go n colors) (λ colors'. visit go ns colors')
            (quiet n colors (λ x h. omega (arith, higher, below x h))) next

  dfs-IsQuiet : (edges : Edges) → IsRanked rank edges → (fuel : ℕ) → IsQuiet (dfs fuel edges)
  unfolding dfs Quiet Below IsQuiet
  dfs-IsQuiet edges ranked zero n colors below = tt
  dfs-IsQuiet edges ranked (suc fuel) n colors below =
      let gray_now = insert n gray colors in
      let below' : (x : String) → grays gray_now x ≡ true → rank x < suc (rank n) = λ x h.
        elim (Bool-cases (x == n)) [
          | inl same ↦ let there : x ≡ n = ground (arith, same) in omega (arith, ap rank there)
          | inr apart ↦
              omega (arith, below x (ground (arith, h, apart, grays-insert x n gray colors)))
        ] in
      restore (visit (dfs fuel edges) (targets n edges) gray_now) (
        visit-Quiet (dfs fuel edges) (rank n) (targets n edges) gray_now
          (dfs-IsQuiet edges ranked fuel) (targets-IsRanked rank n edges ranked) below')
    where
      restore :
          (r : Result SortError Colors)
          → Quiet (insert n gray colors) r
          → Quiet colors (r >>= λ colors'. ok (insert n black colors'))
      restore (err cycle_error) h = h
      restore (err out_of_fuel) h = tt
      restore (ok colors') h = λ x m. elim (Bool-cases (x == n)) [
        | inl same ↦ absurd (ground (arith, m, same, grays-insert x n black colors'))
        | inr apart ↦
            let was = h x (ground (arith, m, apart, grays-insert x n black colors')) in
            ground (arith, was, apart, grays-insert x n gray colors)
      ]

  search-Quiet :
      (go : String → Colors → Result SortError Colors) (ns : List String) (colors : Colors)
      → IsQuiet go
      → ((x : String) → grays colors x ≡ true → ⊥)
      → Quiet colors (search go ns colors)
  unfolding search Quiet Below IsQuiet
  search-Quiet go [] colors quiet none_gray = λ x h. h
  search-Quiet go (n ∷ ns) colors quiet none_gray =
      by_color (color n colors) (search-Quiet go ns colors quiet none_gray) (λ colors' keeps.
        Quiet-after colors colors' (search go ns colors') keeps
          (search-Quiet go ns colors' quiet (λ x h. none_gray x (keeps x h))))
    where
      by_color :
          (c : Color)
          → Quiet colors (search go ns colors)
          → ((colors' : Colors)
              → ((x : String) → grays colors' x ≡ true → grays colors x ≡ true)
              → Quiet colors (search go ns colors'))
          → Quiet colors (elim c [
            | white ↦ go n colors >>= λ colors'. search go ns colors'
            | gray ↦ search go ns colors
            | black ↦ search go ns colors
          ])
      by_color gray rest next = rest
      by_color black rest next = rest
      by_color white rest next =
          Quiet-bind colors (go n colors) (λ colors'. search go ns colors')
            (quiet n colors (λ x h. absurd (none_gray x h))) next

all_white-grays :
    (nodes : List String) (colors : Colors) (x : String)
    → grays colors x ≡ false
    → grays (all_white nodes colors) x ≡ false
unfolding all_white
all_white-grays [] colors x h = h
all_white-grays (n ∷ nodes) colors x h =
    all_white-grays nodes (insert n white colors) x
      (ground (arith, h, grays-insert x n white colors))

-- Where every edge leads to a higher rank, the search goes well.
pub detect_cycle-ok :
    (rank : String → ℕ) (nodes : List String) (edges : Edges)
    → IsRanked rank edges
    → (colors : Colors) × (detect_cycle (length nodes + length edges) nodes edges ≡ ok colors)
unfolding detect_cycle lookup Quiet
detect_cycle-ok rank nodes edges ranked =
    conclude (detect_cycle (length nodes + length edges) nodes edges)
      (detect_cycle-HasEnded nodes edges)
      (search-Quiet rank (dfs (length nodes + length edges) edges) nodes (all_white nodes [])
        (dfs-IsQuiet rank edges ranked (length nodes + length edges))
        (λ x h. ground (arith, h, all_white-grays nodes [] x refl)))
  where
    conclude :
        (r : Result SortError Colors)
        → HasEnded r
        → Quiet rank (all_white nodes []) r
        → (colors : Colors) × (r ≡ ok colors)
    conclude (ok colors) ended quiet = (colors, refl)
    conclude (err cycle_error) ended quiet = absurd quiet
    conclude (err out_of_fuel) ended quiet = absurd ended
