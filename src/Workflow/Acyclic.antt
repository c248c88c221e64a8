-- ===== src/Workflow/Acyclic.antt =====
-- Where there is no cycle, the sort succeeds.
use obase.Base.{
  ℕ, zero, suc, ◌+◌, ◌<◌, ◌≡◌, refl, ap, ◌∙◌, subst, true, String, string_eq, nat_eq, List, [], ◌∷◌,
  contains, length, select, ok, length-select-le, ◌==◌, arith, Bool-cases, inl, inr, le_refl,
}
use obase.Base.Int.{pos}
use obase.Workflow.Sort.{
  Edges, Degrees, targets, degree, is_zero, total, checked, all_zero, count_edges, kahn,
  topological_sort,
}
use obase.Workflow.Counts.{open_to, open_edges-le, degree-start}
use obase.Workflow.Steps.{NoDup, Fits}
use obase.Workflow.Order.{
  IsOrdered, SortSays, topological_sort-SortSays, contains-select, select-NoDup,
}
use obase.Workflow.Alarms.{IsRanked, detect_cycle-ok}
use obase.Workflow.Complete.{Covers, AreNodes, layers_from-Covers, NoDup-length-le, contains-kept}

-- Both ends of every edge are nodes.
abbrev pub HaveEnds : List String → Edges → Type 0
HaveEnds nodes [] = Unit
HaveEnds nodes ((src, dst) ∷ edges) =
    (contains nodes src ≡ true) × (contains nodes dst ≡ true) × HaveEnds nodes edges

targets-AreNodes :
    (nodes : List String) (edges : Edges)
    → HaveEnds nodes edges
    → (p : String) → AreNodes nodes (targets p edges)
unfolding targets
targets-AreNodes nodes [] h p x m = absurd (ground (arith, m))
targets-AreNodes nodes ((src, dst) ∷ edges) (s, d, h) p x m = elim (Bool-cases (src == p)) [
  | inr miss ↦ targets-AreNodes nodes edges h p x (rw miss at m)
  | inl hit ↦ elim (Bool-cases (x == dst)) [
    | inl same ↦ let there : x ≡ dst = ground (arith, same) in ap (contains nodes) there ∙ d
    | inr apart ↦ targets-AreNodes nodes edges h p x (rw (hit, apart) at m)
  ]
]

-- If all sources of lower rank are done, no edge to a node is open.
open_to-closed :
    (rank : String → ℕ) (nodes done : List String) (x : String) (edges : Edges)
    → IsRanked rank edges
    → HaveEnds nodes edges
    → ((s : String) → rank s < rank x → contains nodes s ≡ true → contains done s ≡ true)
    → open_to done x edges ≡ 0
unfolding open_to
open_to-closed rank nodes done x [] ranked ends below = refl
open_to-closed rank nodes done x ((src, dst) ∷ edges) (up, ranked) (s, d, ends) below =
    let rest = open_to-closed rank nodes done x edges ranked ends below in
    elim (Bool-cases (dst == x)) [
      | inr apart ↦ ground (arith, apart, rest)
      | inl same ↦
          let there : dst ≡ x = ground (arith, same) in
          let closed = below src (subst (λ (y : String). rank src < rank y) there up) s in
          ground (arith, closed, rest)
    ]

all_found :
    (rank : String → ℕ) (nodes found : List String) (edges : Edges) (degrees : Degrees)
    → IsRanked rank edges
    → HaveEnds nodes edges
    → Fits (λ x. open_to found x edges) degrees found
    → Covers nodes degrees found
    → (k : ℕ) (x : String) → rank x < k
    → contains nodes x ≡ true
    → contains found x ≡ true
all_found rank nodes found edges degrees ranked ends fits covers zero x low m =
    absurd (omega (arith, low))
all_found rank nodes found edges degrees ranked ends fits covers (suc k) x low m = covers.0 x m (
    fits.0 x
    ∙ ap pos (
        open_to-closed rank nodes found x edges ranked ends (λ s lower there.
          all_found rank nodes found edges degrees ranked ends fits covers k s
            (omega (arith, lower, low)) there)))

kahn-ok :
    (rank : String → ℕ) (nodes : List String) (edges : Edges)
    → NoDup nodes
    → IsRanked rank edges
    → HaveEnds nodes edges
    → (layers : List (List String)) × (kahn (length nodes + length edges) nodes edges ≡ ok layers)
unfolding kahn
kahn-ok rank nodes edges distinct ranked ends =
    let degrees = count_edges edges (all_zero nodes []) in
    let queue = select (λ n. is_zero (degree n degrees)) nodes in
    let fits : Fits (λ x. open_to [] x edges) degrees queue = (
      λ x. degree-start x nodes edges,
      select-NoDup (λ n. is_zero (degree n degrees)) nodes distinct,
      λ x m. degree_zero degrees x (contains-select (λ n. is_zero (degree n degrees)) nodes x m).1,
    ) in
    let covers : Covers nodes degrees queue = (
      λ x m d. contains-kept (λ n. is_zero (degree n degrees)) nodes x (ap is_zero d) m,
      λ x m. (contains-select (λ n. is_zero (degree n degrees)) nodes x m).0,
    ) in
    let (layers, is, found, last, fits', covers', size) =
      layers_from-Covers nodes (length nodes + length edges) edges [] queue degrees
        (targets-AreNodes nodes edges ends) fits covers
        (omega
          (arith, length-select-le (λ n. is_zero (degree n degrees)) nodes, open_edges-le edges)) in
    let more = NoDup-length-le nodes found distinct (λ x m.
      all_found rank nodes found edges last ranked ends fits' covers' (suc (rank x)) x
        (le_refl (suc (rank x))) m) in
    let less = NoDup-length-le found nodes fits'.1 covers'.1 in
    let same : total layers ≡ length nodes = omega (arith, more, less, size) in
    (layers, ap (checked nodes) is ∙ all_there layers same)
  where
    degree_zero :
        (degrees : Degrees) (x : String)
        → is_zero (degree x degrees) ≡ true
        → degree x degrees ≡ pos 0
    degree_zero degrees x h = ground (arith, h)

    all_there :
        (layers : List (List String))
        → total layers ≡ length nodes
        → checked nodes (ok layers) ≡ ok layers
    all_there layers same =
        let yes_same : total layers == length nodes ≡ true = ground (arith, same) in
        rw yes_same refl

-- On different nodes with edges between them that all lead to a higher rank, which no cycle does,
-- `topological_sort` succeeds, with fuel for every node and edge: its layers have as many nodes in all
-- as there are, and every node has the source of each edge to it in an earlier layer.
pub topological_sort-IsOrdered :
    (rank : String → ℕ) (nodes : List String) (edges : Edges)
    → NoDup nodes
    → IsRanked rank edges
    → HaveEnds nodes edges
    → (layers : List (List String)) × (topological_sort (length nodes + length edges) nodes edges
        ≡ ok layers)
      × IsOrdered edges [] layers
      × (total layers ≡ length nodes)
unfolding topological_sort
topological_sort-IsOrdered rank nodes edges distinct ranked ends =
    let (colors, quiet) = detect_cycle-ok rank nodes edges ranked in
    let (layers, is) = kahn-ok rank nodes edges distinct ranked ends in
    let sorted : topological_sort (length nodes + length edges) nodes edges ≡ ok layers =
      rw (topological_sort, quiet) is in
    let (ordered, size) =
      subst (SortSays nodes edges) sorted (topological_sort-SortSays nodes edges distinct) in
    (layers, sorted, ordered, size)
