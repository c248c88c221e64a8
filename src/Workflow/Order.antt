-- ===== src/Workflow/Order.antt =====
-- The layers respect every dependency.
use obase.Base.{
  ℕ, zero, suc, ◌+◌, ◌≤◌, ◌≡◌, refl, sym, ap, ◌∙◌, subst, Bool, true, false, String, string_eq,
  nat_eq, List, [], ◌∷◌, ◌++◌, contains, length, select, Result, ok, err, ◌>>=◌, length-select-le,
  ◌==◌, if◌then◌else◌, arith, Bool-cases, inl, inr,
}
use obase.Base.Int.{pos}
use obase.Base.Members.{In}
use obase.Workflow.Sort.{
  SortError, cycle_error, out_of_fuel, Edges, Degrees, degree, is_zero, all_zero, count_edges,
  process, layers_from, total, checked, kahn, Colors, detect_cycle, topological_sort,
}
use obase.Workflow.Colors.{HasEnded, detect_cycle-HasEnded}
use obase.Workflow.Counts.{
  open_to, open_edges, open_edges-le, open_to-zero, contains-append, degree-start,
}
use obase.Workflow.Steps.{NoDup, Fits, process-Fits}

-- Each node of a layer has the source of every edge to it among the nodes before the layer.
abbrev pub IsOrdered : Edges → List String → List (List String) → Type 0
IsOrdered edges done [] = Unit
IsOrdered edges done (layer ∷ layers) =
    ((x s : String) → In x layer → In (s, x) edges → contains done s ≡ true)
    × IsOrdered edges (done ++ layer) layers

In-contains : (x : String) (xs : List String) → In x xs → contains xs x ≡ true
In-contains x [] m = absurd m
In-contains x (y ∷ xs) (inl same) = ground (arith, same)
In-contains x (y ∷ xs) (inr m) = ground (arith, In-contains x xs m)

layer-sources :
    (edges : Edges) (done layer : List String) (degrees : Degrees)
    → Fits (λ x. open_to done x edges) degrees (done ++ layer)
    → (x s : String) → In x layer
    → In (s, x) edges
    → contains done s ≡ true
layer-sources edges done layer degrees (is, distinct, zeros) x s m edge =
    let among : contains (done ++ layer) x ≡ true =
      ground (arith, contains-append done layer x, In-contains x layer m) in
    open_to-zero done s x edges (ground (arith, sym (is x) ∙ zeros x among)) edge

layers_from-IsOrdered :
    (fuel : ℕ) (edges : Edges) (done queue : List String) (degrees : Degrees)
    → Fits (λ x. open_to done x edges) degrees (done ++ queue)
    → length queue + open_edges done edges ≤ fuel
    → (layers : List (List String)) × (layers_from fuel edges degrees queue ≡ ok layers)
      × IsOrdered edges done layers
unfolding layers_from
layers_from-IsOrdered fuel edges done [] degrees h enough = ([], refl, tt)
layers_from-IsOrdered zero edges done (n ∷ queue) degrees h enough = absurd (omega (arith, enough))
layers_from-IsOrdered (suc fuel) edges done (n ∷ queue) degrees h enough =
    let layer = n ∷ queue in
    let whole : done ++ layer ≡ done ++ (layer ++ []) = ap (λ l. done ++ l) (sym (right layer)) in
    let (fits, bound) =
      process-Fits edges layer done [] degrees
        (subst (λ (l : List String). Fits (λ x. open_to done x edges) degrees l) whole h) in
    let (degrees', queue') = process edges layer (degrees, []) in
    let (layers, is, ordered) =
      layers_from-IsOrdered fuel edges (done ++ layer) queue' degrees' fits
        (omega (arith, bound, enough)) in
    (layer ∷ layers, rw (layers_from, is) refl, (layer-sources edges done layer degrees h, ordered))
  where
    right : (xs : List String) → xs ++ [] ≡ xs
    right [] = refl
    right (x ∷ xs) = ap (λ l. x ∷ l) (right xs)

pub contains-select :
    (p : String → Bool) (xs : List String) (x : String)
    → contains (select p xs) x ≡ true
    → (contains xs x ≡ true) × (p x ≡ true)
contains-select p [] x h = absurd (ground (arith, h))
contains-select p (y ∷ xs) x h = elim (Bool-cases (p y)) [
  | inr miss ↦ let (m, hit) = contains-select p xs x (rw miss at h) in (ground (arith, m), hit)
  | inl here ↦ elim (Bool-cases (x == y)) [
    | inl same ↦ let there : x ≡ y = ground (arith, same) in (rw same refl, ap p there ∙ here)
    | inr apart ↦
        let (m, hit) = contains-select p xs x (rw (here, apart) at h) in (ground (arith, m), hit)
  ]
]

pub select-NoDup : (p : String → Bool) (xs : List String) → NoDup xs → NoDup (select p xs)
select-NoDup p [] h = tt
select-NoDup p (x ∷ xs) (new, h) = elim (Bool-cases (p x)) [
  | inr miss ↦ rw miss (select-NoDup p xs h)
  | inl hit ↦ rw hit (
    elim (Bool-cases (contains (select p xs) x)) [
      | inr absent ↦ absent
      | inl there ↦ absurd (ground (arith, new, (contains-select p xs x there).0))
    ],
    select-NoDup p xs h,
  )
]

-- Layers in order, of as many nodes as there are, or a cycle error.
abbrev pub SortSays : List String → Edges → Result SortError (List (List String)) → Type 0
SortSays nodes edges (ok layers) = IsOrdered edges [] layers × (total layers ≡ length nodes)
SortSays nodes edges (err cycle_error) = Unit
SortSays nodes edges (err out_of_fuel) = ⊥

kahn-SortSays :
    (nodes : List String) (edges : Edges)
    → NoDup nodes
    → SortSays nodes edges (kahn (length nodes + length edges) nodes edges)
unfolding kahn
kahn-SortSays nodes edges distinct =
    let degrees = count_edges edges (all_zero nodes []) in
    let queue = select (λ n. is_zero (degree n degrees)) nodes in
    let start = degree_zero degrees in
    let fits : Fits (λ x. open_to [] x edges) degrees queue = (
      λ x. degree-start x nodes edges,
      select-NoDup (λ n. is_zero (degree n degrees)) nodes distinct,
      λ x m. start x (contains-select (λ n. is_zero (degree n degrees)) nodes x m).1,
    ) in
    finish (layers_from (length nodes + length edges) edges degrees queue) (
      layers_from-IsOrdered (length nodes + length edges) edges [] queue degrees fits (
        omega
          (arith, length-select-le (λ n. is_zero (degree n degrees)) nodes, open_edges-le edges)))
  where
    degree_zero :
        (degrees : Degrees) (x : String)
        → is_zero (degree x degrees) ≡ true
        → degree x degrees ≡ pos 0
    degree_zero degrees x h = ground (arith, h)

    by_total :
        (layers : List (List String))
        → IsOrdered edges [] layers
        → (b : Bool) → total layers == length nodes ≡ b
        → SortSays nodes edges (if b then ok layers else err cycle_error)
    by_total layers ordered true same = (ordered, ground (arith, same))
    by_total layers ordered false differ = tt

    finish :
        (r : Result SortError (List (List String)))
        → ((layers : List (List String)) × (r ≡ ok layers) × IsOrdered edges [] layers)
        → SortSays nodes edges (checked nodes r)
    finish r (layers, is, ordered) =
        subst
          (λ (x : Result SortError (List (List String))). SortSays nodes edges (checked nodes x))
          (sym is) (by_total layers ordered (total layers == length nodes) refl)

-- On different nodes, with fuel for every node and edge, `topological_sort` ends, with a cycle error or
-- with layers of as many nodes in all as there are, in which every node has the source of each edge to
-- it in an earlier layer.
pub topological_sort-SortSays :
    (nodes : List String) (edges : Edges)
    → NoDup nodes
    → SortSays nodes edges (topological_sort (length nodes + length edges) nodes edges)
unfolding topological_sort
topological_sort-SortSays nodes edges distinct =
    after (detect_cycle (length nodes + length edges) nodes edges)
      (detect_cycle-HasEnded nodes edges) (kahn-SortSays nodes edges distinct)
  where
    after :
        (r : Result SortError Colors)
        → HasEnded r
        → SortSays nodes edges (kahn (length nodes + length edges) nodes edges)
        → SortSays nodes edges (r >>= λ colors. kahn (length nodes + length edges) nodes edges)
    after (ok colors) ended h = h
    after (err cycle_error) ended h = tt
    after (err out_of_fuel) ended h = ended
