-- ===== src/Workflow/Sort.antt =====
-- obase/workflow_engine.py: `detect_cycle` and `topological_sort`. The depth of the search and the `while`
-- loop run on fuel; theorems say how much is enough.
use obase.Base.{
  ℕ, zero, suc, ◌+◌, Bool, true, false, Option, none, some, String, string_eq, nat_eq, List, [],
  ◌∷◌, ◌++◌, length, select, Result, ok, err, ◌>>=◌, ◌==◌, if◌then◌else◌,
}
use obase.Base.Int.{ℤ, pos, negsuc}
use obase.Base.Dict.{Dict, lookup, insert}

pub data SortError : Type 0 where
  cycle_error out_of_fuel : SortError

abbrev pub Edges : Type 0
Edges = List (String × String)

-- `adj[node]`
unfoldable pub targets : String → Edges → List String
targets node [] = []
targets node ((src, dst) ∷ edges) =
    let rest = targets node edges in if src == node then dst ∷ rest else rest

pub data Color : Type 0 where
  white gray black : Color

abbrev pub Colors : Type 0
Colors = Dict String Color

abbrev pub or_white : Option Color → Color
or_white none = white
or_white (some c) = c

-- `color.get(n, WHITE)`
abbrev pub color : String → Colors → Color
color n colors = or_white (lookup n colors)

-- The loop over the neighbours, whose white ones are searched in turn.
unfoldable pub visit :
    (String → Colors → Result SortError Colors) → List String → Colors → Result SortError Colors
visit go [] colors = ok colors
visit go (n ∷ ns) colors = elim (color n colors) [
  | gray ↦ err cycle_error
  | white ↦ go n colors >>= λ colors'. visit go ns colors'
  | black ↦ visit go ns colors
]

unfoldable pub dfs : ℕ → Edges → String → Colors → Result SortError Colors
unfolding visit targets
dfs zero edges node colors = err out_of_fuel
dfs (suc fuel) edges node colors =
    visit (dfs fuel edges) (targets node edges) (insert node gray colors) >>= λ colors'.
    ok (insert node black colors')

-- The loop over all nodes.
unfoldable pub search :
    (String → Colors → Result SortError Colors) → List String → Colors → Result SortError Colors
search go [] colors = ok colors
search go (n ∷ ns) colors = elim (color n colors) [
  | white ↦ go n colors >>= λ colors'. search go ns colors'
  | gray ↦ search go ns colors
  | black ↦ search go ns colors
]

unfoldable pub all_white : List String → Colors → Colors
all_white [] colors = colors
all_white (n ∷ nodes) colors = all_white nodes (insert n white colors)

unfoldable pub detect_cycle : ℕ → List String → Edges → Result SortError Colors
unfolding dfs search all_white
detect_cycle fuel nodes edges = search (dfs fuel edges) nodes (all_white nodes [])

abbrev pub Degrees : Type 0
Degrees = Dict String ℤ

abbrev pub or_zero : Option ℤ → ℤ
or_zero none = pos 0
or_zero (some z) = z

abbrev pub degree : String → Degrees → ℤ
degree x degrees = or_zero (lookup x degrees)

abbrev pub plus_one : ℤ → ℤ
plus_one (pos n) = pos (suc n)
plus_one (negsuc zero) = pos 0
plus_one (negsuc (suc n)) = negsuc n

abbrev pub minus_one : ℤ → ℤ
minus_one (pos zero) = negsuc 0
minus_one (pos (suc n)) = pos n
minus_one (negsuc n) = negsuc (suc n)

abbrev pub is_zero : ℤ → Bool
is_zero (pos zero) = true
is_zero _ = false

unfoldable pub all_zero : List String → Degrees → Degrees
all_zero [] degrees = degrees
all_zero (n ∷ nodes) degrees = all_zero nodes (insert n (pos 0) degrees)

unfoldable pub count_edges : Edges → Degrees → Degrees
count_edges [] degrees = degrees
count_edges ((src, dst) ∷ edges) degrees =
    count_edges edges (insert dst (plus_one (degree dst degrees)) degrees)

-- The loop over `adj[node]`.
unfoldable pub relax : List String → Degrees × List String → Degrees × List String
relax [] (degrees, queue) = (degrees, queue)
relax (t ∷ ts) (degrees, queue) =
    let left = minus_one (degree t degrees) in
    relax ts (insert t left degrees, if is_zero left then queue ++ t ∷ [] else queue)

-- The loop over a layer.
unfoldable pub process : Edges → List String → Degrees × List String → Degrees × List String
unfolding relax targets
process edges [] s = s
process edges (node ∷ layer) s = process edges layer (relax (targets node edges) s)

-- The `while` loop.
unfoldable pub layers_from :
    ℕ → Edges → Degrees → List String → Result SortError (List (List String))
unfolding process
layers_from fuel edges degrees [] = ok []
layers_from zero edges degrees (n ∷ queue) = err out_of_fuel
layers_from (suc fuel) edges degrees (n ∷ queue) =
    let (degrees', queue') = process edges (n ∷ queue) (degrees, []) in
    elim (layers_from fuel edges degrees' queue') [
      | err e ↦ err e
      | ok layers ↦ ok ((n ∷ queue) ∷ layers)
    ]

abbrev pub total : List (List String) → ℕ
total [] = 0
total (layer ∷ layers) = length layer + total layers

-- The test of the end.
abbrev pub checked :
    List String → Result SortError (List (List String)) → Result SortError (List (List String))
checked nodes (err e) = err e
checked nodes (ok layers) = if total layers == length nodes then ok layers else err cycle_error

unfoldable pub kahn : ℕ → List String → Edges → Result SortError (List (List String))
unfolding all_zero count_edges layers_from
kahn fuel nodes edges =
    let degrees = count_edges edges (all_zero nodes []) in
    let queue = select (λ n. is_zero (degree n degrees)) nodes in
    checked nodes (layers_from fuel edges degrees queue)

unfoldable pub topological_sort : ℕ → List String → Edges → Result SortError (List (List String))
unfolding detect_cycle kahn
topological_sort fuel nodes edges =
    detect_cycle fuel nodes edges >>= λ colors. kahn fuel nodes edges
