-- ===== src/Workflow/Tests.antt =====
-- Two layers, and the theorems at runs of them.
use obase.Base.{
  ◌≡◌, refl, true, String, string_eq, nat_eq, ℕ, arith, List, [], ◌∷◌, ok, err, ◌==◌, if◌then◌else◌,
}
use obase.Base.Dict.{lookup, insert}
use obase.Workflow.{
  returned, raised, Executor, execution_failed, value_error, store, run_layers, execute,
}
use obase.Workflow.Sort.{
  cycle_error, targets, visit, dfs, search, all_white, detect_cycle, all_zero, count_edges, relax,
  process, layers_from, kahn, topological_sort, total,
}
use obase.Workflow.Acyclic.{topological_sort-IsOrdered}
use obase.Workflow.Order.{IsOrdered, SortSays, topological_sort-SortSays}
use obase.Workflow.Layers.{RunSays, rollback-RunSays}

program : Unit {0}
unfolding lookup insert string_eq store run_layers execute
program = tt

abbrev layers : List (List String)
layers = ("a" ∷ []) ∷ ("b" ∷ "c" ∷ []) ∷ []

-- "b" fails.
abbrev executor : Executor
executor node outputs = if node == "b" then raised "boom" else returned node

stops_at_b :
    execute executor "rollback" layers []
    ≡ (err (execution_failed "b" "boom"), ("a", returned "a") ∷ [])
unfolding program
stops_at_b = refl

goes_on :
    execute executor "continue" layers []
    ≡ (ok tt, ("a", returned "a") ∷ ("b", raised "boom") ∷ ("c", returned "c") ∷ [])
unfolding program
goes_on = refl

wrong_mode : (execute executor "ignore" layers []).0 ≡ err value_error
unfolding program
wrong_mode = refl

rollback-RunSays_example : RunSays executor layers [] (run_layers true executor layers [])
rollback-RunSays_example = rollback-RunSays executor layers []

abbrev nodes : List String
nodes = "a" ∷ "b" ∷ "c" ∷ "d" ∷ []

abbrev edges : List (String × String)
edges = ("b", "c") ∷ ("a", "c") ∷ ("c", "d") ∷ ("a", "d") ∷ []

sort_program : Unit {0}
unfolding string_eq nat_eq lookup insert targets visit dfs search all_white detect_cycle all_zero
    count_edges relax process layers_from kahn topological_sort
sort_program = tt

sort_diamond : topological_sort 8 nodes edges ≡ ok (("a" ∷ "b" ∷ []) ∷ ("c" ∷ []) ∷ ("d" ∷ []) ∷ [])
unfolding sort_program
sort_diamond = refl

sort_cycle : topological_sort 9 nodes (("d", "b") ∷ edges) ≡ err cycle_error
unfolding sort_program
sort_cycle = refl

-- A target that is no node comes in a layer, and the count of the layers no longer fits.
sort_unknown : topological_sort 4 ("a" ∷ []) (("a", "x") ∷ []) ≡ err cycle_error
unfolding sort_program
sort_unknown = refl

topological_sort-SortSays_example : SortSays nodes edges (topological_sort 8 nodes edges)
unfolding sort_program
topological_sort-SortSays_example =
    topological_sort-SortSays nodes edges (refl, (refl, (refl, (refl, tt))))

-- Nodes by their place in the alphabet.
abbrev rank : String → ℕ
rank n = if n == "a" then 0 else if n == "b" then 1 else if n == "c" then 2 else 3

topological_sort-IsOrdered_example :
    (layers : List (List String)) × (topological_sort 8 nodes edges ≡ ok layers)
    × IsOrdered edges [] layers
    × (total layers ≡ 4)
unfolding sort_program
topological_sort-IsOrdered_example =
    topological_sort-IsOrdered rank nodes edges (refl, (refl, (refl, (refl, tt))))
      (omega arith, (omega arith, (omega arith, (omega arith, tt))))
      (refl, refl, (refl, refl, (refl, refl, (refl, refl, tt))))
