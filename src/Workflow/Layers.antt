-- ===== src/Workflow/Layers.antt =====
-- What a run of the layers leaves with "rollback".
use obase.Base.{
  ◌≡◌, ◌⊎◌, refl, ap, true, String, string_eq, List, [], ◌∷◌, ◌++◌, All, Result, ok, err, inl, inr,
}
use obase.Base.Dict.{insert}
use obase.Workflow.{
  Outcome, returned, raised, Outputs, Error, value_error, execution_failed, Executor, store, gather,
  run_layers,
}
use obase.Workflow.Stored.{IsStored, IsStored-cons}

abbrev pub Returns : Executor → Outputs → String → Type 0
Returns executor outputs node = (r : String) × (executor node outputs ≡ returned r)

-- The first node of the list that fails: those before it return and are stored, nothing else is.
abbrev pub FailsFirst :
    Executor → Outputs → List String → Outputs → String → String → Outputs → Type 0
FailsFirst executor outputs layer built n e after =
    (before : List String) × (rest : List String) × (layer ≡ before ++ n ∷ rest)
    × All (Returns executor outputs) before
    × (executor n outputs ≡ raised e)
    × IsStored executor outputs before built after

-- What storing a layer's results with "rollback" comes to.
StoreSays : Executor → Outputs → List String → Outputs → Result Error (Unit {0}) → Outputs → Type 0
StoreSays executor outputs layer built (ok _) after =
    All (Returns executor outputs) layer × IsStored executor outputs layer built after
StoreSays executor outputs layer built (err value_error) after = ⊥
StoreSays executor outputs layer built (err (execution_failed n e)) after =
    FailsFirst executor outputs layer built n e after

StoreSays-cons :
    (executor : Executor) (outputs built : Outputs) (node : String) (layer : List String)
    (r : String) (result : Result Error (Unit {0})) (after : Outputs)
    → executor node outputs ≡ returned r
    → StoreSays executor outputs layer (insert node (returned r) built) result after
    → StoreSays executor outputs (node ∷ layer) built result after
unfolding StoreSays
StoreSays-cons executor outputs built node layer r (ok _) after at (all, stored) =
    (((r, at), all), IsStored-cons executor outputs node layer (returned r) built after at stored)
StoreSays-cons executor outputs built node layer r (err value_error) after at h = h
StoreSays-cons executor outputs built node layer r (err (execution_failed n e)) after at
      (before, rest, is, all, bad, stored) =
    (
      node ∷ before,
      rest,
      ap (λ ns. node ∷ ns) is,
      ((r, at), all),
      bad,
      IsStored-cons executor outputs node before (returned r) built after at stored,
    )

store-StoreSays :
    (executor : Executor) (outputs : Outputs) (layer : List String) (built : Outputs)
    → let (r, after) = store true (gather executor outputs layer) built in
      StoreSays executor outputs layer built r after
unfolding store StoreSays
store-StoreSays executor outputs [] built = (tt, λ node. refl)
store-StoreSays executor outputs (node ∷ layer) built =
    by_outcome (executor node outputs) refl
      (λ r. store-StoreSays executor outputs layer (insert node (returned r) built))
  where
    by_outcome :
        (o : Outcome)
        → executor node outputs ≡ o
        → ((r : String)
            → let (result, after) =
                store true (gather executor outputs layer) (insert node (returned r) built) in
              StoreSays executor outputs layer (insert node (returned r) built) result after)
        → let (result, after) = store true ((node, o) ∷ gather executor outputs layer) built in
          StoreSays executor outputs (node ∷ layer) built result after
    by_outcome (returned r) at rest =
        StoreSays-cons executor outputs built node layer r _ _ at (rest r)
    by_outcome (raised e) at rest = ([], layer, refl, tt, at, λ other. refl)

-- The layers run one after the other, each on the outputs that those before have stored; the run ends
-- well if every node returns, and else with the first node that fails, in the first layer where one
-- does, and what was stored up to then.
abbrev pub RunSays :
    Executor → List (List String) → Outputs → Result Error (Unit {0}) × Outputs → Type 0
RunSays executor [] outputs (r, last) = (r ≡ ok tt) × (last ≡ outputs)
RunSays executor (layer ∷ layers) outputs (r, last) =
    (All (Returns executor outputs) layer
      × ((mid : Outputs) × IsStored executor outputs layer outputs mid
          × RunSays executor layers mid (r, last)))
    ⊎ ((n : String) × (e : String) × (r ≡ err (execution_failed n e))
        × FailsFirst executor outputs layer outputs n e last)

-- With "rollback" a run ends well only if every node returned, each layer's nodes given the outputs of
-- the layers before it, and then holds what each of them returned; otherwise it names the first node,
-- in the order of the first layer where one failed, that failed, with its exception, and what it
-- holds are the outputs of the earlier layers and of the nodes before that one in its layer: nothing
-- of that node, of those after it or of later layers is stored.
pub rollback-RunSays :
    (executor : Executor) (layers : List (List String)) (outputs : Outputs)
    → RunSays executor layers outputs (run_layers true executor layers outputs)
unfolding run_layers StoreSays
rollback-RunSays executor [] outputs = (refl, refl)
rollback-RunSays executor (layer ∷ layers) outputs =
    go (store true (gather executor outputs layer) outputs).0
      (store-StoreSays executor outputs layer outputs)
      (rollback-RunSays executor layers (store true (gather executor outputs layer) outputs).1)
  where
    after : Outputs
    after = (store true (gather executor outputs layer) outputs).1

    go :
        (r : Result Error (Unit {0}))
        → StoreSays executor outputs layer outputs r after
        → RunSays executor layers after (run_layers true executor layers after)
        → let next : Result Error (Unit {0}) × Outputs = elim r [
          | ok _ ↦ run_layers true executor layers after
          | err e ↦ (err e, after)
        ] in
          RunSays executor (layer ∷ layers) outputs next
    go (ok _) (all, stored) rest = inl (all, (after, stored, rest))
    go (err value_error) says rest = elim says [ ]
    go (err (execution_failed n e)) says rest = inr (n, e, refl, says)
