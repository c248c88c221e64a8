-- ===== src/Workflow/Stored.antt =====
-- The outputs after the results of a layer are stored.
use obase.Base.{
  ◌≡◌, Bool, some, String, string_eq, List, ◌∷◌, exists, ◌==◌, if◌then◌else◌, arith, Bool-cases,
  inl, inr,
}
use obase.Base.Dict.{lookup, insert, lookup-insert}
use obase.Workflow.{Outcome, Outputs, Executor}

abbrev pub is_among : String → List String → Bool
is_among node layer = exists (λ n. n == node) layer

-- A node of the list has what the executor gives for it on some outputs, every other node what it had
-- before.
abbrev pub IsStored : Executor → Outputs → List String → Outputs → Outputs → Type 0
IsStored executor outputs layer before after =
    (node : String)
    → lookup node after
      ≡ (if is_among node layer then some (executor node outputs) else lookup node before)

pub IsStored-cons :
    (executor : Executor) (outputs : Outputs) (node : String) (layer : List String) (o : Outcome)
    (before after : Outputs)
    → executor node outputs ≡ o
    → IsStored executor outputs layer (insert node o before) after
    → IsStored executor outputs (node ∷ layer) before after
IsStored-cons executor outputs node layer o before after at h other =
    elim (Bool-cases (is_among other layer)) [
      | inl there ↦ ground (arith, h other, there)
      | inr not_there ↦ ground (arith, h other, not_there, lookup-insert other node o before, at)
    ]
