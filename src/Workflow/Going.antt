-- ===== src/Workflow/Going.antt =====
-- A run that goes on after errors.
use obase.Base.{◌≡◌, String, string_eq, List, [], ◌∷◌, Result, ok}
use obase.Workflow.{Outputs, Error, Executor}
use obase.Workflow.Stored.{IsStored}

StoresAll : Executor → Outputs → List String → Outputs → Result Error (Unit {0}) × Outputs → Type 0
StoresAll executor outputs layer built (r, after) =
    (r ≡ ok tt) × IsStored executor outputs layer built after

-- Every layer runs on the outputs that those before have stored, and all it gives is stored.
abbrev pub GoesThrough :
    Executor → List (List String) → Outputs → Result Error (Unit {0}) × Outputs → Type 0
GoesThrough executor [] outputs (r, last) = (r ≡ ok tt) × (last ≡ outputs)
GoesThrough executor (layer ∷ layers) outputs s =
    (mid : Outputs) × IsStored executor outputs layer outputs mid
    × GoesThrough executor layers mid s
