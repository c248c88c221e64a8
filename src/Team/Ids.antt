-- ===== src/Team/Ids.antt =====
-- Different ids for runs.
use obase.Base.{ℕ, zero, suc, ◌≡◌, refl, sym, ap, ◌∙◌}
use Prim.Native.String.{String, [], ◌∷◌, char_at}

abbrev pub unary : ℕ → String
unary zero = []
unary (suc n) = char_at "x" 0 ∷ unary n

size : String → ℕ
size [] = 0
size (c ∷ s) = suc (size s)

size-unary : (n : ℕ) → size (unary n) ≡ n
unfolding size
size-unary zero = refl
size-unary (suc n) = ap suc (size-unary n)

pub unary-injective : (j k : ℕ) → unary j ≡ unary k → j ≡ k
unary-injective j k h = sym (size-unary j) ∙ ap size h ∙ size-unary k
