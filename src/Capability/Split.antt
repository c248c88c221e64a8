-- ===== src/Capability/Split.antt =====
-- Texts of obase/permission_contract.py: `rsplit(".", 1)` and the wildcard's tests.
use Prim.Native.String.{String, [], ◌∷◌, ◌++◌, char_at}
use Prim.Native.String.append
use Prim.Native.Char.{Char, code}
use obase.Base.{
  ◌≡◌, refl, ap, ◌∙◌, Bool, false, ◌||◌, ◌&&◌, Option, none, some, ◌==◌, nat_eq, if◌then◌else◌,
  arith, string_eq,
}
use text.Mathlib.Text.{starts_with}

abbrev dot : Char
dot = char_at "." 0

abbrev pub is_dot : Char → Bool
is_dot c = code c == 46

unfoldable pub has_dot : String → Bool
has_dot [] = false
has_dot (c ∷ s) = is_dot c || has_dot s

-- `token.rsplit(".", 1)`: the parts before and after the last dot, if there is one.
unfoldable pub rsplit : String → Option (String × String)
rsplit [] = none
rsplit (c ∷ s) = elim (rsplit s) [
  | some (a, b) ↦ some (c ∷ a, b)
  | none ↦ if is_dot c then some ([], s) else none
]

-- `s.endswith(".*")` and `s[:-1]`.
unfoldable pub is_wildcard : String → Bool
is_wildcard [] = false
is_wildcard (c ∷ s) = (c ∷ s) == ".*" || is_wildcard s

unfoldable pub stem : String → String
stem [] = []
stem (c ∷ []) = []
stem (c ∷ d ∷ s) = c ∷ stem (d ∷ s)

-- One round of the loop of `has_capability`.
unfoldable pub covers_wild : String → String → Bool
unfolding is_wildcard stem
covers_wild required granted =
    (is_wildcard required && starts_with granted (stem required))
    || (is_wildcard granted && starts_with required (stem granted))

unfoldable pub covers : String → String → Bool
unfolding covers_wild
covers required granted = granted == required || covers_wild required granted

rsplit-none : (s : String) → has_dot s ≡ false → rsplit s ≡ none
unfolding rsplit has_dot nat_eq
rsplit-none [] h = refl
rsplit-none (c ∷ s) h = ground (arith, rsplit-none s)

join_dot : (s : String) → "." ++ s ≡ dot ∷ s
join_dot s = append.cons dot [] s ∙ ap (λ t. dot ∷ t) (append.nil s)

pub rsplit-join : (p s : String) → has_dot s ≡ false → rsplit (p ++ "." ++ s) ≡ some (p, s)
unfolding rsplit has_dot nat_eq
rsplit-join [] s h = rw (append.nil ("." ++ s), join_dot s, rsplit, rsplit-none s h) refl
rsplit-join (c ∷ p) s h = rw (append.cons c p ("." ++ s), rsplit, rsplit-join p s h) refl
