-- ===== src/Base/Text.antt =====
-- Methods of Python's `str`, on ASCII: `strip`, `lower`, `split`, `replace`, `in` and a prefix of
-- characters.
use Prim.Native.String.{String, [], ◌∷◌, ◌++◌, char_at}
use text.Mathlib.Text.{find?, starts_with}
use Prim.Native.Char.{Char, code}
use Prim.Native.Nat.{ℕ, zero, suc, ◌-◌}
use mathlib.Core.Bool.{Bool, true, false, ◌&&◌, ◌||◌}
use mathlib.Core.Option.{none, some}
use mathlib.Core.List.{List}
use obase.Base.Equality.{◌==◌, if◌then◌else◌, string_eq, nat_eq}
use obase.Base.Tests.{leb}
use obase.Base.Words.{push_word, split_step, no_words}

abbrev pub is_space : Char → Bool
is_space c =
    code c == 32 || (leb 9 (code c) && leb (code c) 13) || (leb 28 (code c) && leb (code c) 31)

abbrev lower_char : Char → Char
lower_char c =
    if leb 65 (code c) && leb (code c) 90
    then char_at "abcdefghijklmnopqrstuvwxyz" (code c - 65)
    else c

unfoldable pub lower : String → String
lower [] = []
lower (c ∷ s) = lower_char c ∷ lower s

unfoldable pub lstrip : String → String
lstrip [] = []
lstrip (c ∷ s) = let rest = lstrip s in if is_space c then rest else c ∷ s

unfoldable pub rstrip : String → String
rstrip [] = []
rstrip (c ∷ s) = let rest = rstrip s in if is_space c && rest == "" then "" else c ∷ rest

abbrev pub strip : String → String
strip s = lstrip (rstrip s)

-- The word that a text begins with, and the words after it.
unfoldable pub cut_words : String → String × List String
cut_words [] = no_words
cut_words (c ∷ s) = split_step (is_space c) c (cut_words s)

-- `s.split()`
abbrev pub split : String → List String
split s = let (word, words) = cut_words s in push_word word words

-- `sub in s`
abbrev pub is_in : String → String → Bool
is_in sub s = elim (find? s sub) [ none ↦ false | some _ ↦ true ]

-- `s[:n]`
unfoldable pub take : ℕ → String → String
take zero s = []
take (suc n) [] = []
take (suc n) (c ∷ s) = c ∷ take n s

abbrev count_chars : String → ℕ
count_chars [] = 0
count_chars (c ∷ s) = suc (count_chars s)

-- The characters after `skip` of them, with every `old` replaced, from the left.
unfoldable pub replace_from : ℕ → String → String → String → String
replace_from skip old new [] = []
replace_from (suc skip) old new (c ∷ s) = replace_from skip old new s
replace_from zero old new (c ∷ s) =
    let kept = replace_from zero old new s in
    let cut = replace_from (count_chars old - 1) old new s in
    if starts_with (c ∷ s) old then new ++ cut else c ∷ kept

-- `s.replace(old, new)`, of an `old` that is not empty.
abbrev pub replace : String → String → String → String
replace s old new = replace_from 0 old new s
