-- ===== src/Base/Words.antt =====
-- The steps of `str.split`.
use mathlib.Core.Bool.{Bool, true, false}
use mathlib.Core.List.{List, [], ◌∷◌}
use obase.Base.Equality.{string_eq, ◌==◌, if◌then◌else◌}
use Prim.Native.String.{String, ◌∷◌ as cons_char}
use Prim.Native.Char.{Char}

abbrev pub no_words : String × List String
no_words = ("", [])

abbrev pub push_word : String → List String → List String
push_word word words = if word == "" then words else word ∷ words

abbrev pub split_step : Bool → Char → String × List String → String × List String
split_step true c (word, words) = ("", push_word word words)
split_step false c (word, words) = (cons_char c word, words)
