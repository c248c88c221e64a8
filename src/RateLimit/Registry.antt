-- ===== src/RateLimit/Registry.antt =====
-- The registry of named limiters.
use obase.Base.{
  ℕ, ◌≡◌, refl, Bool, true, false, String, string_eq, List, [], ◌∷◌, ◌++◌, All, arith, ◌==◌,
  if◌then◌else◌, ok, err, ltb, ◌&&◌,
}
use obase.Base.Dict.{lookup-insert}
use obase.RateLimit.{value_error, Limiter, Limiters, register, get, load}

abbrev pub is_good : String × ℕ × ℕ → Bool
is_good (_, rate, period) = ltb 0 rate && ltb 0 period

register_good :
    (name : String) (rate period : ℕ) (limiters : Limiters)
    → is_good (name, rate, period) ≡ true
    → (register name rate period limiters).0
      ≡ ok (record { rate = rate; period = period; timestamps = [] })
unfolding register
register_good name rate period limiters h = ground arith

register_bad :
    (name : String) (rate period : ℕ) (limiters : Limiters)
    → is_good (name, rate, period) ≡ false
    → register name rate period limiters ≡ (err value_error, limiters)
unfolding register
register_bad name rate period limiters h = ground arith

-- After a registration with a positive rate and period, a lookup of that name gives the new
-- limiter and of any other name what it gave before; with a zero rate or period the registration
-- raises and leaves the registry as it was.
pub get-register :
    (name other : String) (rate period : ℕ) (limiters : Limiters)
    → let (result, after) = register name rate period limiters in
      (is_good (name, rate, period) ≡ true
        → get other after ≡ (if other == name then result else get other limiters))
      × (is_good (name, rate, period) ≡ false → (result ≡ err value_error) × (after ≡ limiters))
unfolding register get
get-register name other rate period limiters =
    let fresh : Limiter = record { rate = rate; period = period; timestamps = [] } in
    (λ h. ground (arith, lookup-insert other name fresh limiters), λ h. ground arith)

-- A file whose entries are all good up to one that is not registers those before it, in order, and
-- raises there: what follows is not looked at, and what was registered stays.
pub load_stops :
    (good rest : List (String × ℕ × ℕ)) (bad : String × ℕ × ℕ) (limiters : Limiters)
    → All (λ entry. is_good entry ≡ true) good
    → is_good bad ≡ false
    → ((load good limiters).0 ≡ ok tt)
      × (load (good ++ bad ∷ rest) limiters ≡ (err value_error, (load good limiters).1))
unfolding load
load_stops [] rest (name, rate, period) limiters h b =
    (refl, ground (arith, register_bad name rate period limiters b))
load_stops ((name, rate, period) ∷ good) rest bad limiters h b =
    let after = (register name rate period limiters).1 in
    ground
      (arith, register_good name rate period limiters h.0, load_stops good rest bad after h.1 b)
