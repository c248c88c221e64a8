-- ===== src/DockerPool/Tests.antt =====
-- Runs of a pool, and its theorems at concrete calls.
use obase.Base.{
  ◌≡◌, ◌≢◌, ◌≤◌, refl, true, String, string_eq, some, none, List, [], ◌∷◌, arith, ok, err, All,
}
use text.Mathlib.TextEquality.{eq_iff}
use obase.Base.Dict.{lookup, insert}
use obase.DockerPool.{
  Pool, removed, not_found, init, size, created, started, acquire, destroy, release, status, close,
  pool_full,
}
use obase.DockerPool.Size.{
  size-run-le, size-overlap, acquires, releases, closes, begin_all, create_all, IsCreating,
}
use obase.DockerPool.Size
use obase.DockerPool.Reuse
use obase.DockerPool.Reuse.{begin_never_reuses, creates, begins}

program : Unit {0}
unfolding init created started acquire destroy release status close begin_all create_all Size.run
    Size.apply Reuse.run Reuse.apply string_eq lookup insert
program = tt

abbrev one : Pool
one = record { image = "img"; max_size = 1; idle_timeout = 60; slots = []; counter = 0 }

one_made : init "img" 1 60 ≡ ok one
unfolding program
one_made = refl

b_ne_a : ◌≢◌ {A = String} "b" "a"
b_ne_a = ground (arith, eq_iff "b" "a")

-- A container that was released is not used again: the next caller finds the pool full.
released_then_full :
    (acquire 9 none
      (Size.run (acquires 1 (some ("a", "n", true)) ∷ releases 5 5 "a" removed ∷ []) one)).0
    ≡ err pool_full
unfolding program
released_then_full = refl

abbrev calls : List Size.Call
calls =
    acquires 1 (some ("a", "n", true))
    ∷ releases 5 5 "a" removed
    ∷ acquires 7 (some ("b", "m", true))
    ∷ closes (λ _. not_found)
    ∷ []

size-run-le_example : size (Size.run calls one) ≤ 1
size-run-le_example = size-run-le "img" 1 60 calls one_made

two_new : Size.AreNew ("a" ∷ "b" ∷ []) []
unfolding program
two_new = (refl, λ s. (ground (arith, b_ne_a), λ t. tt))

size-overlap_example :
    All IsCreating (begin_all 2 3 one).0
    × (size (create_all 3 ("a" ∷ "b" ∷ []) (begin_all 2 3 one).1) ≡ 2)
size-overlap_example = size-overlap "img" 1 60 3 ("a" ∷ "b" ∷ []) one_made two_new

abbrev parts : List Reuse.Part
parts = begins 1 ∷ creates 1 "a" "n" ∷ Reuse.releases 5 5 "a" removed ∷ []

abbrev later : Pool
later = Reuse.run parts one
