-- ===== src/RateLimit/Tests.antt =====
-- Runs of the limiter and of the registry, and their theorems at concrete inputs.
use obase.Base.{
  ℕ, ◌≤◌, ◌≡◌, ◌≢◌, refl, ◌⊎◌, some, none, Option, String, string_eq, List, [], ◌∷◌, count, arith,
}
use obase.RateLimit.{
  Limiter, granted, exceeded, init, evict, round, loop, acquire, register, get, load,
}
use obase.RateLimit.Window.{in_window}
use obase.RateLimit.Serve.{Call, serve, serve-window}
use obase.RateLimit.Waiting.{IsBounded, acquire_ends, acquire-IsBounded}

program : Unit {0}
unfolding init evict round loop acquire register get load serve string_eq
program = tt

-- Two grants in a second.
abbrev limiter : Limiter
limiter = record { rate = 2; period = 1_000_000_000; timestamps = [] }

abbrev full : Limiter
full = record limiter { timestamps = 10 ∷ 20 ∷ [] }

acquire_now :
    acquire none 30 ((30, 30) ∷ []) limiter ≡ (granted 30, record limiter { timestamps = 30 ∷ [] })
unfolding program
acquire_now = refl

acquire_gives_up : acquire (some 5) 30 ((30, 30) ∷ []) full ≡ (exceeded, full)
unfolding program
acquire_gives_up = refl

abbrev no_timeout : Option ℕ
no_timeout = none

abbrev llm : String
llm = "llm"

abbrev image : String
image = "image"

abbrev tts : String
tts = "tts"

abbrev calls : List Call
calls =
    record { timeout = none; start = 10; clock = (10, 10) ∷ [] }
    ∷ record { timeout = none; start = 20; clock = (20, 20) ∷ [] }
    ∷ record { timeout = none; start = 30; clock = (30, 31) ∷ (1_000_100_011, 1_000_100_012) ∷ [] }
    ∷ []

serve_three : (serve calls [] limiter).0 ≡ 10 ∷ 20 ∷ 1_000_100_011 ∷ []
unfolding program
serve_three = refl

serve-window_example : count (in_window 1_000_000_000 25) (serve calls [] limiter).0 ≤ 2
unfolding init
serve-window_example = serve-window 2 1_000_000_000 0 25 calls {l = limiter} refl (omega arith)

acquire_ends_example :
    let answer = (acquire none 30 ((30, 31) ∷ (1_000_100_011, 1_000_100_012) ∷ []) full).0 in
    (answer ≡ granted 30)
    ⊎ (answer ≡ granted 1_000_100_011)
    ⊎ ((answer ≡ exceeded) × (no_timeout ≢ none))
unfolding round evict
acquire_ends_example =
    acquire_ends no_timeout 30 30 31 1_000_100_011 1_000_100_012 [] full (omega arith) (omega arith)
      (λ n h. ground arith)

acquire-IsBounded_example : IsBounded (acquire (some 5) 30 ((30, 30) ∷ []) full).1
acquire-IsBounded_example = acquire-IsBounded (some 5) 30 ((30, 30) ∷ []) full (omega arith)
