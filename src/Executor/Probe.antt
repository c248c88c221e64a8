-- ===== src/Executor/Probe.antt =====
-- obase/hardened_executor.py: `HoneypotProbe`. The files are a dict from paths to contents; writing and
-- deleting bait goes well.
use obase.Base.{Option, none, some, String, string_eq, List, [], ◌∷◌, ◌==◌, if◌then◌else◌}
use obase.Base.Dict.{Dict, lookup, insert, erase}
use obase.Capability.Tokens.{or_fresh}

abbrev pub Files : Type 0
Files = Dict String String

pub data Reason : Type 0 where
  removed modified : Reason

abbrev pub Trips : Type 0
Trips = List (String × Reason)

-- `content or b"STRATUM_PROBE_…"`, written to a path that is drawn at random.
unfoldable pub plant : String → Option String → Files → Files → Files × Files
unfolding insert
plant path content baits files =
    let body = or_fresh content "STRATUM_PROBE_<redacted_secret>_DO_NOT_READ" in
    (insert path body baits, insert path body files)

-- Whether a bait was touched.
abbrev pub touch_of : String → Option String → Option Reason
touch_of original none = some removed
touch_of original (some now) = if now == original then none else some modified

unfoldable pub check_touched : Files → Files → Trips
unfolding lookup
check_touched [] files = []
check_touched ((path, original) ∷ baits) files =
    let rest = check_touched baits files in
    elim (touch_of original (lookup path files)) [
      | none ↦ rest
      | some reason ↦ (path, reason) ∷ rest
    ]

-- The files once every bait is deleted; the probe keeps none.
unfoldable pub cleanup : Files → Files → Files
unfolding erase
cleanup [] files = files
cleanup ((path, original) ∷ baits) files = cleanup baits (erase path files)
