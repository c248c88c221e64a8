-- ===== src/Runbook/Checks.antt =====
-- What the loop over the checks of a node comes to.
use obase.Base.{
  ◌≡◌, ◌⊎◌, refl, sym, ◌∙◌, append_assoc, append-nil, true, false, ◌&&◌, not, none, some, List, [],
  ◌∷◌, ◌++◌, arith, Option-cases, Bool-cases, inl, inr,
}
use obase.Base.Members.{In}
use obase.Runbook.State.{Check, Verdict, Evidence}
use obase.Runbook.Goto.{Runner, Checked, all_passed, failed_at, raised, run_checks}

-- The result that is kept of a check.
abbrev pub evidence : Check → Verdict → Evidence
evidence c v = record { check_id = c.id; type = c.type; verdict = v }

-- Every check has answered and holds no transition up, and these are the results in order.
abbrev pub ArePassed : Runner → List Check → List Evidence → Type 0
ArePassed runner [] done = done ≡ []
ArePassed runner (c ∷ cs) done =
    (v : Verdict) × (later : List Evidence) × (runner c ≡ some v)
    × (c.blocking && not v.passed ≡ false)
    × (done ≡ evidence c v ∷ later)
    × ArePassed runner cs later

-- A check that blocks has failed with this verdict, those before it did not hold the run up, and these
-- are the results up to it in order.
abbrev pub IsFirstFailure : Runner → List Check → Verdict → List Evidence → Type 0
IsFirstFailure runner [] v done = ⊥
IsFirstFailure runner (c ∷ cs) v done =
    ((runner c ≡ some v) × (c.blocking ≡ true) × (v.passed ≡ false) × (done ≡ evidence c v ∷ []))
    ⊎ ((w : Verdict) × (later : List Evidence) × (runner c ≡ some w)
        × (c.blocking && not w.passed ≡ false)
        × (done ≡ evidence c w ∷ later)
        × IsFirstFailure runner cs v later)

-- What the loop over checks tells that starts after these results.
unfoldable pub ChecksSay : Runner → List Check → List Evidence → Checked → Type 0
ChecksSay runner cs before (all_passed done) =
    (new : List Evidence) × (done ≡ before ++ new) × ArePassed runner cs new
ChecksSay runner cs before (failed_at v done) =
    (new : List Evidence) × (done ≡ before ++ new) × IsFirstFailure runner cs v new
ChecksSay runner cs before raised = (c : Check) × In c cs × (runner c ≡ none)

ChecksSay-cons :
    (runner : Runner) (c : Check) (cs : List Check) (before : List Evidence) (r : Checked)
    (v : Verdict)
    → runner c ≡ some v
    → c.blocking && not v.passed ≡ false
    → ChecksSay runner cs (before ++ evidence c v ∷ []) r
    → ChecksSay runner (c ∷ cs) before r
unfolding ChecksSay
ChecksSay-cons runner c cs before (all_passed done) v at free (new, is, h) = (
  evidence c v ∷ new,
  is ∙ append_assoc before (evidence c v ∷ []) new,
  (v, new, at, free, refl, h),
)
ChecksSay-cons runner c cs before (failed_at w done) v at free (new, is, h) = (
  evidence c v ∷ new,
  is ∙ append_assoc before (evidence c v ∷ []) new,
  inr (v, new, at, free, refl, h),
)
ChecksSay-cons runner c cs before raised v at free (d, among, broken) = (d, inr among, broken)

pub run_checks-ChecksSay :
    (runner : Runner) (cs : List Check) (before : List Evidence)
    → ChecksSay runner cs before (run_checks runner before cs)
unfolding run_checks ChecksSay
run_checks-ChecksSay runner [] before = ([], sym (append-nil before), refl)
run_checks-ChecksSay runner (c ∷ cs) before = elim (Option-cases (runner c)) [
  | inl broken ↦ rw (broken, run_checks) (c, inl refl, broken)
  | inr (v, answered) ↦
      let rest = run_checks-ChecksSay runner cs (before ++ evidence c v ∷ []) in
      elim (Bool-cases (c.blocking && not v.passed)) [
        | inl held ↦
            rw (answered, run_checks, held)
              (
                evidence c v ∷ [],
                refl,
                inl (answered, ground (arith, held), ground (arith, held), refl),
              )
        | inr passed ↦
            rw (answered, run_checks, passed)
              (ChecksSay-cons runner c cs before _ v answered passed rest)
      ]
]
