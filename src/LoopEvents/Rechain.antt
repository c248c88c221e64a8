-- ===== src/LoopEvents/Rechain.antt =====
-- A migrated file verifies, whatever it was before.
use obase.Base.{
  ℕ, zero, suc, ◌+◌, ◌-◌, ◌≤◌, ◌≡◌, refl, sym, subst, ◌∙◌, Option, none, some, String, string_eq,
  nat_eq, List, [], ◌∷◌, map, length, ltb, Result, ok, err, ◌>>=◌, arith, Option-cases, Bool-cases,
  inl, inr,
}
use obase.LoopEvents.Log.{
  Row, Line, row, Pieces, split_lines, LineHash, genesis, Fault, sound, check_row, verify,
}
use obase.LoopEvents.Chain.{IsChain, lines, verify-lines}
use obase.LoopEvents.Migrate.{upgrade, rechain, migrate_rows, migrate, target_of}

module _ {P : Type 0} (line_hash : LineHash P) (upgrades : ℕ → Option (Row P → Row P)) where
  -- The migrations leave sequence numbers alone.
  abbrev pub KeepSeq : Type 0
  KeepSeq = (ver : ℕ) (f : Row P → Row P) (r : Row P) → upgrades ver ≡ some f → (f r).seq ≡ r.seq

  -- Rows numbered one after the other, of versions up to a target.
  abbrev pub AreNumbered : ℕ → ℕ → List (Row P) → Type 0
  AreNumbered target seq [] = Unit
  AreNumbered target seq (r ∷ rows) =
      (r.seq ≡ seq + 1) × (r.v ≤ target) × AreNumbered target r.seq rows

  UpgradeSays : ℕ → ℕ → Result Fault (Row P) → Type 0
  UpgradeSays target seq (err fault) = Unit
  UpgradeSays target seq (ok r) = (r.seq ≡ seq) × (r.v ≡ target)

  upgrade-UpgradeSays :
      KeepSeq
      → (left ver target : ℕ) (r : Row P) → r.v ≡ ver
      → ver + left ≡ target
      → UpgradeSays target r.seq (upgrade line_hash upgrades left ver r)
  unfolding upgrade UpgradeSays
  upgrade-UpgradeSays keep zero ver target r is ends = (refl, omega (arith, is, ends))
  upgrade-UpgradeSays keep (suc left) ver target r is ends = elim (Option-cases (upgrades ver)) [
    | inl missing ↦ rw (missing, upgrade) tt
    | inr (f, found) ↦
        rw (found, upgrade)
          (subst
            (λ (n : ℕ).
              UpgradeSays target n
                (upgrade line_hash upgrades left (suc ver) (record (f r) { v = suc ver })))
            (keep ver f r found)
            (upgrade-UpgradeSays keep left (suc ver) target (record (f r) { v = suc ver }) refl
              (omega (arith, ends))))
  ]

  MigrateSays : ℕ → String → ℕ → Result Fault (List (Row P) × ℕ) → Type 0
  MigrateSays target prev seq (err fault) = Unit
  MigrateSays target prev seq (ok (rows, steps)) = IsChain line_hash target prev seq rows

  check_row-rechained :
      (target seq : ℕ) (prev : String) (r : Row P)
      → r.seq ≡ seq + 1
      → r.v ≡ target
      → check_row line_hash target prev seq (rechain line_hash upgrades prev r) ≡ none
  unfolding check_row
  check_row-rechained target seq prev r number is = ground (arith, number, is)

  migrate_rows-MigrateSays :
      KeepSeq
      → (rows : List (Row P)) (target seq : ℕ) (prev : String) → AreNumbered target seq rows
      → MigrateSays target prev seq (migrate_rows line_hash upgrades target prev (lines rows))
  unfolding migrate_rows MigrateSays UpgradeSays
  migrate_rows-MigrateSays keep [] target seq prev numbered = tt
  migrate_rows-MigrateSays keep (r ∷ rows) target seq prev (number, old, numbered) =
      upgraded (upgrade line_hash upgrades (target - r.v) r.v r)
        (upgrade-UpgradeSays keep (target - r.v) r.v target r refl (omega (arith, old)))
        (λ prev'. migrate_rows-MigrateSays keep rows target r.seq prev' numbered)
    where
      followed :
          (r' : Row P) (rest : Result Fault (List (Row P) × ℕ))
          → check_row line_hash target prev seq (rechain line_hash upgrades prev r') ≡ none
          → MigrateSays target (rechain line_hash upgrades prev r').hash r'.seq rest
          → MigrateSays target prev seq (
              rest >>= λ rest'.
              ok (rechain line_hash upgrades prev r' ∷ rest'.0, (target - r.v) + rest'.1))
      followed r' (err fault) good h = tt
      followed r' (ok (rows', steps)) good h = (good, h)

      upgraded :
          (u : Result Fault (Row P))
          → UpgradeSays target r.seq u
          → ((prev' : String)
              → MigrateSays target prev' r.seq
                  (migrate_rows line_hash upgrades target prev' (lines rows)))
          → MigrateSays target prev seq (
              u >>= λ r'.
              migrate_rows line_hash upgrades target
                (rechain line_hash upgrades prev r').hash
                (lines rows)
              >>= λ rest. ok (rechain line_hash upgrades prev r' ∷ rest.0, (target - r.v) + rest.1))
      upgraded (err fault) says rest = tt
      upgraded (ok r') (same, is) rest =
          let prev' = (rechain line_hash upgrades prev r').hash in
          let after = migrate_rows line_hash upgrades target prev' (lines rows) in
          followed r' after (check_row-rechained target seq prev r' (same ∙ number) is)
            (subst (λ (n : ℕ). MigrateSays target prev' n after) (sym same) (rest prev'))

  -- A migration that goes well leaves a file that verifies under the target version, whatever hashes
  -- the rows carried before, if the rows that `splitlines()` gives were numbered one after the other,
  -- of versions up to the target, and the migrations keep sequence numbers: it also gives a tampered
  -- file a valid chain.
  pub verify-migrate :
      KeepSeq
      → (pieces : Pieces P) (before : List (Line P)) (rows : List (Row P)) (asked : Option ℕ)
        (schema steps : ℕ)
      → split_lines pieces before ≡ lines rows
      → AreNumbered (target_of line_hash upgrades asked schema) 0 rows
      → let (r, file) = migrate line_hash upgrades pieces asked schema before in
        r ≡ ok steps
        → (n : ℕ) × (verify line_hash (target_of line_hash upgrades asked schema) file ≡ sound n)
  unfolding migrate MigrateSays
  verify-migrate keep pieces before rows asked schema steps whole numbered done =
      let target = target_of line_hash upgrades asked schema in
      elim (Bool-cases (ltb target 1)) [
        | inl low ↦ absurd (refused (rw (migrate, low) at done))
        | inr high ↦
            rw (high, migrate, whole)
              (finish (migrate_rows line_hash upgrades target genesis (lines rows))
                (migrate_rows-MigrateSays keep rows target 0 genesis numbered)
                (rw (high, migrate, whole) at done))
      ]
    where
      refused : {f : Fault} → ◌≡◌ {A = Result Fault ℕ} (err f) (ok steps) → ⊥
      refused h = ground (arith, h)

      finish :
          (m : Result Fault (List (Row P) × ℕ))
          → MigrateSays (target_of line_hash upgrades asked schema) genesis 0 m
          → let out : Result Fault ℕ × List (Line P) = elim m [
            | err fault ↦ (err fault, before)
            | ok (rows', n) ↦ (ok n, map (λ r. row r) rows')
          ] in
            out.0 ≡ ok steps
            → (n : ℕ) × (verify line_hash (target_of line_hash upgrades asked schema) out.1
                ≡ sound n)
      finish (err fault) says h = absurd (refused h)
      finish (ok (rows', n)) says h = (
        length rows',
        verify-lines line_hash (target_of line_hash upgrades asked schema) rows' says,
      )
