-- ===== src/LoopEvents/Tamper.antt =====
-- What `verify` finds, and what it does not.
use obase.Base.{
  ℕ, ◌+◌, ◌≡◌, sym, ap, ◌∙◌, none, String, string_eq, nat_eq, List, [], ◌∷◌, ◌++◌, length, arith,
}
use obase.LoopEvents.Log.{Row, LineHash, genesis, sound, check_row, verify}
use obase.LoopEvents.Chain.{
  IsChain, last_hash, lines, read_all-lines, verify_rows_iff, verify-lines,
}

-- The hash tells the rows in the same place of two files apart: what it is of is the same if it gives
-- the same.
abbrev pub AreTold : {P : Type 0} → LineHash P → List (Row P) → List (Row P) → Type 0
AreTold line_hash [] others = Unit
AreTold line_hash (r ∷ rows) [] = Unit
AreTold line_hash (r ∷ rows) (s ∷ others) =
    (line_hash r.prev_hash r.seq r.id r.ts r.event_type r.payload
        ≡ line_hash s.prev_hash s.seq s.id s.ts s.event_type s.payload
      → (r.prev_hash ≡ s.prev_hash)
        × (r.seq ≡ s.seq)
        × (r.id ≡ s.id)
        × (r.ts ≡ s.ts)
        × (r.event_type ≡ s.event_type)
        × (r.payload ≡ s.payload))
    × AreTold line_hash rows others

-- The same row but for its dedupe id, which the hash does not cover.
abbrev pub IsSame : {P : Type 0} → Row P → Row P → Type 0
IsSame r s =
    (r.v ≡ s.v)
    × (r.prev_hash ≡ s.prev_hash)
    × (r.seq ≡ s.seq)
    × (r.id ≡ s.id)
    × (r.ts ≡ s.ts)
    × (r.event_type ≡ s.event_type)
    × (r.payload ≡ s.payload)
    × (r.hash ≡ s.hash)

abbrev pub AreSame : {P : Type 0} → List (Row P) → List (Row P) → Type 0
AreSame [] [] = Unit
AreSame (r ∷ rows) (s ∷ others) = IsSame r s × AreSame rows others
AreSame _ _ = ⊥

module _ {P : Type 0} (line_hash : LineHash P) (schema : ℕ) where
  pub check_row-passes :
      (prev : String) (seq : ℕ) (r : Row P)
      → check_row line_hash schema prev seq r ≡ none
      → (r.v ≡ schema)
        × (r.prev_hash ≡ prev)
        × (r.seq ≡ seq + 1)
        × (r.hash ≡ line_hash prev r.seq r.id r.ts r.event_type r.payload)
  unfolding check_row
  check_row-passes prev seq r h =
      (ground (arith, h), ground (arith, h), ground (arith, h), ground (arith, h))

  abbrev hash_after : Row P → String → String
  hash_after r prev = line_hash prev r.seq r.id r.ts r.event_type r.payload

  IsChain-unique :
      (rows others : List (Row P)) (prev prev' : String) (seq seq' : ℕ)
      → AreTold line_hash rows others
      → IsChain line_hash schema prev seq rows
      → IsChain line_hash schema prev' seq' others
      → length rows ≡ length others
      → last_hash prev rows ≡ last_hash prev' others
      → (prev ≡ prev') × AreSame rows others
  IsChain-unique [] [] prev prev' seq seq' told a b sizes ends = (ends, tt)
  IsChain-unique [] (s ∷ others) prev prev' seq seq' told a b sizes ends =
      absurd (omega (arith, sizes))
  IsChain-unique (r ∷ rows) [] prev prev' seq seq' told a b sizes ends =
      absurd (omega (arith, sizes))
  IsChain-unique (r ∷ rows) (s ∷ others) prev prev' seq seq' (apart, told) (good, a) (fine, b) sizes
        ends =
      let (same_hash, rest) =
        IsChain-unique rows others r.hash s.hash r.seq s.seq told a b (omega (arith, sizes)) ends in
      let (rv, rp, rs, rh) = check_row-passes prev seq r good in
      let (sv, sp, ss, sh) = check_row-passes prev' seq' s fine in
      let (e_prev, e_seq, e_id, e_ts, e_kind, e_payload) =
        apart (ap (hash_after r) rp ∙ sym rh ∙ same_hash ∙ sh ∙ sym (ap (hash_after s) sp)) in
      (
        sym rp ∙ e_prev ∙ sp,
        ((rv ∙ sym sv, e_prev, e_seq, e_id, e_ts, e_kind, e_payload, same_hash), rest),
      )

  verify-IsChain :
      (rows : List (Row P)) (n : ℕ)
      → verify line_hash schema (lines rows) ≡ sound n
      → IsChain line_hash schema genesis 0 rows × (n ≡ length rows)
  unfolding verify
  verify-IsChain rows n h =
      let (chain, number) =
        (verify_rows_iff line_hash schema rows genesis 0 0 n).0
          (rw (verify, read_all-lines rows) at h) in
      (chain, omega (arith, number))

  -- Two files of rows that both verify, with as many rows and the same last hash, agree in every row
  -- and every field but the dedupe ids, where the hash tells the rows in the same place apart: any
  -- other change of a row shows in the last hash.
  pub verify_unique :
      (rows others : List (Row P)) (n : ℕ)
      → AreTold line_hash rows others
      → verify line_hash schema (lines rows) ≡ sound n
      → verify line_hash schema (lines others) ≡ sound n
      → last_hash genesis rows ≡ last_hash genesis others
      → AreSame rows others
  verify_unique rows others n told one two ends =
      let (a, size) = verify-IsChain rows n one in
      let (b, size') = verify-IsChain others n two in
      (IsChain-unique rows others genesis genesis 0 0 told a b (sym size ∙ size') ends).1

  IsChain-prefix :
      (rows tail : List (Row P)) (prev : String) (seq : ℕ)
      → IsChain line_hash schema prev seq (rows ++ tail)
      → IsChain line_hash schema prev seq rows
  IsChain-prefix [] tail prev seq h = tt
  IsChain-prefix (r ∷ rows) tail prev seq (good, h) =
      (good, IsChain-prefix rows tail r.hash r.seq h)

  -- A file that verifies still does when rows are cut off its end: verify alone does not find that.
  pub verify-truncated :
      (rows tail : List (Row P)) (n : ℕ)
      → verify line_hash schema (lines (rows ++ tail)) ≡ sound n
      → verify line_hash schema (lines rows) ≡ sound (length rows)
  verify-truncated rows tail n h =
      let (chain, number) = verify-IsChain (rows ++ tail) n h in
      verify-lines line_hash schema rows (IsChain-prefix rows tail genesis 0 chain)
