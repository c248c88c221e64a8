-- ===== src/LoopEvents/Chain.antt =====
-- The chain that `append` builds and `verify` checks.
use obase.Base.{
  ℕ, suc, ◌+◌, ◌≡◌, ◌↔◌, refl, sym, ap, subst, ◌∙◌, Option, none, some, String, string_eq, nat_eq,
  List, [], ◌∷◌, ◌++◌, map, length, append_assoc, All, ok, arith, Option-cases, inl, inr,
}
use obase.Base.Dict.{Dict, lookup, insert}
use mathlib.Core.Option.{none-ne-some}
use obase.LoopEvents.Log.{
  Row, Line, row, Pieces, split_lines, last_row, LineHash, genesis, Event, Cache, Fault, sound,
  broken, read_head, loaded, read_all, make_row, next_row, append, check_row, verify_rows, verify,
  replay,
}

module _ {P : Type 0} where
  abbrev pub last_hash : String → List (Row P) → String
  last_hash prev [] = prev
  last_hash prev (r ∷ rows) = last_hash r.hash rows

  abbrev pub last_seq : ℕ → List (Row P) → ℕ
  last_seq seq [] = seq
  last_seq seq (r ∷ rows) = last_seq r.seq rows

  abbrev pub lines : List (Row P) → List (Line P)
  lines rows = map (λ r. row r) rows

  pub read_all-lines : (rows : List (Row P)) → read_all (lines rows) ≡ ok rows
  unfolding read_all
  read_all-lines [] = refl
  read_all-lines (r ∷ rows) = rw (read_all-lines rows) refl

  length-lines : (rows : List (Row P)) → length (lines rows) ≡ length rows
  length-lines [] = refl
  length-lines (r ∷ rows) = ap suc (length-lines rows)

  lines-append :
      (rows : List (Row P)) (r : Row P) → lines rows ++ row r ∷ [] ≡ lines (rows ++ r ∷ [])
  lines-append [] r = refl
  lines-append (x ∷ rows) r = ap (λ ls. row x ∷ ls) (lines-append rows r)

  module _ (line_hash : LineHash P) (schema : ℕ) where
    -- Every row follows the one before it.
    abbrev pub IsChain : String → ℕ → List (Row P) → Type 0
    IsChain prev seq [] = Unit
    IsChain prev seq (r ∷ rows) =
        (check_row line_hash schema prev seq r ≡ none) × IsChain r.hash r.seq rows

    pub verify_rows_iff :
        (rows : List (Row P)) (prev : String) (seq done n : ℕ)
        → (verify_rows line_hash schema prev seq done rows ≡ sound n)
          ↔ (IsChain prev seq rows × (n ≡ done + length rows))
    unfolding verify_rows
    verify_rows_iff [] prev seq done n = (λ h. (tt, ground (arith, h)), λ h. ground (arith, h.1))
    verify_rows_iff (r ∷ rows) prev seq done n =
        elim (Option-cases (check_row line_hash schema prev seq r)) [
          | inl good ↦
              let rest = verify_rows_iff rows r.hash r.seq (done + 1) n in
              let step : verify_rows line_hash schema prev seq done (r ∷ rows)
                  ≡ verify_rows line_hash schema r.hash r.seq (done + 1) rows =
                rw (verify_rows, good) refl in
              (
                λ h.
                    let (chain, number) = rest.0 (sym step ∙ h) in
                    ((good, chain), omega (arith, number)),
                λ h. step ∙ rest.1 (h.0.1, omega (arith, h.1)),
              )
          | inr (fault, bad) ↦ (
            λ h. absurd (differ (rw (verify_rows, bad) at h)),
            λ h. absurd (none-ne-some fault (sym h.0.0 ∙ bad)),
          )
        ]
      where
        differ : {m : ℕ} {f : Fault} {o : Option ℕ} → broken f o ≡ sound m → ⊥
        differ h = ground (arith, h)

    pub verify-lines :
        (rows : List (Row P))
        → IsChain genesis 0 rows
        → verify line_hash schema (lines rows) ≡ sound (length rows)
    unfolding verify
    verify-lines rows chain =
        rw (verify, read_all-lines rows)
          ((verify_rows_iff rows genesis 0 0 (length rows)).1 (chain, omega arith))

    -- The row that `append` adds to a file of these rows.
    abbrev pub added : Event P → List (Row P) → Row P
    added e rows = make_row line_hash schema e (last_seq 0 rows + 1) (last_hash genesis rows)

    head_of-lines :
        (r : Row P) (rows : List (Row P))
        → (head : Row P) × (last_row (lines (r ∷ rows)) ≡ some head)
          × (head.seq ≡ last_seq r.seq rows)
          × (head.hash ≡ last_hash r.hash rows)
    unfolding last_row
    head_of-lines r [] = (r, refl, refl, refl)
    head_of-lines r (x ∷ rows) = head_of-lines x rows

    check_row-made :
        (e : Event P) (prev : String) (seq : ℕ)
        → check_row line_hash schema prev seq (make_row line_hash schema e (seq + 1) prev) ≡ none
    unfolding check_row make_row
    check_row-made e prev seq = ground arith

    pub IsChain-append :
        (e : Event P) (rows : List (Row P)) (prev : String) (seq : ℕ)
        → IsChain prev seq rows
        → IsChain prev seq
            (rows ++ make_row line_hash schema e (last_seq seq rows + 1) (last_hash prev rows) ∷ [])
    IsChain-append e [] prev seq chain = (check_row-made e prev seq, tt)
    IsChain-append e (r ∷ rows) prev seq (good, chain) =
        (good, IsChain-append e rows r.hash r.seq chain)

    -- Calls of `append` by any number of stores that share the file, in any order: which store, and
    -- the event.
    abbrev pub Caches : Type 0
    Caches = Dict ℕ (Dict String (Row P))

    abbrev pub put_cache : ℕ → Cache P → Caches → Caches
    put_cache store none caches = caches
    put_cache store (some d) caches = insert store d caches

    module _ (pieces : Pieces P) where
      pub split_lines-append :
          (xs ys : List (Line P))
          → split_lines pieces (xs ++ ys) ≡ split_lines pieces xs ++ split_lines pieces ys
      unfolding split_lines
      split_lines-append [] ys = refl
      split_lines-append (x ∷ xs) ys =
          ap (λ ls. pieces x ++ ls) (split_lines-append xs ys)
          ∙ sym (append_assoc (pieces x) (split_lines pieces xs) (split_lines pieces ys))

      -- A row of the event, whatever its number and the hash before it, is one line for `splitlines()`.
      abbrev pub IsOneLine : Event P → Type 0
      IsOneLine e =
          (seq : ℕ) (prev : String)
          → let r = make_row line_hash schema e seq prev in pieces (row r) ≡ row r ∷ []

      split_lines-one :
          (line : Line P) → pieces line ≡ line ∷ [] → split_lines pieces (line ∷ []) ≡ line ∷ []
      unfolding split_lines
      split_lines-one line one = ap (λ ls. ls ++ []) one

      next_row-lines :
          (e : Event P) (rows : List (Row P))
          → split_lines pieces (lines rows) ≡ lines rows
          → next_row line_hash schema pieces e (lines rows) ≡ added e rows
      unfolding next_row read_head last_row split_lines
      next_row-lines e [] whole = refl
      next_row-lines e (r ∷ rows) whole =
          let (head, found, number, hash) = head_of-lines r rows in
          let there : read_head pieces (lines (r ∷ rows)) ≡ some head = ap last_row whole ∙ found in
          rw (next_row, there)
            (ap (λ n. make_row line_hash schema e (n + 1) head.hash) number
              ∙ ap (make_row line_hash schema e (last_seq r.seq rows + 1)) hash)

      -- The file holds a chain from the first row on, of rows that are one line each.
      abbrev pub IsSound : List (Line P) → Type 0
      IsSound file =
          (rows : List (Row P)) × (file ≡ lines rows)
          × IsChain genesis 0 rows
          × (split_lines pieces (lines rows) ≡ lines rows)

      IsSound-append :
          (e : Event P) (cache : Cache P) (file : List (Line P))
          → IsOneLine e
          → IsSound file
          → IsSound (append line_hash schema pieces e cache file).2
      unfolding append split_lines
      IsSound-append e cache file one (rows, is, chain, whole) =
          let r = next_row line_hash schema pieces e file in
          let new = added e rows in
          let single : split_lines pieces (row new ∷ []) ≡ row new ∷ [] =
            split_lines-one (row new) (one (last_seq 0 rows + 1) (last_hash genesis rows)) in
          let whole' : split_lines pieces (lines rows ++ row new ∷ [])
              ≡ lines rows ++ row new ∷ [] =
            split_lines-append (lines rows) (row new ∷ [])
            ∙ ap (λ ls. ls ++ split_lines pieces (row new ∷ [])) whole
            ∙ ap (λ ls. lines rows ++ ls) single in
          let longer : IsSound (file ++ row r ∷ []) = (
            rows ++ new ∷ [],
            rw is (
                ap (λ x. lines rows ++ row x ∷ []) (next_row-lines e rows whole)
                ∙ lines-append rows new),
            IsChain-append e rows genesis 0 chain,
            subst (λ ls. split_lines pieces ls ≡ ls) (lines-append rows new) whole',
          ) in
          elim (Option-cases e.dedupe_id) [
            | inl plain ↦ rw (append, plain) longer
            | inr (id, deduped) ↦ elim (Option-cases (lookup id (loaded pieces cache file))) [
              | inl new ↦ rw (append, deduped, new) longer
              | inr (old, known) ↦ rw (append, deduped, known) (rows, is, chain, whole)
            ]
          ]

      unfoldable pub append_by : ℕ → Event P → Caches × List (Line P) → Caches × List (Line P)
      unfolding append
      append_by store e (caches, file) =
          let (r, cache, file') = append line_hash schema pieces e (lookup store caches) file in
          (put_cache store cache caches, file')

      unfoldable pub append_all :
          List (ℕ × Event P) → Caches × List (Line P) → Caches × List (Line P)
      unfolding append_by
      append_all [] s = s
      append_all ((store, e) ∷ calls) s = append_all calls (append_by store e s)

      abbrev pub AreOneLine : List (ℕ × Event P) → Type 0
      AreOneLine calls = All (λ (call : ℕ × Event P). IsOneLine call.1) calls

      append_all-IsSound :
          (calls : List (ℕ × Event P)) (s : Caches × List (Line P))
          → AreOneLine calls
          → IsSound s.1
          → IsSound (append_all calls s).1
      unfolding append_all append_by
      append_all-IsSound [] s one h = h
      append_all-IsSound ((store, e) ∷ calls) (caches, file) (one, ones) h =
          append_all-IsSound calls (append_by store e (caches, file)) ones
            (IsSound-append e (lookup store caches) file one h)

      -- However many stores append to a new file, in whatever order and with whatever dedupe ids, if
      -- `splitlines()` takes the row of every event for one line, the file verifies, for as many
      -- rows as it has, and replay returns those rows.
      pub append_all-verify :
          (calls : List (ℕ × Event P))
          → AreOneLine calls
          → let file = (append_all calls ([], [])).1 in
            (verify line_hash schema file ≡ sound (length file))
            × ((rows : List (Row P)) × (file ≡ lines rows)
                × (replay line_hash schema file ≡ ok rows))
      unfolding verify replay split_lines
      append_all-verify calls ones =
          let (rows, is, chain, whole) =
            append_all-IsSound calls ([], []) ones ([], refl, tt, refl) in
          let all = (verify_rows_iff rows genesis 0 0 (length rows)).1 (chain, omega arith) in
          (
            rw is (verify-lines rows chain ∙ ap sound (sym (length-lines rows))),
            (rows, is, rw (is, replay, read_all-lines rows, all) refl),
          )
