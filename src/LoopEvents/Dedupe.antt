-- ===== src/LoopEvents/Dedupe.antt =====
-- An event with a dedupe id is written once by one store.
use obase.Base.{
  ℕ, ◌≡◌, refl, sym, ap, subst, ◌∙◌, none, some, String, string_eq, nat_eq, List, [], ◌∷◌, arith,
  Option-cases, inl, inr,
}
use obase.Base.Dict.{Dict, lookup, insert, lookup-insert, lookup-insert_self}
use obase.LoopEvents.Log.{Row, Line, Pieces, LineHash, Event, Cache, loaded, next_row, append}
use obase.LoopEvents.Chain.{Caches, put_cache, append_by, append_all}

module _ {P : Type 0} (line_hash : LineHash P) (schema : ℕ) (pieces : Pieces P) where
  -- The store knows this row for the dedupe id.
  abbrev pub Knows : ℕ → String → Row P → Caches line_hash schema → Type 0
  Knows store id r caches =
      (d : Dict String (Row P)) × (lookup store caches ≡ some d) × (lookup id d ≡ some r)

  insert-Knows :
      (id other : String) (r new : Row P) (d : Dict String (Row P))
      → lookup other d ≡ none
      → lookup id d ≡ some r
      → lookup id (insert other new d) ≡ some r
  insert-Knows id other r new d fresh known =
      ground (arith, lookup-insert id other new d, fresh, known)

  -- One append of a store that knows the row: it still does.
  append-keeps :
      (e : Event P) (id : String) (r : Row P) (d : Dict String (Row P)) (file : List (Line P))
      → lookup id d ≡ some r
      → (d' : Dict String (Row P)) × ((append line_hash schema pieces e (some d) file).1 ≡ some d')
        × (lookup id d' ≡ some r)
  unfolding append
  append-keeps e id r d file known = elim (Option-cases e.dedupe_id) [
    | inl plain ↦ rw (append, plain) (d, refl, known)
    | inr (other, deduped) ↦ elim (Option-cases (lookup other d)) [
      | inr (old, found) ↦ rw (append, deduped, found) (d, refl, known)
      | inl fresh ↦
          let new = next_row line_hash schema pieces e file in
          let d' = insert other new d in
          rw (append, deduped, fresh) (d', refl, insert-Knows id other r new d fresh known)
    ]
  ]

  append_by-Knows :
      (who store : ℕ) (e : Event P) (id : String) (r : Row P) (caches : Caches line_hash schema)
      (file : List (Line P))
      → Knows store id r caches
      → Knows store id r (append_by line_hash schema pieces who e (caches, file)).0
  unfolding append_by
  append_by-Knows who store e id r caches file (d, mine, known) = elim (nat_eq.dec store who) [
    | yes same ↦
        let (d', kept, known') = append-keeps e id r d file known in
        let mine' : lookup who caches ≡ some d =
          subst (λ (w : ℕ). lookup w caches ≡ some d) same mine in
        let left : (append line_hash schema pieces e (lookup who caches) file).1 ≡ some d' =
          ap (λ (c : Cache P). (append line_hash schema pieces e c file).1) mine' ∙ kept in
        put left (
          d',
          subst (λ (w : ℕ). lookup w (insert who d' caches) ≡ some d') (sym same)
              (lookup-insert_self who d' caches),
          known',
        )
    | no differ ↦
        elim (Option-cases (append line_hash schema pieces e (lookup who caches) file).1) [
          | inl nothing ↦ put nothing (d, mine, known)
          | inr (d', left) ↦
              put left (d, ground (arith, lookup-insert store who d' caches, differ, mine), known)
        ]
  ]
    where
      put :
          {c : Cache P}
          → (append line_hash schema pieces e (lookup who caches) file).1 ≡ c
          → Knows store id r (put_cache line_hash schema who c caches)
          → Knows store id r (append_by line_hash schema pieces who e (caches, file)).0
      put same h =
          subst (λ (x : Cache P). Knows store id r (put_cache line_hash schema who x caches))
            (sym same) h

  append_all-Knows :
      (calls : List (ℕ × Event P)) (store : ℕ) (id : String) (r : Row P)
      (caches : Caches line_hash schema) (file : List (Line P))
      → Knows store id r caches
      → Knows store id r (append_all line_hash schema pieces calls (caches, file)).0
  unfolding append_all
  append_all-Knows [] store id r caches file h = h
  append_all-Knows ((who, e) ∷ calls) store id r caches file h =
      let next = append_by line_hash schema pieces who e (caches, file) in
      append_all-Knows calls store id r next.0 next.1
        (append_by-Knows who store e id r caches file h)

  append-learns :
      (e : Event P) (id : String) (cache : Cache P) (file : List (Line P))
      → e.dedupe_id ≡ some id
      → let (r, cache', file') = append line_hash schema pieces e cache file in
        (d : Dict String (Row P)) × (cache' ≡ some d) × (lookup id d ≡ some r)
  unfolding append
  append-learns e id cache file deduped =
      elim (Option-cases (lookup id (loaded pieces cache file))) [
        | inr (old, found) ↦ rw (append, deduped, found) (loaded pieces cache file, refl, found)
        | inl fresh ↦
            let new = next_row line_hash schema pieces e file in
            rw (append, deduped, fresh)
              (
                insert id new (loaded pieces cache file),
                refl,
                lookup-insert_self id new (loaded pieces cache file),
              )
      ]

  append-again :
      (e : Event P) (id : String) (r : Row P) (d : Dict String (Row P)) (file : List (Line P))
      → e.dedupe_id ≡ some id
      → lookup id d ≡ some r
      → append line_hash schema pieces e (some d) file ≡ (r, some d, file)
  unfolding append
  append-again e id r d file deduped known = rw (append, deduped, known) refl

  -- After a store has appended an event with a dedupe id, and any stores have appended anything, the
  -- same store's append of an event with that id returns the row of the first time and leaves the
  -- file as it is.
  pub append_once :
      (store : ℕ) (first again : Event P) (id : String) (calls : List (ℕ × Event P))
      (caches : Caches line_hash schema) (file : List (Line P))
      → first.dedupe_id ≡ some id
      → again.dedupe_id ≡ some id
      → let r = (append line_hash schema pieces first (lookup store caches) file).0 in
        let (caches', file') =
          append_all line_hash schema pieces calls
            (append_by line_hash schema pieces store first (caches, file)) in
        let second = append line_hash schema pieces again (lookup store caches') file' in
        (second.0 ≡ r) × (second.2 ≡ file')
  unfolding append_by
  append_once store first again id calls caches file deduped deduped' =
      let one = append_by line_hash schema pieces store first (caches, file) in
      let later = append_all line_hash schema pieces calls one in
      let (d, mine, known) =
        append_all-Knows calls store id _ one.0 one.1 (learnt store first id caches file deduped) in
      let again_is = append-again again id _ d later.1 deduped' known in
      (rw (mine, again_is) refl, rw (mine, again_is) refl)
    where
      learnt :
          (store : ℕ) (e : Event P) (id : String) (caches : Caches line_hash schema)
          (file : List (Line P))
          → e.dedupe_id ≡ some id
          → Knows store id
              (append line_hash schema pieces e (lookup store caches) file).0
              (append_by line_hash schema pieces store e (caches, file)).0
      learnt store e id caches file deduped =
          let (d, left, known) = append-learns e id (lookup store caches) file deduped in
          subst
            (λ (x : Cache P).
              Knows store id (append line_hash schema pieces e (lookup store caches) file).0
                (put_cache line_hash schema store x caches))
            (sym left) (d, lookup-insert_self store d caches, known)
