-- ===== src/DockerPool/Size.antt =====
-- How many slots a pool holds.
use obase.Base.{
  ℕ, zero, suc, ◌+◌, ◌≤◌, ◌<◌, ◌≡◌, ◌≢◌, refl, ap, All, Bool, true, false, none, some, String,
  string_eq, List, [], ◌∷◌, arith, leb, leb→gt, ltb, ◌-◌, sym, ◌∙◌, Result, err, length, first, map,
  ok, Option-cases, Bool-cases, inl, inr,
}
use obase.Base.Dict.{
  Dict, lookup, insert, length-insert-le, length-erase-le, length-insert_old, length-insert_new,
}
use mathlib.Core.Option.{none-ne-some}
use obase.DockerPool.{
  Error, ContainerSlot, Pool, Begun, full, creating, reused, running, Removal, Answer, init, size,
  is_free, mark, begin, created, started, go_on, acquire, destroy, release, status, close,
  close_ids,
}

abbrev pub Within : ℕ → Pool → Type 0
Within n p = (p.max_size ≡ n) × (size p ≤ n)

-- A whole call of a method.
pub data Call : Type 0 where
  acquires : ℕ → Answer → Call
  releases : ℕ → ℕ → String → Removal → Call
  destroys : String → Removal → Call
  looks : (String → Bool) → Call
  closes : (String → Removal) → Call

unfoldable pub apply : Call → Pool → Pool
apply (acquires now answer) p = (acquire now answer p).1
apply (releases now later id r) p = (release now later id r p).1
apply (destroys id r) p = (destroy id r p).1
apply (looks alive) p = status alive p
apply (closes r) p = (close r p).1

unfoldable pub run : List Call → Pool → Pool
run [] p = p
run (call ∷ calls) p = run calls (apply call p)

first-found :
    {A : Type 0} (p : A → Bool) (xs : List A) {x : A} → first p xs ≡ some x → 0 < length xs
first-found p [] h = ground (arith, h)
first-found p (_ ∷ xs) h = omega arith

length-map : {A B : Type 0} (f : A → B) (xs : List A) → length (map f xs) ≡ length xs
length-map f [] = refl
length-map f (x ∷ xs) = omega (arith, length-map f xs)

first-lookup :
    (q : String × ContainerSlot → Bool) (d : Dict String ContainerSlot) (id : String)
    (slot : ContainerSlot)
    → first q d ≡ some (id, slot)
    → lookup id d ≢ none
unfolding lookup
first-lookup q [] id slot h = ground (arith, h)
first-lookup q ((j, s) ∷ d) id slot h = ground (arith, first-lookup q d id slot)

-- What the first part of `acquire` leaves: the same slots, or with room for one more.
BeginSays : ℕ → Begun × Pool → Type 0
BeginSays n (reused _, p) = Within n p
BeginSays n (full, p) = Within n p
BeginSays n (creating _, p) = (p.max_size ≡ n) × (size p < n)

begin-BeginSays : (n now : ℕ) (p : Pool) → Within n p → BeginSays n (begin now p)
unfolding begin BeginSays
begin-BeginSays n now p (same, fits) = elim (Option-cases (first is_free p.slots)) [
  | inl nothing ↦ elim (Bool-cases (leb p.max_size (size p))) [
    | inl h ↦ rw (nothing, begin, h) (same, fits)
    | inr h ↦ rw (nothing, begin, h) (same, omega (arith, leb→gt _ _ h, same))
  ]
  | inr ((id, slot), found) ↦
      rw (found, begin)
        (
          same,
          omega (
            arith,
            length-insert_old id (record slot { busy = true; last_used_at = now }) p.slots
                (first-lookup is_free p.slots id slot found),
          ),
        )
]

go_on-Within :
    (n now : ℕ) (answer : Answer) (b : Begun × Pool)
    → BeginSays n b
    → Within n (go_on now answer b).1
unfolding BeginSays created started
go_on-Within n now answer (reused id, p) h = h
go_on-Within n now answer (full, p) h = h
go_on-Within n now none (creating m, p) (same, room) = (same, omega arith)
go_on-Within n now (some (id, name, true)) (creating m, p) (same, room) = (
  same,
  omega (
    arith,
    length-insert-le id
        (record {
          container_id = id;
          image = p.image;
          name = name;
          created_at = now;
          last_used_at = now;
          busy = true;
          state = running;
        })
        p.slots,
  ),
)
go_on-Within n now (some (id, name, false)) (creating m, p) (same, room) =
    let made : Dict String ContainerSlot = (created now id name p).slots in
    (
      same,
      omega (
        arith,
        length-erase-le id made,
        length-insert-le id
            (record {
              container_id = id;
              image = p.image;
              name = name;
              created_at = now;
              last_used_at = now;
              busy = true;
              state = running;
            })
            p.slots,
      ),
    )

destroy-Within :
    (n : ℕ) (id : String) (r : Removal) (p : Pool) → Within n p → Within n (destroy id r p).1
unfolding destroy
destroy-Within n id r p (same, fits) = elim (Option-cases (lookup id p.slots)) [
  | inl unknown ↦ rw (unknown, destroy) (same, fits)
  | inr (slot, found) ↦ rw (found, destroy) (same, omega (arith, length-erase-le id p.slots))
]

release-Within :
    (n now later : ℕ) (id : String) (r : Removal) (p : Pool)
    → Within n p
    → Within n (release now later id r p).1
unfolding release
release-Within n now later id r p (same, fits) = elim (Option-cases (lookup id p.slots)) [
  | inl unknown ↦ rw (unknown, release) (same, fits)
  | inr (slot, found) ↦
      let p' : Pool = record p {
        slots = insert id (record slot { busy = false; last_used_at = now }) p.slots;
      } in
      let h : Within n p' = (
        same,
        omega (
          arith,
          fits,
          length-insert_old id (record slot { busy = false; last_used_at = now }) p.slots
              (λ none_there. none-ne-some _ (sym none_there ∙ found)),
        ),
      ) in
      elim (Bool-cases (ltb p.idle_timeout (later - now))) [
        | inl late ↦ rw (found, release, late) (destroy-Within n id r p' h)
        | inr early ↦ rw (found, release, early) h
      ]
]

close_ids-Within :
    (n : ℕ) (r : String → Removal) (ids : List String) (p : Pool)
    → Within n p
    → Within n (close_ids r ids p).1
unfolding close_ids
close_ids-Within n r [] p h = h
close_ids-Within n r (id ∷ ids) p h =
    go (destroy id (r id) p) (destroy-Within n id (r id) p h)
      (close_ids-Within n r ids (destroy id (r id) p).1 (destroy-Within n id (r id) p h))
  where
    go :
        (b : Result Error (Unit {0}) × Pool)
        → Within n b.1
        → Within n (close_ids r ids b.1).1
        → let next : Result Error (Unit {0}) × Pool = elim b.0 [
          | ok _ ↦ close_ids r ids b.1
          | err e ↦ (err e, b.1)
        ] in
          Within n next.1
    go (ok _, q) h rest = rest
    go (err e, q) h rest = h

apply-Within : (n : ℕ) (c : Call) (p : Pool) → Within n p → Within n (apply c p)
unfolding apply acquire status close
apply-Within n (acquires now answer) p h =
    go_on-Within n now answer (begin now p) (begin-BeginSays n now p h)
apply-Within n (releases now later id r) p h = release-Within n now later id r p h
apply-Within n (destroys id r) p h = destroy-Within n id r p h
apply-Within n (looks alive) p (same, fits) = (same, rw (length-map (mark alive) p.slots) fits)
apply-Within n (closes r) p h = close_ids-Within n r (map (λ e. e.0) p.slots) p h

run-Within : (n : ℕ) (calls : List Call) (p : Pool) → Within n p → Within n (run calls p)
unfolding run
run-Within n [] p h = h
run-Within n (c ∷ calls) p h = run-Within n calls (apply c p) (apply-Within n c p h)

init-Within :
    (image : String) (max_size idle_timeout : ℕ) {p : Pool}
    → init image max_size idle_timeout ≡ ok p
    → Within max_size p
unfolding init
init-Within image max_size idle_timeout made = (ground arith, ground arith)

init-empty :
    (image : String) (max_size idle_timeout : ℕ) {p : Pool}
    → init image max_size idle_timeout ≡ ok p
    → (p.slots ≡ []) × (0 < p.max_size)
unfolding init
init-empty image max_size idle_timeout made = (ground arith, ground arith)

-- While no two calls overlap, a pool never holds more than `max_size` slots, whatever the daemon
-- answers to its methods' requests.
pub size-run-le :
    (image : String) (max_size idle_timeout : ℕ) {p : Pool} (calls : List Call)
    → init image max_size idle_timeout ≡ ok p
    → size (run calls p) ≤ max_size
size-run-le image max_size idle_timeout {p} calls made =
    (run-Within max_size calls p (init-Within image max_size idle_timeout made)).1

-- `n` calls of `acquire` that pass the first part before any of them enters its slot.
unfoldable pub begin_all : ℕ → ℕ → Pool → List Begun × Pool
begin_all zero now p = ([], p)
begin_all (suc n) now p = let (b, q) = begin now p in let (bs, r) = begin_all n now q in (b ∷ bs, r)

-- They have entered their slots, each under the id that the daemon gave.
unfoldable pub create_all : ℕ → List String → Pool → Pool
create_all now [] p = p
create_all now (id ∷ ids) p = create_all now ids (created now id id p)

-- The ids are different from each other and from those in the pool.
abbrev pub AreNew : List String → Dict String ContainerSlot → Type 0
AreNew [] d = Unit
AreNew (id ∷ ids) d = (lookup id d ≡ none) × ((s : ContainerSlot) → AreNew ids (insert id s d))

create_all-size :
    (now : ℕ) (ids : List String) (p : Pool)
    → AreNew ids p.slots
    → size (create_all now ids p) ≡ size p + length ids
unfolding create_all created
create_all-size now [] p h = omega arith
create_all-size now (id ∷ ids) p (new, rest) = omega (
  arith,
  create_all-size now ids (created now id id p) (rest _),
  length-insert_new id
      (record {
        container_id = id;
        image = p.image;
        name = id;
        created_at = now;
        last_used_at = now;
        busy = true;
        state = running;
      })
      p.slots new,
)

abbrev pub IsCreating : Begun → Type 0
IsCreating b = (m : ℕ) × (b ≡ creating m)

begin-empty :
    (now : ℕ) (p : Pool)
    → p.slots ≡ []
    → 0 < p.max_size
    → begin now p ≡ (creating (p.counter + 1), record p { counter = p.counter + 1 })
unfolding begin
begin-empty now p h positive = ground arith

begin_all-empty :
    (n now : ℕ) (p : Pool)
    → p.slots ≡ []
    → 0 < p.max_size
    → All IsCreating (begin_all n now p).0 × ((begin_all n now p).1.slots ≡ [])
unfolding begin_all
begin_all-empty zero now p h positive = (tt, h)
begin_all-empty (suc n) now p h positive =
    let rest = begin_all-empty n now (record p { counter = p.counter + 1 }) h positive in
    rw (begin-empty now p h positive) (((p.counter + 1, refl), rest.0), rest.1)

-- Calls of `acquire` that overlap: on a new pool any number of them pass the test of `max_size`
-- before the first one enters its slot, and when all have entered theirs, under different ids, the
-- pool holds as many slots as there were calls.
pub size-overlap :
    (image : String) (max_size idle_timeout now : ℕ) (ids : List String) {p : Pool}
    → init image max_size idle_timeout ≡ ok p
    → AreNew ids []
    → All IsCreating (begin_all (length ids) now p).0
      × (size (create_all now ids (begin_all (length ids) now p).1) ≡ length ids)
size-overlap image max_size idle_timeout now ids {p} made new =
    let (slots, positive) = init-empty image max_size idle_timeout made in
    let (answers, empty) = begin_all-empty (length ids) now p slots positive in
    (
      answers,
      omega (
        arith,
        create_all-size now ids (begin_all (length ids) now p).1 (rw empty new),
        ap length empty,
      ),
    )
