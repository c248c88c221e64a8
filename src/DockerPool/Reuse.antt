-- ===== src/DockerPool/Reuse.antt =====
-- No container is ever used again.
use obase.Base.{
  ℕ, ◌+◌, ◌≡◌, refl, sym, subst, Bool, true, false, none, String, string_eq, List, [], ◌∷◌, arith,
  leb, ltb, ◌-◌, if◌then◌else◌, first, map, ok, Option-cases, Bool-cases, inl, inr,
}
use obase.Base.Dict.{
  Dict, lookup, insert, AllValues, insert-AllValues, erase-AllValues, lookup-AllValues,
}
use obase.DockerPool.{
  PoolState, ContainerSlot, Pool, Begun, full, creating, Removal, init, size, is_idle, is_free,
  mark, begin, created, started, destroy, release, status,
}

abbrev pub IsBusyOrRunning : ContainerSlot → Type 0
IsBusyOrRunning slot = is_idle slot.state ≡ false

abbrev pub NeverIdle : Pool → Type 0
NeverIdle p = AllValues IsBusyOrRunning p.slots

-- One uninterrupted part of a method, with what the daemon answered before it.
pub data Part : Type 0 where
  begins : ℕ → Part
  creates : ℕ → String → String → Part
  starts : String → Bool → Part
  releases : ℕ → ℕ → String → Removal → Part
  destroys : String → Removal → Part
  looks : (String → Bool) → Part

unfoldable pub apply : Part → Pool → Pool
apply (begins now) p = (begin now p).1
apply (creates now id name) p = created now id name p
apply (starts id good) p = (started id good p).1
apply (releases now later id answer) p = (release now later id answer p).1
apply (destroys id answer) p = (destroy id answer p).1
apply (looks alive) p = status alive p

unfoldable pub run : List Part → Pool → Pool
run [] p = p
run (part ∷ parts) p = run parts (apply part p)

first-none : (d : Dict String ContainerSlot) → AllValues IsBusyOrRunning d → first is_free d ≡ none
first-none [] h = refl
first-none ((id, slot) ∷ d) h = ground (arith, first-none d h.1)

mark-NeverIdle :
    (alive : String → Bool) (d : Dict String ContainerSlot)
    → AllValues IsBusyOrRunning d
    → AllValues IsBusyOrRunning (map (mark alive) d)
mark-NeverIdle alive [] h = tt
mark-NeverIdle alive ((id, slot) ∷ d) h =
    (mark_one (alive slot.container_id), mark-NeverIdle alive d h.1)
  where
    mark_one :
        (b : Bool) → IsBusyOrRunning (if b then slot else record slot { state = PoolState.missing })
    mark_one true = h.0
    mark_one false = refl

-- A pool in which no slot is idle gives no container back.
begin_without_idle :
    (now : ℕ) (p : Pool)
    → NeverIdle p
    → begin now p ≡ (
        if leb p.max_size (size p)
        then (full, p)
        else (creating (p.counter + 1), record p { counter = p.counter + 1 }))
unfolding begin
begin_without_idle now p h = ground (arith, first-none p.slots h)

destroy-NeverIdle :
    (id : String) (answer : Removal) (p : Pool) → NeverIdle p → NeverIdle (destroy id answer p).1
unfolding destroy
destroy-NeverIdle id answer p h = elim (Option-cases (lookup id p.slots)) [
  | inl unknown ↦ rw (unknown, destroy) h
  | inr (slot, found) ↦ rw (found, destroy) (erase-AllValues IsBusyOrRunning id p.slots h)
]

release-NeverIdle :
    (now later : ℕ) (id : String) (answer : Removal) (p : Pool)
    → NeverIdle p
    → NeverIdle (release now later id answer p).1
unfolding release
release-NeverIdle now later id answer p h = elim (Option-cases (lookup id p.slots)) [
  | inl unknown ↦ rw (unknown, release) h
  | inr (slot, found) ↦
      let p' : Pool = record p {
        slots = insert id (record slot { busy = false; last_used_at = now }) p.slots;
      } in
      let h' : NeverIdle p' =
        insert-AllValues IsBusyOrRunning id _ p.slots
          (lookup-AllValues IsBusyOrRunning id p.slots h found) h in
      elim (Bool-cases (ltb p.idle_timeout (later - now))) [
        | inl late ↦ rw (found, release, late) (destroy-NeverIdle id answer p' h')
        | inr early ↦ rw (found, release, early) h'
      ]
]

begin-NeverIdle : (now : ℕ) (p : Pool) → NeverIdle p → NeverIdle (begin now p).1
begin-NeverIdle now p h =
    subst (λ (b : Begun × Pool). NeverIdle b.1) (sym (begin_without_idle now p h))
      (either_way (leb p.max_size (size p)))
  where
    either_way :
        (b : Bool)
        → let next : Begun × Pool =
            if b
            then (full, p)
            else (creating (p.counter + 1), record p { counter = p.counter + 1 }) in
          NeverIdle next.1
    either_way true = h
    either_way false = h

init-slots :
    (image : String) (max_size idle_timeout : ℕ) {p : Pool}
    → init image max_size idle_timeout ≡ ok p
    → p.slots ≡ []
unfolding init
init-slots image max_size idle_timeout made = ground arith

apply-NeverIdle : (part : Part) (p : Pool) → NeverIdle p → NeverIdle (apply part p)
unfolding apply created started status
apply-NeverIdle (begins now) p h = begin-NeverIdle now p h
apply-NeverIdle (creates now id name) p h = insert-AllValues IsBusyOrRunning id _ p.slots refl h
apply-NeverIdle (starts id true) p h = h
apply-NeverIdle (starts id false) p h = erase-AllValues IsBusyOrRunning id p.slots h
apply-NeverIdle (releases now later id removal) p h = release-NeverIdle now later id removal p h
apply-NeverIdle (destroys id removal) p h = destroy-NeverIdle id removal p h
apply-NeverIdle (looks alive) p h = mark-NeverIdle alive p.slots h

run-NeverIdle : (parts : List Part) (p : Pool) → NeverIdle p → NeverIdle (run parts p)
unfolding run
run-NeverIdle [] p h = h
run-NeverIdle (part ∷ parts) p h = run-NeverIdle parts (apply part p) (apply-NeverIdle part p h)

-- In every pool that its methods can reach from a new one, also where they overlap, an acquire takes
-- no container that is there: it fails as soon as the slots number `max_size`, released or not, and
-- asks for a new container otherwise.
pub begin_never_reuses :
    (image : String) (max_size idle_timeout now : ℕ) (parts : List Part) {p : Pool}
    → init image max_size idle_timeout ≡ ok p
    → let q = run parts p in
      begin now q ≡ (
        if leb q.max_size (size q)
        then (full, q)
        else (creating (q.counter + 1), record q { counter = q.counter + 1 }))
begin_never_reuses image max_size idle_timeout now parts {p} made =
    begin_without_idle now (run parts p)
      (run-NeverIdle parts p (rw (init-slots image max_size idle_timeout made) tt))
