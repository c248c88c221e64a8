-- ===== src/DockerPool.antt =====
-- obase/docker_pool.py: the pool's slots, and each method with the answers of the docker daemon as
-- arguments. `acquire` awaits the daemon twice; between its parts other calls may run, so the parts
-- are functions of their own. Labels, environment and network are only handed to the daemon.
pub mod Size
pub mod Reuse
mod Tests
use obase.Base.{
  ℕ, ◌+◌, ◌-◌, Bool, true, false, ◌&&◌, not, Option, none, some, String, string_eq, List, [], ◌∷◌,
  ltb, leb, if◌then◌else◌, first, count, length, map, Result, ok, err,
}
use obase.Base.Dict.{Dict, lookup, insert, erase}

pub data PoolState : Type 0 where
  running idle stopped missing : PoolState

pub data Error : Type 0 where
  value_error pool_full create_failed start_failed unknown_container remove_failed : Error

pub record ContainerSlot : Type 0 where
  pub container_id : String
  pub image : String
  pub name : String
  pub created_at : ℕ
  pub last_used_at : ℕ
  pub busy : Bool
  pub state : PoolState

pub record Pool : Type 0 where
  pub image : String
  pub max_size : ℕ
  pub idle_timeout : ℕ
  pub slots : Dict String ContainerSlot
  pub counter : ℕ

unfoldable pub init : String → ℕ → ℕ → Result Error Pool
init image max_size idle_timeout =
    if ltb max_size 1
    then err value_error
    else ok (record {
      image = image;
      max_size = max_size;
      idle_timeout = idle_timeout;
      slots = [];
      counter = 0;
    })

abbrev pub size : Pool → ℕ
size p = length p.slots

unfoldable pub idle_count : Pool → ℕ
idle_count p = count (λ e. not e.1.busy) p.slots

abbrev pub is_idle : PoolState → Bool
is_idle idle = true
is_idle _ = false

abbrev pub is_free : String × ContainerSlot → Bool
is_free (_, slot) = not slot.busy && is_idle slot.state

-- What the first part of `acquire` comes to: a container to use again, or a number for the name of
-- a new one.
pub data Begun : Type 0 where
  reused : String → Begun
  full : Begun
  creating : ℕ → Begun

-- `acquire` up to the call that creates a container.
unfoldable pub begin : ℕ → Pool → Begun × Pool
begin now p = elim (first is_free p.slots) [
  | some (id, slot) ↦ (
    reused slot.container_id,
    record p { slots = insert id (record slot { busy = true; last_used_at = now }) p.slots },
  )
  | none ↦
      if leb p.max_size (size p)
      then (full, p)
      else (creating (p.counter + 1), record p { counter = p.counter + 1 })
]

-- `acquire` after the daemon has created a container of the given id and name: the slot is entered.
unfoldable pub created : ℕ → String → String → Pool → Pool
created now id name p = record p {
  slots =
      insert id
        (record {
          container_id = id;
          image = p.image;
          name = name;
          created_at = now;
          last_used_at = now;
          busy = true;
          state = running;
        })
        p.slots;
}

-- `acquire` after the daemon was asked to start the container.
unfoldable pub started : String → Bool → Pool → Result Error String × Pool
started id true p = (ok id, p)
started id false p = (err start_failed, record p { slots = erase id p.slots })

-- What the daemon answers to a creation and the start that follows: the id, the name, and whether
-- the start goes well; `none` if it cannot create.
abbrev pub Answer : Type 0
Answer = Option (String × String × Bool)

abbrev pub go_on : ℕ → Answer → Begun × Pool → Result Error String × Pool
go_on now answer (reused id, p) = (ok id, p)
go_on now answer (full, p) = (err pool_full, p)
go_on now none (creating n, p) = (err create_failed, p)
go_on now (some (id, name, starts)) (creating n, p) = started id starts (created now id name p)

-- `acquire`, where no other call runs between its parts.
unfoldable pub acquire : ℕ → Answer → Pool → Result Error String × Pool
unfolding begin created started
acquire now answer p = go_on now answer (begin now p)

-- How the daemon answers a removal: done, no such container, or another exception.
pub data Removal : Type 0 where
  removed not_found broken : Removal

abbrev pub removal_result : Removal → Result Error (Unit {0})
removal_result broken = err remove_failed
removal_result _ = ok tt

unfoldable pub destroy : String → Removal → Pool → Result Error (Unit {0}) × Pool
destroy id removal p = elim (lookup id p.slots) [
  | none ↦ (err unknown_container, p)
  | some slot ↦ (removal_result removal, record p { slots = erase id p.slots })
]

-- `now` and `later` are the two readings of the clock.
unfoldable pub release : ℕ → ℕ → String → Removal → Pool → Result Error (Unit {0}) × Pool
unfolding destroy
release now later id removal p = elim (lookup id p.slots) [
  | none ↦ (err unknown_container, p)
  | some slot ↦
      let p' : Pool = record p {
        slots = insert id (record slot { busy = false; last_used_at = now }) p.slots;
      } in
      if ltb p.idle_timeout (later - now) then destroy id removal p' else (ok tt, p')
]

-- `status`, for the ids that the daemon does not know: their slots are marked missing.
abbrev pub mark : (String → Bool) → String × ContainerSlot → String × ContainerSlot
mark alive (id, slot) =
    (id, if alive slot.container_id then slot else record slot { state = missing })

unfoldable pub status : (String → Bool) → Pool → Pool
status alive p = record p { slots = map (mark alive) p.slots }

-- `close`: each id in turn; an exception ends the loop.
unfoldable pub close_ids : (String → Removal) → List String → Pool → Result Error (Unit {0}) × Pool
unfolding destroy
close_ids removal [] p = (ok tt, p)
close_ids removal (id ∷ ids) p =
    let (r, p') = destroy id (removal id) p in
    let rest = close_ids removal ids p' in elim r [ ok _ ↦ rest | err e ↦ (err e, p') ]

unfoldable pub close : (String → Removal) → Pool → Result Error (Unit {0}) × Pool
unfolding close_ids
close removal p = close_ids removal (map (λ e. e.0) p.slots) p
