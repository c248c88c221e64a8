-- ===== src/LeaseQueue.antt =====
-- obase/durable_lease_queue.py: the table `queue_items` as a list of rows, in the order of their
-- insertion, and each method with the statements that it executes. A method runs under the queue's
-- lock and in one transaction, so it is one step. Times are whole units of the wall clock; payloads
-- are the JSON texts that the table stores, and ids that the code draws at random are arguments.
pub mod Order
pub mod Unique
pub mod Sweep
pub mod Holding
pub mod Endings
mod Tests
use obase.Base.{
  ℕ, ◌+◌, Bool, true, false, ◌&&◌, ◌||◌, Option, none, some, String, string_eq, List, [], ◌∷◌, ◌++◌,
  ltb, leb, ◌==◌, if◌then◌else◌, first, select, exists, count, length, Result, ok, err,
}
use obase.Base.Int.{ℤ, ltb_ℤ}
use obase.Base.Members.{update_where}

pub data Status : Type 0 where
  pending leased done failed : Status

pub record Item : Type 0 where
  pub item_id : String
  pub payload : String
  pub priority : ℤ
  pub status : Status
  pub worker_id : Option String
  pub lease_id : Option String
  pub lease_until : Option ℕ
  pub created_at : ℕ
  pub updated_at : ℕ
  pub attempts : ℕ

abbrev pub Table : Type 0
Table = List Item

pub data Error : Type 0 where
  integrity_error : Error

-- `WHERE item_id=?` and `WHERE lease_id=?`: NULL is equal to nothing.
abbrev pub has_item : String → Item → Bool
has_item id x = x.item_id == id

abbrev pub equals_id : Option String → String → Bool
equals_id none id = false
equals_id (some j) id = j == id

abbrev pub has_lease : String → Item → Bool
has_lease id x = equals_id x.lease_id id

abbrev pub is_pending : Status → Bool
is_pending pending = true
is_pending _ = false

abbrev pub is_leased : Status → Bool
is_leased leased = true
is_leased _ = false

-- `lease_until < ?`: NULL is below nothing.
abbrev pub lapsed : Option ℕ → ℕ → Bool
lapsed none now = false
lapsed (some t) now = ltb t now

abbrev pub or_fresh : Option String → String → String
or_fresh none fresh = fresh
or_fresh (some id) fresh = if id == "" then fresh else id

unfoldable pub enqueue :
    String → ℤ → Option String → ℕ → String → Table → Result Error String × Table
enqueue payload priority item_id now fresh rows =
    let id = or_fresh item_id fresh in
    if exists (has_item id) rows then (err integrity_error, rows) else (
      ok id,
      rows
          ++ record {
            item_id = id;
            payload = payload;
            priority = priority;
            status = pending;
            worker_id = none;
            lease_id = none;
            lease_until = none;
            created_at = now;
            updated_at = now;
            attempts = 0;
          }
            ∷ [],
    )

-- The condition of the SELECT of `lease`.
unfoldable pub can_lease : ℕ → ℕ → Item → Bool
can_lease now max_attempts x =
    is_pending x.status
    || (is_leased x.status && lapsed x.lease_until now && ltb x.attempts max_attempts)

-- ORDER BY priority DESC, created_at ASC: `x` comes strictly before `y`.
unfoldable pub comes_before : Item → Item → Bool
comes_before x y =
    ltb_ℤ y.priority x.priority
    || (if ltb_ℤ x.priority y.priority then false else ltb x.created_at y.created_at)

-- The first row in that order; of rows that tie, the one inserted first.
unfoldable pub first_row : List Item → Option Item
unfolding comes_before
first_row [] = none
first_row (x ∷ xs) = elim (first_row xs) [
  | none ↦ some x
  | some y ↦ if comes_before y x then some y else some x
]

pub record Lease : Type 0 where
  pub item_id : String
  pub lease_id : String
  pub payload : String
  pub attempts : ℕ

-- The UPDATE of `lease`.
abbrev pub take_lease : String → String → ℕ → ℕ → Item → Item
take_lease worker_id lease_id until now x = record x {
  status = leased;
  worker_id = some worker_id;
  lease_id = some lease_id;
  lease_until = some until;
  attempts = x.attempts + 1;
  updated_at = now;
}

unfoldable pub lease : String → ℕ → ℕ → ℕ → String → Table → Option Lease × Table
unfolding can_lease first_row update_where
lease worker_id timeout max_attempts now fresh rows =
    elim (first_row (select (can_lease now max_attempts) rows)) [
      | none ↦ (none, rows)
      | some row ↦ (
        some (record {
          item_id = row.item_id;
          lease_id = fresh;
          payload = row.payload;
          attempts = row.attempts + 1;
        }),
        update_where (has_item row.item_id) (take_lease worker_id fresh (now + timeout) now) rows,
      )
    ]

-- UPDATE … WHERE p, and `cur.rowcount > 0`.
abbrev pub update : (Item → Bool) → (Item → Item) → Table → Bool × Table
update p f rows = (ltb 0 (count p rows), update_where p f rows)

abbrev pub holds_lease : String → Item → Bool
holds_lease id x = has_lease id x && is_leased x.status

abbrev pub extend : ℕ → Item → Item
extend until x = record x { lease_until = some until }

abbrev pub to_done : ℕ → Item → Item
to_done now x = record x { status = done; updated_at = now }

abbrev pub to_failed : ℕ → Item → Item
to_failed now x = record x { status = failed; updated_at = now }

unfoldable pub renew : String → ℕ → ℕ → Table → Bool × Table
unfolding update_where
renew lease_id timeout now = update (holds_lease lease_id) (extend (now + timeout))

unfoldable pub complete : String → ℕ → Table → Bool × Table
unfolding update_where
complete lease_id now = update (has_lease lease_id) (to_done now)

abbrev pub to_pending : ℕ → Item → Item
to_pending now x = record x {
  status = pending;
  worker_id = none;
  lease_id = none;
  lease_until = none;
  updated_at = now;
}

unfoldable pub release : String → ℕ → Table → Bool × Table
unfolding update_where
release lease_id now = update (holds_lease lease_id) (to_pending now)

unfoldable pub fail : String → ℕ → Table → Bool × Table
unfolding update_where
fail lease_id now = update (has_lease lease_id) (to_failed now)

-- The SELECT of `sweep_expired`, and its loop over the rows found.
abbrev pub is_expired : ℕ → Item → Bool
is_expired now x = is_leased x.status && lapsed x.lease_until now

unfoldable pub sweep_rows : ℕ → ℕ → List Item → Table → Table
unfolding update_where
sweep_rows max_attempts now [] rows = rows
sweep_rows max_attempts now (row ∷ expired) rows = sweep_rows max_attempts now expired (
    update_where (has_item row.item_id)
      (if leb max_attempts row.attempts then (to_failed now) else to_pending now) rows)

unfoldable pub sweep_expired : ℕ → ℕ → Table → ℕ × Table
unfolding sweep_rows
sweep_expired max_attempts now rows =
    let expired = select (is_expired now) rows in
    (length expired, sweep_rows max_attempts now expired rows)

unfoldable pub get : String → Table → Option Item
get item_id rows = first (has_item item_id) rows

-- The number of rows with a status, which `stats` reports for each status that occurs.
unfoldable pub pending_count : Table → ℕ
pending_count rows = count (λ x. is_pending x.status) rows
