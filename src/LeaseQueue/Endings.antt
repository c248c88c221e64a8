-- ===== src/LeaseQueue/Endings.antt =====
-- How a lease ends.
use obase.Base.{ℕ, ◌≡◌, true, some, String, string_eq, arith, lt→ltb}
use obase.Base.Members.{In, In-update_hit, count-pos}
use obase.LeaseQueue.{Item, Table, has_lease, to_done, to_failed, complete, fail}

has_lease_of : (id : String) (x : Item) → x.lease_id ≡ some id → has_lease id x ≡ true
has_lease_of id x h = ground arith

-- `complete` and `fail` look at the lease alone, not at the status: after either of them, each
-- still succeeds under the same lease and the last call decides, so that a completed row can be
-- marked failed and a failed row completed.
pub last_ending_wins :
    (id : String) (now later : ℕ) (x : Item) (rows : Table)
    → In x rows
    → x.lease_id ≡ some id
    → let done_first = fail id later (complete id now rows).1 in
      let failed_first = complete id later (fail id now rows).1 in
      (done_first.0 ≡ true)
      × In (to_failed later x) done_first.1
      × (failed_first.0 ≡ true)
      × In (to_done later x) failed_first.1
unfolding complete fail
last_ending_wins id now later x rows m e =
    let has = has_lease_of id x e in
    let after_done = In-update_hit (has_lease id) (to_done now) x rows has m in
    let after_failed = In-update_hit (has_lease id) (to_failed now) x rows has m in
    (
      lt→ltb _ _ (count-pos (has_lease id) (to_done now x) _ has after_done),
      In-update_hit (has_lease id) (to_failed later) (to_done now x) _ has after_done,
      lt→ltb _ _ (count-pos (has_lease id) (to_failed now x) _ has after_failed),
      In-update_hit (has_lease id) (to_done later) (to_failed now x) _ has after_failed,
    )
