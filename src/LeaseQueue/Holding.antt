-- ===== src/LeaseQueue/Holding.antt =====
-- A lease that has not ended is its holder's alone, whatever the other workers do.
use obase.Base.{
  ℕ, ◌+◌, ◌≤◌, ◌≡◌, ◌≢◌, inl, inr, true, false, Option, some, String, string_eq, List, [], ◌∷◌,
  arith, All, exists, select, Bool-cases, Option-cases, lt→ltb,
}
use obase.Base.Int.{ℤ}
use obase.Base.Members.{In, In-append_left, In-select, In-update_skip, count-pos}
use obase.LeaseQueue.{
  leased, Item, Table, has_item, has_lease, holds_lease, can_lease, is_expired, first_row,
  to_pending, to_done, to_failed, extend, or_fresh, enqueue, lease, renew, complete, release, fail,
  sweep_expired,
}
use obase.LeaseQueue.Order.{first_row-IsFirst}
use obase.LeaseQueue.Sweep.{not_has_item, sweep_expired-keeps}
use obase.LeaseQueue.Unique.{
  UniqueIds, Op, enqueues, leases, renews, completes, releases, fails, sweeps, apply, run,
  apply-UniqueIds,
}

-- The row is leased under `id` until `until`.
pub record IsHeld (id : String) (until : ℕ) (x : Item) : Type 0 where
  pub is_leased : x.status ≡ leased
  pub under : x.lease_id ≡ some id
  pub ends : x.lease_until ≡ some until

-- A call that is not the holder's: one that names another lease, or that looks at the clock no
-- later than `until`.
abbrev pub IsOther : String → ℕ → Op → Type 0
IsOther id until (enqueues _ _ _ _ _) = Unit
IsOther id until (leases _ _ _ now _) = now ≤ until
IsOther id until (renews id' _ _) = id' ≢ id
IsOther id until (completes id' _) = id' ≢ id
IsOther id until (releases id' _) = id' ≢ id
IsOther id until (fails id' _) = id' ≢ id
IsOther id until (sweeps _ now) = now ≤ until

held_has_lease : {id : String} {until : ℕ} {x : Item} → IsHeld id until x → has_lease id x ≡ true
held_has_lease held = ground arith

module _ {id : String} {until : ℕ} {x : Item} (held : IsHeld id until x) where
  not_can_lease : (now max_attempts : ℕ) → now ≤ until → can_lease now max_attempts x ≡ false
  unfolding can_lease
  not_can_lease now max_attempts h = ground arith

  not_expired : (now : ℕ) → now ≤ until → is_expired now x ≡ false
  not_expired now h = ground arith

  not_has_lease : (id' : String) → id' ≢ id → has_lease id' x ≡ false
  not_has_lease id' h = ground arith

  not_holds_lease : (id' : String) → id' ≢ id → holds_lease id' x ≡ false
  not_holds_lease id' h = ground arith

  lease-keeps :
      (worker : String) (timeout max_attempts now : ℕ) (fresh : String) (rows : Table)
      → UniqueIds rows
      → now ≤ until
      → In x rows
      → In x (lease worker timeout max_attempts now fresh rows).1
  unfolding lease
  lease-keeps worker timeout max_attempts now fresh rows u h m =
      elim (Option-cases (first_row (select (can_lease now max_attempts) rows))) [
        | inl empty ↦ rw (empty, lease) m
        | inr (y, found) ↦
            let (n, _) = first_row-IsFirst (select (can_lease now max_attempts) rows) found in
            let (n', can) = In-select (can_lease now max_attempts) y rows n in
            let other =
              not_has_item (can_lease now max_attempts) rows x y u m n'
                (not_can_lease now max_attempts h) can in
            rw (found, lease) (In-update_skip (has_item y.item_id) _ x rows other m)
      ]

  enqueue-keeps :
      (payload : String) (priority : ℤ) (id' : Option String) (now : ℕ) (fresh : String)
      (rows : Table)
      → In x rows
      → In x (enqueue payload priority id' now fresh rows).1
  unfolding enqueue
  enqueue-keeps payload priority id' now fresh rows m =
      elim (Bool-cases (exists (has_item (or_fresh id' fresh)) rows)) [
        | inl taken ↦ rw taken m
        | inr new ↦ rw new (In-append_left x rows _ m)
      ]

  apply-keeps :
      (op : Op) (rows : Table)
      → UniqueIds rows
      → IsOther id until op
      → In x rows
      → In x (apply op rows)
  unfolding apply enqueue renew complete release fail sweep_expired
  apply-keeps (enqueues payload priority id' now fresh) rows u o m =
      enqueue-keeps payload priority id' now fresh rows m
  apply-keeps (leases worker timeout max_attempts now fresh) rows u o m =
      lease-keeps worker timeout max_attempts now fresh rows u o m
  apply-keeps (renews id' timeout now) rows u o m =
      In-update_skip (holds_lease id') (extend (now + timeout)) x rows (not_holds_lease id' o) m
  apply-keeps (completes id' now) rows u o m =
      In-update_skip (has_lease id') (to_done now) x rows (not_has_lease id' o) m
  apply-keeps (releases id' now) rows u o m =
      In-update_skip (holds_lease id') (to_pending now) x rows (not_holds_lease id' o) m
  apply-keeps (fails id' now) rows u o m =
      In-update_skip (has_lease id') (to_failed now) x rows (not_has_lease id' o) m
  apply-keeps (sweeps max_attempts now) rows u o m =
      sweep_expired-keeps max_attempts now x rows u (not_expired now o) m

  run-keeps :
      (ops : List Op) (rows : Table)
      → UniqueIds rows
      → All (IsOther id until) ops
      → In x rows
      → In x (run ops rows)
  unfolding run
  run-keeps [] rows u others m = m
  run-keeps (op ∷ ops) rows u others m =
      run-keeps ops (apply op rows) (apply-UniqueIds op rows u) others.1
        (apply-keeps op rows u others.0 m)

-- A row that is leased until some time stays as it is, lease and attempts included, through any row
-- of calls that name other leases and read the clock no later than that time, leases and sweeps
-- among them; its holder can then complete it.
pub held_run :
    (id : String) (until now : ℕ) (x : Item) (ops : List Op) (rows : Table)
    → UniqueIds rows
    → In x rows
    → IsHeld id until x
    → All (IsOther id until) ops
    → In x (run ops rows) × ((complete id now (run ops rows)).0 ≡ true)
unfolding complete
held_run id until now x ops rows u m held others =
    let m' = run-keeps held ops rows u others m in
    (m', lt→ltb _ _ (count-pos (has_lease id) x (run ops rows) (held_has_lease held) m'))
