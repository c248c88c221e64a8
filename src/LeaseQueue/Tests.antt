-- ===== src/LeaseQueue/Tests.antt =====
-- Runs of the queue, and its theorems at concrete tables.
use obase.Base.{
  ◌≡◌, ◌≢◌, refl, true, some, none, String, string_eq, nat_eq, List, [], ◌∷◌, arith, inl, inr, err,
}
use text.Mathlib.TextEquality.{eq_iff}
use obase.Base.Int.{pos, negsuc}
use obase.Base.Members.{In}
use obase.LeaseQueue.{
  Item, Table, pending, leased, integrity_error, enqueue, lease, renew, complete, release, fail,
  sweep_expired, to_failed,
}
use obase.LeaseQueue.Unique.{Op, leases, renews, sweeps, run}
use obase.LeaseQueue.Holding.{held_run}

program : Unit {0}
unfolding enqueue lease renew complete release fail sweep_expired run string_eq nat_eq
program = tt

abbrev low : Item
low = record {
  item_id = "a";
  payload = "{}";
  priority = negsuc 0;
  status = pending;
  worker_id = none;
  lease_id = none;
  lease_until = none;
  created_at = 1;
  updated_at = 1;
  attempts = 0;
}

abbrev high : Item
high = record low { item_id = "b"; priority = pos 2; created_at = 2; updated_at = 2 }

abbrev high_leased : Item
high_leased = record high {
  status = leased;
  worker_id = some "w";
  lease_id = some "l";
  lease_until = some 40;
  updated_at = 10;
  attempts = 1;
}

abbrev rows : Table
rows = low ∷ high_leased ∷ []

enqueue_twice : enqueue "{}" (pos 0) (some "a") 3 "x" rows ≡ (err integrity_error, rows)
unfolding program
enqueue_twice = refl

highest_first :
    lease "w" 30 3 10 "l" (low ∷ high ∷ [])
    ≡ (some (record { item_id = "b"; lease_id = "l"; payload = "{}"; attempts = 1 }), rows)
unfolding program
highest_first = refl

sweep_late : (sweep_expired 1 41 rows).1 ≡ low ∷ to_failed 41 high_leased ∷ []
unfolding program
sweep_late = refl

b_ne_a : ◌≢◌ {A = String} "b" "a"
b_ne_a = ground (arith, eq_iff "b" "a")

k_ne_l : ◌≢◌ {A = String} "k" "l"
k_ne_l = ground (arith, eq_iff "k" "l")

abbrev others : List Op
others = leases "v" 30 3 40 "k" ∷ sweeps 3 40 ∷ renews "k" 30 50 ∷ []

held_run_example : In high_leased (run others rows) × ((complete "l" 39 (run others rows)).0 ≡ true)
unfolding string_eq
held_run_example =
    held_run "l" 40 39 high_leased others rows ((b_ne_a, tt), (tt, tt)) (inr (inl refl))
      (record { is_leased = refl; under = refl; ends = refl })
      (omega arith, (omega arith, (k_ne_l, tt)))
