-- ===== src/Workflow/Counts.antt =====
-- Degrees as counts of edges.
use obase.Base.{
  ℕ, suc, ◌+◌, ◌≤◌, ◌≡◌, refl, sym, ap, ◌∙◌, Bool, true, false, not, ◌&&◌, ◌||◌, some, String,
  string_eq, List, [], ◌∷◌, ◌++◌, contains, length, ◌==◌, if◌then◌else◌, arith, Bool-cases, inl,
  inr,
}
use obase.Base.Int.{ℤ, pos}
use obase.Base.Members.{In}
use obase.Base.Dict.{lookup, insert, lookup-insert}
use obase.Workflow.Sort.{Edges, Degrees, targets, degree, or_zero, plus_one, all_zero, count_edges}

-- How many edges to a node have a source outside a list, and how many have one at all.
unfoldable pub open_to : List String → String → Edges → ℕ
open_to done x [] = 0
open_to done x ((src, dst) ∷ edges) =
    let rest = open_to done x edges in
    if not (contains done src) && dst == x then suc rest else rest

unfoldable pub open_edges : List String → Edges → ℕ
open_edges done [] = 0
open_edges done ((src, dst) ∷ edges) =
    let rest = open_edges done edges in if contains done src then rest else suc rest

unfoldable pub times : String → List String → ℕ
times x [] = 0
times x (t ∷ ts) = let rest = times x ts in if x == t then suc rest else rest

pub contains-append :
    (xs ys : List String) (x : String) → contains (xs ++ ys) x ≡ (contains xs x || contains ys x)
contains-append [] ys x = refl
contains-append (y ∷ xs) ys x = ground (arith, contains-append xs ys x)

-- A node that is done closes its edges.
pub open_to-done :
    (done : List String) (p x : String) (edges : Edges)
    → contains done p ≡ false
    → open_to done x edges ≡ open_to (done ++ p ∷ []) x edges + times x (targets p edges)
unfolding open_to times targets
open_to-done done p x [] new = refl
open_to-done done p x ((src, dst) ∷ edges) new =
    ground (arith, open_to-done done p x edges new, contains-append done (p ∷ []) src, new)

pub open_edges-done :
    (done : List String) (p : String) (edges : Edges)
    → contains done p ≡ false
    → open_edges done edges ≡ open_edges (done ++ p ∷ []) edges + length (targets p edges)
unfolding open_edges targets
open_edges-done done p [] new = refl
open_edges-done done p ((src, dst) ∷ edges) new =
    ground (arith, open_edges-done done p edges new, contains-append done (p ∷ []) src, new)

pub open_edges-le : (edges : Edges) → open_edges [] edges ≤ length edges
unfolding open_edges
open_edges-le [] = omega arith
open_edges-le (e ∷ edges) = omega (arith, open_edges-le edges)

-- No open edge to a node: the source of every edge to it is done.
pub open_to-zero :
    (done : List String) (s x : String) (edges : Edges)
    → open_to done x edges ≡ 0
    → In (s, x) edges
    → contains done s ≡ true
unfolding open_to
open_to-zero done s x [] h m = absurd m
open_to-zero done s x ((src, dst) ∷ edges) h (inl same) =
    let src_is : s ≡ src = ap (λ (e : String × String). e.0) same in
    let dst_is : x ≡ dst = ap (λ (e : String × String). e.1) same in
    ground (arith, h, src_is, dst_is)
open_to-zero done s x ((src, dst) ∷ edges) h (inr m) =
    open_to-zero done s x edges (ground (arith, h)) m

pub degree-insert :
    (x t : String) (z : ℤ) (degrees : Degrees)
    → degree x (insert t z degrees) ≡ (if x == t then z else degree x degrees)
degree-insert x t z degrees = ap or_zero (lookup-insert x t z degrees) ∙ pull (x == t)
  where
    pull :
        (b : Bool)
        → or_zero (if b then some z else lookup x degrees) ≡ (if b then z else degree x degrees)
    pull true = refl
    pull false = refl

degree-all_zero :
    (x : String) (nodes : List String) (degrees : Degrees)
    → degree x degrees ≡ pos 0
    → degree x (all_zero nodes degrees) ≡ pos 0
unfolding all_zero
degree-all_zero x [] degrees h = h
degree-all_zero x (n ∷ nodes) degrees h =
    degree-all_zero x nodes (insert n (pos 0) degrees)
      (degree-insert x n (pos 0) degrees ∙ (rw h (same (x == n))))
  where
    same : (b : Bool) → (if b then pos 0 else pos 0) ≡ pos 0
    same true = refl
    same false = refl

degree-count_edges :
    (x : String) (edges : Edges) (degrees : Degrees) (counts : String → ℕ)
    → ((y : String) → degree y degrees ≡ pos (counts y))
    → degree x (count_edges edges degrees) ≡ pos (counts x + open_to [] x edges)
unfolding count_edges open_to
degree-count_edges x [] degrees counts h = rw (h x) (ap pos (omega arith))
degree-count_edges x ((src, dst) ∷ edges) degrees counts h =
    degree-count_edges x edges (insert dst (plus_one (degree dst degrees)) degrees)
      (λ y. if y == dst then suc (counts y) else counts y) next
    ∙ ap pos (ground arith)
  where
    next :
        (y : String)
        → degree y (insert dst (plus_one (degree dst degrees)) degrees)
          ≡ pos (if y == dst then suc (counts y) else counts y)
    next y =
        degree-insert y dst (plus_one (degree dst degrees)) degrees
        ∙ (elim (Bool-cases (y == dst)) [
          | inl same ↦
              let there : y ≡ dst = ground (arith, same) in
              rw same (ap plus_one (ap (λ z. degree z degrees) (sym there) ∙ h y))
          | inr apart ↦ rw apart (h y)
        ])

-- The degrees that the sort starts with.
pub degree-start :
    (x : String) (nodes : List String) (edges : Edges)
    → degree x (count_edges edges (all_zero nodes [])) ≡ pos (open_to [] x edges)
unfolding lookup
degree-start x nodes edges =
    degree-count_edges x edges (all_zero nodes []) (λ y. 0) (λ y. degree-all_zero y nodes [] refl)
    ∙ ap pos (omega arith)
