-- ===== src/Workflow/Colors.antt =====
-- The search for a cycle ends.
use obase.Base.{
  ℕ, zero, suc, ◌+◌, ◌≤◌, ◌<◌, ◌≡◌, refl, ap, ◌∙◌, subst, Bool, true, false, some, String,
  string_eq, List, [], ◌∷◌, ◌++◌, map, length, length-append, count, length-select-le, All, All-map,
  Result, ok, err, ◌>>=◌, ◌==◌, if◌then◌else◌, arith, Bool-cases, inl, inr,
}
use obase.Base.Members.{In, count-pos}
use obase.Base.Dict.{lookup, insert, lookup-insert}
use obase.Workflow.Sort.{
  SortError, cycle_error, out_of_fuel, Edges, targets, Color, white, gray, black, Colors, or_white,
  color, visit, dfs, search, all_white, detect_cycle,
}

count-le :
    {A : Type 0} (p q : A → Bool) (xs : List A)
    → ((x : A) → p x ≡ true → q x ≡ true)
    → count p xs ≤ count q xs
count-le p q [] h = omega arith
count-le p q (x ∷ xs) h = ground (arith, h x, count-le p q xs h)

count-lt :
    {A : Type 0} (p q : A → Bool) (x : A) (xs : List A)
    → ((y : A) → p y ≡ true → q y ≡ true)
    → p x ≡ false
    → q x ≡ true
    → In x xs
    → count p xs < count q xs
count-lt p q x [] h miss hit m = absurd m
count-lt p q x (y ∷ xs) h miss hit (inl same) =
    let miss' : p y ≡ false = subst (λ z. p z ≡ false) same miss in
    let hit' : q y ≡ true = subst (λ z. q z ≡ true) same hit in
    ground (arith, miss', hit', count-le p q xs h)
count-lt p q x (y ∷ xs) h miss hit (inr m) = ground (arith, h y, count-lt p q x xs h miss hit m)

abbrev is_white : Color → Bool
is_white white = true
is_white _ = false

abbrev is_open : Colors → String → Bool
is_open colors x = is_white (color x colors)

-- What is not white stays so.
Keeps : Colors → Colors → Type 0
Keeps colors colors' = (x : String) → is_open colors' x ≡ true → is_open colors x ≡ true

Ends : Colors → Result SortError Colors → Type 0
Ends colors (ok colors') = Keeps colors colors'
Ends colors (err cycle_error) = Unit
Ends colors (err out_of_fuel) = ⊥

is_open-insert :
    (x n : String) (c : Color) (colors : Colors)
    → is_open (insert n c colors) x ≡ (if x == n then is_white c else is_open colors x)
is_open-insert x n c colors =
    ap (λ o. is_white (or_white o)) (lookup-insert x n c colors) ∙ pull (x == n)
  where
    pull :
        (b : Bool)
        → is_white (or_white (if b then some c else lookup x colors))
          ≡ (if b then is_white c else is_open colors x)
    pull true = refl
    pull false = refl

insert-Keeps :
    (n : String) (c : Color) (colors : Colors)
    → is_white c ≡ false
    → Keeps colors (insert n c colors)
unfolding Keeps
insert-Keeps n c colors dark x h = ground (arith, h, dark, is_open-insert x n c colors)

insert-dark :
    (n : String) (c : Color) (colors : Colors)
    → is_white c ≡ false
    → is_open (insert n c colors) n ≡ false
insert-dark n c colors dark = ground (arith, dark, is_open-insert n n c colors)

-- A part of the search that ends, on the nodes of a list, where few enough of them are white.
Searches : (String → Colors → Result SortError Colors) → List String → ℕ → Type 0
Searches go nodes fuel =
    (n : String) (colors : Colors)
    → is_open colors n ≡ true
    → In n nodes
    → count (is_open colors) nodes ≤ fuel
    → Ends colors (go n colors)

Ends-after :
    (colors colors' : Colors) (r : Result SortError Colors)
    → Keeps colors colors'
    → Ends colors' r
    → Ends colors r
unfolding Ends Keeps
Ends-after colors colors' (ok last) keeps h = λ x m. keeps x (h x m)
Ends-after colors colors' (err cycle_error) keeps h = tt
Ends-after colors colors' (err out_of_fuel) keeps h = h

Ends-bind :
    (colors : Colors) (r : Result SortError Colors) (f : Colors → Result SortError Colors)
    → Ends colors r
    → ((colors' : Colors) → Keeps colors colors' → Ends colors' (f colors'))
    → Ends colors (r >>= f)
unfolding Ends
Ends-bind colors (ok colors') f h next = Ends-after colors colors' (f colors') h (next colors' h)
Ends-bind colors (err cycle_error) f h next = tt
Ends-bind colors (err out_of_fuel) f h next = h

visit-Ends :
    (go : String → Colors → Result SortError Colors) (nodes : List String) (fuel : ℕ)
    (ns : List String) (colors : Colors)
    → Searches go nodes fuel
    → All (λ n. In n nodes) ns
    → count (is_open colors) nodes ≤ fuel
    → Ends colors (visit go ns colors)
unfolding visit Ends Keeps Searches
visit-Ends go nodes fuel [] colors searches among enough = λ x h. h
visit-Ends go nodes fuel (n ∷ ns) colors searches (here, among) enough =
    by_color (color n colors) refl (visit-Ends go nodes fuel ns colors searches among enough)
      (λ colors' keeps.
        visit-Ends go nodes fuel ns colors' searches among
          (omega (arith, enough, count-le (is_open colors') (is_open colors) nodes keeps)))
  where
    by_color :
        (c : Color)
        → color n colors ≡ c
        → Ends colors (visit go ns colors)
        → ((colors' : Colors) → Keeps colors colors' → Ends colors' (visit go ns colors'))
        → Ends colors (elim c [
          | gray ↦ err cycle_error
          | white ↦ go n colors >>= λ colors'. visit go ns colors'
          | black ↦ visit go ns colors
        ])
    by_color gray at rest next = tt
    by_color black at rest next = rest
    by_color white at rest next =
        Ends-bind colors (go n colors) (λ colors'. visit go ns colors')
          (searches n colors (ap is_white at) here enough) next

search-Ends :
    (go : String → Colors → Result SortError Colors) (nodes : List String) (fuel : ℕ)
    (ns : List String) (colors : Colors)
    → Searches go nodes fuel
    → All (λ n. In n nodes) ns
    → count (is_open colors) nodes ≤ fuel
    → Ends colors (search go ns colors)
unfolding search Ends Keeps Searches
search-Ends go nodes fuel [] colors searches among enough = λ x h. h
search-Ends go nodes fuel (n ∷ ns) colors searches (here, among) enough =
    by_color (color n colors) refl (search-Ends go nodes fuel ns colors searches among enough)
      (λ colors' keeps.
        search-Ends go nodes fuel ns colors' searches among
          (omega (arith, enough, count-le (is_open colors') (is_open colors) nodes keeps)))
  where
    by_color :
        (c : Color)
        → color n colors ≡ c
        → Ends colors (search go ns colors)
        → ((colors' : Colors) → Keeps colors colors' → Ends colors' (search go ns colors'))
        → Ends colors (elim c [
          | white ↦ go n colors >>= λ colors'. search go ns colors'
          | gray ↦ search go ns colors
          | black ↦ search go ns colors
        ])
    by_color gray at rest next = rest
    by_color black at rest next = rest
    by_color white at rest next =
        Ends-bind colors (go n colors) (λ colors'. search go ns colors')
          (searches n colors (ap is_white at) here enough) next

-- The nodes and the ends of edges.
abbrev vertices : List String → Edges → List String
vertices nodes edges = map (λ e. e.1) edges ++ nodes

targets-among :
    (node : String) (edges : Edges) (nodes : List String)
    → All (λ n. In n (vertices nodes edges)) (targets node edges)
unfolding targets
targets-among node [] nodes = tt
targets-among node ((src, dst) ∷ edges) nodes =
    let rest : All (λ n. In n (vertices nodes ((src, dst) ∷ edges))) (targets node edges) =
      All-map (λ n m. inr m) (targets node edges) (targets-among node edges nodes) in
    elim (Bool-cases (src == node)) [ inl hit ↦ rw hit (inl refl, rest) | inr miss ↦ rw miss rest ]

dfs-Searches :
    (fuel : ℕ) (nodes : List String) (edges : Edges)
    → Searches (dfs fuel edges) (vertices nodes edges) fuel
unfolding dfs Searches Ends Keeps
dfs-Searches zero nodes edges n colors fresh here enough =
    absurd (omega (arith, enough, count-pos (is_open colors) n (vertices nodes edges) fresh here))
dfs-Searches (suc fuel) nodes edges n colors fresh here enough =
    let gray_now = insert n gray colors in
    let keeps = insert-Keeps n gray colors refl in
    let fewer =
      count-lt (is_open gray_now) (is_open colors) n (vertices nodes edges) keeps
        (insert-dark n gray colors refl) fresh here in
    Ends-after colors gray_now
      (visit (dfs fuel edges) (targets n edges) gray_now >>= λ colors'. ok (insert n black colors'))
      keeps
      (Ends-bind gray_now (visit (dfs fuel edges) (targets n edges) gray_now)
        (λ colors'. ok (insert n black colors'))
        (visit-Ends (dfs fuel edges) (vertices nodes edges) fuel (targets n edges) gray_now
          (dfs-Searches fuel nodes edges) (targets-among n edges nodes)
          (omega (arith, fewer, enough)))
        (λ colors' kept. insert-Keeps n black colors' refl))

In-right : (xs ys : List String) (x : String) → In x ys → In x (xs ++ ys)
In-right [] ys x m = m
In-right (y ∷ xs) ys x m = inr (In-right xs ys x m)

All-among : (xs : List String) → All (λ x. In x xs) xs
All-among [] = tt
All-among (x ∷ xs) = (inl refl, All-map (λ y m. inr m) xs (All-among xs))

length-ends : (edges : Edges) → length (map (λ e. e.1) edges) ≡ length edges
length-ends [] = refl
length-ends (e ∷ edges) = ap suc (length-ends edges)

-- Fuel for every node and edge is enough.
abbrev pub HasEnded : Result SortError Colors → Type 0
HasEnded (err out_of_fuel) = ⊥
HasEnded _ = Unit

HasEnded-Ends : (colors : Colors) (r : Result SortError Colors) → Ends colors r → HasEnded r
unfolding Ends
HasEnded-Ends colors (ok colors') h = tt
HasEnded-Ends colors (err cycle_error) h = tt
HasEnded-Ends colors (err out_of_fuel) h = h

pub detect_cycle-HasEnded :
    (nodes : List String) (edges : Edges)
    → HasEnded (detect_cycle (length nodes + length edges) nodes edges)
unfolding detect_cycle
detect_cycle-HasEnded nodes edges =
    let start = all_white nodes [] in
    let go = dfs (length nodes + length edges) edges in
    let all = vertices nodes edges in
    HasEnded-Ends start (search go nodes start) (
      search-Ends go all (length nodes + length edges) nodes start
        (dfs-Searches (length nodes + length edges) nodes edges)
        (All-map (λ x m. In-right (map (λ e. e.1) edges) nodes x m) nodes (All-among nodes))
        (omega (
          arith,
          length-select-le (is_open start) all,
          length-append (map (λ e. e.1) edges) nodes,
          length-ends edges,
        )))
