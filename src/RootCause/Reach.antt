-- ===== src/RootCause/Reach.antt =====
-- The search for dependents ends, and finds what the edges lead to.
use aiops_control_lab.Base.{
  ◌≡◌, refl, arith, ◌↔◌, inl, inr, eq_iff, eq_refl, Bool-cases, ℕ, zero, suc, ◌+◌, ◌≤◌, String,
  Bool, true, false, ◌==◌, ◌&&◌, ◌||◌, some, List, [], ◌∷◌, ◌++◌, length, length-append, any,
  contains, Dict, lookup, lookup-insert, subst,
}
use aiops_control_lab.Domain.Monitoring.{TopologyEdge}
use aiops_control_lab.RootCause.Dependents.{
  add_to, or_nothing, next, add_edge, add_edges, dependents_of, explore, unexplored,
  reachable_dependents,
}

-- `a` depends on `b` directly: an edge of the list says so.
unfoldable pub depends_on : List TopologyEdge → String → String → Bool
depends_on edges a b =
    any (λ e. e.relation == "depends_on" && (e.source_asset_id == a && e.target_asset_id == b))
      edges

-- The assets that depend on `root`, directly or through others.
pub data Affected (edges : List TopologyEdge) (root : String) : String → Type 0 where
  direct : {a : String} → depends_on edges a root ≡ true → Affected edges root a
  onward :
      {a b : String} → Affected edges root b → depends_on edges a b ≡ true → Affected edges root a

contains-add_to :
    (x y : String) (xs : List String) → contains x (add_to y xs) ≡ (contains x xs || (y == x))
unfolding add_to
contains-add_to x y xs = ground (arith, eq_iff y x)

contains-append :
    (x : String) (xs ys : List String) → contains x (xs ++ ys) ≡ (contains x xs || contains x ys)
contains-append x [] ys = refl
contains-append x (y ∷ xs) ys = ground (arith, contains-append x xs ys)

-- One edge adds its source to the dependents of its target.
next-add_edge :
    (e : TopologyEdge) (d : Dict (List String)) (a b : String)
    → contains a (next b (add_edge e d)) ≡ (
        contains a (next b d)
        || (e.relation == "depends_on" && (e.source_asset_id == a && e.target_asset_id == b)))
unfolding next add_edge
next-add_edge e d a b = ground (
  arith,
  lookup-insert e.target_asset_id b
      (add_to e.source_asset_id (or_nothing (lookup e.target_asset_id d))) d,
  contains-add_to a e.source_asset_id (or_nothing (lookup e.target_asset_id d)),
  eq_iff e.target_asset_id b,
)

next-add_edges :
    (edges : List TopologyEdge) (d : Dict (List String)) (a b : String)
    → contains a (next b (add_edges edges d)) ≡ (contains a (next b d) || depends_on edges a b)
unfolding add_edges depends_on
next-add_edges [] d a b = ground arith
next-add_edges (e ∷ edges) d a b =
    ground (arith, next-add_edges edges (add_edge e d) a b, next-add_edge e d a b)

next-dependents_of :
    (edges : List TopologyEdge) (a b : String)
    → contains a (next b (dependents_of edges)) ≡ depends_on edges a b
unfolding dependents_of next lookup
next-dependents_of edges a b = ground (arith, next-add_edges edges [] a b)

unexplored_mono :
    (x : String) (visited : List String) (d : Dict (List String))
    → unexplored (x ∷ visited) d ≤ unexplored visited d
unfolding unexplored
unexplored_mono x visited [] = omega arith
unexplored_mono x visited ((k, xs) ∷ d) = ground (arith, unexplored_mono x visited d)

unexplored-visit :
    (x : String) (visited : List String) (d : Dict (List String))
    → contains x visited ≡ false
    → length (next x d) + unexplored (x ∷ visited) d ≤ unexplored visited d
unfolding unexplored next lookup
unexplored-visit x visited [] new = omega arith
unexplored-visit x visited ((k, xs) ∷ d) new =
    ground
      (arith, unexplored-visit x visited d new, unexplored_mono x visited d, eq_iff k x, eq_iff x k)

explore_ends :
    (fuel : ℕ) (d : Dict (List String)) (visited queue : List String)
    → length queue + unexplored visited d ≤ fuel
    → (found : List String) × (explore fuel d visited queue ≡ some found)
unfolding explore
explore_ends fuel d visited [] h = (visited, refl)
explore_ends zero d visited (x ∷ queue) h = absurd (omega arith)
explore_ends (suc fuel) d visited (x ∷ queue) h = elim (Bool-cases (contains x visited)) [
  | inl old ↦ rw (old, explore) (explore_ends fuel d visited queue (omega arith))
  | inr new ↦
      rw (new, explore)
        (explore_ends fuel d (x ∷ visited) (queue ++ next x d)
          (omega (arith, unexplored-visit x visited d new, length-append queue (next x d))))
]

module _ (edges : List TopologyEdge) (root : String) where
  -- Between two rounds of the search.
  record Inv (visited queue : List String) : Type 0 where
    visited_affected : (v : String) → contains v visited ≡ true → Affected edges root v
    queued_affected : (v : String) → contains v queue ≡ true → Affected edges root v
    source :
        (v : String)
        → depends_on edges v root ≡ true
        → (contains v visited || contains v queue) ≡ true
    closed :
        (u v : String)
        → contains u visited ≡ true
        → depends_on edges v u ≡ true
        → (contains v visited || contains v queue) ≡ true

  Inv-start : Inv [] (next root (dependents_of edges))
  Inv-start = record {
    visited_affected = λ v h. absurd (ground arith);
    queued_affected = λ v h. direct (ground (arith, next-dependents_of edges v root));
    source = λ v h. ground (arith, next-dependents_of edges v root);
    closed = λ u v h k. absurd (ground arith);
  }

  Inv-skip :
      (x : String) (visited queue : List String)
      → contains x visited ≡ true
      → Inv visited (x ∷ queue)
      → Inv visited queue
  Inv-skip x visited queue old h = record {
    visited_affected = h.visited_affected;
    queued_affected = λ v k. h.queued_affected v (ground arith);
    source = λ v k. ground (arith, h.source v k, eq_iff x v);
    closed = λ u v k l. ground (arith, h.closed u v k l, eq_iff x v);
  }

  Inv-visit :
      (x : String) (visited queue : List String)
      → Inv visited (x ∷ queue)
      → Inv (x ∷ visited) (queue ++ next x (dependents_of edges))
  Inv-visit x visited queue h =
      let to_x = h.queued_affected x (ground (arith, eq_refl x)) in
      let new = λ (v : String). contains-append v queue (next x (dependents_of edges)) in
      record {
        visited_affected = λ v k. elim (Bool-cases (x == v)) [
          | inl same ↦ subst (Affected edges root) ((eq_iff x v).0 same) to_x
          | inr other ↦ h.visited_affected v (ground arith)
        ];
        queued_affected = λ v k. elim (Bool-cases (contains v queue)) [
          | inl waits ↦ h.queued_affected v (ground arith)
          | inr fresh ↦ onward to_x (ground (arith, new v, next-dependents_of edges v x))
        ];
        source = λ v k. ground (arith, h.source v k, new v);
        closed = λ u v k l. elim (Bool-cases (x == u)) [
          | inl same ↦ ground (arith, new v, next-dependents_of edges v x, eq_iff x u)
          | inr other ↦ ground (arith, h.closed u v, new v)
        ];
      }

  explore-Inv :
      (fuel : ℕ) (visited queue found : List String)
      → Inv visited queue
      → explore fuel (dependents_of edges) visited queue ≡ some found
      → Inv found []
  unfolding explore
  explore-Inv fuel visited [] found h e =
      let same : visited ≡ found = ground arith in subst (λ w. Inv w []) same h
  explore-Inv zero visited (x ∷ queue) found h e = absurd (ground arith)
  explore-Inv (suc fuel) visited (x ∷ queue) found h e = elim (Bool-cases (contains x visited)) [
    | inl old ↦
        explore-Inv fuel visited queue found (Inv-skip x visited queue old h)
          (rw (old, explore) at e)
    | inr new ↦
        explore-Inv fuel (x ∷ visited) (queue ++ next x (dependents_of edges)) found
          (Inv-visit x visited queue h) (rw (new, explore) at e)
  ]

  complete :
      (found : List String)
      → Inv found []
      → {v : String} → Affected edges root v
      → contains v found ≡ true
  complete found h (direct {a} k) = ground (arith, h.source a k)
  complete found h (onward {a} {b} p k) = ground (arith, h.closed b a (complete found h p) k)

-- The search always returns, and an asset is among what it returns if and only if it depends on the
-- root by an edge, or on another asset that does so, and so on.
pub reachable_dependents-Affected :
    (edges : List TopologyEdge) (root : String)
    → (found : List String) × (reachable_dependents root (dependents_of edges) ≡ some found)
      × ((v : String) → (contains v found ≡ true) ↔ Affected edges root v)
unfolding reachable_dependents
reachable_dependents-Affected edges root =
    let d = dependents_of edges in
    let (found, ends) =
      explore_ends (length (next root d) + unexplored [] d) d [] (next root d) (omega arith) in
    let last =
      explore-Inv edges root (length (next root d) + unexplored [] d) [] (next root d) found
        (Inv-start edges root) ends in
    (found, ends, λ v. (last.visited_affected v, complete edges root found last))
