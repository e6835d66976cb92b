-- ===== src/RootCause/Dependents.antt =====
-- application/root_cause_service.py: the reversed edges, and the search through them.
use aiops_control_lab.Base.{
  ℕ, zero, suc, ◌+◌, String, true, false, ◌==◌, Option, none, some, List, [], ◌∷◌, ◌++◌, length,
  contains, Dict, lookup, insert, if◌then◌else◌,
}
use aiops_control_lab.Domain.Monitoring.{TopologyEdge}

-- A set of texts is the list of its elements, without duplicates, in some order.
unfoldable pub add_to : String → List String → List String
add_to x xs = if contains x xs then xs else x ∷ xs

-- What `d.get(k, set())` and `d[k]` of the `defaultdict` give.
abbrev pub or_nothing : Option (List String) → List String
or_nothing none = []
or_nothing (some xs) = xs

-- `dependents.get(asset, set())`
unfoldable pub next : String → Dict (List String) → List String
next a d = or_nothing (lookup a d)

-- the body of the loop that reverses the edges
unfoldable pub add_edge : TopologyEdge → Dict (List String) → Dict (List String)
unfolding add_to next
add_edge e d =
    if e.relation == "depends_on"
    then insert e.target_asset_id (add_to e.source_asset_id (next e.target_asset_id d)) d
    else d

unfoldable pub add_edges : List TopologyEdge → Dict (List String) → Dict (List String)
unfolding add_edge
add_edges [] d = d
add_edges (e ∷ edges) d = add_edges edges (add_edge e d)

unfoldable pub dependents_of : List TopologyEdge → Dict (List String)
unfolding add_edges
dependents_of edges = add_edges edges []

-- The `while queue` loop of `_reachable_dependents`; `none` means that the fuel ran out.
unfoldable pub explore : ℕ → Dict (List String) → List String → List String → Option (List String)
explore fuel d visited [] = some visited
explore zero d visited (x ∷ queue) = none
explore (suc fuel) d visited (x ∷ queue) = elim (contains x visited) [
  | true ↦ explore fuel d visited queue
  | false ↦ explore fuel d (x ∷ visited) (queue ++ next x d)
]

-- How often an asset can still enter the queue: once for each entry of the dictionary whose key is
-- not visited yet and each element of its set.
unfoldable pub unexplored : List String → Dict (List String) → ℕ
unexplored visited [] = 0
unexplored visited ((k, xs) ∷ d) =
    (if contains k visited then 0 else length xs) + unexplored visited d

unfoldable pub reachable_dependents : String → Dict (List String) → Option (List String)
unfolding explore next unexplored
reachable_dependents root d = explore (length (next root d) + unexplored [] d) d [] (next root d)
