-- ===== src/Kernel/Resolve/Topological.antt =====
-- `_topological` of src/aurora_kernel/resolve.py. The heap of positions is a list in ascending
-- order, whose least element stands first.
use aurora_bot.Prelude.{
  ℕ, zero, suc, ◌-◌, String, not, ◌&&◌, none, some, List, [], ◌∷◌, ◌++◌, string_eq, ◌==◌, length,
  get_elem?, keep, map, contains, leb, nat_beq, sorted, insert_sorted, if◌then◌else◌, Result, ok,
  err,
}
use aurora_bot.Prelude.Dict
use aurora_bot.Prelude.Dict.{Dict}
use aurora_bot.Kernel.Declaration.{ModuleSpec}
use aurora_bot.Kernel.Optional.{identities}
use aurora_bot.Kernel.Resolve.Checks.{ResolveError, cycle}

-- positions[name]
unfoldable pub position_of : List String → String → ℕ
position_of [] name = 0
position_of (n ∷ names) name = if n == name then 0 else suc (position_of names name)

-- dependencies[name] & (names - {name})
unfoldable pub resolved_names : List String → List String → String → List String
resolved_names names dependencies name =
    keep (λ d. contains names d && not (d == name)) dependencies

-- resolved
unfoldable pub resolve_names :
    List String → Dict String (List String) → List String → Dict String (List String)
unfolding resolved_names
resolve_names names dependencies [] = []
resolve_names names dependencies (name ∷ rest) =
    (name, resolved_names names (Dict.get_or dependencies name []) name)
    ∷ resolve_names names dependencies rest

-- dependents[name]
unfoldable pub dependents_of : List String → Dict String (List String) → String → List String
dependents_of names resolved name = keep (λ n. contains (Dict.get_or resolved n []) name) names

-- in_degree
unfoldable pub in_degrees : Dict String (List String) → Dict String ℕ
in_degrees resolved = map (λ entry. (entry.0, length entry.1)) resolved

-- [positions[name] for name, degree in in_degree.items() if degree == 0], as a heap
unfoldable pub ready_positions : List String → Dict String ℕ → List ℕ
unfolding position_of
ready_positions names degrees =
    sorted leb
      (map (λ entry. position_of names entry.0) (keep (λ entry. nat_beq entry.1 0) degrees))

-- for dependent in dependents[spec.module_id]
unfoldable pub release : List String → List String → Dict String ℕ → List ℕ → Dict String ℕ × List ℕ
unfolding position_of insert_sorted
release names [] degrees queue = (degrees, queue)
release names (dependent ∷ rest) degrees queue =
    let degree = Dict.get_or degrees dependent 0 - 1 in
    release names rest (Dict.put degrees dependent degree)
      (if nat_beq degree 0 then insert_sorted leb (position_of names dependent) queue else queue)

module _ {C : Type 0} where
  -- while queue; without fuel the result so far
  unfoldable pub search_order :
      ℕ
      → List (ModuleSpec C)
      → List String
      → Dict String (List String)
      → Dict String ℕ
      → List ℕ
      → List (ModuleSpec C)
      → List (ModuleSpec C)
  unfolding release dependents_of
  search_order zero specs names resolved degrees queue result = result
  search_order (suc fuel) specs names resolved degrees [] result = result
  search_order (suc fuel) specs names resolved degrees (p ∷ queue) result =
      elim (get_elem? specs p) [
        | none ↦ result
        | some spec ↦
            let (degrees', queue') =
              release names (dependents_of names resolved spec.module_id) degrees queue in
            search_order fuel specs names resolved degrees' queue' (result ++ spec ∷ [])
      ]

  -- _topological
  unfoldable pub topological :
      List (ModuleSpec C) → Dict String (List String) → Result ResolveError (List (ModuleSpec C))
  unfolding search_order identities resolve_names in_degrees ready_positions
  topological specs dependencies =
      let names = identities specs in
      let resolved = resolve_names names dependencies names in
      let degrees = in_degrees resolved in
      let result =
        search_order (suc (length specs)) specs names resolved degrees
          (ready_positions names degrees) [] in
      if nat_beq (length result) (length specs) then ok result else err cycle
