-- ===== src/Discovery/Graph/Adapters.antt =====
-- internal/discovery/graph.go: what a mutation site and a payload address are in the graph.
use tf_mut.Prelude.{
  Bool, true, false, not, ◌||◌, Option, none, some, List, [], ◌∷◌, if◌then◌else◌, some_pass,
}
use tf_mut.Text.{Text, text, text_eq, contains, join}
use tf_mut.Dict.{is_some, get}
use tf_mut.Discovery.Address.{split_address, parse_addr, split_dots}
use tf_mut.Discovery.Graph.{
  visited, owner_of, is_resource_block, resolve_node, forward_cone, cone_contains, Node, Graph,
  Cone,
}

-- `SiteCone`; `none` is its `false`.
unfoldable pub site_cone : Graph → Text → Text → Option Cone
site_cone g module_rel site =
    let start : Node = record {
      module_rel = module_rel;
      address = join (text ".") (split_address site);
    } in
    if not (visited start g.nodes) then none else some (forward_cone g start)

-- `ContainsPayloadAddress`, for a cone that has its graph.
unfoldable pub contains_payload_address : Cone → Text → Bool
contains_payload_address c address =
    let parsed = parse_addr address in
    if c.unbounded
    then true
    else elim (get (join (text ".") parsed.module_path) c.graph.module_by_path) [
      | none ↦ true
      | some module_rel ↦ elim (resolve_node c.graph module_rel parsed.parts) [
        | none ↦ true
        | some node ↦ cone_contains c node
      ]
    ]

-- `ContainsResource`.
unfoldable pub contains_resource : Cone → Text → Text → Bool
contains_resource c module_rel address =
    if c.unbounded
    then true
    else cone_contains c (record { module_rel = module_rel; address = address })

abbrev contract : Text → Bool
contract segment =
    contains segment (text "validation" ∷ text "precondition" ∷ text "postcondition" ∷ [])

abbrev observable_segments : List Text → Bool
observable_segments [] = false
observable_segments (first ∷ rest) =
    text_eq first (text "output")
    || (text_eq first (text "check") || some_pass contract (first ∷ rest))

-- `observableAddress`.
unfoldable pub observable_address : Text → Bool
unfolding split_dots
observable_address address = observable_segments (split_dots [] address)

-- `ContainsObservable`.
unfoldable pub contains_observable : Cone → Bool
contains_observable c =
    if c.unbounded
    then true
    else some_pass
        (λ node.
          is_resource_block node
          || (is_some (owner_of c.graph.owners node) || observable_address node.address))
        c.members

-- `ConeOfPayloadAddress`.
unfoldable pub cone_of_payload_address : Graph → Text → Option Cone
cone_of_payload_address g address =
    let parsed = parse_addr address in
    elim (get (join (text ".") parsed.module_path) g.module_by_path) [
      | none ↦ none
      | some module_rel ↦ elim (resolve_node g module_rel parsed.parts) [
        | none ↦ none
        | some node ↦ some (forward_cone g node)
      ]
    ]
