-- ===== src/Examples/Graphs.antt =====
-- The theorems on the reference graph, at a root module with a provider, a variable, a resource that
-- reads it by a count and an argument, a local and an output.
use tf_mut.Discovery.Graph.Built.{build_graph-upstream}
use tf_mut.Discovery.Graph.Paths.{weight, paths_fuel}
use tf_mut.Discovery.Address.{split_address, parse_addr, block_addr}
use tf_mut.Dict.{Dict, get, put, keys}
use tf_mut.Discovery.Graph.Walk.{Reaches}
use tf_mut.Discovery.Graph.Blocks.{
  walk_attribute, walk_attributes, walk_nested, walk_body, walk_blocks, declare_locals, build_at,
  build_block_at, build_kind, build_block,
}
use tf_mut.Discovery.Graph.Cones.{cone_loop_ends, forward_cone-Reaches}
use tf_mut.Discovery.Graph.Outside.{contains_payload_address_lem, Outside}
use tf_mut.Discovery.Graph.Guard.{meta_node, overlaps_site, multiplicity_guard_lem}
use tf_mut.Prelude.{ℕ, suc, ◌≡◌, refl, ◌↔◌, true, false, Option, none, some, [], ◌∷◌, arith, length}
use tf_mut.Prelude.Sorting
use tf_mut.Text.Order.{text_le}
use tf_mut.Text.Cutting.{has_prefix}
use tf_mut.Text.{Text, text, text_eq, contains, join}
use tf_mut.Discovery.Expressions.{
  traversal_ref, collect_refs, references_of, root, attribute, Expr, literal, scope_traversal,
}
use tf_mut.Discovery.Graph.Adapters.{contains_payload_address}
use tf_mut.Discovery.Graph.{
  node_eq, visited, targets, owner_of, unmapped_graph, is_reserved_root, resolve_node, cone_loop,
  first_search, forward_cone, cone_contains, addresses_overlap, multiplicity_guard, Node, Graph,
}
use tf_mut.Discovery.Graph.Build.{
  declare, own, depend, observe, call_by_name, unresolvable_root, resolve_call_ref, resolve_ref,
  link_refs, body, Blocks, done, block, Module,
}
use tf_mut.Discovery.Graph.Passes.{
  build_blocks, build_found, build_files, build_json, build, build_modules, rel_by_dir_of, must_rel,
  module_by_rel, child_visits, map_paths, map_module_paths, draw_graph, build_graph, Configuration,
}

abbrev read_of : Text → Text → Expr
read_of first name = scope_traversal (root first ∷ attribute name ∷ [])

abbrev root_blocks : Blocks
root_blocks = block (text "variable") (text "size" ∷ []) (body [] done) (
    block (text "resource") (text "disk" ∷ text "main" ∷ [])
      (body ((text "count", read_of (text "local") (text "n")) ∷ []) done)
      (block (text "locals") [] (body ((text "n", read_of (text "var") (text "size")) ∷ []) done) (
        block (text "output") (text "other" ∷ []) (body ((text "value", literal) ∷ []) done) done)))

abbrev root_module : Module
root_module = record {
  dir = text "/m";
  rel = text ".";
  files = text "main.tf" ∷ [];
  bodies = (text "main.tf", root_blocks) ∷ [];
  calls = [];
  json_bodies = [];
}

abbrev config : Configuration
config = record { module_dir = text "/m"; modules = root_module ∷ [] }

abbrev graph_of : Option Graph → Graph
graph_of none = unmapped_graph
graph_of (some g) = g

abbrev paths_of : Option (Dict Text) → Dict Text
paths_of none = []
paths_of (some paths) = paths

abbrev graph : Graph
unfolding build_graph draw_graph rel_by_dir_of map_module_paths build_modules build build_files
    build_found build_json build_blocks build_block build_kind build_block_at build_at walk_body
    walk_blocks walk_attributes walk_attribute walk_nested declare_locals link_refs resolve_ref
    resolve_node resolve_call_ref observe depend own declare references_of collect_refs
    traversal_ref parse_addr split_address block_addr call_by_name text_eq contains join visited
    node_eq targets get put keys Sorting.sort unmapped_graph unresolvable_root text_le
graph = graph_of (build_graph 2 config)

abbrev at : Text → Node
at address = record { module_rel = text "."; address = address }

graph_nodes : length graph.nodes ≡ 6
unfolding graph
graph_nodes = refl

forward_cone-Reaches_example :
    (visited (at (text "disk.main.count")) (forward_cone graph (at (text "var.size"))).members
      ≡ true)
    ↔ Reaches graph.dependents (at (text "var.size")) (at (text "disk.main.count"))
forward_cone-Reaches_example =
    forward_cone-Reaches graph (at (text "var.size")) (at (text "disk.main.count"))

cone_loop_ends_example :
    (cone_loop graph (suc (length graph.dependents)) (first_search (at (text "var.size")))).queue
    ≡ []
cone_loop_ends_example = cone_loop_ends graph (at (text "var.size"))

contains_payload_address_lem_example :
    (contains_payload_address (forward_cone graph (at (text "var.size"))) (text "output.other")
      ≡ false)
    ↔ Outside graph (at (text "var.size")) (text "output.other")
contains_payload_address_lem_example =
    contains_payload_address_lem graph (at (text "var.size")) (text "output.other")

multiplicity_guard_lem_example :
    (multiplicity_guard graph (text ".") (text "disk.main.count") (text ".") (text "output.other")
      ≡ false)
    ↔ ((visited (meta_node (text ".") (text "disk.main.count")) graph.nodes ≡ true)
        × ((n : Node)
            → Reaches graph.sources (meta_node (text ".") (text "disk.main.count")) n
            → overlaps_site (text ".") (text "output.other") n ≡ false))
multiplicity_guard_lem_example =
    multiplicity_guard_lem graph (text ".") (text "disk.main.count") (text ".")
      (text "output.other")

guarded :
    multiplicity_guard graph (text ".") (text "disk.main.count") (text ".") (text "var.size") ≡ true
unfolding multiplicity_guard graph addresses_overlap has_prefix
guarded = refl

outside :
    contains_payload_address (forward_cone graph (at (text "var.size"))) (text "output.other")
    ≡ false
unfolding contains_payload_address forward_cone cone_contains owner_of has_prefix graph
    is_reserved_root
outside = refl

-- The root module with a call of a module that it holds.
abbrev nested : Configuration
nested = record {
  module_dir = text "/m";
  modules =
      record root_module {
        calls =
            record {
              name = text "app";
              is_local = true;
              dir = text "/m/app";
              inputs = [];
              json_declared = false;
            }
            ∷ [];
      }
      ∷ record {
        dir = text "/m/app";
        rel = text "app";
        files = [];
        bodies = [];
        calls = [];
        json_bodies = [];
      }
      ∷ [];
}

abbrev depth : Module → ℕ
depth m = length m.calls

build_graph-upstream_example :
    (g : Graph) × (build_graph 3 nested ≡ some g)
    × (build_graph (paths_fuel depth nested) nested ≡ some g)
    × ((start n : Node)
        → Reaches g.sources start n
        → visited start (forward_cone g n).members ≡ true)
unfolding paths_fuel weight rel_by_dir_of module_by_rel must_rel get put text_eq child_visits
build_graph-upstream_example = build_graph-upstream depth nested 3 refl (omega arith)

nested_paths :
    keys (paths_of (map_module_paths 3 nested (rel_by_dir_of nested.modules [])))
    ≡ [] ∷ text "app" ∷ []
unfolding map_module_paths map_paths rel_by_dir_of module_by_rel must_rel get put text_eq
    child_visits keys
nested_paths = refl
