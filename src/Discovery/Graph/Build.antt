-- ===== src/Discovery/Graph/Build.antt =====
-- internal/discovery/graph.go: how the graph is built from the parsed configuration. A Go map is
-- iterated in the order of the list that stands for it. JSON bodies are read by the HCL library: a
-- block stands here with what that library returns for it, `none` where it reports errors.
use tf_mut.Prelude.{Bool, false, not, Option, none, some, List, [], ◌∷◌, ◌++◌, if◌then◌else◌}
use tf_mut.Prelude.Sorting
use tf_mut.Prelude.Sorting.{Sortable}
use tf_mut.Text.{Text, text, text_eq, contains}
use tf_mut.Dict.{Dict, get}
use tf_mut.Discovery.Address.{module_block, parse_addr, block_addr, Addr}
use tf_mut.Discovery.Reach.{Ref}
use tf_mut.Discovery.Expressions.{traversal_ref, by_address, Step, Expr}
use tf_mut.Discovery.Graph.{visited, resolve_node, Node, Graph}

mutual
  -- The attributes and the nested blocks of a body.
  pub data Body : Type 0 where
    body : List (Text × Expr) → Blocks → Body

  -- Blocks with their type, labels and body.
  pub data Blocks : Type 0 where
    done : Blocks
    block : Text → List Text → Body → Blocks → Blocks

-- A block of a JSON body: of an attribute's expression, the traversals that it holds.
pub record JsonBlock : Type 0 where
  pub kind : Text
  pub labels : List Text
  pub attributes : Option (List (Text × List (List Step)))

-- `ModuleCall`, with the names of its inputs.
pub record ModuleCall : Type 0 where
  pub name : Text
  pub is_local : Bool
  pub dir : Text
  pub inputs : List Text
  pub json_declared : Bool

pub record Module : Type 0 where
  pub dir : Text
  pub rel : Text
  pub files : List Text
  pub bodies : Dict Blocks
  pub calls : List ModuleCall
  pub json_bodies : Dict (Option (List JsonBlock))

-- The fields of `graphBuilder` besides the graph, which the operations take and return.
pub record Builder : Type 0 where
  pub self : Module
  pub rel_by_dir : Dict Text
  pub connect : Bool

-- A node in the set of nodes.
abbrev insert_node : Node → List Node → List Node
insert_node n nodes = if visited n nodes then nodes else n ∷ nodes

abbrev pub node_at : Builder → Text → Node
node_at b address = record { module_rel = b.self.rel; address = address }

-- `declare`, whose result is `node_at`.
unfoldable pub declare : Builder → Text → Graph → Graph
declare b address g = record g { nodes = insert_node (node_at b address) g.nodes }

-- `g.owners[node] = owner`, where there is an owner.
unfoldable pub own : Option Node → Node → Graph → Graph
own none node g = g
own (some owner) node g = record g { owners = (node, owner) ∷ g.owners }

-- The appends of an edge to `dependents`, and to `sources` too.
unfoldable pub depend : Node → Node → Graph → Graph
depend from to g = record g { dependents = g.dependents ++ (from, to) ∷ [] }

unfoldable pub observe : Node → Node → Graph → Graph
observe source reader g = record g {
  dependents = g.dependents ++ (source, reader) ∷ [];
  sources = g.sources ++ (reader, source) ∷ [];
}

-- `callByName`.
unfoldable pub call_by_name : List ModuleCall → Text → Option ModuleCall
call_by_name [] name = none
call_by_name (call ∷ rest) name =
    let later = call_by_name rest name in if text_eq call.name name then some call else later

abbrev pub address_or_empty : Option Text → Text
address_or_empty none = []
address_or_empty (some address) = address

-- The directory of the child that a reference or a call goes into.
abbrev child_of : Builder → Option ModuleCall → Option Text
child_of b none = none
child_of b (some call) = if not call.is_local then none else get call.dir b.rel_by_dir

-- `unresolvableRoot`.
unfoldable pub unresolvable_root : Text → Bool
unresolvable_root name = contains name (
    text "each"
    ∷ text "count"
    ∷ text "self"
    ∷ text "path"
    ∷ text "terraform"
    ∷ text "run"
    ∷ text "output"
    ∷ [])

abbrev child_output : Builder → Graph → Node → Text → Text → Node
child_output b g call_node name output = elim (child_of b (call_by_name b.self.calls name)) [
  | none ↦ call_node
  | some child_rel ↦
      let node : Node = record {
        module_rel = child_rel;
        address = address_or_empty (block_addr (text "output") (output ∷ []));
      } in
      if visited node g.nodes then node else call_node
]

-- `resolveCallRef`.
unfoldable pub resolve_call_ref : Builder → Graph → Addr → Option Node
resolve_call_ref b g parsed = elim parsed.module_path [
  | [] ↦ none
  | name ∷ path ↦
      let call_node : Node = node_at b (address_or_empty (block_addr module_block (name ∷ []))) in
      if not (visited call_node g.nodes) then none else elim path [
        | inner ∷ deeper ↦ some call_node
        | [] ↦ elim parsed.parts [
          | [] ↦ some call_node
          | output ∷ rest ↦ some (child_output b g call_node name output)
        ]
      ]
]

-- `resolveRef`.
unfoldable pub resolve_ref : Builder → Graph → Text → Option Node
unfolding resolve_call_ref
resolve_ref b g address =
    let parsed = parse_addr address in
    elim parsed.module_path [
      | name ∷ path ↦ resolve_call_ref b g parsed
      | [] ↦ elim parsed.parts [
        | [] ↦ none
        | first ∷ rest ↦
            if unresolvable_root first then none else resolve_node g b.self.rel parsed.parts
      ]
    ]

-- The loop of `link` and of `linkJSON`.
unfoldable pub link_refs : Builder → Node → List Ref → Graph → Graph
unfolding resolve_ref observe
link_refs b reader [] g = g
link_refs b reader (ref ∷ rest) g = elim (resolve_ref b g ref.address) [
  | none ↦ link_refs b reader rest g
  | some source ↦ link_refs b reader rest (observe source reader g)
]

abbrev json_refs_of : List (List Step) → List Ref
json_refs_of [] = []
json_refs_of (steps ∷ rest) = elim (traversal_ref steps) [
  | none ↦ json_refs_of rest
  | some address ↦
      record { address = address; precise = false; construct = text "JSON-declared expression" }
      ∷ json_refs_of rest
]

-- `jsonRefs` of jsonconfig.go.
unfoldable pub json_refs : List (List Step) → List Ref
unfolding traversal_ref
json_refs traversals = Sorting.sort by_address (json_refs_of traversals)
