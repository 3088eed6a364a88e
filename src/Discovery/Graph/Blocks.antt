-- ===== src/Discovery/Graph/Blocks.antt =====
-- internal/discovery/graph.go: the walk of a configuration's blocks, and `BuildGraph`.
use tf_mut.Prelude.{
  not, ◌&&◌, ◌||◌, Option, none, some, List, [], ◌∷◌, ◌++◌, map, if◌then◌else◌, select,
}
use tf_mut.Text.Cutting.{has_prefix}
use tf_mut.Text.{Text, text, text_eq, contains}
use tf_mut.Dict.{get}
use tf_mut.Discovery.Address.{module_block, data_block, block_addr}
use tf_mut.Discovery.Expressions.{references_of, Step, Expr}
use tf_mut.Discovery.Reach.{Ref}
use tf_mut.Discovery.Graph.{Node, Graph}
use tf_mut.Discovery.Graph.Build.{
  node_at, declare, own, depend, observe, call_by_name, address_or_empty, link_refs, json_refs,
  Body, body, Blocks, done, block, JsonBlock, ModuleCall, Builder,
}

-- `address + "." + name`.
abbrev under : Text → Text → Text
under address name = address ++ (text "." ++ name)

-- The body of the loops over attributes of `walkBody` and `walkJSONBody`, with the references that
-- the attribute's expression holds.
unfoldable pub walk_attribute : Builder → Node → Option Node → Node → List Ref → Graph → Graph
walk_attribute b block_node owner node refs g =
    if b.connect
    then link_refs b node refs (depend block_node node (depend node block_node (own owner node g)))
    else own owner node g

unfoldable pub walk_attributes :
    Builder → Text → Node → Option Node → List (Text × List Ref) → Graph → Graph
walk_attributes b address block_node owner [] g = g
walk_attributes b address block_node owner ((name, refs) ∷ rest) g =
    let own_address = under address name in
    walk_attributes b address block_node owner rest
      (walk_attribute b block_node owner (node_at b own_address) refs (declare b own_address g))

abbrev pub native_refs : List (Text × Expr) → List (Text × List Ref)
native_refs attributes = map (λ kv. (kv.0, references_of kv.1)) attributes

abbrev pub nested_address : Text → Text → List Text → Text
nested_address address kind [] = under address kind
nested_address address kind (label ∷ labels) = under (under address kind) label

-- The start of the loop over the nested blocks of `walkBody`.
unfoldable pub walk_nested : Builder → Node → Option Node → Text → Graph → Graph
walk_nested b block_node owner address g =
    let owned = own owner (node_at b address) (declare b address g) in
    if b.connect then depend (node_at b address) block_node owned else owned

unfoldable mutual
  unfolding walk_attributes walk_nested

  -- `walkBody`.
  pub walk_body : Builder → Text → Node → Option Node → Body → Graph → Graph
  walk_body b address block_node owner (body attributes blocks) g =
      walk_blocks b address block_node owner blocks
        (walk_attributes b address block_node owner (native_refs attributes) g)

  pub walk_blocks : Builder → Text → Node → Option Node → Blocks → Graph → Graph
  walk_blocks b address block_node owner done g = g
  walk_blocks b address block_node owner (block kind labels nested rest) g =
      let own_address = nested_address address kind labels in
      walk_blocks b address block_node owner rest (
        walk_body b own_address block_node owner nested
          (walk_nested b block_node owner own_address g))

-- `markCallUnbounded`.
unfoldable pub mark_call_unbounded : Node → Graph → Graph
mark_call_unbounded call_node g = record g {
  unbounded =
      select
        (λ n.
          text_eq n.module_rel call_node.module_rel
          && has_prefix (call_node.address ++ text ".") n.address)
        g.nodes
      ++ call_node ∷ g.unbounded;
}

-- The two loops of `wireCall`.
unfoldable pub wire_inputs : Builder → Node → Text → List Text → Graph → Graph
wire_inputs b call_node child_rel [] g = g
wire_inputs b call_node child_rel (input ∷ rest) g = wire_inputs b call_node child_rel rest (
    observe (node_at b (under call_node.address input))
      (record {
        module_rel = child_rel;
        address = address_or_empty (block_addr (text "variable") (input ∷ []));
      })
      g)

unfoldable pub wire_outputs : Node → Text → List Node → Graph → Graph
wire_outputs call_node child_rel [] g = g
wire_outputs call_node child_rel (n ∷ rest) g = wire_outputs call_node child_rel rest (
    if text_eq n.module_rel child_rel && has_prefix (text "output.") n.address
    then observe n call_node g
    else g)

-- `wireCall`, of the directory that the child's module has in the closure, and of the call.
unfoldable pub wire_child : Builder → Node → List Text → Option Text → Graph → Graph
unfolding wire_inputs wire_outputs mark_call_unbounded
wire_child b call_node inputs none g = mark_call_unbounded call_node g
wire_child b call_node inputs (some child_rel) g =
    let wired = wire_inputs b call_node child_rel inputs g in
    wire_outputs call_node child_rel wired.nodes wired

unfoldable pub wire_found : Builder → Node → Option ModuleCall → Graph → Graph
unfolding wire_child mark_call_unbounded
wire_found b call_node none g = mark_call_unbounded call_node g
wire_found b call_node (some call) g =
    if call.json_declared || not call.is_local
    then mark_call_unbounded call_node g
    else wire_child b call_node call.inputs (get call.dir b.rel_by_dir) g

unfoldable pub wire_call : Builder → Text → Node → Graph → Graph
unfolding wire_found
wire_call b name call_node g = wire_found b call_node (call_by_name b.self.calls name) g

-- The loop over the attributes of a `locals` block.
unfoldable pub declare_locals : Builder → List (Text × List Ref) → Graph → Graph
declare_locals b [] g = g
declare_locals b ((name, refs) ∷ rest) g =
    let address = text "local." ++ name in
    let declared = declare b address g in
    declare_locals b rest
      (if b.connect then link_refs b (node_at b address) refs declared else declared)

-- What the switches of `buildBlock` and `buildJSONBlock` tell apart.
pub data Kind : Type 0 where
  owned wired provider locals ignored : Kind

unfoldable pub kind_of : Text → Kind
kind_of kind =
    if text_eq kind (text "resource") || text_eq kind data_block
    then owned
    else if contains kind (text "output" ∷ module_block ∷ text "variable" ∷ text "check" ∷ [])
    then wired
    else if text_eq kind (text "locals")
    then locals
    else if text_eq kind (text "provider")
    then provider
    else ignored

abbrev pub wire_module : Builder → Text → List Text → Node → Graph → Graph
wire_module b kind [] owner g = g
wire_module b kind (label ∷ labels) owner g =
    if text_eq kind module_block && b.connect then wire_call b label owner g else g

-- The cases that walk a body, of the block at an address.
unfoldable pub build_at :
    Builder
    → Kind
    → Text
    → List Text
    → Text
    → (Text → Node → Option Node → Graph → Graph)
    → Graph
    → Graph
build_at b owned kind labels address walk g =
    walk address (node_at b address) (some (node_at b address)) (declare b address g)
build_at b wired kind labels address walk g =
    wire_module b kind labels (node_at b address)
      (walk address (node_at b address) none (declare b address g))
build_at b provider kind labels address walk g =
    let declared = declare b address g in
    walk address (node_at b address) none
      (record declared { unbounded = node_at b address ∷ declared.unbounded })
build_at b locals kind labels address walk g = g
build_at b ignored kind labels address walk g = g

unfoldable pub build_block_at :
    Builder
    → Kind
    → Text
    → List Text
    → Option Text
    → (Text → Node → Option Node → Graph → Graph)
    → Graph
    → Graph
unfolding build_at
build_block_at b k kind labels none walk g = g
build_block_at b k kind labels (some address) walk g = build_at b k kind labels address walk g

-- The switch, with what it does to a body and to the attributes of a `locals` block.
unfoldable pub build_kind :
    Builder
    → Kind
    → Text
    → List Text
    → (Text → Node → Option Node → Graph → Graph)
    → (Graph → Graph)
    → Graph
    → Graph
unfolding build_block_at
build_kind b locals kind labels walk walk_locals g = walk_locals g
build_kind b ignored kind labels walk walk_locals g = g
build_kind b k kind labels walk walk_locals g =
    build_block_at b k kind labels (block_addr kind labels) walk g

abbrev pub attributes_of : Body → List (Text × Expr)
attributes_of (body attributes blocks) = attributes

-- `buildBlock`.
unfoldable pub build_block : Builder → Text → List Text → Body → Graph → Graph
unfolding kind_of build_kind
build_block b kind labels content g =
    build_kind b (kind_of kind) kind labels
      (λ address node owner. walk_body b address node owner content)
      (declare_locals b (native_refs (attributes_of content))) g

-- `walkJSONBody`, of which the attributes are `none` where reading them failed.
unfoldable pub walk_json_body :
    Builder → Text → Node → Option Node → Option (List (Text × List (List Step))) → Graph → Graph
unfolding walk_attributes
walk_json_body b address block_node owner none g = g
walk_json_body b address block_node owner (some attributes) g =
    walk_attributes b address block_node owner (map (λ kv. (kv.0, json_refs kv.1)) attributes) g

unfoldable pub json_locals : Builder → Option (List (Text × List (List Step))) → Graph → Graph
unfolding declare_locals
json_locals b none g = g
json_locals b (some attributes) g =
    declare_locals b (map (λ kv. (kv.0, json_refs kv.1)) attributes) g

-- `buildJSONBlock`.
unfoldable pub build_json_block : Builder → JsonBlock → Graph → Graph
unfolding kind_of build_kind walk_json_body json_locals
build_json_block b json g =
    build_kind b (kind_of json.kind) json.kind json.labels
      (λ address node owner. walk_json_body b address node owner json.attributes)
      (json_locals b json.attributes) g
