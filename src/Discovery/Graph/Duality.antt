-- ===== src/Discovery/Graph/Duality.antt =====
-- internal/discovery/graph.go: the edges that the graph's construction draws in both directions.
use tf_mut.Discovery.Graph.Blocks.{
  walk_attribute, walk_attributes, native_refs, nested_address, walk_nested, walk_body, walk_blocks,
  mark_call_unbounded, wire_inputs, wire_outputs, wire_child, wire_found, wire_call, declare_locals,
  wire_module,
}
use tf_mut.Prelude.{
  ◌≡◌, refl, Bool, true, false, ◌&&◌, ◌||◌, Option, none, some, List, [], ◌∷◌, ◌++◌, arith,
  if◌then◌else◌,
}
use tf_mut.Text.{Text}
use tf_mut.Discovery.Reach.{Ref}
use tf_mut.Discovery.Graph.{node_eq, node_eq_iff, visited, Edge, targets, Node, Graph}
use tf_mut.Discovery.Graph.Walk.{visited-append, visited-cons, visited-nil}
use tf_mut.Discovery.Graph.Build.{
  node_at, declare, own, depend, observe, resolve_ref, link_refs, Body, body, Blocks, done, block,
  ModuleCall, Builder,
}

-- Every node that a node reads has the node among its dependents.
unfoldable pub IsDual : Graph → Type 0
IsDual g =
    (reader source : Node)
    → visited source (targets g.sources reader) ≡ true
    → visited reader (targets g.dependents source) ≡ true

targets-append :
    (n : Node) (xs ys : List Edge) → targets (xs ++ ys) n ≡ targets xs n ++ targets ys n
unfolding targets
targets-append n [] ys = refl
targets-append n ((from, to) ∷ xs) ys = ground (arith, targets-append n xs ys)

visited-append-edge :
    (n from to m : Node) (edges : List Edge)
    → visited m (targets (edges ++ (from, to) ∷ []) n)
      ≡ (visited m (targets edges n) || (node_eq from n && node_eq m to))
unfolding targets
visited-append-edge n from to m edges = ground (
  arith,
  targets-append n edges ((from, to) ∷ []),
  visited-append m (targets edges n) (targets ((from, to) ∷ []) n),
  visited-cons m to [],
  visited-nil m,
)

depend-IsDual : (from to : Node) (g : Graph) → IsDual g → IsDual (depend from to g)
unfolding IsDual depend
depend-IsDual from to g dual reader source e =
    ground (arith, dual reader source e, visited-append-edge source from to reader g.dependents)

observe-IsDual : (source reader : Node) (g : Graph) → IsDual g → IsDual (observe source reader g)
unfolding IsDual observe
observe-IsDual from to g dual reader source e = ground (
  arith,
  e,
  dual reader source,
  visited-append-edge source from to reader g.dependents,
  visited-append-edge reader to from source g.sources,
  node_eq_iff from source,
  node_eq_iff source from,
  node_eq_iff to reader,
  node_eq_iff reader to,
)

IsDual-if : (b : Bool) (g h : Graph) → IsDual g → IsDual h → IsDual (if b then g else h)
IsDual-if true g h dual dual_h = dual
IsDual-if false g h dual dual_h = dual_h

-- What every operation of the construction keeps.
module _ (b : Builder) where
  declare-IsDual : (address : Text) (g : Graph) → IsDual g → IsDual (declare b address g)
  unfolding IsDual declare
  declare-IsDual address g dual = dual

  own-IsDual : (owner : Option Node) (n : Node) (g : Graph) → IsDual g → IsDual (own owner n g)
  unfolding IsDual own
  own-IsDual none n g dual = dual
  own-IsDual (some owner) n g dual = dual

  link_refs-IsDual :
      (reader : Node) (refs : List Ref) (g : Graph) → IsDual g → IsDual (link_refs b reader refs g)
  unfolding link_refs
  link_refs-IsDual reader [] g dual = dual
  link_refs-IsDual reader (ref ∷ rest) g dual =
      elim (resolve_ref b g ref.address)
        as (λ o. IsDual (elim o [
          | none ↦ link_refs b reader rest g
          | some source ↦ link_refs b reader rest (observe source reader g)
        ])) [
          | none ↦ link_refs-IsDual reader rest g dual
          | some source ↦
              link_refs-IsDual reader rest (observe source reader g)
                (observe-IsDual source reader g dual)
        ]

  walk_attribute-IsDual :
      (block_node : Node) (owner : Option Node) (n : Node) (refs : List Ref) (g : Graph)
      → IsDual g
      → IsDual (walk_attribute b block_node owner n refs g)
  unfolding walk_attribute
  walk_attribute-IsDual block_node owner n refs g dual =
      let owned : IsDual (own owner n g) = own-IsDual owner n g dual in
      IsDual-if b.connect _ _
        (link_refs-IsDual n refs (depend block_node n (depend n block_node (own owner n g))) (
          depend-IsDual block_node n (depend n block_node (own owner n g))
            (depend-IsDual n block_node (own owner n g) owned)))
        owned

  pub walk_attributes-IsDual :
      (address : Text) (block_node : Node) (owner : Option Node)
      (attributes : List (Text × List Ref)) (g : Graph)
      → IsDual g
      → IsDual (walk_attributes b address block_node owner attributes g)
  unfolding walk_attributes
  walk_attributes-IsDual address block_node owner [] g dual = dual
  walk_attributes-IsDual address block_node owner ((name, refs) ∷ rest) g dual =
      walk_attributes-IsDual address block_node owner rest _
        (walk_attribute-IsDual block_node owner _ refs _ (declare-IsDual _ g dual))

  walk_nested-IsDual :
      (block_node : Node) (owner : Option Node) (address : Text) (g : Graph)
      → IsDual g
      → IsDual (walk_nested b block_node owner address g)
  unfolding walk_nested
  walk_nested-IsDual block_node owner address g dual =
      let owned = own-IsDual owner (node_at b address) _ (declare-IsDual address g dual) in
      IsDual-if b.connect _ _ (depend-IsDual (node_at b address) block_node _ owned) owned

mutual
  unfolding walk_body walk_blocks

  pub walk_body-IsDual :
      (b : Builder) (address : Text) (block_node : Node) (owner : Option Node) (content : Body)
      (g : Graph)
      → IsDual g
      → IsDual (walk_body b address block_node owner content g)
  walk_body-IsDual b address block_node owner (body attributes blocks) g dual =
      walk_blocks-IsDual b address block_node owner blocks _
        (walk_attributes-IsDual b address block_node owner (native_refs attributes) g dual)

  walk_blocks-IsDual :
      (b : Builder) (address : Text) (block_node : Node) (owner : Option Node) (blocks : Blocks)
      (g : Graph)
      → IsDual g
      → IsDual (walk_blocks b address block_node owner blocks g)
  walk_blocks-IsDual b address block_node owner done g dual = dual
  walk_blocks-IsDual b address block_node owner (block kind labels nested rest) g dual =
      walk_blocks-IsDual b address block_node owner rest _ (
        walk_body-IsDual b (nested_address address kind labels) block_node owner nested _
          (walk_nested-IsDual b block_node owner (nested_address address kind labels) g dual))

module _ (b : Builder) where
  mark_call_unbounded-IsDual : (n : Node) (g : Graph) → IsDual g → IsDual (mark_call_unbounded n g)
  unfolding IsDual mark_call_unbounded
  mark_call_unbounded-IsDual n g dual = dual

  wire_inputs-IsDual :
      (call_node : Node) (child_rel : Text) (inputs : List Text) (g : Graph)
      → IsDual g
      → IsDual (wire_inputs b call_node child_rel inputs g)
  unfolding wire_inputs
  wire_inputs-IsDual call_node child_rel [] g dual = dual
  wire_inputs-IsDual call_node child_rel (input ∷ rest) g dual =
      wire_inputs-IsDual call_node child_rel rest _ (observe-IsDual _ _ g dual)

  wire_outputs-IsDual :
      (call_node : Node) (child_rel : Text) (nodes : List Node) (g : Graph)
      → IsDual g
      → IsDual (wire_outputs call_node child_rel nodes g)
  unfolding wire_outputs
  wire_outputs-IsDual call_node child_rel [] g dual = dual
  wire_outputs-IsDual call_node child_rel (n ∷ rest) g dual =
      wire_outputs-IsDual call_node child_rel rest _
        (IsDual-if _ _ _ (observe-IsDual n call_node g dual) dual)

  wire_child-IsDual :
      (call_node : Node) (inputs : List Text) (child : Option Text) (g : Graph)
      → IsDual g
      → IsDual (wire_child b call_node inputs child g)
  unfolding wire_child
  wire_child-IsDual call_node inputs none g dual = mark_call_unbounded-IsDual call_node g dual
  wire_child-IsDual call_node inputs (some child_rel) g dual =
      wire_outputs-IsDual call_node child_rel (wire_inputs b call_node child_rel inputs g).nodes _
        (wire_inputs-IsDual call_node child_rel inputs g dual)

  wire_found-IsDual :
      (call_node : Node) (found : Option ModuleCall) (g : Graph)
      → IsDual g
      → IsDual (wire_found b call_node found g)
  unfolding wire_found
  wire_found-IsDual call_node none g dual = mark_call_unbounded-IsDual call_node g dual
  wire_found-IsDual call_node (some call) g dual =
      IsDual-if _ _ _ (mark_call_unbounded-IsDual call_node g dual)
        (wire_child-IsDual call_node call.inputs _ g dual)

  pub wire_module-IsDual :
      (kind : Text) (labels : List Text) (owner : Node) (g : Graph)
      → IsDual g
      → IsDual (wire_module b kind labels owner g)
  unfolding wire_call
  wire_module-IsDual kind [] owner g dual = dual
  wire_module-IsDual kind (label ∷ labels) owner g dual =
      IsDual-if _ _ _ (wire_found-IsDual owner _ g dual) dual

  pub declare_locals-IsDual :
      (locals : List (Text × List Ref)) (g : Graph) → IsDual g → IsDual (declare_locals b locals g)
  unfolding declare_locals
  declare_locals-IsDual [] g dual = dual
  declare_locals-IsDual ((name, refs) ∷ rest) g dual =
      let declared = declare-IsDual b _ g dual in
      declare_locals-IsDual rest _
        (IsDual-if b.connect _ _ (link_refs-IsDual b _ refs _ declared) declared)
