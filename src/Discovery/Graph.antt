-- ===== src/Discovery/Graph.antt =====
-- internal/discovery/graph.go: the attribute-level reference graph and its closures. The maps of slices
-- `dependents` and `sources` are only ever appended to, so each is the list of its appended edges; the
-- map `owners` is the list of its writes, the latest first.
pub mod Walk
pub mod Adapters
pub mod Cones
pub mod Outside
pub mod Guard
pub mod Build
pub mod Blocks
pub mod Passes
pub mod Paths
pub mod Duality
pub mod Built
use tf_mut.Prelude.{
  ℕ, zero, suc, ◌≡◌, ◌↔◌, Bool, true, false, not, ◌&&◌, ◌||◌, Option, none, some, List, [], ◌∷◌,
  ◌++◌, map, arith, ◌==◌, if◌then◌else◌, length, some_pass, take, ◌>>=◌,
}
use tf_mut.Text.Cutting.{has_prefix}
use tf_mut.Text.{Text, text, text_eq, contains, join, text_eq_iff}
use tf_mut.Dict.{Dict}
use tf_mut.Discovery.Address.{wildcard, data_block, split_address, split_dots}

-- `nodeID`.
pub record Node : Type 0 where
  pub module_rel : Text
  pub address : Text

-- `==` on nodes.
unfoldable pub node_eq : Node → Node → Bool
node_eq a b = text_eq a.module_rel b.module_rel && text_eq a.address b.address

pub node_eq_iff : (a b : Node) → (node_eq a b ≡ true) ↔ (a ≡ b)
unfolding node_eq
node_eq_iff a b =
    ground (arith, text_eq_iff a.module_rel b.module_rel, text_eq_iff a.address b.address)

-- Membership in a set of nodes.
unfoldable pub visited : Node → List Node → Bool
visited n set = some_pass (node_eq n) set

-- An edge from the first node to the second.
abbrev pub Edge : Type 0
Edge = Node × Node

-- `dependents[n]` and `sources[n]`.
unfoldable pub targets : List Edge → Node → List Node
targets [] n = []
targets ((from, to) ∷ rest) n =
    let later = targets rest n in if node_eq from n then to ∷ later else later

-- `owners[n]`.
unfoldable pub owner_of : List Edge → Node → Option Node
owner_of [] n = none
owner_of ((from, to) ∷ rest) n =
    let later = owner_of rest n in if node_eq from n then some to else later

pub record Graph : Type 0 where
  pub nodes : List Node
  pub dependents : List Edge
  pub owners : List Edge
  pub sources : List Edge
  pub module_by_path : Dict Text
  pub unbounded : List Node

-- `UnmappedGraph`.
unfoldable pub unmapped_graph : Graph
unmapped_graph = record {
  nodes = [];
  dependents = [];
  owners = [];
  sources = [];
  module_by_path = [];
  unbounded = [];
}

-- `isReservedRoot` of module.go.
unfoldable pub is_reserved_root : Text → Bool
is_reserved_root name = contains name (
    text "var"
    ∷ text "local"
    ∷ text "each"
    ∷ text "count"
    ∷ text "path"
    ∷ text "terraform"
    ∷ text "self"
    ∷ text "output"
    ∷ text "run"
    ∷ text "module"
    ∷ text "data"
    ∷ [])

abbrev resource_shape : List Text → Bool
resource_shape [] = false
resource_shape (first ∷ rest) =
    if text_eq first data_block
    then length rest == 2
    else length rest == 1 && (not (is_reserved_root first) && not (text_eq first (text "check")))

-- `isResourceBlock`.
unfoldable pub is_resource_block : Node → Bool
unfolding split_dots
is_resource_block node = resource_shape (split_dots [] node.address)

-- The declared node of the longest prefix, from `length` segments down.
longest : List Node → Text → ℕ → List Text → Option Node
longest nodes module_rel zero parts = none
longest nodes module_rel (suc n) parts =
    let node : Node = record {
      module_rel = module_rel;
      address = join (text ".") (take (suc n) parts);
    } in
    let shorter = longest nodes module_rel n parts in
    if visited node nodes then some node else shorter

-- The segments before the first wildcard.
before_wildcard : List Text → List Text
before_wildcard [] = []
before_wildcard (part ∷ rest) = if text_eq part wildcard then [] else part ∷ before_wildcard rest

-- `resolveNode`.
unfoldable pub resolve_node : Graph → Text → List Text → Option Node
unfolding longest before_wildcard
resolve_node g module_rel parts =
    let kept = before_wildcard parts in longest g.nodes module_rel (length kept) kept

-- The variables of the loop of `forwardCone`.
pub record Search : Type 0 where
  pub queue : List Node
  pub members : List Node
  pub touched : List Node
  pub unbounded : Bool

abbrev owner_touched : Option Node → List Node → List Node
owner_touched none touched = touched
owner_touched (some owner) touched = owner ∷ touched

-- The body of the loop for a node that was not a member.
pub visit : Graph → Node → List Node → Search → Search
unfolding is_resource_block
visit g current rest s = record {
  queue = rest ++ targets g.dependents current;
  members = current ∷ s.members;
  touched =
      let owned = owner_touched (owner_of g.owners current) s.touched in
      if is_resource_block current then current ∷ owned else owned;
  unbounded =
      s.unbounded || (visited current g.unbounded || has_prefix (text "provider.") current.address);
}

pub step : Graph → Node → List Node → Search → Search
unfolding visit
step g current rest s =
    if visited current s.members then record s { queue = rest } else visit g current rest s

-- The loop; the fuel bounds its rounds.
pub cone_loop : Graph → ℕ → Search → Search
cone_loop g zero s = s
cone_loop g (suc fuel) s = elim s.queue [
  | [] ↦ s
  | current ∷ rest ↦ cone_loop g fuel (step g current rest s)
]

pub record Cone : Type 0 where
  pub graph : Graph
  pub members : List Node
  pub touched : List Node
  pub module_id : Text
  pub unbounded : Bool

abbrev pub first_search : Node → Search
first_search start = record { queue = start ∷ []; members = []; touched = []; unbounded = false }

-- The state that the loop ends in: every round takes a node off the queue, and an edge is queued once.
abbrev pub searched : Graph → Node → Search
searched g start = cone_loop g (suc (length g.dependents)) (first_search start)

-- `forwardCone`.
unfoldable pub forward_cone : Graph → Node → Cone
unfolding cone_loop step
forward_cone g start = record {
  graph = g;
  members = (searched g start).members;
  touched = (searched g start).touched;
  module_id = start.module_rel;
  unbounded = (searched g start).unbounded;
}

-- `Cone.contains`.
unfoldable pub cone_contains : Cone → Node → Bool
cone_contains c node =
    visited node c.members
    || (visited node c.touched || elim (owner_of c.graph.owners node) [
      | none ↦ false
      | some owner ↦ visited owner c.touched
    ])

-- The loop of `MultiplicityGuard`: the queue and the closure.
pub closure_loop : List Edge → ℕ → List Node → List Node → List Node × List Node
closure_loop edges zero queue closure = (queue, closure)
closure_loop edges (suc fuel) [] closure = ([], closure)
closure_loop edges (suc fuel) (current ∷ rest) closure =
    let skip = closure_loop edges fuel rest closure in
    let take_in = closure_loop edges fuel (rest ++ targets edges current) (current ∷ closure) in
    if visited current closure then skip else take_in

-- `addressesOverlap`.
unfoldable pub addresses_overlap : Text → Text → Bool
addresses_overlap left right =
    text_eq left right
    || (has_prefix (right ++ text ".") left || has_prefix (left ++ text ".") right)

-- `MultiplicityGuard`.
unfoldable pub multiplicity_guard : Graph → Text → Text → Text → Text → Bool
unfolding closure_loop
multiplicity_guard g module_rel meta_address site_module site =
    let start : Node = record {
      module_rel = module_rel;
      address = join (text ".") (split_address meta_address);
    } in
    let closure = (closure_loop g.sources (suc (length g.sources)) (start ∷ []) []).1 in
    let site_address = join (text ".") (split_address site) in
    if not (visited start g.nodes)
    then true
    else some_pass
        (λ node. text_eq node.module_rel site_module && addresses_overlap node.address site_address)
        closure
