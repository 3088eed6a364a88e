-- ===== src/Discovery/Graph/Outside.antt =====
-- `ContainsPayloadAddress` of internal/discovery/graph.go: when a payload address is outside a cone.
use tf_mut.Discovery.Address.{parse_addr}
use tf_mut.Discovery.Graph.Cones.{touched_by, unbounding, forward_cone-Kept, forward_cone-Reaches}
use tf_mut.Prelude.{
  ◌≡◌, refl, ◌↔◌, inl, inr, Bool, true, false, ◌&&◌, ◌||◌, none, some, List, [], ◌∷◌, arith,
  Bool-cases, some_pass, cases,
}
use tf_mut.Text.{Text, text, join}
use tf_mut.Dict.{get}
use tf_mut.Discovery.Graph.Adapters.{contains_payload_address}
use tf_mut.Discovery.Graph.{
  node_eq, node_eq_iff, visited, owner_of, is_resource_block, resolve_node, forward_cone,
  cone_contains, Node, Graph, Cone,
}
use tf_mut.Discovery.Graph.Walk.{visited-cons, visited-nil, Reaches}

-- Whether the first node is the block that the second belongs to, or is.
pub touches : Graph → Node → Node → Bool
unfolding is_resource_block
touches g block n = elim (owner_of g.owners n) [
  | none ↦ is_resource_block n && node_eq block n
  | some owner ↦ node_eq block owner || is_resource_block n && node_eq block n
]

touched_by-touches :
    (g : Graph) (block : Node) (members : List Node)
    → visited block (touched_by g members) ≡ some_pass (touches g block) members
unfolding touched_by touches
touched_by-touches g block [] = visited-nil block
touched_by-touches g block (n ∷ members) = elim (cases (owner_of g.owners n)) [
  | inl e ↦
      ground
        (arith, e, touched_by-touches g block members, visited-cons block n (touched_by g members))
  | inr (owner, e) ↦ ground (
    arith,
    e,
    touched_by-touches g block members,
    visited-cons block owner (touched_by g members),
    visited-cons block n (owner ∷ touched_by g members),
  )
]

-- A member of a cone of which a payload address is part: the node itself, or one that touches the
-- node or its block.
pub meets : Graph → Node → Node → Bool
meets g node n =
    node_eq node n
    || (touches g node n
        || elim (owner_of g.owners node) [ none ↦ false | some block ↦ touches g block n ])

some_pass-or :
    (p q : Node → Bool) (ns : List Node)
    → some_pass (λ n. p n || q n) ns ≡ (some_pass p ns || some_pass q ns)
some_pass-or p q [] = refl
some_pass-or p q (n ∷ ns) = ground (arith, some_pass-or p q ns)

-- The nodes that a cone holds are those that some member meets.
cone_contains_lem :
    (c : Cone) (node : Node)
    → c.touched ≡ touched_by c.graph c.members
    → cone_contains c node ≡ some_pass (meets c.graph node) c.members
unfolding cone_contains meets visited
cone_contains_lem c node e = elim (cases (owner_of c.graph.owners node)) [
  | inl o ↦ ground (
    arith,
    o,
    e,
    touched_by-touches c.graph node c.members,
    some_pass-or (node_eq node) (touches c.graph node) c.members,
  )
  | inr (block, o) ↦ ground (
    arith,
    o,
    e,
    touched_by-touches c.graph node c.members,
    touched_by-touches c.graph block c.members,
    some_pass-or (node_eq node) (λ n. touches c.graph node n || touches c.graph block n) c.members,
    some_pass-or (touches c.graph node) (touches c.graph block) c.members,
  )
]

-- A test that fails at every visited node.
unfoldable pub Fails : (Node → Bool) → List Node → Type 0
Fails p ns = (n : Node) → visited n ns ≡ true → p n ≡ false

pub none_pass : (p : Node → Bool) (ns : List Node) → (some_pass p ns ≡ false) ↔ Fails p ns
unfolding Fails
none_pass p [] = (λ e n v. ground (arith, v, visited-nil n), λ f. refl)
none_pass p (m ∷ ns) = (
  λ e n v. elim (Bool-cases (node_eq n m)) [
    | inl q ↦ ground (arith, e, (node_eq_iff n m).0 q)
    | inr q ↦ (none_pass p ns).0 (ground (arith, e)) n (ground (arith, v, q, visited-cons n m ns))
  ],
  λ f. ground (
    arith,
    f m (ground (arith, visited-cons m m ns, (node_eq_iff m m).1 refl)),
    (none_pass p ns).1 (λ n v. f n (ground (arith, v, visited-cons n m ns))),
  ),
)

-- A payload address that the graph places, at a node that nothing of an influence the graph models in
-- full reaches: neither the node nor its block is reached, or is the block of a reached node.
pub record Outside (g : Graph) (start : Node) (address : Text) : Type 0 where
  module_rel : Text
  node : Node
  mapped : get (join (text ".") (parse_addr address).module_path) g.module_by_path ≡ some module_rel
  resolved : resolve_node g module_rel (parse_addr address).parts ≡ some node
  bounded : (n : Node) → Reaches g.dependents start n → unbounding g n ≡ false
  apart : (n : Node) → Reaches g.dependents start n → meets g node n ≡ false

module _ (g : Graph) (start : Node) where
  abbrev members : List Node
  members = (forward_cone g start).members

  none_reached :
      (p : Node → Bool)
      → (some_pass p members ≡ false) ↔ ((n : Node) → Reaches g.dependents start n → p n ≡ false)
  unfolding Fails
  none_reached p = (
    λ e n r. (none_pass p members).0 e n ((forward_cone-Reaches g start n).1 r),
    λ f. (none_pass p members).1 (λ n v. f n ((forward_cone-Reaches g start n).0 v)),
  )

  contains_node :
      (node : Node) → cone_contains (forward_cone g start) node ≡ some_pass (meets g node) members
  unfolding forward_cone
  contains_node node = cone_contains_lem (forward_cone g start) node (forward_cone-Kept g start).0

  contains_bounded : (forward_cone g start).unbounded ≡ some_pass (unbounding g) members
  contains_bounded = (forward_cone-Kept g start).1

  contains_address :
      (address module_rel : Text) (node : Node)
      → get (join (text ".") (parse_addr address).module_path) g.module_by_path ≡ some module_rel
      → resolve_node g module_rel (parse_addr address).parts ≡ some node
      → contains_payload_address (forward_cone g start) address
        ≡ (some_pass (unbounding g) members || some_pass (meets g node) members)
  unfolding contains_payload_address forward_cone
  contains_address address module_rel node m r =
      ground (arith, m, r, contains_node node, contains_bounded)

  placed_address :
      (address : Text)
      → contains_payload_address (forward_cone g start) address ≡ false
      → (module_rel : Text) × ((node : Node) × ((get
                (join (text ".") (parse_addr address).module_path)
                g.module_by_path
              ≡ some module_rel)
            × (resolve_node g module_rel (parse_addr address).parts ≡ some node)))
  unfolding contains_payload_address forward_cone
  placed_address address e =
      elim (cases (get (join (text ".") (parse_addr address).module_path) g.module_by_path)) [
        | inl m ↦ ground (arith, e, m)
        | inr (module_rel, m) ↦
            elim (cases (resolve_node g module_rel (parse_addr address).parts)) [
              | inl r ↦ ground (arith, e, m, r)
              | inr (node, r) ↦ (module_rel, (node, (m, r)))
            ]
      ]

  -- The forward cone of a node leaves a payload address out exactly when the graph places the address
  -- at a node, and no node that a path along the dependents reaches from the start is marked unbounded
  -- or a provider's, is that node, or is (or belongs to) that node's block or that node as a block.
  pub contains_payload_address_lem :
      (address : Text)
      → (contains_payload_address (forward_cone g start) address ≡ false) ↔ Outside g start address
  contains_payload_address_lem address = (
    λ e.
        let (module_rel, (node, (m, r))) = placed_address address e in
        record {
          module_rel = module_rel;
          node = node;
          mapped = m;
          resolved = r;
          bounded =
              (none_reached (unbounding g)).0
                (ground (arith, e, contains_address address module_rel node m r));
          apart =
              (none_reached (meets g node)).0
                (ground (arith, e, contains_address address module_rel node m r));
        },
    λ o. ground (
      arith,
      contains_address address o.module_rel o.node o.mapped o.resolved,
      (none_reached (unbounding g)).1 o.bounded,
      (none_reached (meets g o.node)).1 o.apart,
    ),
  )
