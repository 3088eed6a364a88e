-- ===== src/Discovery/Graph/Built.antt =====
-- internal/discovery/graph.go: a property of the graph that `BuildGraph` returns.
use tf_mut.Discovery.Graph.Cones.{forward_cone-Reaches}
use tf_mut.Discovery.Graph.Paths.{paths_fuel, is_ranked, map_module_paths-enough}
use tf_mut.Discovery.Graph.Walk.{Reaches, here, along}
use tf_mut.Discovery.Graph.Passes.{
  build_blocks, build_json_blocks, build_found, build_content, build_files, build_json, build,
  build_modules, rel_by_dir_of, draw_graph, build_graph, Configuration,
}
use tf_mut.Prelude.{ℕ, ◌≤◌, ◌≡◌, Bool, true, false, Option, none, some, List, [], ◌∷◌, map, arith}
use tf_mut.Text.{Text}
use tf_mut.Prelude.Sorting
use tf_mut.Text.Order.{text_order}
use tf_mut.Dict.{Dict, get, keys}
use tf_mut.Discovery.Graph.{visited, Edge, targets, unmapped_graph, forward_cone, Node, Graph}
use tf_mut.Discovery.Graph.Build.{
  declare, json_refs, Body, Blocks, done, block, JsonBlock, Module, Builder,
}
use tf_mut.Discovery.Graph.Blocks.{
  native_refs, walk_body, declare_locals, kind_of, build_at, build_block_at, build_kind,
  attributes_of, build_block, walk_json_body, json_locals, build_json_block, Kind, owned, wired,
  provider, locals, ignored,
}
use tf_mut.Discovery.Graph.Duality.{
  IsDual, walk_attributes-IsDual, walk_body-IsDual, wire_module-IsDual, declare_locals-IsDual,
}

-- A step of the construction that keeps the duality of the edges.
Keeps : (Graph → Graph) → Type 0
Keeps f = (g : Graph) → IsDual g → IsDual (f g)

module _ (b : Builder) where
  build_at-IsDual :
      (k : Kind) (kind : Text) (labels : List Text) (address : Text)
      (walk : Text → Node → Option Node → Graph → Graph)
      → ((a : Text) (n : Node) (o : Option Node) → Keeps (walk a n o))
      → Keeps (build_at b k kind labels address walk)
  unfolding Keeps build_at IsDual declare
  build_at-IsDual owned kind labels address walk keeps g dual = keeps _ _ _ _ dual
  build_at-IsDual wired kind labels address walk keeps g dual =
      wire_module-IsDual b kind labels _ _ (keeps _ _ _ _ dual)
  build_at-IsDual provider kind labels address walk keeps g dual = keeps _ _ _ _ dual
  build_at-IsDual locals kind labels address walk keeps g dual = dual
  build_at-IsDual ignored kind labels address walk keeps g dual = dual

  build_block_at-IsDual :
      (k : Kind) (kind : Text) (labels : List Text) (address : Option Text)
      (walk : Text → Node → Option Node → Graph → Graph)
      → ((a : Text) (n : Node) (o : Option Node) → Keeps (walk a n o))
      → Keeps (build_block_at b k kind labels address walk)
  unfolding Keeps build_block_at
  build_block_at-IsDual k kind labels none walk keeps g dual = dual
  build_block_at-IsDual k kind labels (some address) walk keeps g dual =
      build_at-IsDual k kind labels address walk keeps g dual

  build_kind-IsDual :
      (k : Kind) (kind : Text) (labels : List Text)
      (walk : Text → Node → Option Node → Graph → Graph) (walk_locals : Graph → Graph)
      → ((a : Text) (n : Node) (o : Option Node) → Keeps (walk a n o))
      → Keeps walk_locals
      → Keeps (build_kind b k kind labels walk walk_locals)
  unfolding Keeps build_kind
  build_kind-IsDual locals kind labels walk walk_locals keeps kept g dual = kept g dual
  build_kind-IsDual ignored kind labels walk walk_locals keeps kept g dual = dual
  build_kind-IsDual owned kind labels walk walk_locals keeps kept g dual =
      build_block_at-IsDual owned kind labels _ walk keeps g dual
  build_kind-IsDual wired kind labels walk walk_locals keeps kept g dual =
      build_block_at-IsDual wired kind labels _ walk keeps g dual
  build_kind-IsDual provider kind labels walk walk_locals keeps kept g dual =
      build_block_at-IsDual provider kind labels _ walk keeps g dual

  build_block-IsDual :
      (kind : Text) (labels : List Text) (content : Body)
      → Keeps (build_block b kind labels content)
  unfolding build_block Keeps
  build_block-IsDual kind labels content =
      build_kind-IsDual (kind_of kind) kind labels
        (λ address node owner. walk_body b address node owner content)
        (declare_locals b (native_refs (attributes_of content)))
        (λ a n o g dual. walk_body-IsDual b a n o content g dual)
        (λ g dual. declare_locals-IsDual b _ g dual)

  walk_json_body-IsDual :
      (json : JsonBlock) (address : Text) (n : Node) (owner : Option Node)
      → Keeps (walk_json_body b address n owner json.attributes)
  unfolding Keeps walk_json_body
  walk_json_body-IsDual json address n owner g dual =
      elim (json.attributes) as (λ o. IsDual (walk_json_body b address n owner o g)) [
        | none ↦ dual
        | some attributes ↦
            walk_attributes-IsDual b address n owner (map (λ kv. (kv.0, json_refs kv.1)) attributes)
              g dual
      ]

  json_locals-IsDual : (json : JsonBlock) → Keeps (json_locals b json.attributes)
  unfolding Keeps json_locals
  json_locals-IsDual json g dual = elim (json.attributes) as (λ o. IsDual (json_locals b o g)) [
    | none ↦ dual
    | some attributes ↦
        declare_locals-IsDual b (map (λ kv. (kv.0, json_refs kv.1)) attributes) g dual
  ]

  build_json_block-IsDual : (json : JsonBlock) → Keeps (build_json_block b json)
  unfolding build_json_block
  build_json_block-IsDual json =
      build_kind-IsDual (kind_of json.kind) json.kind json.labels
        (λ address node owner. walk_json_body b address node owner json.attributes)
        (json_locals b json.attributes) (walk_json_body-IsDual json) (json_locals-IsDual json)

  build_blocks-IsDual : (blocks : Blocks) → Keeps (build_blocks b blocks)
  unfolding Keeps build_blocks
  build_blocks-IsDual done g dual = dual
  build_blocks-IsDual (block kind labels content rest) g dual =
      build_blocks-IsDual rest _ (build_block-IsDual kind labels content g dual)

  build_json_blocks-IsDual : (blocks : List JsonBlock) → Keeps (build_json_blocks b blocks)
  unfolding Keeps build_json_blocks
  build_json_blocks-IsDual [] g dual = dual
  build_json_blocks-IsDual (json ∷ rest) g dual =
      build_json_blocks-IsDual rest _ (build_json_block-IsDual json g dual)

  build_found-IsDual : (found : Option Blocks) → Keeps (build_found b found)
  unfolding Keeps build_found
  build_found-IsDual none g dual = dual
  build_found-IsDual (some blocks) g dual = build_blocks-IsDual blocks g dual

  build_content-IsDual : (found : Option (Option (List JsonBlock))) → Keeps (build_content b found)
  unfolding Keeps build_content
  build_content-IsDual none g dual = dual
  build_content-IsDual (some none) g dual = dual
  build_content-IsDual (some (some blocks)) g dual = build_json_blocks-IsDual blocks g dual

  build_files-IsDual : (paths : List Text) → Keeps (build_files b paths)
  unfolding Keeps build_files
  build_files-IsDual [] g dual = dual
  build_files-IsDual (path ∷ rest) g dual =
      build_files-IsDual rest _ (build_found-IsDual (get path b.self.bodies) g dual)

  build_json-IsDual : (paths : List Text) → Keeps (build_json b paths)
  unfolding Keeps build_json
  build_json-IsDual [] g dual = dual
  build_json-IsDual (path ∷ rest) g dual =
      build_json-IsDual rest _ (build_content-IsDual (get path b.self.json_bodies) g dual)

  build-IsDual : Keeps (build b)
  unfolding Keeps build
  build-IsDual g dual =
      build_json-IsDual (Sorting.sort text_order (keys b.self.json_bodies)) _
        (build_files-IsDual b.self.files g dual)

build_modules-IsDual :
    (rels : Dict Text) (connect : Bool) (modules : List Module)
    → Keeps (build_modules rels connect modules)
unfolding Keeps build_modules
build_modules-IsDual rels connect [] g dual = dual
build_modules-IsDual rels connect (m ∷ rest) g dual =
    build_modules-IsDual rels connect rest _ (build-IsDual _ g dual)

unmapped_graph-IsDual :
    (paths : Dict Text) → IsDual (record unmapped_graph { module_by_path = paths })
unfolding IsDual unmapped_graph targets visited
unmapped_graph-IsDual paths reader source e = ground (arith, e)

draw_graph-IsDual : (c : Configuration) (paths : Dict Text) → IsDual (draw_graph c paths)
unfolding draw_graph Keeps
draw_graph-IsDual c paths =
    let rels : Dict Text = rel_by_dir_of c.modules [] in
    let start : Graph = record unmapped_graph { module_by_path = paths } in
    build_modules-IsDual rels true c.modules _
      (build_modules-IsDual rels false c.modules start (unmapped_graph-IsDual paths))

Reaches-trans :
    {edges : List Edge} {a b c : Node} → Reaches edges a b → Reaches edges b c → Reaches edges a c
Reaches-trans r here = r
Reaches-trans r (along s t) = along (Reaches-trans r s) t

IsDual-Reaches :
    (g : Graph)
    → IsDual g
    → (start n : Node) → Reaches g.sources start n
    → Reaches g.dependents n start
unfolding IsDual
IsDual-Reaches g dual start _ here = here
IsDual-Reaches g dual start _ (along {m} {n} r t) =
    Reaches-trans (along here (dual m n t)) (IsDual-Reaches g dual start m r)

-- Where no module calls itself, directly or through others, as a rank of the modules shows, the fuel that the rank gives suffices for `BuildGraph`: with it and with any more the same graph is returned. In that graph a node that a node reads, directly or through others, has that node in its forward cone.
pub build_graph-upstream :
    (rank : Module → ℕ) (c : Configuration) (fuel : ℕ)
    → is_ranked rank c ≡ true
    → paths_fuel rank c ≤ fuel
    → (g : Graph) × (build_graph fuel c ≡ some g)
      × (build_graph (paths_fuel rank c) c ≡ some g)
      × ((start n : Node)
          → Reaches g.sources start n
          → visited start (forward_cone g n).members ≡ true)
unfolding build_graph
build_graph-upstream rank c fuel ranked h =
    let rels : Dict Text = rel_by_dir_of c.modules [] in
    let (paths, e, same) = map_module_paths-enough rank c fuel ranked h in
    let g : Graph = draw_graph c paths in
    (
      g,
      ground (arith, e),
      ground (arith, same),
      λ start n r.
          (forward_cone-Reaches g n start).1
            (IsDual-Reaches g (draw_graph-IsDual c paths) start n r),
    )
