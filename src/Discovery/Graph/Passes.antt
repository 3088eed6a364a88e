-- ===== src/Discovery/Graph/Passes.antt =====
-- internal/discovery/graph.go: `BuildGraph`, its two passes and the module paths.
use tf_mut.Prelude.{
  ℕ, zero, suc, Bool, true, false, not, Option, none, some, List, [], ◌∷◌, ◌++◌, if◌then◌else◌,
}
use tf_mut.Prelude.Sorting
use tf_mut.Text.{Text, text, text_eq}
use tf_mut.Text.Order.{text_order}
use tf_mut.Dict.{Dict, get, put, keys, has}
use tf_mut.Discovery.Graph.{unmapped_graph, Graph}
use tf_mut.Discovery.Graph.Build.{Blocks, done, block, JsonBlock, ModuleCall, Module, Builder}
use tf_mut.Discovery.Graph.Blocks.{build_block, build_json_block}

unfoldable pub build_blocks : Builder → Blocks → Graph → Graph
build_blocks b done g = g
build_blocks b (block kind labels content rest) g =
    build_blocks b rest (build_block b kind labels content g)

unfoldable pub build_json_blocks : Builder → List JsonBlock → Graph → Graph
build_json_blocks b [] g = g
build_json_blocks b (json ∷ rest) g = build_json_blocks b rest (build_json_block b json g)

-- A file without a body is passed over.
unfoldable pub build_found : Builder → Option Blocks → Graph → Graph
unfolding build_blocks
build_found b none g = g
build_found b (some blocks) g = build_blocks b blocks g

-- A JSON file without content is passed over.
unfoldable pub build_content : Builder → Option (Option (List JsonBlock)) → Graph → Graph
unfolding build_json_blocks
build_content b (some (some blocks)) g = build_json_blocks b blocks g
build_content b _ g = g

-- The loop of `build` over the module's files.
unfoldable pub build_files : Builder → List Text → Graph → Graph
unfolding build_found
build_files b [] g = g
build_files b (path ∷ rest) g = build_files b rest (build_found b (get path b.self.bodies) g)

-- `buildJSON`, over the sorted paths.
unfoldable pub build_json : Builder → List Text → Graph → Graph
unfolding build_content
build_json b [] g = g
build_json b (path ∷ rest) g = build_json b rest (build_content b (get path b.self.json_bodies) g)

-- `build`.
unfoldable pub build : Builder → Graph → Graph
unfolding build_files build_json
build b g =
    build_json b (Sorting.sort text_order (keys b.self.json_bodies)) (build_files b b.self.files g)

-- One pass of `BuildGraph` over the modules.
unfoldable pub build_modules : Dict Text → Bool → List Module → Graph → Graph
build_modules rel_by_dir connect [] g = g
build_modules rel_by_dir connect (m ∷ rest) g =
    build_modules rel_by_dir connect rest
      (build (record { self = m; rel_by_dir = rel_by_dir; connect = connect }) g)

pub record Configuration : Type 0 where
  pub module_dir : Text
  pub modules : List Module

unfoldable pub rel_by_dir_of : List Module → Dict Text → Dict Text
rel_by_dir_of [] rels = rels
rel_by_dir_of (m ∷ rest) rels = rel_by_dir_of rest (put m.dir m.rel rels)

-- `mustRel`.
unfoldable pub must_rel : Dict Text → Text → Text
must_rel rel_by_dir dir = elim (get dir rel_by_dir) [ none ↦ [] | some rel ↦ rel ]

-- `ModuleByRel`.
unfoldable pub module_by_rel : List Module → Text → Option Module
module_by_rel [] rel = none
module_by_rel (m ∷ rest) rel =
    let later = module_by_rel rest rel in if text_eq m.rel rel then some m else later

-- `joinKey` of discovery.go.
join_key : Text → Text → Text
join_key [] name = name
join_key (c ∷ parent) name = (c ∷ parent) ++ (text "." ++ name)

-- The children that one visit of `mapModulePaths` queues.
unfoldable pub child_visits :
    List Module → Dict Text → Text → List ModuleCall → List (Module × Text)
unfolding must_rel module_by_rel join_key
child_visits modules rel_by_dir path [] = []
child_visits modules rel_by_dir path (call ∷ rest) =
    let later = child_visits modules rel_by_dir path rest in
    if not call.is_local
    then later
    else elim (module_by_rel modules (must_rel rel_by_dir call.dir)) [
      | none ↦ later
      | some child ↦ (child, join_key path call.name) ∷ later
    ]

-- The loop of `mapModulePaths`; the keys of the map are the paths seen. `none` when the fuel ends.
unfoldable pub map_paths :
    List Module → Dict Text → ℕ → List (Module × Text) → Dict Text → Option (Dict Text)
unfolding child_visits
map_paths modules rel_by_dir zero queue paths = none
map_paths modules rel_by_dir (suc fuel) [] paths = some paths
map_paths modules rel_by_dir (suc fuel) ((m, path) ∷ rest) paths =
    let skip = map_paths modules rel_by_dir fuel rest paths in
    let go_on =
      map_paths modules rel_by_dir fuel (rest ++ child_visits modules rel_by_dir path m.calls)
        (put path m.rel paths) in
    if has path paths then skip else go_on

-- `mapModulePaths`.
unfoldable pub map_module_paths : ℕ → Configuration → Dict Text → Option (Dict Text)
unfolding map_paths must_rel module_by_rel
map_module_paths fuel c rel_by_dir =
    elim (module_by_rel c.modules (must_rel rel_by_dir c.module_dir)) [
      | none ↦ some []
      | some root ↦ map_paths c.modules rel_by_dir fuel ((root, []) ∷ []) []
    ]

-- `BuildGraph` from the graph on, with the module paths: its two passes.
unfoldable pub draw_graph : Configuration → Dict Text → Graph
unfolding build_modules rel_by_dir_of
draw_graph c paths =
    let rel_by_dir = rel_by_dir_of c.modules [] in
    build_modules rel_by_dir true c.modules
      (build_modules rel_by_dir false c.modules (record unmapped_graph { module_by_path = paths }))

-- `BuildGraph`.
unfoldable pub build_graph : ℕ → Configuration → Option Graph
unfolding map_module_paths rel_by_dir_of draw_graph
build_graph fuel c = elim (map_module_paths fuel c (rel_by_dir_of c.modules [])) [
  | none ↦ none
  | some paths ↦ some (draw_graph c paths)
]
