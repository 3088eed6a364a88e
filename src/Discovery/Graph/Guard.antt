-- ===== src/Discovery/Graph/Guard.antt =====
-- `MultiplicityGuard` of internal/discovery/graph.go: when a mutant need not execute for its site's sake.
use tf_mut.Prelude.{suc, ◌≡◌, ◌↔◌, Bool, true, false, ◌&&◌, List, [], ◌∷◌, arith, length}
use tf_mut.Text.{Text, text, text_eq, join}
use tf_mut.Discovery.Address.{split_address}
use tf_mut.Discovery.Graph.{
  visited, closure_loop, addresses_overlap, multiplicity_guard, Node, Graph,
}
use tf_mut.Discovery.Graph.Walk.{closure_loop-Reaches, Reaches}
use tf_mut.Discovery.Graph.Outside.{Fails, none_pass}

abbrev pub meta_node : Text → Text → Node
meta_node module_rel meta_address = record {
  module_rel = module_rel;
  address = join (text ".") (split_address meta_address);
}

-- Whether a node of the site's module overlaps the site.
unfoldable pub overlaps_site : Text → Text → Node → Bool
overlaps_site site_module site node =
    text_eq node.module_rel site_module
    && addresses_overlap node.address (join (text ".") (split_address site))

-- The multiplicity guard lets a mutant pass exactly when the multiplicity attribute is a declared node and neither it nor any node that it reads, directly or through others, overlaps the site in the site's module.
pub multiplicity_guard_lem :
    (g : Graph) (module_rel meta_address site_module site : Text)
    → (multiplicity_guard g module_rel meta_address site_module site ≡ false) ↔ (
        (visited (meta_node module_rel meta_address) g.nodes ≡ true)
        × ((n : Node)
            → Reaches g.sources (meta_node module_rel meta_address) n
            → overlaps_site site_module site n ≡ false))
unfolding multiplicity_guard overlaps_site Fails
multiplicity_guard_lem g module_rel meta_address site_module site =
    let start : Node = meta_node module_rel meta_address in
    let closure : List Node = (closure_loop g.sources (suc (length g.sources)) (start ∷ []) []).1 in
    (
      λ e. (
        ground (arith, e),
        λ n r.
            (none_pass (overlaps_site site_module site) closure).0 (ground (arith, e)) n
              ((closure_loop-Reaches g.sources start n).1 r),
      ),
      λ (declared, f). ground (
        arith,
        declared,
        (none_pass (overlaps_site site_module site) closure).1
            (λ n v. f n ((closure_loop-Reaches g.sources start n).0 v)),
      ),
    )
