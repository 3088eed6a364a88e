-- ===== src/Discovery/Expressions.antt =====
-- internal/discovery/closure.go: the references that an expression observes. The syntax tree is the
-- HCL library's; a node here is one of its kinds that the code tells apart, with the children that
-- the code reads, and `nothing` is a nil expression.
use tf_mut.Prelude.{
  Bool, true, false, not, Option, none, some, List, [], ◌∷◌, ◌++◌, ltb, if◌then◌else◌, length,
}
use tf_mut.Prelude.Sorting
use tf_mut.Prelude.Sorting.{Sortable}
use tf_mut.Text.{Text, text, join}
use tf_mut.Text.Order.{text_le, text_le_total, text_le_trans}
use tf_mut.Discovery.Reach.{Ref}

-- One step of a traversal.
pub data Step : Type 0 where
  root attribute : Text → Step
  index_or_splat : Step

mutual
  pub data Expr : Type 0 where
    nothing literal other : Expr
    scope_traversal : List Step → Expr
    relative_traversal splat : Expr → Expr
    for_expr : Expr → Expr → Expr → Expr → Expr
    index : Expr → Expr → Expr
    binary_op : Expr → Expr → Expr
    unary_op parentheses template_wrap template_join object_key : Expr → Expr
    conditional : Expr → Expr → Expr → Expr
    function_call template tuple_cons : Exprs → Expr
    object_cons : Items → Expr

  pub data Exprs : Type 0 where
    nil : Exprs
    cons : Expr → Exprs → Exprs

  pub data Items : Type 0 where
    end : Items
    item : Expr → Expr → Items → Items

-- The names of the attribute steps up to the first step of another kind.
attribute_names : List Step → List Text
attribute_names (attribute name ∷ rest) = name ∷ attribute_names rest
attribute_names _ = []

-- `traversalRef`; a traversal is never empty, and an empty one is refused here.
unfoldable pub traversal_ref : List Step → Option Text
unfolding attribute_names
traversal_ref (root name ∷ rest) =
    let parts = name ∷ attribute_names rest in
    if ltb (length parts) 2 then none else some (join (text ".") parts)
traversal_ref _ = none

abbrev is_literal : Expr → Bool
is_literal literal = true
is_literal _ = false

abbrev reference : Option Text → Bool → Text → List Ref
reference none precise construct = []
reference (some address) precise construct =
    record { address = address; precise = precise; construct = construct } ∷ []

-- What `collectRefs` appends, with `childExpressions` and `objectChildren` in the clauses.
unfoldable mutual
  unfolding traversal_ref

  pub collect_refs : Expr → Bool → Text → List Ref
  collect_refs nothing precise construct = []
  collect_refs literal precise construct = []
  collect_refs other precise construct = []
  collect_refs (scope_traversal steps) precise construct =
      reference (traversal_ref steps) precise construct
  collect_refs (relative_traversal source) precise construct = collect_refs source precise construct
  collect_refs (splat source) precise construct =
      collect_refs source false (text "splat expression")
  collect_refs (for_expr collection key value condition) precise construct =
      collect_refs collection false (text "for expression")
      ++ (collect_refs key false (text "for expression")
          ++ (collect_refs value false (text "for expression")
              ++ collect_refs condition false (text "for expression")))
  collect_refs (index collection key) precise construct =
      let computed = collect_refs collection false (text "computed index") in
      let direct = collect_refs collection precise construct in
      (if not (is_literal key) then computed else direct) ++ collect_refs key precise construct
  collect_refs (binary_op left right) precise construct =
      collect_refs left precise construct ++ collect_refs right precise construct
  collect_refs (unary_op value) precise construct = collect_refs value precise construct
  collect_refs (parentheses inner) precise construct = collect_refs inner precise construct
  collect_refs (template_wrap wrapped) precise construct = collect_refs wrapped precise construct
  collect_refs (template_join tuple) precise construct = collect_refs tuple precise construct
  collect_refs (object_key wrapped) precise construct = collect_refs wrapped precise construct
  collect_refs (conditional test yes_value no_value) precise construct =
      collect_refs test precise construct
      ++ (collect_refs yes_value precise construct ++ collect_refs no_value precise construct)
  collect_refs (function_call arguments) precise construct = collect_all arguments precise construct
  collect_refs (template parts) precise construct = collect_all parts precise construct
  collect_refs (tuple_cons values) precise construct = collect_all values precise construct
  collect_refs (object_cons items) precise construct = collect_items items precise construct

  pub collect_all : Exprs → Bool → Text → List Ref
  collect_all nil precise construct = []
  collect_all (cons e rest) precise construct =
      collect_refs e precise construct ++ collect_all rest precise construct

  pub collect_items : Items → Bool → Text → List Ref
  collect_items end precise construct = []
  collect_items (item key value rest) precise construct =
      collect_refs key precise construct
      ++ (collect_refs value precise construct ++ collect_items rest precise construct)

abbrev pub by_address : Sortable Ref
by_address = record {
  le = λ a b. text_le a.address b.address;
  le_total = λ a b. text_le_total a.address b.address;
  le_trans = λ a b c. text_le_trans a.address b.address c.address;
}

-- `referencesOf` on a native expression; `nothing` stands for one that is not.
unfoldable pub references_of : Expr → List Ref
references_of e = Sorting.sort by_address (collect_refs e true [])
