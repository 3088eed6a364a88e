-- ===== src/Discovery/Graph/Paths.antt =====
-- `mapModulePaths` of internal/discovery/graph.go: its loop ends where no module calls itself.
use tf_mut.Prelude.{
  ℕ, zero, suc, ◌+◌, ◌≤◌, ◌<◌, ◌≡◌, refl, ap, inl, inr, Bool, true, false, ◌&&◌, none, some, List,
  [], ◌∷◌, ◌++◌, map, arith, ltb, leb, Bool-cases, all_pass, cases, first_of,
}
use tf_mut.Text.{Text}
use tf_mut.Dict.{Dict, put, has}
use tf_mut.Discovery.Graph.Build.{ModuleCall, Module}
use tf_mut.Discovery.Graph.Passes.{
  rel_by_dir_of, must_rel, module_by_rel, child_visits, map_paths, map_module_paths, Configuration,
}

module _ (modules : List Module) (rels : Dict Text) where
  -- The modules of a list of visits.
  abbrev visited_modules : List (Module × Text) → List Module
  visited_modules visits = map (λ v. v.0) visits

  -- The modules that a module calls.
  abbrev pub children : Module → List Module
  children m = visited_modules (child_visits modules rels [] m.calls)

  visited_modules-child_visits :
      (path other : Text) (calls : List ModuleCall)
      → visited_modules (child_visits modules rels path calls)
        ≡ visited_modules (child_visits modules rels other calls)
  unfolding child_visits
  visited_modules-child_visits path other [] = refl
  visited_modules-child_visits path other (call ∷ rest) =
      ground (arith, visited_modules-child_visits path other rest)

  all_pass-module_by_rel :
      (p : Module → Bool) (xs : List Module) (rel : Text) {m : Module}
      → all_pass p xs ≡ true
      → module_by_rel xs rel ≡ some m
      → p m ≡ true
  unfolding module_by_rel
  all_pass-module_by_rel p [] rel h e = cc
  all_pass-module_by_rel p (x ∷ xs) rel {m} h e =
      ground (arith, h, e, all_pass-module_by_rel p xs rel {m = m})

  all_pass-child_visits :
      (p : Module → Bool) (path : Text) (calls : List ModuleCall)
      → all_pass p modules ≡ true
      → all_pass p (visited_modules (child_visits modules rels path calls)) ≡ true
  unfolding child_visits
  all_pass-child_visits p path [] h = refl
  all_pass-child_visits p path (call ∷ rest) h =
      let later = all_pass-child_visits p path rest h in
      elim (cases (module_by_rel modules (must_rel rels call.dir))) [
        | inl e ↦ ground (arith, later, e)
        | inr (child, e) ↦
            ground (arith, later, e, all_pass-module_by_rel p modules (must_rel rels call.dir) h e)
      ]

  -- The sum of the weights of modules.
  abbrev sum_of : (Module → ℕ) → List Module → ℕ
  sum_of w [] = 0
  sum_of w (m ∷ rest) = w m + sum_of w rest

  -- The visits that a module leads to, itself included, down to a depth.
  unfoldable pub weight : ℕ → Module → ℕ
  weight zero m = 1
  weight (suc n) m = suc (sum_of (weight n) (children m))

  weight-suc : (n : ℕ) (m : Module) → weight (suc n) m ≡ suc (sum_of (weight n) (children m))
  unfolding weight
  weight-suc n m = refl

  weight-positive : (n : ℕ) (m : Module) → 0 < weight n m
  unfolding weight
  weight-positive zero m = omega arith
  weight-positive (suc n) m = omega arith

  sum_of-append :
      (w : Module → ℕ) (xs ys : List (Module × Text))
      → sum_of w (visited_modules (xs ++ ys))
        ≡ sum_of w (visited_modules xs) + sum_of w (visited_modules ys)
  sum_of-append w [] ys = omega arith
  sum_of-append w (x ∷ xs) ys = omega (arith, sum_of-append w xs ys)

  all_pass-append :
      (p : Module → Bool) (xs ys : List (Module × Text))
      → all_pass p (visited_modules (xs ++ ys))
        ≡ (all_pass p (visited_modules xs) && all_pass p (visited_modules ys))
  all_pass-append p [] ys = refl
  all_pass-append p (x ∷ xs) ys = ground (arith, all_pass-append p xs ys)

  -- What the loop ends with, for every fuel from one on.
  Finds : ℕ → List (Module × Text) → Dict Text → Dict Text → Type 0
  Finds fuel queue paths found =
      (more : ℕ) → fuel ≤ more → map_paths modules rels more queue paths ≡ some found

  Finds-end : (fuel : ℕ) (paths : Dict Text) → Finds (suc fuel) [] paths paths
  unfolding map_paths Finds
  Finds-end fuel paths zero k = absurd (omega (arith, k))
  Finds-end fuel paths (suc more) k = refl

  Finds-step :
      (fuel : ℕ) (m : Module) (path : Text) (rest : List (Module × Text)) (paths found : Dict Text)
      → (has path paths ≡ true → Finds fuel rest paths found)
      → (has path paths ≡ false
          → Finds fuel
              (rest ++ child_visits modules rels path m.calls)
              (put path m.rel paths)
              found)
      → Finds (suc fuel) ((m, path) ∷ rest) paths found
  unfolding map_paths Finds
  Finds-step fuel m path rest paths found skip go_on zero k = absurd (omega (arith, k))
  Finds-step fuel m path rest paths found skip go_on (suc more) k =
      elim (Bool-cases (has path paths)) [
        | inl e ↦ ground (arith, k, e, skip e more)
        | inr e ↦ ground (arith, k, e, go_on e more)
      ]

  module _ (rank : Module → ℕ) where
    -- Every module that a module calls has a smaller rank.
    abbrev pub descends : Module → Bool
    descends m = all_pass (λ child. ltb (rank child) (rank m)) (children m)

    sum_of-deeper :
        (n bound : ℕ) (xs : List Module)
        → ((m : Module) → descends m ≡ true → rank m ≤ n → weight (suc n) m ≡ weight n m)
        → all_pass descends xs ≡ true
        → all_pass (λ child. ltb (rank child) bound) xs ≡ true
        → bound ≤ suc n
        → sum_of (weight (suc n)) xs ≡ sum_of (weight n) xs
    sum_of-deeper n bound [] same d h b = refl
    sum_of-deeper n bound (m ∷ rest) same d h b =
        ground (arith, same m, sum_of-deeper n bound rest same, d, h, b)

    module _ (ranked : all_pass descends modules ≡ true) where
      weight-deeper :
          (n : ℕ) (m : Module) → descends m ≡ true → rank m ≤ n → weight (suc n) m ≡ weight n m
      unfolding weight
      weight-deeper zero m d b = elim (first_of (children m)) [
        | inl e ↦ rw e refl
        | inr (child, (rest, e)) ↦ ground (arith, d, b, e)
      ]
      weight-deeper (suc n) m d b = ap suc (
          sum_of-deeper n (rank m) (children m) (weight-deeper n)
            (all_pass-child_visits descends [] m.calls ranked) d b)

      all_below :
          (m : Module) (n : ℕ) (xs : List Module)
          → all_pass (λ child. ltb (rank child) (rank m)) xs ≡ true
          → rank m ≤ n
          → all_pass (λ child. leb (rank child) n) xs ≡ true
      all_below m n [] h b = refl
      all_below m n (x ∷ xs) h b = ground (arith, h, b, all_below m n xs)

      -- The loop ends with any fuel above the weight of its queue, and always with the same paths.
      map_paths-Finds :
          (n fuel : ℕ) (queue : List (Module × Text)) (paths : Dict Text)
          → all_pass descends (visited_modules queue) ≡ true
          → all_pass (λ m. leb (rank m) n) (visited_modules queue) ≡ true
          → sum_of (weight n) (visited_modules queue) < fuel
          → (found : Dict Text) × Finds fuel queue paths found
      map_paths-Finds n zero queue paths d b h = absurd (omega (arith, h))
      map_paths-Finds n (suc fuel) [] paths d b h = (paths, Finds-end fuel paths)
      map_paths-Finds n (suc fuel) ((m, path) ∷ rest) paths d b h =
          elim (Bool-cases (has path paths)) [
            | inl e ↦
                let (found, f) =
                  map_paths-Finds n fuel rest paths (ground (arith, d)) (ground (arith, b))
                    (omega (arith, h, weight-positive n m)) in
                (
                  found,
                  Finds-step fuel m path rest paths found (λ _. f)
                      (λ e2. absurd (ground (arith, e, e2))),
                )
            | inr e ↦
                let visits = child_visits modules rels path m.calls in
                let same = visited_modules-child_visits path [] m.calls in
                let below = ap (all_pass (λ child. leb (rank child) n)) same in
                let (found, f) =
                  map_paths-Finds n fuel (rest ++ visits) (put path m.rel paths)
                    (ground (
                      arith,
                      d,
                      all_pass-append descends rest visits,
                      all_pass-child_visits descends path m.calls ranked,
                    ))
                    (ground (
                      arith,
                      b,
                      all_pass-append (λ m. leb (rank m) n) rest visits,
                      all_below m n (children m),
                      d,
                      below,
                    ))
                    (ground (
                      arith,
                      h,
                      sum_of-append (weight n) rest visits,
                      ap (sum_of (weight n)) same,
                      weight-deeper n m,
                      d,
                      b,
                      weight-suc n m,
                    )) in
                (
                  found,
                  Finds-step fuel m path rest paths found (λ e2. absurd (ground (arith, e, e2)))
                      (λ _. f),
                )
          ]

-- The rounds of `mapModulePaths` and one more, by a rank of the modules.
unfoldable pub paths_fuel : (Module → ℕ) → Configuration → ℕ
paths_fuel rank c =
    let rels = rel_by_dir_of c.modules [] in
    elim (module_by_rel c.modules (must_rel rels c.module_dir)) [
      | none ↦ 0
      | some root ↦ suc (weight c.modules rels (rank root) root)
    ]

-- No module calls itself, directly or through others: a rank falls from each module to those it calls.
abbrev pub is_ranked : (Module → ℕ) → Configuration → Bool
is_ranked rank c = all_pass (descends c.modules (rel_by_dir_of c.modules []) rank) c.modules

pub map_module_paths-enough :
    (rank : Module → ℕ) (c : Configuration) (fuel : ℕ)
    → is_ranked rank c ≡ true
    → paths_fuel rank c ≤ fuel
    → let rels = rel_by_dir_of c.modules [] in
      (paths : Dict Text) × (map_module_paths fuel c rels ≡ some paths)
      × (map_module_paths (paths_fuel rank c) c rels ≡ some paths)
unfolding map_module_paths paths_fuel Finds
map_module_paths-enough rank c fuel ranked h =
    let rels : Dict Text = rel_by_dir_of c.modules [] in
    elim (cases (module_by_rel c.modules (must_rel rels c.module_dir))) [
      | inl e ↦ ([], ground (arith, e), ground (arith, e))
      | inr (root, e) ↦
          let n : ℕ = suc (weight c.modules rels (rank root) root) in
          let enough : n ≤ fuel = ground (arith, h, e) in
          let declared : descends c.modules rels rank root ≡ true =
            all_pass-module_by_rel c.modules rels (descends c.modules rels rank) c.modules
              (must_rel rels c.module_dir) ranked e in
          let (found, f) =
            map_paths-Finds c.modules rels rank ranked (rank root) n ((root, []) ∷ []) []
              (ground (arith, declared)) (ground arith) (omega arith) in
          (found, ground (arith, e, f fuel enough), ground (arith, e, f n (omega arith)))
    ]
