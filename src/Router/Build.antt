-- ===== src/Router/Build.antt =====
-- src/router.rs, `build`: one tree to a method.
use oxide_http.Prelude.{
  Text, codes, text_eq, text_eq_iff, to_uppercase, some, List, [], ◌∷◌, if◌then◌else◌, ◌≡◌, refl,
  sym, ◌∙◌, ap, arith, Bool-cases, Option-cases, inl, inr, ◌⊎◌,
}
use oxide_http.Router.{
  Matchit, RouteDef, Built, built, build_error, Trees, Routes, get_tree, put_tree, or_empty,
  add_route, build_from, build, to_matchit,
}
use oxide_http.Router.Allowed.{DistinctTrees}

module _ (matchit : Matchit) where
  get-put :
      (m k : Text) (t : matchit.Tree) (trees : Trees matchit)
      → get_tree matchit m (put_tree matchit k t trees)
        ≡ (if text_eq k m then some t else get_tree matchit m trees)
  unfolding get_tree put_tree
  get-put m k t [] = ground arith
  get-put m k t ((j, u) ∷ trees) =
      ground (arith, get-put m k t trees, text_eq_iff j k, text_eq_iff k m, text_eq_iff j m)

  DistinctTrees-put :
      (k : Text) (t : matchit.Tree) (trees : Trees matchit)
      → DistinctTrees matchit trees
      → DistinctTrees matchit (put_tree matchit k t trees)
  unfolding put_tree
  DistinctTrees-put k t [] d = (unfold get_tree in refl, tt)
  DistinctTrees-put k t ((j, u) ∷ trees) d = elim (Bool-cases (text_eq j k)) [
    | inl same ↦ rw same d
    | inr other ↦ rw other (
      ground (arith, get-put j k t trees, text_eq_iff j k, text_eq_iff k j, d.0),
      DistinctTrees-put k t trees d.1,
    )
  ]

  by_method : Built (Routes matchit) → Trees matchit
  by_method (built r) = r.by_method
  by_method (build_error e) = []

  -- Adding a route leaves the trees of the methods, or puts one.
  add_route-cases :
      (def : RouteDef) (r : Routes matchit)
      → (by_method (add_route matchit def r) ≡ [])
        ⊎ (by_method (add_route matchit def r) ≡ r.by_method)
        ⊎ ((t : matchit.Tree) × (by_method (add_route matchit def r)
              ≡ put_tree matchit (to_uppercase def.method) t r.by_method))
  unfolding add_route by_method
  add_route-cases def r = elim (Bool-cases (text_eq (to_uppercase def.method) (codes "ALL"))) [
    | inl every ↦
        elim (Option-cases
          (matchit.insert_route (or_empty matchit r.all) (to_matchit def.path) def.leaf_id)) [
            | inl refused ↦ inl (rw (every, refused) refl)
            | inr (t, grown) ↦ inr (inl (rw (every, grown) refl))
          ]
    | inr own ↦
        elim (Option-cases (
          matchit.insert_route
            (or_empty matchit (get_tree matchit (to_uppercase def.method) r.by_method))
            (to_matchit def.path) def.leaf_id)) [
              | inl refused ↦ inl (rw (own, refused) refl)
              | inr (t, grown) ↦ inr (inr (t, rw (own, grown) refl))
            ]
  ]

  add_route-Distinct :
      (def : RouteDef) (r r' : Routes matchit)
      → DistinctTrees matchit r.by_method
      → add_route matchit def r ≡ built r'
      → DistinctTrees matchit r'.by_method
  unfolding by_method
  add_route-Distinct def r r' d e =
      let same : r'.by_method ≡ by_method (add_route matchit def r) = ap by_method (sym e) in
      elim (add_route-cases def r) [
        | inl none_left ↦ rw (same ∙ none_left) tt
        | inr (inl kept) ↦ rw (same ∙ kept) d
        | inr (inr (t, put)) ↦
            rw (same ∙ put) (DistinctTrees-put (to_uppercase def.method) t r.by_method d)
      ]

  build_from-step :
      (def : RouteDef) (defs : List RouteDef) (r : Routes matchit)
      → ((msg : Text) × (build_from matchit r (def ∷ defs) ≡ build_error msg))
        ⊎ ((r1 : Routes matchit) × (add_route matchit def r ≡ built r1)
            × (build_from matchit r (def ∷ defs) ≡ build_from matchit r1 defs))
  unfolding build_from
  build_from-step def defs r = go (add_route matchit def r) refl
    where
      go :
          (b : Built (Routes matchit))
          → add_route matchit def r ≡ b
          → ((msg : Text) × (build_from matchit r (def ∷ defs) ≡ build_error msg))
            ⊎ ((r1 : Routes matchit) × (add_route matchit def r ≡ built r1)
                × (build_from matchit r (def ∷ defs) ≡ build_from matchit r1 defs))
      go (built r1) e = inr (r1, e, rw (e, build_from) refl)
      go (build_error msg) e = inl (msg, rw (e, build_from) refl)

  build_from-Distinct :
      (defs : List RouteDef) (r r' : Routes matchit)
      → DistinctTrees matchit r.by_method
      → build_from matchit r defs ≡ built r'
      → DistinctTrees matchit r'.by_method
  build_from-Distinct [] r r' d e = unfold build_from by_method in rw (ap by_method (sym e)) d
  build_from-Distinct (def ∷ defs) r r' d e = elim (build_from-step def defs r) [
    | inl (msg, stopped) ↦ cc (stopped, e)
    | inr (r1, added, later) ↦
        build_from-Distinct defs r1 r' (add_route-Distinct def r r1 d added) (sym later ∙ e)
  ]

  -- Whatever the routes are: if the build succeeds, it has one tree to a method.
  pub build-DistinctTrees :
      (defs : List RouteDef) (r : Routes matchit)
      → build matchit defs ≡ built r
      → DistinctTrees matchit r.by_method
  unfolding build
  build-DistinctTrees defs r e = build_from-Distinct defs _ r tt e
