-- ===== src/Router/Allowed.antt =====
-- src/router.rs, `allowed_methods` and `match_route`: when a path is 404, 405, or served.
use oxide_http.Prelude.{
  Text, codes, text_eq, text_eq_iff, text_eq_refl, none, List, [], ◌∷◌, Bool, true, false, ◌&&◌,
  ◌||◌, if◌then◌else◌, is_some, is_empty, ◌≡◌, refl, sym, ◌∙◌, ap, arith, ◌↔◌, inl, inr, Bool-cases,
}
use oxide_http.Router.{
  Matchit, has, push_new, push_all, sort, standard, Trees, Routes, get_tree, at_tree, match_route,
  matching, allowed_methods,
}
use oxide_http.Router.Methods.{
  has-push_new, has-push_all, has-sort, is_empty-nil, is_some-none, or_false, and_true,
  standard_get,
}

module _ (matchit : Matchit) where
  -- One tree to a method, as `build` makes them.
  abbrev pub DistinctTrees : Trees matchit → Type 0
  DistinctTrees [] = Unit
  DistinctTrees ((m, t) ∷ trees) = (get_tree matchit m trees ≡ none) × DistinctTrees trees

  has-matching :
      (path m : Text) (trees : Trees matchit)
      → DistinctTrees trees
      → has m (matching matchit path trees)
        ≡ is_some (at_tree matchit path (get_tree matchit m trees))
  unfolding matching get_tree has
  has-matching path m [] d = refl
  has-matching path m ((k, t) ∷ trees) d = elim (Bool-cases (text_eq k m)) [
    | inl same ↦
        let gone : get_tree matchit m trees ≡ none =
          ap (λ (y : Text). get_tree matchit y trees) (sym ((text_eq_iff k m).0 same)) ∙ d.0 in
        ground (arith, gone, has-matching path m trees d.1)
    | inr other ↦ ground (arith, has-matching path m trees d.1)
  ]

  -- Whether `Allow` names a method for itself: its own tree has the path, or `ALL` has it and the
  -- method is a standard one.
  abbrev pub listed : Routes matchit → Text → Text → Bool
  listed r path m =
      is_some (at_tree matchit path (get_tree matchit m r.by_method))
      || (is_some (at_tree matchit path r.all) && has m standard)

  module _ (r : Routes matchit) (path : Text) where
    -- The methods before `HEAD` and `OPTIONS` are derived.
    abbrev explicit : List Text
    explicit =
        if is_some (at_tree matchit path r.all)
        then push_all (matching matchit path r.by_method) standard
        else matching matchit path r.by_method

    has-explicit : (m : Text) → DistinctTrees r.by_method → has m explicit ≡ listed r path m
    has-explicit m d = elim (Bool-cases (is_some (at_tree matchit path r.all))) [
      | inl every ↦ rw every (
          has-push_all m (matching matchit path r.by_method) standard
          ∙ ap (λ (b : Bool). b || has m standard) (has-matching path m r.by_method d))
      | inr own ↦ rw own (has-matching path m r.by_method d ∙ ground arith)
    ]

    allowed_methods-none : is_empty explicit ≡ true → allowed_methods matchit r path ≡ []
    unfolding allowed_methods
    allowed_methods-none e = rw e (is_empty-nil explicit e)

    allowed_methods-some :
        is_empty explicit ≡ false
        → allowed_methods matchit r path
          ≡ sort (
              push_new
                (if has (codes "GET") explicit then push_new explicit (codes "HEAD") else explicit)
                (codes "OPTIONS"))
    unfolding allowed_methods
    allowed_methods-some e = rw e refl

    has-allowed_methods :
        (m : Text)
        → is_empty explicit ≡ false
        → has m (allowed_methods matchit r path) ≡ (
            has m explicit
            || (has (codes "GET") explicit && text_eq (codes "HEAD") m)
            || text_eq (codes "OPTIONS") m)
    has-allowed_methods m e = elim (Bool-cases (has (codes "GET") explicit)) [
      | inl get ↦
          rw (allowed_methods-some e, get)
            (has-sort m (push_new (push_new explicit (codes "HEAD")) (codes "OPTIONS"))
              ∙ has-push_new m (codes "OPTIONS") (push_new explicit (codes "HEAD"))
              ∙ ap (λ (b : Bool). b || text_eq (codes "OPTIONS") m)
                  (has-push_new m (codes "HEAD") explicit)
              ∙ ground arith)
      | inr other ↦
          rw (allowed_methods-some e, other)
            (has-sort m (push_new explicit (codes "OPTIONS"))
              ∙ has-push_new m (codes "OPTIONS") explicit
              ∙ ground arith)
    ]

    has-nil : (m : Text) → has m [] ≡ false
    has-nil m = unfold has in refl

    empty_iff : (allowed_methods matchit r path ≡ []) ↔ (is_empty explicit ≡ true)
    empty_iff = (
      λ e. elim (Bool-cases (is_empty explicit)) [
        | inl empty ↦ empty
        | inr full ↦
            let listed_options : has (codes "OPTIONS") (allowed_methods matchit r path) ≡ true =
              has-allowed_methods (codes "OPTIONS") full
              ∙ ground (arith, text_eq_refl (codes "OPTIONS")) in
            cc (listed_options, e, has-nil (codes "OPTIONS"))
      ],
      allowed_methods-none,
    )

    match_route-none :
        (m : Text)
        → (match_route matchit r m path ≡ none) ↔ (
            (at_tree matchit path (get_tree matchit m r.by_method) ≡ none)
            × (at_tree matchit path r.all ≡ none))
    unfolding match_route
    match_route-none m = (λ e. ground arith, λ p. ground (arith, p.0, p.1))

    listed-none : (m : Text) → match_route matchit r m path ≡ none → listed r path m ≡ false
    listed-none m e = let (own, all) = (match_route-none m).0 e in rw (own, all) refl

    nothing_listed : (xs : List Text) → ((m : Text) → has m xs ≡ false) → is_empty xs ≡ true
    nothing_listed [] h = refl
    nothing_listed (x ∷ xs) h = unfold has in cc (h x, text_eq_refl x)

    -- With one tree to a method: `Allow` is empty exactly when the path is routed under no
    -- method.
    pub allowed_methods-nil_iff :
        DistinctTrees r.by_method
        → (allowed_methods matchit r path ≡ []) ↔ ((m : Text) → match_route matchit r m path ≡ none)
    allowed_methods-nil_iff d = (
      λ e m.
          let gone : explicit ≡ [] = is_empty-nil explicit (empty_iff.0 e) in
          let unlisted : (k : Text) → listed r path k ≡ false =
            λ k. sym (has-explicit k d) ∙ ap (has k) gone ∙ has-nil k in
          (match_route-none m).1 (
            is_some-none _ (or_false _ _ (unlisted m)).0,
            is_some-none _ (and_true _ _ standard_get (or_false _ _ (unlisted (codes "GET"))).1),
          ),
      λ h. empty_iff.1 (nothing_listed explicit (λ m. has-explicit m d ∙ listed-none m (h m))),
    )
