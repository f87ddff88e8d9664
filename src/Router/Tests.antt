-- ===== src/Router/Tests.antt =====
-- src/router.rs: the source's tests of the syntax, and routes over a tree of exact paths.
use oxide_http.Prelude.{
  ℤ, pos, Text, codes, text_eq, split, Option, none, some, List, [], ◌∷◌, if◌then◌else◌, ◌≡◌, refl,
  is_some,
}
use oxide_http.Router.{Matchit, RouteDef, Routes, to_matchit, allowed_methods}

params : to_matchit (codes "/users/:id/*rest") ≡ codes "/users/{id}/{*rest}"
unfolding to_matchit split
params = refl

two_params : to_matchit (codes "/files/:id.:ext") ≡ codes "/files/{id}.{ext}"
unfolding to_matchit split
two_params = refl

wildcard : to_matchit (codes "/static/*") ≡ codes "/static/{*wildcard}"
unfolding to_matchit split
wildcard = refl

abbrev Exact : Type 0
Exact = List (Text × ℤ)

abbrev find_exact : Exact → Text → Option (ℤ × List (Text × Text))
find_exact [] path = none
find_exact ((p, leaf) ∷ t) path =
    let rest = find_exact t path in if text_eq p path then some (leaf, []) else rest

abbrev exact : Matchit
exact = record {
  Tree = Exact;
  empty = [];
  insert_route = λ t p leaf. if is_some (find_exact t p) then none else some ((p, leaf) ∷ t);
  error_text = λ t p leaf. codes "conflict";
  at = find_exact;
}

abbrev routes : Routes exact
routes = record {
  by_method =
      (codes "GET", (codes "/a", pos 0) ∷ []) ∷ (codes "POST", (codes "/a", pos 1) ∷ []) ∷ [];
  all = none;
}

abbrev defs : List RouteDef
defs =
    record { method = codes "get"; path = codes "/a"; leaf_id = pos 0 }
    ∷ record { method = codes "POST"; path = codes "/a"; leaf_id = pos 1 }
    ∷ []

allow :
    allowed_methods exact routes (codes "/a")
    ≡ codes "GET" ∷ codes "HEAD" ∷ codes "OPTIONS" ∷ codes "POST" ∷ []
unfolding allowed_methods text_eq
allow = refl
