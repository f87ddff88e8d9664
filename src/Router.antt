-- ===== src/Router.antt =====
-- src/router.rs: a tree of routes for each method, and one for `ALL`. The radix tree of `matchit` is
-- a parameter. The `HashMap` of trees is an association list with one pair to a method.
pub mod Methods
pub mod Allowed
pub mod Syntax
pub mod Build
mod Tests
use oxide_http.Prelude.{
  ℕ, ℤ, zero, suc, ◌+◌, ◌<◌, Text, codes, text_eq, to_uppercase, contains, split, Option, none,
  some, List, [], ◌∷◌, ◌++◌, map, Bool, true, false, not, ◌&&◌, ◌||◌, ltb, leb, ◌==◌, if◌then◌else◌,
  any, is_some, is_some_and, is_empty, retain,
}

-- `matchit::Router<i32>`: insertion fails with a message; `at` gives the value and the parameters.
pub record Matchit : Type 1 where
  pub Tree : Type 0
  pub empty : Tree
  pub insert_route : Tree → Text → ℤ → Option Tree
  pub error_text : Tree → Text → ℤ → Text
  pub at : Tree → Text → Option (ℤ × List (Text × Text))

pub record RouteDef : Type 0 where
  pub method : Text
  pub path : Text
  pub leaf_id : ℤ

-- The characters after a colon that make up a parameter's name, and what follows them.
abbrev is_name : ℕ → Bool
is_name c =
    (leb b'0' c && leb c b'9')
    || (leb b'A' c && leb c b'Z')
    || (leb b'a' c && leb c b'z')
    || c == b'_'

-- `translate_colons`; `inside` tells whether a parameter's name is being read.
unfoldable pub translate_colons : Bool → Text → Text
translate_colons true [] = b'}' ∷ []
translate_colons false [] = []
translate_colons true (c ∷ seg) =
    let name = translate_colons true seg in
    let other = translate_colons false seg in
    if is_name c then c ∷ name else if c == b':' then b'}' ∷ b'{' ∷ name else b'}' ∷ c ∷ other
translate_colons false (c ∷ seg) =
    let name = translate_colons true seg in
    let other = translate_colons false seg in if c == b':' then b'{' ∷ name else c ∷ other

-- One segment of the public syntax.
unfoldable pub translate_segment : Text → Text
unfolding translate_colons
translate_segment [] = []
translate_segment (c ∷ seg) =
    if c == b'*'
    then codes "{*" ++ (if is_empty seg then codes "wildcard" else seg) ++ codes "}"
    else if any (λ d. d == b':') (c ∷ seg)
    then translate_colons false (c ∷ seg)
    else c ∷ seg

-- The loop over the segments: a slash before each but the first.
unfoldable pub segments : List Text → Text
unfolding translate_segment
segments [] = []
segments (seg ∷ segs) = b'/' ∷ (translate_segment seg ++ segments segs)

after_first : List Text → Text
unfolding segments translate_segment
after_first [] = []
after_first (seg ∷ segs) = translate_segment seg ++ segments segs

unfoldable pub to_matchit : Text → Text
unfolding after_first
to_matchit path = after_first (split b'/' path)

pub record Matched : Type 0 where
  pub leaf_id : ℤ
  pub params : List (Text × Text)

abbrev pub to_matched : ℤ × List (Text × Text) → Matched
to_matched m = record { leaf_id = m.0; params = m.1 }

pub data Built {ℓ} (A : Type ℓ) : Type ℓ where
  built : A → Built A
  build_error : Text → Built A

-- Adds a method that is not there yet.
unfoldable pub has : Text → List Text → Bool
has m methods = any (λ x. text_eq x m) methods

unfoldable pub push_new : List Text → Text → List Text
unfolding has
push_new methods m = if has m methods then methods else methods ++ m ∷ []

-- `Vec::sort` on texts, by their bytes.
unfoldable pub text_le : Text → Text → Bool
text_le [] t = true
text_le (x ∷ s) [] = false
text_le (x ∷ s) (y ∷ t) = ltb x y || (x == y && text_le s t)

unfoldable pub insert_sorted : Text → List Text → List Text
unfolding text_le
insert_sorted x [] = x ∷ []
insert_sorted x (y ∷ ys) = if text_le x y then x ∷ y ∷ ys else y ∷ insert_sorted x ys

unfoldable pub sort : List Text → List Text
unfolding insert_sorted
sort [] = []
sort (x ∷ xs) = insert_sorted x (sort xs)

abbrev pub standard : List Text
standard =
    codes "GET" ∷ codes "POST" ∷ codes "PUT" ∷ codes "PATCH" ∷ codes "DELETE" ∷ codes "QUERY" ∷ []

unfoldable pub push_all : List Text → List Text → List Text
unfolding push_new
push_all methods [] = methods
push_all methods (m ∷ ms) = push_all (push_new methods m) ms

module _ (matchit : Matchit) where
  abbrev pub Trees : Type 0
  Trees = List (Text × matchit.Tree)

  pub record Routes : Type 0 where
    pub by_method : Trees
    pub all : Option matchit.Tree

  unfoldable pub get_tree : Text → Trees → Option matchit.Tree
  get_tree method [] = none
  get_tree method ((m, t) ∷ trees) = if text_eq m method then some t else get_tree method trees

  -- `entry(method).or_default()`, with the tree put back.
  unfoldable pub put_tree : Text → matchit.Tree → Trees → Trees
  put_tree method tree [] = (method, tree) ∷ []
  put_tree method tree ((m, t) ∷ trees) =
      let rest = put_tree method tree trees in
      if text_eq m method then (m, tree) ∷ trees else (m, t) ∷ rest

  abbrev pub or_empty : Option matchit.Tree → matchit.Tree
  or_empty none = matchit.empty
  or_empty (some t) = t

  route_error : RouteDef → matchit.Tree → Text
  unfolding to_matchit
  route_error def t =
      codes "route "
      ++ def.method
      ++ codes " "
      ++ def.path
      ++ codes ": "
      ++ matchit.error_text t (to_matchit def.path) def.leaf_id

  -- One round of the loop of `build`.
  unfoldable pub add_route : RouteDef → Routes → Built Routes
  unfolding to_matchit get_tree put_tree route_error
  add_route def r =
      let method : Text = to_uppercase def.method in
      if text_eq method (codes "ALL")
      then elim (matchit.insert_route (or_empty r.all) (to_matchit def.path) def.leaf_id) [
        | some t ↦ built (record r { all = some t })
        | none ↦ build_error (route_error def (or_empty r.all))
      ]
      else (let tree : matchit.Tree = or_empty (get_tree method r.by_method) in
          elim (matchit.insert_route tree (to_matchit def.path) def.leaf_id) [
            | some t ↦ built (record r { by_method = put_tree method t r.by_method })
            | none ↦ build_error (route_error def tree)
          ])

  unfoldable pub build_from : Routes → List RouteDef → Built Routes
  unfolding add_route
  build_from r [] = built r
  build_from r (def ∷ defs) = elim (add_route def r) [
    | built r' ↦ build_from r' defs
    | build_error e ↦ build_error e
  ]

  unfoldable pub build : List RouteDef → Built Routes
  unfolding build_from
  build defs = build_from (record { by_method = []; all = none }) defs

  abbrev pub at_tree : Text → Option matchit.Tree → Option (ℤ × List (Text × Text))
  at_tree path none = none
  at_tree path (some t) = matchit.at t path

  unfoldable pub match_route : Routes → Text → Text → Option Matched
  unfolding get_tree
  match_route r method path = elim (at_tree path (get_tree method r.by_method)) [
    | some m ↦ some (to_matched m)
    | none ↦ elim (at_tree path r.all) [ some m ↦ some (to_matched m) | none ↦ none ]
  ]

  -- The methods whose own tree has the path.
  unfoldable pub matching : Text → Trees → List Text
  matching path [] = []
  matching path ((m, t) ∷ trees) =
      if is_some (matchit.at t path) then m ∷ matching path trees else matching path trees

  unfoldable pub allowed_methods : Routes → Text → List Text
  unfolding matching push_all push_new sort has
  allowed_methods r path =
      let own : List Text = matching path r.by_method in
      let methods : List Text =
        if is_some (at_tree path r.all) then push_all own standard else own in
      let with_head : List Text =
        if has (codes "GET") methods then push_new methods (codes "HEAD") else methods in
      if is_empty methods then methods else sort (push_new with_head (codes "OPTIONS"))
