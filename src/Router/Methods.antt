-- ===== src/Router/Methods.antt =====
-- src/router.rs, `allowed_methods`: which methods are in a list that is extended and sorted.
use oxide_http.Prelude.{
  Text, codes, text_eq, text_eq_iff, Option, none, some, List, [], ◌∷◌, ◌++◌, Bool, true, false,
  ◌&&◌, ◌||◌, is_some, is_empty, ◌≡◌, refl, sym, ◌∙◌, ap, arith, ◌⊎◌, inl, inr, Bool-cases,
}
use oxide_http.Router.{has, push_new, push_all, insert_sorted, sort, standard}

pub has-append : (m : Text) (xs ys : List Text) → has m (xs ++ ys) ≡ (has m xs || has m ys)
unfolding has
has-append m [] ys = refl
has-append m (x ∷ xs) ys = ground (arith, has-append m xs ys)

pub has-push_new : (m x : Text) (xs : List Text) → has m (push_new xs x) ≡ (has m xs || text_eq x m)
unfolding push_new
has-push_new m x xs = elim (Bool-cases (has x xs)) [
  | inl there ↦ elim (Bool-cases (text_eq x m)) [
    | inl same ↦
        let here : has m xs ≡ true =
          ap (λ (y : Text). has y xs) (sym ((text_eq_iff x m).0 same)) ∙ there in
        ground (arith, here)
    | inr other ↦ ground arith
  ]
  | inr absent ↦ ground (arith, has-append m xs (x ∷ []))
]

pub has-push_all : (m : Text) (xs ys : List Text) → has m (push_all xs ys) ≡ (has m xs || has m ys)
unfolding push_all
has-push_all m xs [] = unfold has in ground arith
has-push_all m xs (y ∷ ys) =
    unfold has in ground (arith, has-push_all m (push_new xs y) ys, has-push_new m y xs)

pub has-insert_sorted :
    (m x : Text) (xs : List Text) → has m (insert_sorted x xs) ≡ (text_eq x m || has m xs)
unfolding insert_sorted has
has-insert_sorted m x [] = refl
has-insert_sorted m x (y ∷ ys) = ground (arith, has-insert_sorted m x ys)

pub has-sort : (m : Text) (xs : List Text) → has m (sort xs) ≡ has m xs
unfolding sort has
has-sort m [] = refl
has-sort m (x ∷ xs) =
    has-insert_sorted m x (sort xs) ∙ ap (λ (b : Bool). text_eq x m || b) (has-sort m xs)

pub is_empty-nil {ℓ} : {A : Type ℓ} (xs : List A) → is_empty xs ≡ true → xs ≡ []
is_empty-nil [] e = refl
is_empty-nil (x ∷ xs) e = cc

pub is_some-none {ℓ} : {A : Type ℓ} (o : Option A) → is_some o ≡ false → o ≡ none
is_some-none none e = refl
is_some-none (some a) e = cc

pub or_false : (a b : Bool) → (a || b) ≡ false → (a ≡ false) × (b ≡ false)
or_false true b e = cc
or_false false b e = (refl, e)

pub and_true : (a b : Bool) → b ≡ true → (a && b) ≡ false → a ≡ false
and_true true b h e = cc
and_true false b h e = refl

pub standard_get : has (codes "GET") standard ≡ true
unfolding has text_eq
standard_get = refl

pub or_split :
    (a b c d : Bool) {P Q : Type 0}
    → (a || (b && c) || d) ≡ true
    → (c ≡ true → P)
    → (d ≡ true → Q)
    → (a ≡ true) ⊎ ((b ≡ true) × P) ⊎ Q
or_split true b c d e f g = inl refl
or_split false true true d e f g = inr (inl (refl, f refl))
or_split false true false d e f g = inr (inr (g e))
or_split false false c d e f g = inr (inr (g e))

pub or_join :
    (a b c d : Bool) {P Q : Type 0}
    → (a ≡ true) ⊎ ((b ≡ true) × P) ⊎ Q
    → (P → c ≡ true)
    → (Q → d ≡ true)
    → (a || (b && c) || d) ≡ true
or_join true b c d s f g = refl
or_join false b c true s f g = elim s [
  | inl e ↦ cc
  | inr (inl (e, p)) ↦ rw (e, f p) refl
  | inr (inr q) ↦ ground arith
]
or_join false b c false s f g = elim s [
  | inl e ↦ cc
  | inr (inl (e, p)) ↦ rw (e, f p) refl
  | inr (inr q) ↦ cc (g q)
]
