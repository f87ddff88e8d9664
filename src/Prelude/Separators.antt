-- ===== src/Prelude/Separators.antt =====
-- Texts joined by a byte that the parts do not hold come apart in one way.
use Prim.Native.Nat.{ℕ}
use mathlib.Core.Path.{◌≡◌, refl, ap}
use mathlib.Core.Logic.{◌≢◌, ◌⊎◌, inl, inr}
use mathlib.Core.List.{[], ◌∷◌, ◌++◌}
use native.Mathlib.Omega.{arith}
use oxide_http.Prelude.Lists.{All, length, length-append}
use oxide_http.Prelude.Strings.{Text}

abbrev pub Free : ℕ → Text → Type 0
Free d s = All (λ c. c ≢ d) s

-- What stands behind a part: nothing, or the separator.
abbrev pub Ends : ℕ → Text → Type 0
Ends d t = (t ≡ []) ⊎ ((u : Text) × (t ≡ d ∷ u))

pub split_at :
    (d : ℕ) (a b r s : Text) → Free d a → Free d b → a ++ d ∷ r ≡ b ++ d ∷ s → (a ≡ b) × (r ≡ s)
split_at d [] [] r s ha hb e = (refl, cc)
split_at d [] (y ∷ b) r s ha hb e = absurd (hb.0 (cc))
split_at d (x ∷ a) [] r s ha hb e = absurd (ha.0 (cc))
split_at d (x ∷ a) (y ∷ b) r s ha hb e = let (p, q) = split_at d a b r s ha.1 hb.1 (cc) in (cc, q)

pub split_end :
    (d : ℕ) (a b t u : Text)
    → Free d a
    → Free d b
    → Ends d t
    → Ends d u
    → a ++ t ≡ b ++ u
    → (a ≡ b) × (t ≡ u)
split_end d [] [] t u ha hb ht hu e = (refl, e)
split_end d [] (y ∷ b) t u ha hb (inl h) hu e = cc
split_end d [] (y ∷ b) t u ha hb (inr (v, h)) hu e = absurd (hb.0 (cc))
split_end d (x ∷ a) [] t u ha hb ht (inl h) e = cc
split_end d (x ∷ a) [] t u ha hb ht (inr (v, h)) e = absurd (ha.0 (cc))
split_end d (x ∷ a) (y ∷ b) t u ha hb ht hu e =
    let (p, q) = split_end d a b t u ha.1 hb.1 ht hu (cc) in (cc, q)

pub snoc_injective : (xs ys : Text) {x y : ℕ} → xs ++ x ∷ [] ≡ ys ++ y ∷ [] → (xs ≡ ys) × (x ≡ y)
snoc_injective [] [] e = (refl, cc)
snoc_injective [] (y' ∷ ys) {y} e = absurd (omega (arith, ap length e, length-append ys (y ∷ [])))
snoc_injective (x' ∷ xs) [] {x} e = absurd (omega (arith, ap length e, length-append xs (x ∷ [])))
snoc_injective (x' ∷ xs) (y' ∷ ys) {x} {y} e =
    let below : xs ++ x ∷ [] ≡ ys ++ y ∷ [] = cc in
    let (p, q) = snoc_injective xs ys below in (cc, q)

pub append-cons-ne-nil : (w : Text) (d : ℕ) (r : Text) → w ++ d ∷ r ≡ [] → ⊥
append-cons-ne-nil [] d r e = cc
append-cons-ne-nil (x ∷ w) d r e = cc
