-- ===== src/Prelude/Decimal.antt =====
-- Decimal numbers: `to_string` of an unsigned integer, and `parse::<u64>`.
use Prim.Native.Nat.{ℕ, zero, suc, ◌+◌, ◌-◌, ◌*◌, ◌/◌, ◌%◌, ◌^◌, ◌≤◌, ◌<◌}
use mathlib.Core.Path.{◌≡◌, refl, ◌∙◌, ap, sym}
use mathlib.Core.Logic.{inl, inr}
use mathlib.Core.Bool.{Bool, true, false, ◌&&◌}
use mathlib.Core.Option.{Option, none, some}
use mathlib.Core.List.{[], ◌∷◌, ◌++◌}
use native.Mathlib.Omega.{arith}
use oxide_http.Prelude.Tests.{ltb, leb, ◌==◌, if◌then◌else◌, Bool-cases}
use oxide_http.Prelude.Strings.{Text}

-- One digit a round; as many rounds as the number suffice.
digits : ℕ → ℕ → Text
digits zero n = []
digits (suc fuel) n = elim (ltb n 10) [
  | true ↦ (48 + n) ∷ []
  | false ↦ digits fuel (n / 10) ++ (48 + n % 10) ∷ []
]

unfoldable pub decimal : ℕ → Text
unfolding digits
decimal n = digits (suc n) n

abbrev pub is_digit : ℕ → Bool
is_digit c = leb b'0' c && leb c b'9'

-- A step past the range is an overflow, which is an error.
parse_from : ℕ → Text → Option ℕ
parse_from acc [] = some acc
parse_from acc (c ∷ s) =
    let acc' : ℕ = acc * 10 + (c - 48) in
    let rest : Option ℕ = parse_from acc' s in
    if is_digit c && ltb acc' (2 ^ 64) then rest else none

unfoldable pub parse_digits : Text → Option ℕ
unfolding parse_from
parse_digits [] = none
parse_digits (c ∷ s) = parse_from 0 (c ∷ s)

-- One leading plus sign is accepted.
unfoldable pub parse_u64 : Text → Option ℕ
unfolding parse_digits
parse_u64 [] = none
parse_u64 (c ∷ s) = if c == b'+' then parse_digits s else parse_digits (c ∷ s)

abbrev and_then : Option ℕ → (ℕ → Option ℕ) → Option ℕ
and_then none f = none
and_then (some a) f = f a

parse_from-append :
    (acc : ℕ) (s t : Text)
    → parse_from acc (s ++ t) ≡ and_then (parse_from acc s) (λ a. parse_from a t)
unfolding parse_from
parse_from-append acc [] t = refl
parse_from-append acc (c ∷ s) t = ground (arith, parse_from-append (acc * 10 + (c - 48)) s t)

digits-small : (fuel n : ℕ) → ltb n 10 ≡ true → digits (suc fuel) n ≡ (48 + n) ∷ []
unfolding digits
digits-small fuel n h = rw (h, digits) refl

digits-large :
    (fuel n : ℕ)
    → ltb n 10 ≡ false
    → digits (suc fuel) n ≡ digits fuel (n / 10) ++ (48 + n % 10) ∷ []
unfolding digits
digits-large fuel n h = rw (h, digits) refl

parse_from-one :
    (acc d : ℕ)
    → d < 10
    → acc * 10 + d < 2 ^ 64
    → parse_from acc ((48 + d) ∷ []) ≡ some (acc * 10 + d)
unfolding parse_from
parse_from-one acc d h b = ground arith

parse_from-digits : (fuel n : ℕ) → n < fuel → n < 2 ^ 64 → parse_from 0 (digits fuel n) ≡ some n
parse_from-digits zero n h b = elim h [ ]
parse_from-digits (suc fuel) n h b = elim (Bool-cases (ltb n 10)) [
  | inl small ↦
      ap (parse_from 0) (digits-small fuel n small)
      ∙ parse_from-one 0 n (ground arith) (omega arith)
      ∙ ap some (omega arith)
  | inr large ↦
      let big : 10 ≤ n = ground arith in
      ap (parse_from 0) (digits-large fuel n large)
      ∙ parse_from-append 0 (digits fuel (n / 10)) ((48 + n % 10) ∷ [])
      ∙ ap (λ o. and_then o (λ a. parse_from a ((48 + n % 10) ∷ [])))
          (parse_from-digits fuel (n / 10) (omega arith) (omega arith))
      ∙ parse_from-one (n / 10) (n % 10) (omega arith) (omega arith)
      ∙ ap some (omega arith)
]

digits-none : (n : ℕ) → digits zero n ≡ []
unfolding digits
digits-none n = refl

-- Every digit text begins with a digit.
digits-cons :
    (fuel n : ℕ) → (c : ℕ) × (s : Text) × (digits (suc fuel) n ≡ c ∷ s) × (is_digit c ≡ true)
digits-cons zero n = elim (Bool-cases (ltb n 10)) [
  | inl small ↦ (48 + n, [], digits-small zero n small, ground arith)
  | inr large ↦ (
    48 + n % 10,
    [],
    digits-large zero n large ∙ ap (λ t. t ++ (48 + n % 10) ∷ []) (digits-none (n / 10)),
    ground arith,
  )
]
digits-cons (suc fuel) n = elim (Bool-cases (ltb n 10)) [
  | inl small ↦ (48 + n, [], digits-small (suc fuel) n small, ground arith)
  | inr large ↦
      let (c, s, e, d) = digits-cons fuel (n / 10) in
      (
        c,
        s ++ (48 + n % 10) ∷ [],
        digits-large (suc fuel) n large ∙ ap (λ t. t ++ (48 + n % 10) ∷ []) e,
        d,
      )
]

pub decimal-digit : (n : ℕ) → (c : ℕ) × (s : Text) × (decimal n ≡ c ∷ s) × (is_digit c ≡ true)
unfolding decimal
decimal-digit n = digits-cons n n

pub parse_digits-decimal : (n : ℕ) → n < 2 ^ 64 → parse_digits (decimal n) ≡ some n
unfolding parse_digits decimal
parse_digits-decimal n b =
    let (c, s, e, d) = digits-cons n n in
    let read : parse_from 0 (c ∷ s) ≡ some n =
      ap (parse_from 0) (sym e) ∙ parse_from-digits (suc n) n (omega arith) b in
    rw e (ground (arith, read))

-- A printed number is read back.
pub parse_u64-decimal : (n : ℕ) → n < 2 ^ 64 → parse_u64 (decimal n) ≡ some n
unfolding parse_u64 decimal
parse_u64-decimal n b =
    let (c, s, e, d) = digits-cons n n in
    let read : parse_from 0 (c ∷ s) ≡ some n =
      ap (parse_from 0) (sym e) ∙ parse_from-digits (suc n) n (omega arith) b in
    rw e (ground (arith, read))
