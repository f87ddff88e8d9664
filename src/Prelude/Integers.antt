-- ===== src/Prelude/Integers.antt =====
-- An `i64`: its order with 0, its casts to the unsigned types, and its decimal form.
use Prim.Native.Nat.{ℕ, suc, ◌-◌, ◌%◌, ◌^◌, ◌<◌}
use mathlib.Core.Path.{◌≡◌, refl, ◌∙◌, ap, sym}
use mathlib.Core.Bool.{Bool, true, false}
use mathlib.Core.Option.{Option, none, some}
use mathlib.Core.List.{[], ◌∷◌}
use native.Mathlib.Omega.{arith}
use oxide_http.Prelude.Tests.{ltb, leb, ◌==◌, if◌then◌else◌}
use oxide_http.Prelude.Strings.{Text}
use oxide_http.Prelude.Decimal.{
  decimal, parse_digits, parse_digits-decimal, decimal-digit, is_digit,
}

-- `negsuc n` is -(n + 1).
pub data ℤ : Type 0 where
  pos : ℕ → ℤ
  negsuc : ℕ → ℤ

abbrev pub is_negative : ℤ → Bool
is_negative (pos n) = false
is_negative (negsuc n) = true

abbrev pub is_positive : ℤ → Bool
is_positive (pos n) = ltb 0 n
is_positive (negsuc n) = false

-- `n as u64`, which is exact on what is not negative.
unfoldable pub as_u64 : ℤ → ℕ
as_u64 (pos n) = n
as_u64 (negsuc n) = 2 ^ 64 - 1 - n

-- `n as i32`, which drops the high bits.
unfoldable pub as_i32 : ℤ → ℤ
as_i32 (pos n) =
    let low = n % 2 ^ 32 in if ltb low (2 ^ 31) then pos low else negsuc (2 ^ 32 - 1 - low)
as_i32 (negsuc n) =
    let low = n % 2 ^ 32 in if ltb low (2 ^ 31) then negsuc low else pos (2 ^ 32 - 1 - low)

-- `n as u32`, which drops the high bits.
unfoldable pub as_u32 : ℤ → ℕ
as_u32 (pos n) = n % 2 ^ 32
as_u32 (negsuc n) = 2 ^ 32 - 1 - n % 2 ^ 32

-- The values of an `i64`.
abbrev pub InRange : ℤ → Type 0
InRange (pos n) = n < 2 ^ 63
InRange (negsuc n) = n < 2 ^ 63

unfoldable pub to_string : ℤ → Text
unfolding decimal
to_string (pos n) = decimal n
to_string (negsuc n) = b'-' ∷ decimal (suc n)

positive : Option ℕ → Option ℤ
positive none = none
positive (some n) = if ltb n (2 ^ 63) then some (pos n) else none

negative : Option ℕ → Option ℤ
negative none = none
negative (some n) =
    if n == 0 then some (pos 0) else if leb n (2 ^ 63) then some (negsuc (n - 1)) else none

-- `parse::<i64>`: one sign, then digits.
unfoldable pub parse_i64 : Text → Option ℤ
unfolding positive negative parse_digits
parse_i64 [] = none
parse_i64 (c ∷ s) =
    if c == b'-'
    then negative (parse_digits s)
    else if c == b'+'
    then positive (parse_digits s)
    else positive (parse_digits (c ∷ s))

positive-some : (n : ℕ) → n < 2 ^ 63 → positive (some n) ≡ some (pos n)
unfolding positive
positive-some n h = ground arith

negative-some : (n : ℕ) → n < 2 ^ 63 → negative (some (suc n)) ≡ some (negsuc n)
unfolding negative
negative-some n h = ground arith

parse_i64-digit :
    (c : ℕ) (s : Text) → is_digit c ≡ true → parse_i64 (c ∷ s) ≡ positive (parse_digits (c ∷ s))
unfolding parse_i64
parse_i64-digit c s d = ground arith

parse_i64-minus : (s : Text) → parse_i64 (b'-' ∷ s) ≡ negative (parse_digits s)
unfolding parse_i64
parse_i64-minus s = refl

-- A printed number is read back.
pub parse_i64-to_string : (z : ℤ) → InRange z → parse_i64 (to_string z) ≡ some z
unfolding to_string
parse_i64-to_string (pos n) h =
    let (c, s, e, d) = decimal-digit n in
    ap parse_i64 e
    ∙ parse_i64-digit c s d
    ∙ ap (λ t. positive (parse_digits t)) (sym e)
    ∙ ap positive (parse_digits-decimal n (omega arith))
    ∙ positive-some n h
parse_i64-to_string (negsuc n) h =
    parse_i64-minus (decimal (suc n))
    ∙ ap negative (parse_digits-decimal (suc n) (omega arith))
    ∙ negative-some n h
