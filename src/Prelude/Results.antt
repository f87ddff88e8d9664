-- ===== src/Prelude/Results.antt =====
-- A result whose error is a text, as every fallible step of the configuration has.
use mathlib.Core.Path.{◌≡◌, refl, ap}
use mathlib.Core.Logic.{◌⊎◌, inl, inr}
use oxide_http.Prelude.Strings.{Text}

pub data Result {ℓ} (A : Type ℓ) : Type ℓ where
  ok : A → Result A
  err : Text → Result A

-- `?`, and a step whose value is not used.
infixl 5 ◌>>=◌ ◌>>◌
abbrev pub ◌>>=◌ {ℓ κ} : {X : Type ℓ} {Y : Type κ} (r : Result X) (next : X → Result Y) → Result Y
err msg >>= next = err msg
ok x >>= next = next x

abbrev pub ◌>>◌ {κ} : {Y : Type κ} (check : Result (Unit {0})) (next : Result Y) → Result Y
check >> next = check >>= (λ done. next)

pub Result-cases {ℓ} :
    {X : Type ℓ} (r : Result X) → ((x : X) × (r ≡ ok x)) ⊎ ((msg : Text) × (r ≡ err msg))
Result-cases (err msg) = inr (msg, refl)
Result-cases (ok x) = inl (x, refl)

-- A chain that came through has come through its first step.
pub step_ok {ℓ κ} :
    {X : Type ℓ} {Y : Type κ} (r : Result X) (next : X → Result Y) {y : Y}
    (through : (r >>= next) ≡ ok y)
    → (x : X) × (r ≡ ok x) × (next x ≡ ok y)
step_ok (err msg) next through = cc
step_ok (ok x) next through = (x, refl, through)

abbrev ok_or {ℓ} : {A : Type ℓ} → A → Result A → A
ok_or d (ok a) = a
ok_or d (err e) = d

pub ok-injective {ℓ} : {A : Type ℓ} (a b : A) → ok a ≡ ok b → a ≡ b
ok-injective a b e = ap (ok_or a) e
