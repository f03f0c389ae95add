-- ===== src/Integer/Value.antt =====
-- The number that digits spell.
use native.Mathlib.Nat.{mod-eq_of_lt}
use jsoniter.Base.{
  ℕ, ◌+◌, ◌-◌, ◌*◌, ◌<◌, ◌≤◌, ◌≡◌, refl, ◌∙◌, none, some, [], ◌∷◌, ◌++◌, Bytes, All, arith,
}
use jsoniter.Integer.Defs.{Width, u32, u64, int_digits, add_digit}
use jsoniter.Integer.Digits.{number, digits_of, digits_of_stop, digits_of_step}
use jsoniter.Integer.Fast.{IsWide}

abbrev pub IsDigit : ℕ → Type 0
IsDigit c = (b'0' ≤ c) × (c ≤ b'9')

-- What digits spell behind a number, with no bound.
abbrev pub decimal : ℕ → Bytes → ℕ
decimal n [] = n
decimal n (c ∷ s) = decimal (n * 10 + (c - b'0')) s

-- A text that does not go on with a digit.
abbrev pub EndsNumber : Bytes → Type 0
EndsNumber [] = Unit
EndsNumber (c ∷ s) = int_digits c ≡ none

pub le-decimal : (s : Bytes) (n : ℕ) → n ≤ decimal n s
le-decimal [] n = omega arith
le-decimal (c ∷ s) n = omega (arith, le-decimal s (n * 10 + (c - b'0')))

pub int_digits_digit : (c : ℕ) → IsDigit c → int_digits c ≡ some (c - b'0')
unfolding int_digits
int_digits_digit c h = ground arith

pub add_digit_fits :
    (w : Width) (v d : ℕ) → v * 10 + d < w.modulus → add_digit w v d ≡ some (v * 10 + d)
unfolding add_digit
add_digit_fits w v d h =
    let a = mod-eq_of_lt {n = v * 8} {m = w.modulus} (omega arith) in
    let b = mod-eq_of_lt {n = v * 2} {m = w.modulus} (omega arith) in
    let c = mod-eq_of_lt {n = v * 8 + v * 2 + d} {m = w.modulus} (omega arith) in
    rw (a, b, c) (ground arith)

-- Digits whose value fits are read exactly.
pub digits_of-decimal :
    (w : Width) (v : ℕ) (s t : Bytes)
    → All IsDigit s
    → EndsNumber t
    → decimal v s < w.modulus
    → digits_of w v (s ++ t) ≡ number (decimal v s) t
digits_of-decimal w v [] [] a e h = refl
digits_of-decimal w v [] (c ∷ t) a e h = digits_of_stop w v c t e
digits_of-decimal w v (c ∷ s) t a e h =
    digits_of_step w v c (s ++ t) (int_digits_digit c a.0)
      (add_digit_fits w v (c - b'0') (omega (arith, le-decimal s (v * 10 + (c - b'0')))))
    ∙ digits_of-decimal w (v * 10 + (c - b'0')) s t a.1 e h

pub u32-IsWide : IsWide u32
u32-IsWide = record { roomy = omega arith; below = omega arith }

pub u64-IsWide : IsWide u64
u64-IsWide = record { roomy = omega arith; below = omega arith }
