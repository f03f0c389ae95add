-- ===== src/Float/Whole.antt =====
-- The chars that the fast path of readPositiveFloat takes, and those before the dot.
use jsoniter.Base.{
  ℕ, suc, ◌+◌, ◌-◌, ◌*◌, ◌<◌, ◌≡◌, refl, ap, inl, inr, false, [], ◌∷◌, Bytes, All, take, drop, ltb,
  if◌then◌else◌, arith, Bool-cases,
}
use jsoniter.Integer.Defs.{u64}
use jsoniter.Integer.Value.{IsDigit, decimal, u64-IsWide}
use jsoniter.Float.Defs.{
  FloatDigit, digit, invalid_char, end_of_number, dot_in_number, float_digits, is_number_byte,
  Whole, slow, at_end, at_dot, whole_part,
}

pub digit_lem : (c d : ℕ) → float_digits c ≡ digit d → IsDigit c × (d ≡ c - b'0')
unfolding float_digits
digit_lem c d e = ground (arith, e)

pub end_lem : (c : ℕ) → float_digits c ≡ end_of_number → is_number_byte c ≡ false
unfolding float_digits is_number_byte
end_lem c e = ground (arith, e)

dot_lem : (c : ℕ) → float_digits c ≡ dot_in_number → c ≡ b'.'
unfolding float_digits
dot_lem c e = ground (arith, e)

-- The pass stops at offset `k`, before a byte that is not of a number.
abbrev pub StopAt : ℕ → Bytes → Type 0
StopAt k w = (c : ℕ) × (r : Bytes) × (drop k w ≡ c ∷ r) × (is_number_byte c ≡ false)

-- The value does not wrap around.
abbrev pub Stays : ℕ → Bytes → Type 0
Stays v s = v < u64.modulus → decimal v s < u64.modulus

pub Stays-digit :
    (v c : ℕ) (s : Bytes)
    → IsDigit c
    → ltb u64.safe v ≡ false
    → Stays (v * 10 + (c - b'0')) s
    → Stays v (c ∷ s)
Stays-digit v c s d small h l = h (ground (arith, d, small, u64-IsWide.below))

abbrev pub WholeAt : ℕ → Bytes → Whole → Type 0
WholeAt v w slow = Unit
WholeAt v w (at_end k x) =
    All IsDigit (take k w) × (x ≡ decimal v (take k w)) × StopAt k w × Stays v (take k w)
WholeAt v w (at_dot k x) =
    All IsDigit (take k w)
    × (x ≡ decimal v (take k w))
    × ((r : Bytes) × (drop k w ≡ b'.' ∷ r))
    × Stays v (take k w)

abbrev whole_step : ℕ → Bytes → FloatDigit → Whole
whole_step value s x = elim x [
  | invalid_char ↦ slow
  | end_of_number ↦ at_end 0 value
  | dot_in_number ↦ at_dot 0 value
  | digit ind ↦ if ltb u64.safe value then slow else elim (whole_part (value * 10 + ind) s) [
    | slow ↦ slow
    | at_end k v ↦ at_end (suc k) v
    | at_dot k v ↦ at_dot (suc k) v
  ]
]

whole_part-step :
    (value c : ℕ) (s : Bytes) → whole_part value (c ∷ s) ≡ whole_step value s (float_digits c)
unfolding whole_part
whole_part-step value c s = refl

whole_part-nil : (value : ℕ) → whole_part value [] ≡ slow
unfolding whole_part
whole_part-nil value = refl

WholeAt-later :
    (v c : ℕ) (s : Bytes) (x : Whole)
    → IsDigit c
    → ltb u64.safe v ≡ false
    → WholeAt (v * 10 + (c - b'0')) s x
    → WholeAt v
        (c ∷ s)
        (elim x [ slow ↦ slow | at_end k y ↦ at_end (suc k) y | at_dot k y ↦ at_dot (suc k) y ])
WholeAt-later v c s slow d small h = tt
WholeAt-later v c s (at_end k y) d small (a, e, z, b) =
    ((d, a), e, z, Stays-digit v c (take k s) d small b)
WholeAt-later v c s (at_dot k y) d small (a, e, z, b) =
    ((d, a), e, z, Stays-digit v c (take k s) d small b)

whole_step-WholeAt :
    (v c : ℕ) (s : Bytes) (x : FloatDigit)
    → ((n : ℕ) → WholeAt n s (whole_part n s))
    → float_digits c ≡ x
    → WholeAt v (c ∷ s) (whole_step v s x)
whole_step-WholeAt v c s invalid_char next e = tt
whole_step-WholeAt v c s end_of_number next e = (tt, refl, (c, s, refl, end_lem c e), λ l. l)
whole_step-WholeAt v c s dot_in_number next e =
    (tt, refl, (s, ap (λ (y : ℕ). y ∷ s) (dot_lem c e)), λ l. l)
whole_step-WholeAt v c s (digit ind) next e = elim (Bool-cases (ltb u64.safe v)) [
  | inl big ↦ rw big tt
  | inr small ↦
      let (d, same) = digit_lem c ind e in
      rw (small, same)
        (WholeAt-later v c s (whole_part (v * 10 + (c - b'0')) s) d small
          (next (v * 10 + (c - b'0'))))
]

pub whole_part-WholeAt : (w : Bytes) (v : ℕ) → WholeAt v w (whole_part v w)
whole_part-WholeAt [] v = rw (whole_part-nil v) tt
whole_part-WholeAt (c ∷ s) v =
    rw (whole_part-step v c s)
      (whole_step-WholeAt v c s (float_digits c) (whole_part-WholeAt s) refl)
