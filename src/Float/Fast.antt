-- ===== src/Float/Fast.antt =====
-- What the fast path of readPositiveFloat finds, as the text and its value.
use jsoniter.Base.{
  ℕ, zero, suc, ◌+◌, ◌-◌, ◌*◌, ◌^◌, ◌<◌, ◌≤◌, ◌≡◌, ◌⊎◌, refl, sym, ap, ◌∙◌, subst, inl, inr, Bool,
  true, false, ◌&&◌, ◌||◌, Option, none, some, [], ◌∷◌, ◌++◌, Bytes, All, All-append, length, take,
  drop, ltb, if◌then◌else◌, arith, Bool-cases,
}
use jsoniter.Integer.Defs.{u64}
use jsoniter.Integer.Value.{IsDigit, decimal}
use jsoniter.Float.Defs.{
  Floats, FloatDigit, digit, invalid_char, end_of_number, dot_in_number, float_digits, Whole, slow,
  at_end, at_dot, whole_part, exceeds, fraction, fast_float, pow10_length,
}
use jsoniter.Float.Whole.{
  digit_lem, end_lem, StopAt, Stays, Stays-digit, WholeAt, whole_part-WholeAt,
}

abbrev pub IsWithin : Option ℕ → ℕ → Type 0
IsWithin none v = Unit
IsWithin (some limit) v = v ≤ limit

or_left : (a b : Bool) → (a || b) ≡ false → a ≡ false
or_left true b e = cc
or_left false b e = refl

or_right : (a b : Bool) → (a || b) ≡ false → b ≡ false
or_right true b e = cc
or_right false b e = e

exceeds-IsWithin : (l : Option ℕ) (v : ℕ) → exceeds l v ≡ false → IsWithin l v
unfolding exceeds
exceeds-IsWithin none v e = tt
exceeds-IsWithin (some l) v e = ground (arith, e)

drop-suc : (k : ℕ) (w r : Bytes) → drop k w ≡ b'.' ∷ r → drop (suc k) w ≡ r
drop-suc zero [] r e = cc
drop-suc zero (c ∷ w) r e = cc
drop-suc (suc k) [] r e = cc
drop-suc (suc k) (c ∷ w) r e = drop-suc k w r e

-- The bytes up to the offset `suc k + j`, where there is a dot at `k`.
take_over :
    (k j : ℕ) (w r : Bytes) → drop k w ≡ b'.' ∷ r → take (suc k + j) w ≡ take k w ++ b'.' ∷ take j r
take_over zero j [] r e = cc
take_over zero j (c ∷ w) r e =
    let first : c ≡ b'.' = cc in
    let rest : w ≡ r = cc in
    let same : suc zero + j ≡ suc j = omega arith in rw (same, first, rest) refl
take_over (suc k) j [] r e = cc
take_over (suc k) j (c ∷ w) r e =
    let same : suc (suc k) + j ≡ suc (suc k + j) = omega arith in
    rw same (ap (◌∷◌ c) (take_over k j w r e))

drop_over : (k j : ℕ) (w r : Bytes) → drop k w ≡ b'.' ∷ r → drop (suc k + j) w ≡ drop j r
drop_over zero j [] r e = cc
drop_over zero j (c ∷ w) r e =
    let rest : w ≡ r = cc in let same : suc zero + j ≡ suc j = omega arith in rw (same, rest) refl
drop_over (suc k) j [] r e = cc
drop_over (suc k) j (c ∷ w) r e =
    let same : suc (suc k) + j ≡ suc (suc k + j) = omega arith in rw same (drop_over k j w r e)

length-take_to : (j c : ℕ) (r s : Bytes) → drop j r ≡ c ∷ s → length (take j r) ≡ j
length-take_to zero c r s e = refl
length-take_to (suc j) c [] s e = cc
length-take_to (suc j) c (b ∷ r) s e = let same = length-take_to j c r s e in omega (arith, same)

decimal-over : (v : ℕ) (a b : Bytes) → decimal v (a ++ b) ≡ decimal (decimal v a) b
decimal-over v [] b = refl
decimal-over v (c ∷ a) b = decimal-over (v * 10 + (c - b'0')) a b

module _ (ops : Floats) where
  abbrev pub Within : ℕ → Type 0
  Within v = IsWithin ops.limit v

  abbrev FracAt : ℕ → ℕ → Bytes → Option (ℕ × ops.F) → Type 0
  FracAt v p w none = Unit
  FracAt v p w (some (k, x)) =
      All IsDigit (take k w)
      × StopAt k w
      × (x ≡ ops.quotient (decimal v (take k w)) (10 ^ (p + k)))
      × (0 < p + k)
      × (p + k < pow10_length)
      × Within (decimal v (take k w))
      × Stays v (take k w)

  abbrev later : Option (ℕ × ops.F) → Option (ℕ × ops.F)
  later r = elim r [ none ↦ none | some (k, x) ↦ some (suc k, x) ]

  abbrev frac_step : ℕ → ℕ → Bytes → FloatDigit → Option (ℕ × ops.F)
  frac_step value places s x = elim x [
    | invalid_char ↦ none
    | dot_in_number ↦ none
    | end_of_number ↦
        if ltb 0 places && ltb places pow10_length
        then some (0, ops.quotient value (10 ^ places))
        else none
    | digit ind ↦
        if ltb u64.safe value || exceeds ops.limit (value * 10 + ind)
        then none
        else later (fraction ops (value * 10 + ind) (suc places) s)
  ]

  fraction-step :
      (value places c : ℕ) (s : Bytes)
      → fraction ops value places (c ∷ s) ≡ frac_step value places s (float_digits c)
  unfolding fraction
  fraction-step value places c s = refl

  fraction-nil : (value places : ℕ) → fraction ops value places [] ≡ none
  unfolding fraction
  fraction-nil value places = refl

  FracAt-later :
      (v p c : ℕ) (s : Bytes) (r : Option (ℕ × ops.F))
      → IsDigit c
      → ltb u64.safe v ≡ false
      → FracAt (v * 10 + (c - b'0')) (suc p) s r
      → FracAt v p (c ∷ s) (later r)
  FracAt-later v p c s none d small h = tt
  FracAt-later v p c s (some (k, x)) d small (a, z, e, l, u, w, b) =
      let same : suc p + k ≡ p + suc k = omega arith in
      (
        (d, a),
        z,
        e ∙ ap (λ (n : ℕ). ops.quotient (decimal (v * 10 + (c - b'0')) (take k s)) (10 ^ n)) same,
        omega (arith, l),
        omega (arith, u),
        w,
        Stays-digit v c (take k s) d small b,
      )

  abbrev Bounded : ℕ → ℕ → Type 0
  Bounded v p = (p ≡ 0) ⊎ Within v

  frac_step-FracAt :
      (v p c : ℕ) (s : Bytes) (x : FloatDigit)
      → ((n q : ℕ) → Bounded n q → FracAt n q s (fraction ops n q s))
      → float_digits c ≡ x
      → Bounded v p
      → FracAt v p (c ∷ s) (frac_step v p s x)
  frac_step-FracAt v p c s invalid_char next e b = tt
  frac_step-FracAt v p c s dot_in_number next e b = tt
  frac_step-FracAt v p c s end_of_number next e b =
      elim (Bool-cases (ltb 0 p && ltb p pow10_length)) [
        | inl ok ↦
            let same : p ≡ p + 0 = omega arith in
            rw ok (
              tt,
              (c, s, refl, end_lem c e),
              ap (λ (n : ℕ). ops.quotient v (10 ^ n)) same,
              ground (arith, ok),
              ground (arith, ok),
              bounded v p b (ground (arith, ok)),
              λ l. l,
            )
        | inr not_ok ↦ rw not_ok tt
      ]
    where
      bounded : (v p : ℕ) → Bounded v p → 0 < p → Within v
      bounded v p (inl z) h = absurd (omega (arith, z, h))
      bounded v p (inr w) h = w
  frac_step-FracAt v p c s (digit ind) next e b =
      elim (Bool-cases (ltb u64.safe v || exceeds ops.limit (v * 10 + ind))) [
        | inl big ↦ rw big tt
        | inr small ↦
            let (d, same) = digit_lem c ind e in
            rw small (
              FracAt-later v p c s (fraction ops (v * 10 + ind) (suc p) s) d
                (or_left (ltb u64.safe v) (exceeds ops.limit (v * 10 + ind)) small)
                (subst (λ (n : ℕ). FracAt n (suc p) s (fraction ops (v * 10 + ind) (suc p) s))
                  (ap (λ (n : ℕ). v * 10 + n) same)
                  (next (v * 10 + ind) (suc p) (
                    inr (
                      exceeds-IsWithin ops.limit (v * 10 + ind)
                        (or_right (ltb u64.safe v) (exceeds ops.limit (v * 10 + ind)) small))))))
      ]

  fraction-FracAt : (s : Bytes) (v p : ℕ) → Bounded v p → FracAt v p s (fraction ops v p s)
  fraction-FracAt [] v p b = rw (fraction-nil v p) tt
  fraction-FracAt (c ∷ s) v p b =
      rw (fraction-step v p c s)
        (frac_step-FracAt v p c s (float_digits c) (fraction-FracAt s) refl b)

  -- The float that a text denotes behind a number: of its digits, or of those and a few decimals.
  pub data Denotes (v : ℕ) (s : Bytes) (x : ops.F) : Type 0 where
    whole :
        All IsDigit s → decimal v s < u64.modulus → x ≡ ops.of_uint (decimal v s) → Denotes v s x
    point :
        (a b : Bytes)
        → s ≡ a ++ b'.' ∷ b
        → All IsDigit (a ++ b)
        → 0 < length b
        → length b < pow10_length
        → Within (decimal v (a ++ b))
        → decimal v (a ++ b) < u64.modulus
        → x ≡ ops.quotient (decimal v (a ++ b)) (10 ^ length b)
        → Denotes v s x

  abbrev pub FastAt : ℕ → Bytes → Option (ℕ × ops.F) → Type 0
  FastAt v w none = Unit
  FastAt v w (some (k, x)) = StopAt k w × Denotes v (take k w) x

  abbrev dot_step : ℕ → Option (ℕ × ops.F) → Option (ℕ × ops.F)
  dot_step k r = elim r [ none ↦ none | some (j, x) ↦ some (suc k + j, x) ]

  dot_step-FastAt :
      (v k y : ℕ) (w r : Bytes) (z : Option (ℕ × ops.F))
      → All IsDigit (take k w)
      → y ≡ decimal v (take k w)
      → drop k w ≡ b'.' ∷ r
      → decimal v (take k w) < u64.modulus
      → FracAt y 0 r z
      → FastAt v w (dot_step k z)
  dot_step-FastAt v k y w r none a e f l h = tt
  dot_step-FastAt v k y w r (some (j, x)) a e f l (a', (c, r', g, stop), val, pos, few, w', stays) =
      let size = length-take_to j c r r' g in
      let value : decimal y (take j r) ≡ decimal v (take k w ++ take j r) =
        ap (λ (n : ℕ). decimal n (take j r)) e ∙ sym (decimal-over v (take k w) (take j r)) in
      let places : 0 + j ≡ length (take j r) = omega (arith, size) in
      (
        (c, r', drop_over k j w r f ∙ g, stop),
        point (take k w) (take j r) (take_over k j w r f)
            (All-append IsDigit (take k w) (take j r) a a') (omega (arith, pos, size))
            (omega (arith, few, size)) (subst Within value w')
            (subst (λ (n : ℕ). n < u64.modulus) value
              (stays (subst (λ (n : ℕ). n < u64.modulus) (sym e) l)))
            (val
              ∙ ap (λ (n : ℕ). ops.quotient n (10 ^ (0 + j))) value
              ∙ ap (λ (n : ℕ). ops.quotient (decimal v (take k w ++ take j r)) (10 ^ n)) places),
      )

  fast_step-FastAt :
      (v : ℕ) (w : Bytes) (x : Whole)
      → v < u64.modulus
      → WholeAt v w x
      → FastAt v w (elim x [
        | slow ↦ none
        | at_end k y ↦ some (k, ops.of_uint y)
        | at_dot k y ↦ dot_step k (fraction ops y 0 (drop (suc k) w))
      ])
  fast_step-FastAt v w slow l h = tt
  fast_step-FastAt v w (at_end k y) l (a, e, stop, stays) =
      (stop, whole a (stays l) (ap ops.of_uint e))
  fast_step-FastAt v w (at_dot k y) l (a, e, (r, f), stays) =
      dot_step-FastAt v k y w r (fraction ops y 0 (drop (suc k) w)) a e f (stays l) (
        subst (λ z. FracAt y 0 r (fraction ops y 0 z)) (sym (drop-suc k w r f))
          (fraction-FracAt r y 0 (inl refl)))

  -- For a first digit with a value below 2^64, the fast path of readPositiveFloat does not
  -- overflow: where it returns a float, that is the conversion of the value of the digits,
  -- below 2^64, or the quotient of the value of all digits, below 2^64 and within the bound
  -- on float64, by the power of ten for one to six decimals; and it stops before a byte that
  -- is not of a number.
  pub fast_float-FastAt : (v : ℕ) (w : Bytes) → v < u64.modulus → FastAt v w (fast_float ops v w)
  unfolding fast_float
  fast_float-FastAt v w l = fast_step-FastAt v w (whole_part v w) l (whole_part-WholeAt w v)
