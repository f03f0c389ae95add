-- ===== src/Tests/Numbers.antt =====
-- The readers of numbers at concrete inputs, over fractions for floats.
use jsoniter.Base.{
  ℕ, suc, ◌+◌, ◌-◌, ◌*◌, ◌^◌, ◌≡◌, ◌⊎◌, inl, inr, refl, sym, ap, ◌∙◌, Bool, true, false, not,
  Option, none, some, [], ◌∷◌, ◌++◌, Bytes, All, codes, length, ◌==◌, if◌then◌else◌, arith,
}
use jsoniter.Iter.Defs.{parse, parse_bytes}
use jsoniter.Integer.Value.{IsDigit, decimal}
use jsoniter.Float.Defs.{
  Floats, is_digit, is_number_byte, index_byte, validate_positive_float, max_float64, fast_float,
  read_number_as_bytes, read_positive_float,
}
use jsoniter.Float.Bytes.{ReadsBytes, read_number_as_bytes-ReadsBytes}
use jsoniter.Float.Fast.{Denotes, whole, point, FastAt, fast_float-FastAt}
use jsoniter.Float.Reads.{ReadsFloat, read_positive_float-parse}
use jsoniter.Tests.Inputs.{digit_chunks, digit_chunks-IsValid, parse_bytes-IsValid}

read_number_as_bytes-ReadsBytes_example :
    ReadsBytes (codes "123") (codes ",") digit_chunks (read_number_as_bytes [] digit_chunks)
unfolding parse is_number_byte
read_number_as_bytes-ReadsBytes_example =
    read_number_as_bytes-ReadsBytes (codes ",") refl [] (codes "123") digit_chunks
      digit_chunks-IsValid refl refl (refl, (refl, (refl, tt))) refl

-- A sign, a numerator and a denominator.
abbrev pub FractionOf : Type 0
FractionOf = Bool × ℕ × ℕ

abbrev after_dot : ℕ → ℕ → Bytes → FractionOf ⊎ ℕ
after_dot v p [] = inl (false, v, 10 ^ p)
after_dot v p (c ∷ s) = if is_digit c then after_dot (v * 10 + (c - b'0')) (p + 1) s else inr 0

abbrev before_dot : ℕ → Bytes → FractionOf ⊎ ℕ
before_dot v [] = inl (false, v, 1)
before_dot v (c ∷ s) =
    if is_digit c
    then before_dot (v * 10 + (c - b'0')) s
    else if c == b'.'
    then after_dot v 0 s
    else inr 0

abbrev pub fractions : Option ℕ → Floats
fractions limit = record {
  F = FractionOf;
  zero_float = (false, 0, 1);
  of_uint = λ n. (false, n, 1);
  quotient = λ n d. (false, n, d);
  minus = λ (x : FractionOf). (not x.0, x.1, x.2);
  parse = before_dot 0;
  limit = limit;
  operation = "readFloat64";
  slow_operation = "readFloat64SlowPath";
}

digit_test : (c : ℕ) → IsDigit c → is_digit c ≡ true
digit_test c d = ground (arith, d)

after_dot-digits :
    (v p : ℕ) (s : Bytes)
    → All IsDigit s
    → after_dot v p s ≡ inl (false, decimal v s, 10 ^ (p + length s))
after_dot-digits v p [] a = ap (λ n. inl (false, v, 10 ^ n)) (omega arith)
after_dot-digits v p (c ∷ s) (d, a) =
    let e : p + 1 + length s ≡ p + suc (length s) = omega arith in
    rw (digit_test c d) (
      after_dot-digits (v * 10 + (c - b'0')) (p + 1) s a
      ∙ ap (λ n. inl (false, decimal (v * 10 + (c - b'0')) s, 10 ^ n)) e)

before_dot-digits :
    (v : ℕ) (s : Bytes) → All IsDigit s → before_dot v s ≡ inl (false, decimal v s, 1)
before_dot-digits v [] a = refl
before_dot-digits v (c ∷ s) (d, a) =
    rw (digit_test c d) (before_dot-digits (v * 10 + (c - b'0')) s a)

before_dot-point :
    (v : ℕ) (a b : Bytes)
    → All IsDigit (a ++ b)
    → before_dot v (a ++ b'.' ∷ b) ≡ inl (false, decimal v (a ++ b), 10 ^ length b)
before_dot-point v [] b d =
    let e : 0 + length b ≡ length b = omega arith in
    after_dot-digits v 0 b d ∙ ap (λ n. inl (false, decimal v b, 10 ^ n)) e
before_dot-point v (c ∷ a) b (d, e) =
    rw (digit_test c d) (before_dot-point (v * 10 + (c - b'0')) a b e)

-- The parser takes a text to the number that it denotes.
fractions-parse :
    (limit : Option ℕ) (d : ℕ) (t : Bytes) (y : FractionOf)
    → IsDigit d
    → Denotes (fractions limit) (d - b'0') t y
    → before_dot 0 (d ∷ t) ≡ inl y
fractions-parse limit d t y g (whole a l e) =
    let f : 0 * 10 + (d - b'0') ≡ d - b'0' = omega arith in
    rw (digit_test d g, f) (before_dot-digits (d - b'0') t a ∙ ap inl (sym e))
fractions-parse limit d t y g (point a b e q p few w l x) =
    let f : 0 * 10 + (d - b'0') ≡ d - b'0' = omega arith in
    rw (digit_test d g, f, e) (before_dot-point (d - b'0') a b q ∙ ap inl (sym x))

read_positive_float-parse_example :
    ReadsFloat
      (fractions (some max_float64))
      (λ y.
        (y ≡ (false, 125, 10))
        ⊎ ((fractions (some max_float64)).limit ≡ none)
          × Denotes (fractions (some max_float64)) 1 (codes "2.5") y)
      b'1'
      (codes "2.5")
      (codes ",")
      (parse_bytes (codes "12.5,"))
      (read_positive_float (fractions (some max_float64)) (parse_bytes (codes "12.5,")))
unfolding parse_bytes is_number_byte validate_positive_float index_byte
read_positive_float-parse_example =
    read_positive_float-parse (fractions (some max_float64)) b'1' (codes "2.5") (codes ",")
      (false, 125, 10) (parse_bytes (codes "12.5,"))
      (inr (refl, λ t y. fractions-parse (some max_float64) b'1' t y (omega arith))) refl refl
      (parse_bytes-IsValid (codes "12.5,")) refl refl (omega arith) (refl, (refl, (refl, tt)))
      (λ e. absurd (omega (arith, e))) refl

fast_float-FastAt_example :
    FastAt
      (fractions (some max_float64))
      1
      (codes "2.5,")
      (fast_float (fractions (some max_float64)) 1 (codes "2.5,"))
fast_float-FastAt_example =
    fast_float-FastAt (fractions (some max_float64)) 1 (codes "2.5,") (omega arith)
