-- ===== src/Strict/Grammar.antt =====
-- The grammar of a JSON number, and what the readers of numbers need of it.
use jsoniter.Base.{
  ℕ, ◌≤◌, ◌≡◌, refl, Bool, true, false, ◌||◌, [], ◌∷◌, ◌++◌, Bytes, All, All-append, length, ◌==◌,
  if◌then◌else◌, arith,
}
use jsoniter.Integer.Value.{IsDigit}
use jsoniter.Float.Defs.{is_number_byte, is_digit}
use jsoniter.Float.Bytes.{IsNumberByte}
use jsoniter.Float.Reads.{NoDigit, digits-number}

pub data Fraction : Bytes → Type 0 where
  no_fraction : Fraction []
  decimals : (d : ℕ) (s : Bytes) → IsDigit d → All IsDigit s → Fraction (b'.' ∷ d ∷ s)

abbrev IsSign : Bytes → Type 0
IsSign s = All (λ c. (c == b'+' || c == b'-') ≡ true) s × (length s ≤ 1)

pub data Exponent : Bytes → Type 0 where
  no_exponent : Exponent []
  power :
      (e : ℕ) (sign s : Bytes) (d : ℕ)
      → (e == b'e' || e == b'E') ≡ true
      → IsSign sign
      → IsDigit d
      → All IsDigit s
      → Exponent (e ∷ sign ++ d ∷ s)

-- A number without a sign: the digit `d` and what follows it.
pub record Unsigned (d : ℕ) (s : Bytes) : Type 0 where
  pub whole : Bytes
  pub fraction : Bytes
  pub exponent : Bytes
  pub splits : s ≡ whole ++ (fraction ++ exponent)
  pub first : IsDigit d
  pub digits : All IsDigit whole
  pub no_zero : b'0' ≡ d → whole ≡ []
  pub has_fraction : Fraction fraction
  pub has_exponent : Exponent exponent

abbrev pub NextDigit : Bytes → Type 0
NextDigit [] = ⊥
NextDigit (c ∷ s) = is_digit c ≡ true

-- The dots of what follows the first digit of a number: one at most, before a digit, and none
-- behind the exponent's letter.
abbrev pub Dotted : Bool → Bytes → Type 0
Dotted found [] = Unit
Dotted found (c ∷ s) =
    if is_digit c
    then Dotted found s
    else if c == b'.'
    then (found ≡ false) × NextDigit s × Dotted true s
    else Unit

Dotted-digits :
    (found : Bool) (w r : Bytes) → All IsDigit w → Dotted found r → Dotted found (w ++ r)
Dotted-digits found [] r a h = h
Dotted-digits found (c ∷ w) r (d, a) h =
    let e : is_digit c ≡ true = ground (arith, d) in rw e (Dotted-digits found w r a h)

Exponent-Dotted : (found : Bool) {s : Bytes} → Exponent s → Dotted found s
Exponent-Dotted found no_exponent = tt
Exponent-Dotted found (power e sign t d letter g q a) =
    let fails : is_digit e ≡ false = ground (arith, letter) in
    let dot : (e == b'.') ≡ false = ground (arith, letter) in rw (fails, dot) tt

Fraction-Dotted : {f e : Bytes} → Fraction f → Exponent e → Dotted false (f ++ e)
Fraction-Dotted no_fraction x = Exponent-Dotted false x
Fraction-Dotted {e = e} (decimals d s q a) x =
    let holds : is_digit d ≡ true = ground (arith, q) in
    (refl, holds, Dotted-digits true (d ∷ s) e (q, a) (Exponent-Dotted true x))

pub Unsigned-Dotted : {d : ℕ} {s : Bytes} → Unsigned d s → Dotted false s
Unsigned-Dotted n = rw n.splits (
    Dotted-digits false n.whole (n.fraction ++ n.exponent) n.digits
      (Fraction-Dotted n.has_fraction n.has_exponent))

plus_minus-number : (c : ℕ) → (c == b'+' || c == b'-') ≡ true → IsNumberByte c
unfolding is_number_byte
plus_minus-number c e = ground (arith, e)

sign-number : (s : Bytes) → All (λ c. (c == b'+' || c == b'-') ≡ true) s → All IsNumberByte s
sign-number [] a = tt
sign-number (c ∷ s) (e, a) = (plus_minus-number c e, sign-number s a)

letter-number : (e : ℕ) → (e == b'e' || e == b'E') ≡ true → IsNumberByte e
unfolding is_number_byte
letter-number e h = ground (arith, h)

dot-number : IsNumberByte b'.'
unfolding is_number_byte
dot-number = refl

Exponent-number : {s : Bytes} → Exponent s → All IsNumberByte s
Exponent-number no_exponent = tt
Exponent-number (power e sign t d letter (g, _) q a) = (
  letter-number e letter,
  All-append IsNumberByte sign (d ∷ t) (sign-number sign g) (digits-number (d ∷ t) (q, a)),
)

Fraction-number : {s : Bytes} → Fraction s → All IsNumberByte s
Fraction-number no_fraction = tt
Fraction-number (decimals d s q a) = (dot-number, digits-number (d ∷ s) (q, a))

pub Unsigned-number : {d : ℕ} {s : Bytes} → Unsigned d s → All IsNumberByte s
Unsigned-number n = rw n.splits (
    All-append IsNumberByte n.whole (n.fraction ++ n.exponent) (digits-number n.whole n.digits) (
      All-append IsNumberByte n.fraction n.exponent (Fraction-number n.has_fraction)
        (Exponent-number n.has_exponent)))

letter-digit : (e : ℕ) → (e == b'e' || e == b'E') ≡ true → is_digit e ≡ false
letter-digit e h = ground (arith, h)

Fraction-NoDigit : {f e : Bytes} → Fraction f → Exponent e → NoDigit (f ++ e)
Fraction-NoDigit no_fraction no_exponent = tt
Fraction-NoDigit no_fraction (power e sign t d letter g q a) = letter-digit e letter
Fraction-NoDigit (decimals d s q a) x = refl

pub Unsigned-NoDigit : {d : ℕ} {s : Bytes} → Unsigned d s → b'0' ≡ d → NoDigit s
Unsigned-NoDigit n z = rw (n.splits, n.no_zero z) (Fraction-NoDigit n.has_fraction n.has_exponent)
