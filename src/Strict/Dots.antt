-- ===== src/Strict/Dots.antt =====
-- validatePositiveFloat on the text of a JSON number.
use jsoniter.Base.{
  ℕ, suc, ◌+◌, ◌≡◌, refl, true, false, ◌||◌, String, Option, none, some, [], ◌∷◌, ◌++◌, Bytes, All,
  All-append, length, get_or, ◌==◌, if◌then◌else◌, arith,
}
use jsoniter.Integer.Value.{IsDigit}
use jsoniter.Float.Defs.{index_byte, is_digit, validate_positive_float}
use jsoniter.Strict.Grammar.{
  Fraction, no_fraction, decimals, Exponent, no_exponent, power, Unsigned,
}

-- What validatePositiveFloat finds at the first dot.
abbrev DotFound : Bytes → Option ℕ → Type 0
DotFound s none = Unit
DotFound s (some k) = ((k + 1 == length s) ≡ false) × (is_digit (get_or s (k + 1) 0) ≡ true)

index_byte-other :
    (b c : ℕ) (s : Bytes)
    → (c == b) ≡ false
    → index_byte b (c ∷ s) ≡ elim (index_byte b s) [ none ↦ none | some k ↦ some (suc k) ]
unfolding index_byte
index_byte-other b c s e = rw (e, index_byte)

index_byte-nil : (b : ℕ) → index_byte b [] ≡ none
unfolding index_byte
index_byte-nil b = refl

DotFound-later :
    (c : ℕ) (s : Bytes) (x : Option ℕ)
    → DotFound s x
    → DotFound (c ∷ s) (elim x [ none ↦ none | some k ↦ some (suc k) ])
DotFound-later c s none h = tt
DotFound-later c s (some k) (l, d) =
    let l' : (suc k + 1 == length (c ∷ s)) ≡ false = ground (arith, l) in
    let same : suc k + 1 ≡ suc (k + 1) = omega arith in (l', rw same d)

index_byte-DotFound :
    (s r : Bytes)
    → All (λ c. (c == b'.') ≡ false) s
    → DotFound r (index_byte b'.' r)
    → DotFound (s ++ r) (index_byte b'.' (s ++ r))
index_byte-DotFound [] r a h = h
index_byte-DotFound (c ∷ s) r (n, a) h =
    rw (index_byte-other b'.' c (s ++ r) n)
      (DotFound-later c (s ++ r) (index_byte b'.' (s ++ r)) (index_byte-DotFound s r a h))

other-digits : (s : Bytes) → All IsDigit s → All (λ c. (c == b'.') ≡ false) s
other-digits [] a = tt
other-digits (c ∷ s) (d, a) = (ground (arith, d), other-digits s a)

other-sign :
    (s : Bytes) → All (λ c. (c == b'+' || c == b'-') ≡ true) s → All (λ c. (c == b'.') ≡ false) s
other-sign [] a = tt
other-sign (c ∷ s) (e, a) = (ground (arith, e), other-sign s a)

no_dot : (s : Bytes) → All (λ c. (c == b'.') ≡ false) s → DotFound s (index_byte b'.' s)
no_dot [] a = rw (index_byte-nil b'.') tt
no_dot (c ∷ s) (n, a) =
    rw (index_byte-other b'.' c s n) (DotFound-later c s (index_byte b'.' s) (no_dot s a))

Exponent-DotFound : {s : Bytes} → Exponent s → DotFound s (index_byte b'.' s)
Exponent-DotFound no_exponent = no_dot [] tt
Exponent-DotFound (power e sign t d letter (g, _) q a) = no_dot (e ∷ sign ++ d ∷ t) (
  ground (arith, letter),
  All-append (λ c. (c == b'.') ≡ false) sign (d ∷ t) (other-sign sign g)
      (other-digits (d ∷ t) (q, a)),
)

index_byte-dot : (s : Bytes) → index_byte b'.' (b'.' ∷ s) ≡ some 0
unfolding index_byte
index_byte-dot s = refl

Fraction-DotFound :
    {f e : Bytes} → Fraction f → Exponent e → DotFound (f ++ e) (index_byte b'.' (f ++ e))
Fraction-DotFound no_fraction x = Exponent-DotFound x
Fraction-DotFound {e = e} (decimals d s q a) x =
    let l : (0 + 1 == length (b'.' ∷ d ∷ s ++ e)) ≡ false = ground arith in
    rw (index_byte-dot (d ∷ s ++ e)) (l, ground (arith, q))

DotFound-valid :
    (d : ℕ) (s : Bytes)
    → IsDigit d
    → DotFound (d ∷ s) (index_byte b'.' (d ∷ s))
    → validate_positive_float (d ∷ s) ≡ none
unfolding validate_positive_float
DotFound-valid d s q h =
    let some_byte : (length (d ∷ s) == 0) ≡ false = ground arith in
    let plus : (d == b'-') ≡ false = ground (arith, q) in
    rw (some_byte, plus) (checked (d ∷ s) (index_byte b'.' (d ∷ s)) h)
  where
    checked :
        (s : Bytes) (x : Option ℕ)
        → DotFound s x
        → ◌≡◌ {A = Option String}
            (elim x as (λ _. Option String) [
              | none ↦ none
              | some k ↦
                  if k + 1 == length s
                  then some "dot can not be last character"
                  else if is_digit (get_or s (k + 1) 0)
                  then none
                  else some "missing digit after dot"
            ])
            none
    checked s none h = refl
    checked s (some k) (l, e) = rw (l, e) refl

pub Unsigned-valid : {d : ℕ} {s : Bytes} → Unsigned d s → validate_positive_float (d ∷ s) ≡ none
Unsigned-valid {d} {s} n = DotFound-valid d s n.first (
    rw n.splits (
      index_byte-DotFound (d ∷ n.whole) (n.fraction ++ n.exponent)
        (other-digits (d ∷ n.whole) (n.first, n.digits))
        (Fraction-DotFound n.has_fraction n.has_exponent)))
