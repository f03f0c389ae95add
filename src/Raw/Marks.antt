-- ===== src/Raw/Marks.antt =====
-- hasEscapes over a pass, and the backslashes in the bytes.
use jsoniter.Base.{
  ℕ, suc, ◌≡◌, ◌≢◌, ◌⊎◌, refl, inl, inr, Bool, true, false, not, [], ◌∷◌, ◌++◌, Bytes, All,
  All-append, take, ltb, ◌==◌, arith, Bool-cases, Option-cases,
}
use jsoniter.Text.Read.{simple_escape}
use jsoniter.Raw.Defs.{
  RawEnd, at_quote, at_unicode, at_control, at_invalid, at_end, later, scan_raw,
}

-- The flag is set, or there is no backslash.
abbrev pub Marked : Bool → Bytes → Type 0
Marked escapes s = (escapes ≡ true) ⊎ All (λ c. c ≢ b'\\') s

-- An open escape has set the flag.
abbrev pub Flags : Bool → Bool → Type 0
Flags reading escapes = (reading ≡ false) ⊎ (escapes ≡ true)

-- What a pass over `w` adds, where the flag was `escapes` before it.
abbrev pub Adds : Bool → Bool → Bytes → Type 0
Adds escapes e s = (e ≡ true) ⊎ ((escapes ≡ false) × All (λ c. c ≢ b'\\') s)

abbrev pub Marks : Bool → Bytes → RawEnd → Type 0
Marks escapes w (at_quote k e) = Adds escapes e (take (suc k) w)
Marks escapes w (at_unicode k e) = e ≡ true
Marks escapes w (at_control c) = Unit
Marks escapes w at_invalid = Unit
Marks escapes w (at_end r e) = Flags r e × Adds escapes e w

Adds-cons :
    (escapes e : Bool) (c : ℕ) (s : Bytes) → c ≢ b'\\' → Adds escapes e s → Adds escapes e (c ∷ s)
Adds-cons escapes e c s n (inl t) = inl t
Adds-cons escapes e c s n (inr (f, a)) = inr (f, (n, a))

Adds-true : (escapes e : Bool) (s t : Bytes) → Adds true e s → Adds escapes e t
Adds-true escapes e s t (inl h) = inl h
Adds-true escapes e s t (inr (f, a)) = cc

Marks-cons :
    (escapes : Bool) (c : ℕ) (w : Bytes) (x : RawEnd)
    → c ≢ b'\\'
    → Marks escapes w x
    → Marks escapes (c ∷ w) (later x)
Marks-cons escapes c w (at_quote k e) n m = Adds-cons escapes e c (take (suc k) w) n m
Marks-cons escapes c w (at_unicode k e) n m = m
Marks-cons escapes c w (at_control d) n m = m
Marks-cons escapes c w at_invalid n m = m
Marks-cons escapes c w (at_end r e) n (f, m) = (f, Adds-cons escapes e c w n m)

Marks-true :
    (escapes : Bool) (c : ℕ) (w : Bytes) (x : RawEnd)
    → Marks true w x
    → Marks escapes (c ∷ w) (later x)
Marks-true escapes c w (at_quote k e) m =
    Adds-true escapes e (take (suc k) w) (c ∷ take (suc k) w) m
Marks-true escapes c w (at_unicode k e) m = m
Marks-true escapes c w (at_control d) m = m
Marks-true escapes c w at_invalid m = m
Marks-true escapes c w (at_end r e) (f, m) = (f, Adds-true escapes e w (c ∷ w) m)

Adds-same : (escapes : Bool) → Adds escapes escapes []
Adds-same true = inl refl
Adds-same false = inr (refl, tt)

-- One byte that is no quote, no backslash and no control character.
scan_other :
    (reading escapes : Bool) (c : ℕ) (w : Bytes)
    → (c == b'"') ≡ false
    → (c == b'\\') ≡ false
    → ltb c b' ' ≡ false
    → Flags reading escapes
    → Marks escapes (c ∷ w) (later (scan_raw false escapes w))
    → Marks escapes (c ∷ w) (scan_raw reading escapes (c ∷ w))
unfolding scan_raw
scan_other false escapes c w q b l f m = rw (q, b, l) m
scan_other true escapes c w q b l (inl f) m = cc
scan_other true escapes c w q b l (inr f) m = elim (Option-cases (simple_escape c)) [
  | inl e ↦ elim (Bool-cases (c == b'u')) [
    | inl u ↦ rw (q, b, l, e, u) f
    | inr u ↦ rw (q, b, l, e, u) tt
  ]
  | inr (v, e) ↦ rw (q, b, l, e) m
]

scan_mark :
    (reading escapes : Bool) (c : ℕ) (w : Bytes)
    → (c == b'"') ≡ true
    → c ≢ b'\\'
    → Marks escapes (c ∷ w) (later (scan_raw false escapes w))
    → Marks escapes (c ∷ w) (scan_raw reading escapes (c ∷ w))
unfolding scan_raw
scan_mark false escapes c w q n m = rw q (Adds-cons escapes escapes c [] n (Adds-same escapes))
scan_mark true escapes c w q n m = rw q m

scan_slash :
    (reading escapes : Bool) (c : ℕ) (w : Bytes)
    → (c == b'"') ≡ false
    → (c == b'\\') ≡ true
    → scan_raw reading escapes (c ∷ w) ≡ later (scan_raw (not reading) true w)
unfolding scan_raw
scan_slash reading escapes c w q b = rw (q, b) refl

scan_control :
    (reading escapes : Bool) (c : ℕ) (w : Bytes)
    → (c == b'"') ≡ false
    → (c == b'\\') ≡ false
    → ltb c b' ' ≡ true
    → scan_raw reading escapes (c ∷ w) ≡ at_control c
unfolding scan_raw
scan_control reading escapes c w q b l = rw (q, b, l) refl

scan_none : (reading escapes : Bool) → scan_raw reading escapes [] ≡ at_end reading escapes
unfolding scan_raw
scan_none reading escapes = refl

pub scan_raw-Marks :
    (reading escapes : Bool) (w : Bytes)
    → Flags reading escapes
    → Marks escapes w (scan_raw reading escapes w)
scan_raw-Marks reading escapes [] f = rw (scan_none reading escapes) (f, Adds-same escapes)
scan_raw-Marks reading escapes (c ∷ w) f =
    let closed = scan_raw-Marks false escapes w (inl refl) in
    elim (Bool-cases (c == b'"')) [
      | inl q ↦
          let n : c ≢ b'\\' = λ e. ground (arith, q, e) in
          scan_mark reading escapes c w q n (Marks-cons escapes c w _ n closed)
      | inr q ↦ elim (Bool-cases (c == b'\\')) [
        | inl b ↦
            rw (scan_slash reading escapes c w q b)
              (Marks-true escapes c w _ (scan_raw-Marks (not reading) true w (inr refl)))
        | inr b ↦ elim (Bool-cases (ltb c b' ')) [
          | inl l ↦ rw (scan_control reading escapes c w q b l) tt
          | inr l ↦
              let n : c ≢ b'\\' = λ e. ground (arith, b, e) in
              scan_other reading escapes c w q b l f (Marks-cons escapes c w _ n closed)
        ]
      ]
    ]

-- What has been copied, and then what a pass adds.
pub Marked-append :
    (escapes e : Bool) (s t : Bytes) → Marked escapes s → Adds escapes e t → Marked e (s ++ t)
Marked-append escapes e s t m (inl h) = inl h
Marked-append escapes e s t (inl h) (inr (f, a)) = cc
Marked-append escapes e s t (inr n) (inr (f, a)) = inr (All-append (λ c. c ≢ b'\\') s t n a)
