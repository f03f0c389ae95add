-- ===== src/Strict/Scan.antt =====
-- The pass of trySkipNumber over the text of a JSON number.
use jsoniter.Base.{
  same_head, same_tail, ℕ, ◌≤◌, ◌≡◌, ◌⊎◌, refl, sym, ap, ◌∙◌, subst, inl, inr, Bool, true, false,
  [], ◌∷◌, ◌++◌, Bytes, All, length, drop, ◌==◌, if◌then◌else◌, arith, Bool-cases,
}
use jsoniter.Float.Defs.{is_digit, is_number_byte}
use jsoniter.Float.Bytes.{IsNumberByte, Ends, Ends-front}
use jsoniter.Strict.Grammar.{Dotted, NextDigit}
use jsoniter.Strict.Defs.{
  NumberScan, valid_to, two_dots, no_digit, may_be_invalid, further, ends_valid, scan_number,
}

-- How a pass over the window `w`, with `tl` behind it, leaves `u`.
abbrev pub ScanAt : Bytes → Bytes → Bytes → NumberScan → Type 0
ScanAt w tl u (valid_to k) = (drop k w ++ tl ≡ u) × (k ≤ length w)
ScanAt w tl u two_dots = ⊥
ScanAt w tl u no_digit = ⊥
ScanAt w tl u may_be_invalid = Unit

ScanAt-further :
    (c : ℕ) (w tl u : Bytes) (x : NumberScan) → ScanAt w tl u x → ScanAt (c ∷ w) tl u (further x)
ScanAt-further c w tl u (valid_to k) (e, l) = (e, omega (arith, l))
ScanAt-further c w tl u two_dots h = h
ScanAt-further c w tl u no_digit h = h
ScanAt-further c w tl u may_be_invalid h = h

Dotted-digit :
    (found : Bool) (c : ℕ) (s : Bytes) → is_digit c ≡ true → Dotted found (c ∷ s) → Dotted found s
Dotted-digit found c s e h =
    subst
      (λ t.
        if t
        then Dotted found s
        else if c == b'.'
        then (found ≡ false) × NextDigit s × Dotted true s
        else Unit)
      e h

Dotted-dot :
    (found : Bool) (c : ℕ) (s : Bytes)
    → c ≡ b'.'
    → Dotted found (c ∷ s)
    → (found ≡ false) × NextDigit s × Dotted true s
Dotted-dot found c s e h = subst (λ t. Dotted found (t ∷ s)) e h

clash : {x : Bool} → x ≡ true → x ≡ false → ⊥
clash p q = cc

module _ (found at_head : Bool) (c : ℕ) (w : Bytes) where
  scan_digit :
      is_digit c ≡ true → scan_number found at_head (c ∷ w) ≡ further (scan_number found false w)
  unfolding scan_number
  scan_digit e = rw (e, scan_number) refl

  scan_other :
      (tl u : Bytes)
      → is_digit c ≡ false
      → (c == b'.') ≡ false
      → (ends_valid c ≡ false) ⊎ ((c ∷ w) ++ tl ≡ u)
      → ScanAt (c ∷ w) tl u (scan_number found at_head (c ∷ w))
  unfolding scan_number
  scan_other tl u d p r = elim (Bool-cases (ends_valid c)) [
    | inr fails ↦ rw (d, p, fails) tt
    | inl holds ↦ rw (d, p, holds) (ended at_head holds r)
  ]
    where
      ended :
          (h : Bool)
          → ends_valid c ≡ true
          → (ends_valid c ≡ false) ⊎ ((c ∷ w) ++ tl ≡ u)
          → ScanAt (c ∷ w) tl u (if h then may_be_invalid else valid_to 0)
      ended true q r = tt
      ended false q (inl fails) = absurd (clash q fails)
      ended false q (inr e) = (e, omega arith)

scan_dot_last : (at_head : Bool) → scan_number false at_head (b'.' ∷ []) ≡ may_be_invalid
unfolding scan_number
scan_dot_last at_head = refl

scan_dot :
    (at_head : Bool) (d : ℕ) (w : Bytes)
    → is_digit d ≡ true
    → scan_number false at_head (b'.' ∷ d ∷ w) ≡ further (scan_number true false (d ∷ w))
unfolding scan_number
scan_dot at_head d w e = rw (e, scan_number) refl

not_number : (c : ℕ) → is_number_byte c ≡ false → (is_digit c ≡ false) × ((c == b'.') ≡ false)
unfolding is_number_byte
not_number c e = (ground (arith, e), ground (arith, e))

number-ends_valid : (c : ℕ) → IsNumberByte c → ends_valid c ≡ false
unfolding is_number_byte ends_valid
number-ends_valid c e = ground (arith, e)

NextDigit-front : (b : ℕ) (w s u : Bytes) → NextDigit s → b ∷ w ≡ s ++ u → is_digit b ≡ true
NextDigit-front b w [] u n e = absurd n
NextDigit-front b w (c ∷ s) u n e = ap is_digit (same_head _ _ _ _ e) ∙ n

behind_dot :
    (w tl s u : Bytes) (at_head : Bool)
    → NextDigit s
    → w ++ tl ≡ s ++ u
    → ScanAt w tl u (scan_number true false w)
    → ScanAt (b'.' ∷ w) tl u (scan_number false at_head (b'.' ∷ w))
behind_dot [] tl s u at_head n e h = rw (scan_dot_last at_head) tt
behind_dot (d ∷ w) tl s u at_head n e h =
    rw (scan_dot at_head d w (NextDigit-front d (w ++ tl) s u n e))
      (ScanAt-further b'.' (d ∷ w) tl u (scan_number true false (d ∷ w)) h)

scan_number-nil : (found at_head : Bool) → scan_number found at_head [] ≡ may_be_invalid
unfolding scan_number
scan_number-nil found at_head = refl

pub scan_number-ScanAt :
    (w tl s u : Bytes) (found at_head : Bool)
    → All IsNumberByte s
    → Ends u
    → Dotted found s
    → w ++ tl ≡ s ++ u
    → ScanAt w tl u (scan_number found at_head w)
scan_number-ScanAt [] tl s u found at_head a h d e = rw (scan_number-nil found at_head) tt
scan_number-ScanAt (b ∷ w) tl [] u found at_head a h d e =
    let (fails, dot) = not_number b (Ends-front b (w ++ tl) u e h) in
    scan_other found at_head b w tl u fails dot (inr e)
scan_number-ScanAt (b ∷ w) tl (c ∷ s) u found at_head a h d e =
    let same : b ≡ c = same_head _ _ _ _ e in
    let rest = same_tail _ _ _ _ e in
    elim (Bool-cases (is_digit b)) [
      | inl holds ↦ rw (scan_digit found at_head b w holds) (
          ScanAt-further b w tl u (scan_number found false w) (
            scan_number-ScanAt w tl s u found false a.1 h
              (Dotted-digit found c s (ap is_digit (sym same) ∙ holds) d) rest))
      | inr fails ↦ elim (Bool-cases (b == b'.')) [
        | inr other ↦
            scan_other found at_head b w tl u fails other
              (inl (number-ends_valid b (subst IsNumberByte (sym same) a.0)))
        | inl dot ↦
            let is_dot : b ≡ b'.' = ground (arith, dot) in
            let (f, n, d') = Dotted-dot found c s (sym same ∙ is_dot) d in
            rw (is_dot, f)
              (behind_dot w tl s u at_head n rest
                (scan_number-ScanAt w tl s u true false a.1 h d' rest))
      ]
    ]
