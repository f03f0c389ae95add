-- ===== src/Float/Reads.antt =====
-- The fast path of readPositiveFloat against the slow one, which is the parser on the number's bytes.
use jsoniter.Base.{
  same_head, same_tail, ℕ, zero, suc, ◌+◌, ◌-◌, ◌<◌, ◌≡◌, ◌⊎◌, refl, sym, ap, ◌∙◌, subst, inl, inr,
  true, false, ◌&&◌, Option, none, some, [], ◌∷◌, ◌++◌, Bytes, All, length, take, drop, get_or, leb,
  ◌==◌, if◌then◌else◌, arith, Bool-cases,
}
use jsoniter.Iter.Defs.{Iterator, window, with_head, report_error}
use jsoniter.Iter.View.{
  to_load, remaining, IsValid, Sees, window-with_head, with_head-Sees, length-window,
}
use jsoniter.Iter.Token.{window_front}
use jsoniter.Integer.Value.{IsDigit}
use jsoniter.Float.Defs.{
  Floats, max_float64, digit, invalid_char, end_of_number, dot_in_number, float_digits,
  is_number_byte, is_digit, fast_float, validate_positive_float, slow_path, fast_path,
  read_positive_float,
}
use jsoniter.Float.Bytes.{IsNumberByte, Ends, Ends-front, read_number_as_bytes-ReadsBytes}
use jsoniter.Float.Fast.{Denotes, whole, point, FastAt, fast_float-FastAt}
use jsoniter.Float.Whole.{StopAt}

pub digit-number : (c : ℕ) → IsDigit c → IsNumberByte c
unfolding is_number_byte
digit-number c d = ground (arith, d)

pub digits-number : (s : Bytes) → All IsDigit s → All IsNumberByte s
digits-number [] a = tt
digits-number (c ∷ s) (d, a) = (digit-number c d, digits-number s a)

dot-number : IsNumberByte b'.'
unfolding is_number_byte
dot-number = refl

dotted-number : (a b : Bytes) → All IsDigit (a ++ b) → All IsNumberByte (a ++ b'.' ∷ b)
dotted-number [] b d = (dot-number, digits-number b d)
dotted-number (c ∷ a) b (d, e) = (digit-number c d, dotted-number a b e)

Denotes-number :
    (ops : Floats) (v : ℕ) (s : Bytes) (x : ops.F) → Denotes ops v s x → All IsNumberByte s
Denotes-number ops v s x (whole d l e) = digits-number s d
Denotes-number ops v s x (point a b e d p q w l y) =
    subst (All IsNumberByte) (sym e) (dotted-number a b d)

-- The bytes of a number end where the pass over the window stops.
stops_there :
    (k : ℕ) (w tl s u : Bytes)
    → All IsNumberByte (take k w)
    → StopAt k w
    → All IsNumberByte s
    → Ends u
    → w ++ tl ≡ s ++ u
    → (take k w ≡ s) × (drop k w ++ tl ≡ u)
stops_there zero [] tl s u n (c, r, g, stop) a h e = cc
stops_there zero (b ∷ w) tl [] u n (c, r, g, stop) a h e = (refl, e)
stops_there zero (b ∷ w) tl (d ∷ s) u n (c, r, g, stop) a h e =
    let same : is_number_byte d ≡ false =
      ap is_number_byte (sym (same_head _ _ _ _ e) ∙ same_head _ _ _ _ g) ∙ stop in
    let holds = a.0 in cc
stops_there (suc k) [] tl s u n (c, r, g, stop) a h e = cc
stops_there (suc k) (b ∷ w) tl [] u n stop a h e =
    let fails = Ends-front b (w ++ tl) u e h in let holds = n.0 in cc
stops_there (suc k) (b ∷ w) tl (d ∷ s) u n stop a h e =
    let (p, q) = stops_there k w tl s u n.1 stop a.1 h (same_tail _ _ _ _ e) in
    (ap (◌∷◌ b) p ∙ ap (λ (y : ℕ). y ∷ s) (same_head _ _ _ _ e), q)

no_cons : (c : ℕ) (r : Bytes) → [] ≡ c ∷ r → ⊥
no_cons c r e = cc

StopAt-lt : (k : ℕ) (w : Bytes) → StopAt k w → k < length w
StopAt-lt zero [] (c, r, g, stop) = absurd (no_cons c r g)
StopAt-lt (suc k) [] (c, r, g, stop) = absurd (no_cons c r g)
StopAt-lt zero (b ∷ w) h = omega arith
StopAt-lt (suc k) (b ∷ w) h = omega (arith, StopAt-lt k w h)

-- A digit behind a leading zero, which JSON has not.
abbrev pub NoDigit : Bytes → Type 0
NoDigit [] = Unit
NoDigit (c ∷ s) = is_digit c ≡ false

not_number-digit : (c : ℕ) → is_number_byte c ≡ false → is_digit c ≡ false
unfolding is_number_byte
not_number-digit c e = ground (arith, e)

NoDigit-next : (b : ℕ) (w s u : Bytes) → NoDigit s → Ends u → b ∷ w ≡ s ++ u → is_digit b ≡ false
NoDigit-next b w [] u n h e = not_number-digit b (Ends-front b w u e h)
NoDigit-next b w (c ∷ s) u n h e = ap is_digit (same_head _ _ _ _ e) ∙ n

digit-float : (c : ℕ) → IsDigit c → float_digits c ≡ digit (c - b'0')
unfolding float_digits
digit-float c d = let e : (leb b'0' c && leb c b'9') ≡ true = ground (arith, d) in rw e refl

inl_same : {A : Type 0} (y x : A) → (◌≡◌ {A = A ⊎ ℕ} (inl y) (inl x)) → y ≡ x
inl_same y x e = cc

module _ (ops : Floats) (P : ops.F → Type 0) (d : ℕ) (s u : Bytes) (it : Iterator) where
  -- A value of which `P` holds is read, `u` remains, and there is no error.
  pub record ReadsFloat (r : ops.F × Iterator) : Type 0 where
    pub value : P r.0
    pub seen : Sees u r.1
    pub clear : r.1.error ≡ none
    pub same_depth : r.1.depth ≡ it.depth

  module _ (x : ops.F) (parses : ops.parse (d ∷ s) ≡ inl x) (parsed : P x)
      (ok : validate_positive_float (d ∷ s) ≡ none) (v : IsValid it) (clear : it.error ≡ none)
      (h : Ends u) (first : IsDigit d) (a : All IsNumberByte s)
      (e : remaining it ≡ (d ∷ s) ++ u) where
    slow_path-Reads : ReadsFloat (slow_path ops it)
    unfolding slow_path
    slow_path-Reads =
        let r =
          read_number_as_bytes-ReadsBytes u h [] (d ∷ s) it v clear e (digit-number d first, a)
            (ground arith) in
        rw (r.clear, r.bytes, ok, r.bytes, parses)
          (record { value = parsed; seen = r.seen; clear = r.clear; same_depth = r.same_depth })

    module _ (denoted : (y : ops.F) → Denotes ops (d - b'0') s y → P y)
        (inside : it.head < it.tail) where
      behind : drop 1 (window it) ++ to_load it ≡ s ++ u
      behind = same_tail _ _ _ _ (ap (λ w. w ++ to_load it) (sym (window_front it v inside)) ∙ e)

      fast-Reads :
          (r : Option (ℕ × ops.F))
          → FastAt ops (d - b'0') (drop 1 (window it)) r
          → ReadsFloat (elim r [
            | none ↦ slow_path ops it
            | some (k, y) ↦ (y, with_head (it.head + 1 + k) it)
          ])
      fast-Reads none f = slow_path-Reads
      fast-Reads (some (k, y)) (stop, den) =
          let w = drop 1 (window it) in
          let (p, q) =
            stops_there k w (to_load it) s u (Denotes-number ops _ _ _ den) stop a h behind in
          let lt = StopAt-lt k w stop in
          let front = ap length (window_front it v inside) in
          let at : it.head + 1 + k ≡ it.head + suc k = omega arith in
          let sees = with_head-Sees (suc k) it v (omega (arith, lt, front)) in
          let same = denoted y (subst (λ t. Denotes ops (d - b'0') t y) p den) in
          rw at (record {
            value = same;
            seen =
                subst (λ t. Sees t (with_head (it.head + suc k) it))
                  (ap (λ t. drop (suc k) t ++ to_load it) (window_front it v inside) ∙ q) sees;
            clear = clear;
            same_depth = refl;
          })

      fast_path-Reads : ReadsFloat (fast_path ops (d - b'0') it)
      unfolding fast_path
      fast_path-Reads =
          fast-Reads (fast_float ops (d - b'0') (drop 1 (window it)))
            (fast_float-FastAt ops (d - b'0') (drop 1 (window it)) (omega (arith, first)))

      leading : get_or it.buf it.head 0 ≡ d
      leading = same_head _ _ _ _ (ap (λ w. w ++ to_load it) (sym (window_front it v inside)) ∙ e)

      -- Behind a leading zero, by the byte that follows it.
      next_digit :
          (b'0' ≡ d → NoDigit s)
          → b'0' ≡ d
          → it.head + 1 < it.tail
          → is_digit (get_or it.buf (it.head + 1) 0) ≡ false
      next_digit n z more =
          let at = with_head (it.head + 1) it in
          let front =
            window_front at (with_head-Sees 1 it v (omega (arith, length-window it v))).valid
              more in
          NoDigit-next (get_or it.buf (it.head + 1) 0) (drop 1 (window at) ++ to_load it) s u (n z)
            h (ap (λ w. w ++ to_load it) (sym front ∙ window-with_head 1 it) ∙ behind)

      digit-Reads :
          (n : ℕ)
          → n ≡ d - b'0'
          → (b'0' ≡ d → NoDigit s)
          → ReadsFloat (elim (digit n) [
            | invalid_char ↦ slow_path ops it
            | end_of_number ↦ (ops.zero_float, report_error ops.operation "empty number" [] it)
            | dot_in_number ↦
                (ops.zero_float, report_error ops.operation "leading dot is invalid" [] it)
            | digit (suc ind) ↦ fast_path ops (suc ind) it
            | digit zero ↦
                if it.head + 1 == it.tail
                then slow_path ops it
                else if is_digit (get_or it.buf (it.head + 1) 0)
                then (ops.zero_float, report_error ops.operation "leading zero is invalid" [] it)
                else fast_path ops 0 it
          ])
      digit-Reads (suc i) q n = subst (λ m. ReadsFloat (fast_path ops m it)) (sym q) fast_path-Reads
      digit-Reads zero q n = elim (Bool-cases (it.head + 1 == it.tail)) [
        | inl last ↦ rw last slow_path-Reads
        | inr more ↦
            rw (more, next_digit n (omega (arith, q, first)) (ground (arith, more, inside)))
              (subst (λ m. ReadsFloat (fast_path ops m it)) (sym q) fast_path-Reads)
      ]

    pub read_positive_float-Reads :
        ((y : ops.F) → Denotes ops (d - b'0') s y → P y)
        → (b'0' ≡ d → NoDigit s)
        → ReadsFloat (read_positive_float ops it)
    unfolding read_positive_float
    read_positive_float-Reads denoted n = elim (Bool-cases (it.head == it.tail)) [
      | inl at_end ↦ rw at_end slow_path-Reads
      | inr inside ↦
          let room : it.head < it.tail = ground (arith, v.head_le) in
          rw (inside, leading denoted room, digit-float d first)
            (digit-Reads denoted room (d - b'0') refl n)
    ]

-- Let an iterator be in bounds and without an error, over any chunks, its remaining bytes
-- d, s and then u, where d is a digit, s has only bytes of numbers and no digit behind a
-- leading zero, u starts with another byte, validatePositiveFloat finds no fault in the
-- number and strconv.ParseFloat takes it. readPositiveFloat64 returns what
-- strconv.ParseFloat returns on d and s, if that takes digits that spell a value below 2^64
-- to the conversion of the value, and digits with one to six decimals that spell a value of
-- at most maxFloat64 to the quotient of the two conversions, as a correctly rounded parser
-- does. readPositiveFloat32, which has no bound on the value, returns what
-- strconv.ParseFloat returns, or for digits of a value below 2^64, with one to six decimals
-- or without a point, the conversion or the quotient. Both leave u, no error and the depth.
pub read_positive_float-parse :
    (ops : Floats) (d : ℕ) (s u : Bytes) (x : ops.F) (it : Iterator)
    → (ops.limit ≡ none)
      ⊎ ((ops.limit ≡ some max_float64)
          × ((t : Bytes) (y : ops.F) → Denotes ops (d - b'0') t y → ops.parse (d ∷ t) ≡ inl y))
    → ops.parse (d ∷ s) ≡ inl x
    → validate_positive_float (d ∷ s) ≡ none
    → IsValid it
    → it.error ≡ none
    → Ends u
    → IsDigit d
    → All IsNumberByte s
    → (b'0' ≡ d → NoDigit s)
    → remaining it ≡ (d ∷ s) ++ u
    → ReadsFloat ops
        (λ y. (y ≡ x) ⊎ ((ops.limit ≡ none) × Denotes ops (d - b'0') s y))
        d
        s
        u
        it
        (read_positive_float ops it)
read_positive_float-parse ops d s u x it law parses ok v clear h first a n e =
    read_positive_float-Reads ops (λ y. (y ≡ x) ⊎ ((ops.limit ≡ none) × Denotes ops (d - b'0') s y))
      d s u it x parses (inl refl) ok v clear h first a e
      (λ y den. elim law [
        | inl single ↦ inr (single, den)
        | inr (_, same) ↦ inl (inl_same y x (sym (same s y den) ∙ parses))
      ])
      n
