-- ===== src/Raw/Body.antt =====
-- The body of a JSON string as bytes, and how a pass over a window splits it.
use jsoniter.Base.{
  same_head, same_tail, ℕ, suc, ◌<◌, ◌≡◌, refl, sym, ap, ◌∙◌, subst, inl, inr, Bool, Bool-cases,
  true, false, some, [], ◌∷◌, ◌++◌, Bytes, length, take, drop, ltb, ◌==◌, arith,
}
use jsoniter.Text.Write.{is_plain}
use jsoniter.Text.Read.{simple_escape}
use jsoniter.Text.Escapes.{LetterEscape, simple_escape-LetterEscape}
use jsoniter.Text.Hex.{IsHex}
use jsoniter.Raw.Defs.{
  RawEnd, at_quote, at_unicode, at_control, at_invalid, at_end, later, scan_raw,
}

-- `Body raw b t`: `raw` is the body `b`, with its closing quote, and then `t`. Every \u escape of
-- four hexadecimal digits is one, surrogates too.
pub data Body : Bytes → Bytes → Bytes → Type 0 where
  close : {raw t : Bytes} → raw ≡ b'"' ∷ t → Body raw (b'"' ∷ []) t
  plain :
      {raw b t : Bytes} (c : ℕ) (r : Bytes)
      → raw ≡ c ∷ r
      → is_plain c ≡ true
      → Body r b t
      → Body raw (c ∷ b) t
  letter :
      {raw b t : Bytes} (e v : ℕ) (r : Bytes)
      → raw ≡ b'\\' ∷ e ∷ r
      → LetterEscape e v
      → Body r b t
      → Body raw (b'\\' ∷ e ∷ b) t
  rune :
      {raw b t : Bytes} (h1 h2 h3 h4 v : ℕ) (r : Bytes)
      → raw ≡ b'\\' ∷ b'u' ∷ h1 ∷ h2 ∷ h3 ∷ h4 ∷ r
      → IsHex h1 h2 h3 h4 v
      → Body r b t
      → Body raw (b'\\' ∷ b'u' ∷ h1 ∷ h2 ∷ h3 ∷ h4 ∷ b) t

-- Where an escape is open, its backslash is behind.
abbrev pub Rest : Bool → Bytes → Bytes → Bytes → Type 0
Rest false raw b t = Body raw b t
Rest true raw b t = Body (b'\\' ∷ raw) (b'\\' ∷ b) t

-- How a pass over the window `w`, with `tl` behind it, splits a body.
abbrev pub Splits : Bytes → Bytes → Bytes → Bytes → RawEnd → Type 0
Splits w tl b t (at_quote k e) = (b ≡ take (suc k) w) × (t ≡ drop (suc k) w ++ tl) × (k < length w)
Splits w tl b t (at_unicode k e) =
    (h1 : ℕ) × (h2 : ℕ) × (h3 : ℕ) × (h4 : ℕ) × (v : ℕ) × (r : Bytes) × (b' : Bytes) × IsHex h1 h2
      h3 h4 v
    × (drop (suc k) w ++ tl ≡ h1 ∷ h2 ∷ h3 ∷ h4 ∷ r)
    × (b ≡ take (suc k) w ++ h1 ∷ h2 ∷ h3 ∷ h4 ∷ b')
    × Body r b' t
    × (k < length w)
Splits w tl b t (at_control c) = ⊥
Splits w tl b t at_invalid = ⊥
Splits w tl b t (at_end r e) = (b' : Bytes) × (b ≡ w ++ b') × Rest r tl b' t

Splits-later :
    (c : ℕ) (w tl b t : Bytes) (x : RawEnd)
    → Splits w tl b t x
    → Splits (c ∷ w) tl (c ∷ b) t (later x)
Splits-later c w tl b t (at_quote k e) (p, q, l) = (ap (◌∷◌ c) p, q, omega (arith, l))
Splits-later c w tl b t (at_unicode k e) (h1, h2, h3, h4, v, r, b', h, p, q, d, l) =
    (h1, h2, h3, h4, v, r, b', h, p, ap (◌∷◌ c) q, d, omega (arith, l))
Splits-later c w tl b t (at_control d) h = h
Splits-later c w tl b t at_invalid h = h
Splits-later c w tl b t (at_end r e) (b', p, q) = (b', ap (◌∷◌ c) p, q)

simple_escape-code : (c v : ℕ) → simple_escape c ≡ some v → ltb c b' ' ≡ false
unfolding simple_escape
simple_escape-code c v h = ground (arith, h)

module _ (escapes : Bool) (c : ℕ) (w : Bytes) where
  scan_plain : is_plain c ≡ true → scan_raw false escapes (c ∷ w) ≡ later (scan_raw false escapes w)
  unfolding scan_raw
  scan_plain h = ground (arith, h)

  scan_quote : c ≡ b'"' → scan_raw false escapes (c ∷ w) ≡ at_quote 0 escapes
  unfolding scan_raw
  scan_quote h = rw h refl

  scan_backslash : c ≡ b'\\' → scan_raw false escapes (c ∷ w) ≡ later (scan_raw true true w)
  unfolding scan_raw
  scan_backslash h = rw h refl

  scan_unicode : c ≡ b'u' → scan_raw true escapes (c ∷ w) ≡ at_unicode 0 escapes
  unfolding scan_raw simple_escape
  scan_unicode h = rw (h, h) refl

  -- A backslash that is escaped sets the second flag.
  scan_letter :
      (v : ℕ)
      → simple_escape c ≡ some v
      → (e : Bool) × (scan_raw true escapes (c ∷ w) ≡ later (scan_raw false e w))
  unfolding scan_raw
  scan_letter v h = elim (Bool-cases (c == b'"')) [
    | inl q ↦ (escapes, rw q refl)
    | inr q ↦ elim (Bool-cases (c == b'\\')) [
      | inl b ↦ (true, rw (q, b) refl)
      | inr b ↦ (escapes, rw (q, b, simple_escape-code c v h, h) refl)
    ]
  ]

-- What stands behind an open backslash.
data Escape (raw b t : Bytes) : Type 0 where
  one :
      (e v : ℕ) (r b' : Bytes)
      → raw ≡ e ∷ r
      → b ≡ e ∷ b'
      → LetterEscape e v
      → Body r b' t
      → Escape raw b t
  four :
      (h1 h2 h3 h4 v : ℕ) (r b' : Bytes)
      → raw ≡ b'u' ∷ h1 ∷ h2 ∷ h3 ∷ h4 ∷ r
      → b ≡ b'u' ∷ h1 ∷ h2 ∷ h3 ∷ h4 ∷ b'
      → IsHex h1 h2 h3 h4 v
      → Body r b' t
      → Escape raw b t

not_plain : (c : ℕ) → is_plain c ≡ true → c ≡ b'\\' → ⊥
not_plain c p e = ground (arith, p, e)

Body-Escape :
    (raw b : Bytes) {raw' b' t : Bytes}
    → Body raw' b' t
    → raw' ≡ b'\\' ∷ raw
    → b' ≡ b'\\' ∷ b
    → Escape raw b t
Body-Escape raw b (close {t = t} q) e f = absurd (omega (arith, same_head _ _ _ _ (sym q ∙ e)))
Body-Escape raw b (plain c r q p d) e f = absurd (not_plain c p (same_head _ _ _ _ (sym q ∙ e)))
Body-Escape raw b (letter x v r q p d) e f =
    one x v r _ (sym (same_tail _ _ _ _ (sym q ∙ e))) (sym (same_tail _ _ _ _ f)) p d
Body-Escape raw b (rune h1 h2 h3 h4 v r q h d) e f =
    four h1 h2 h3 h4 v r _ (sym (same_tail _ _ _ _ (sym q ∙ e))) (sym (same_tail _ _ _ _ f)) h d

Escape-Body : (raw b t : Bytes) → Escape raw b t → Body (b'\\' ∷ raw) (b'\\' ∷ b) t
Escape-Body raw b t (one x v r b' p q h d) =
    subst (λ y. Body (b'\\' ∷ raw) (b'\\' ∷ y) t) (sym q) (letter x v r (ap (◌∷◌ b'\\') p) h d)
Escape-Body raw b t (four h1 h2 h3 h4 v r b' p q h d) =
    subst (λ y. Body (b'\\' ∷ raw) (b'\\' ∷ y) t) (sym q)
      (rune h1 h2 h3 h4 v r (ap (◌∷◌ b'\\') p) h d)

scan_nil : (reading escapes : Bool) → scan_raw reading escapes [] ≡ at_end reading escapes
unfolding scan_raw
scan_nil reading escapes = refl

mutual
  scan_inside-Splits :
      (escapes : Bool) (w tl : Bytes) {raw b t : Bytes}
      → raw ≡ w ++ tl
      → Body raw b t
      → Splits w tl b t (scan_raw false escapes w)
  scan_inside-Splits escapes [] tl {raw} {b} {t} e d =
      rw (scan_nil false escapes) (b, refl, subst (λ x. Body x b t) e d)
  scan_inside-Splits escapes (c ∷ w) tl e (close q) =
      let same = same_head _ _ _ _ (sym e ∙ q) in
      rw (scan_quote escapes c w same)
        (ap (λ x. x ∷ []) (sym same), sym (same_tail _ _ _ _ (sym e ∙ q)), omega arith)
  scan_inside-Splits escapes (c ∷ w) tl e (plain {b = b1} {t = t1} c' r q p d) =
      let same : c' ≡ c = same_head _ _ _ _ (sym q ∙ e) in
      rw (scan_plain escapes c w (subst (λ x. is_plain x ≡ true) same p)) (
        subst (λ x. Splits (c ∷ w) tl (x ∷ b1) t1 (later (scan_raw false escapes w))) (sym same)
          (Splits-later c w tl b1 t1 (scan_raw false escapes w)
            (scan_inside-Splits escapes w tl (same_tail _ _ _ _ (sym q ∙ e)) d)))
  scan_inside-Splits escapes (c ∷ w) tl e (letter {b = b1} {t = t1} x v r q p d) =
      let same : c ≡ b'\\' = same_head _ _ _ _ (sym e ∙ q) in
      rw (scan_backslash escapes c w same) (
        subst (λ y. Splits (c ∷ w) tl (y ∷ x ∷ b1) t1 (later (scan_raw true true w))) same
          (Splits-later c w tl (x ∷ b1) t1 (scan_raw true true w) (
            scan_open-Splits true w tl {raw = w ++ tl} refl
              (one x v r b1 (same_tail _ _ _ _ (sym e ∙ q)) refl p d))))
  scan_inside-Splits escapes (c ∷ w) tl e (rune {b = b1} {t = t1} h1 h2 h3 h4 v r q h d) =
      let same : c ≡ b'\\' = same_head _ _ _ _ (sym e ∙ q) in
      rw (scan_backslash escapes c w same) (
        subst
          (λ y.
            Splits (c ∷ w) tl (y ∷ b'u' ∷ h1 ∷ h2 ∷ h3 ∷ h4 ∷ b1) t1 (later (scan_raw true true w)))
          same
          (Splits-later c w tl (b'u' ∷ h1 ∷ h2 ∷ h3 ∷ h4 ∷ b1) t1 (scan_raw true true w) (
            scan_open-Splits true w tl {raw = w ++ tl} refl
              (four h1 h2 h3 h4 v r b1 (same_tail _ _ _ _ (sym e ∙ q)) refl h d))))

  scan_open-Splits :
      (escapes : Bool) (w tl : Bytes) {raw b t : Bytes}
      → raw ≡ w ++ tl
      → Escape raw b t
      → Splits w tl b t (scan_raw true escapes w)
  scan_open-Splits escapes [] tl {raw} {b} {t} e d =
      rw (scan_nil true escapes)
        (b, refl, subst (λ x. Body (b'\\' ∷ x) (b'\\' ∷ b) t) e (Escape-Body raw b t d))
  scan_open-Splits escapes (c ∷ w) tl {t = t} e (one x v r b' p q h d) =
      let same : x ≡ c = same_head _ _ _ _ (sym p ∙ e) in
      let (f, run) =
        scan_letter escapes c w v
          (simple_escape-LetterEscape (subst (λ y. LetterEscape y v) same h)) in
      rw (run, q)
        (subst (λ y. Splits (c ∷ w) tl (y ∷ b') t (later (scan_raw false f w))) (sym same)
          (Splits-later c w tl b' t (scan_raw false f w)
            (scan_inside-Splits f w tl (same_tail _ _ _ _ (sym p ∙ e)) d)))
  scan_open-Splits escapes (c ∷ w) tl e (four h1 h2 h3 h4 v r b' p q h d) =
      let same : b'u' ≡ c = same_head _ _ _ _ (sym p ∙ e) in
      rw (scan_unicode escapes c w (sym same)) (
        h1,
        h2,
        h3,
        h4,
        v,
        r,
        b',
        h,
        same_tail _ _ _ _ (sym e ∙ p),
        q ∙ ap (λ y. y ∷ h1 ∷ h2 ∷ h3 ∷ h4 ∷ b') same,
        d,
        omega arith,
      )

pub scan_raw-Splits :
    (reading escapes : Bool) (w tl b t : Bytes)
    → Rest reading (w ++ tl) b t
    → Splits w tl b t (scan_raw reading escapes w)
scan_raw-Splits false escapes w tl b t d = scan_inside-Splits escapes w tl refl d
scan_raw-Splits true escapes w tl b t d =
    scan_open-Splits escapes w tl refl (Body-Escape (w ++ tl) b d refl refl)

letter-ne-zero : (c v : ℕ) → simple_escape c ≡ some v → (c == 0) ≡ false
unfolding simple_escape
letter-ne-zero c v h = ground (arith, h)

plain-ne-zero : (c : ℕ) → is_plain c ≡ true → (c == 0) ≡ false
plain-ne-zero c h = ground (arith, h)

-- A body has a first byte, and it is not 0.
Body-front :
    {raw b t : Bytes}
    → Body raw b t
    → (c : ℕ) × (rest : Bytes) × (raw ≡ c ∷ rest) × ((c == 0) ≡ false)
Body-front (close {t = t} q) = (b'"', t, q, refl)
Body-front (plain c r q p d) = (c, r, q, plain-ne-zero c p)
Body-front (letter e v r q p d) = (b'\\', e ∷ r, q, refl)
Body-front (rune h1 h2 h3 h4 v r q h d) = (b'\\', b'u' ∷ h1 ∷ h2 ∷ h3 ∷ h4 ∷ r, q, refl)

Escape-front :
    {raw b t : Bytes}
    → Escape raw b t
    → (c : ℕ) × (rest : Bytes) × (raw ≡ c ∷ rest) × ((c == 0) ≡ false)
Escape-front (one e v r b' p q h d) = (e, r, p, letter-ne-zero e v (simple_escape-LetterEscape h))
Escape-front (four h1 h2 h3 h4 v r b' p q h d) = (b'u', h1 ∷ h2 ∷ h3 ∷ h4 ∷ r, p, refl)

pub Rest-front :
    (reading : Bool) (raw b t : Bytes)
    → Rest reading raw b t
    → (c : ℕ) × (rest : Bytes) × (raw ≡ c ∷ rest) × ((c == 0) ≡ false)
Rest-front false raw b t d = Body-front d
Rest-front true raw b t d = Escape-front (Body-Escape raw b d refl refl)
