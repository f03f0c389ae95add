-- ===== src/Text/Spells.antt =====
-- The body of a JSON string, what it spells and what follows it, and how a pass over a window
-- reads it.
use jsoniter.Base.{
  ℕ, suc, ◌+◌, ◌*◌, ◌<◌, ◌≡◌, refl, sym, ap, ◌∙◌, subst, true, false, [], ◌∷◌, ◌++◌, Bytes, length,
  take, drop, arith,
}
use jsoniter.Text.Write.{is_plain}
use jsoniter.Text.Read.{Unicode, Found, quote, backslash, control, ended, scan_string}
use jsoniter.Text.Escapes.{LetterEscape, HexDigit}

-- `Spells raw s t`: up to its closing quote `raw` spells `s`, and `t` follows. The escapes are the
-- letters and \u of a rune that is no surrogate.
pub data Spells (u : Unicode) : Bytes → Bytes → Bytes → Type 0 where
  close : {raw t : Bytes} → raw ≡ b'"' ∷ t → Spells u raw [] t
  plain :
      {raw s t : Bytes} (c : ℕ) (r : Bytes)
      → raw ≡ c ∷ r
      → is_plain c ≡ true
      → Spells u r s t
      → Spells u raw (c ∷ s) t
  letter :
      {raw s t : Bytes} (e b : ℕ) (r : Bytes)
      → raw ≡ b'\\' ∷ e ∷ r
      → LetterEscape e b
      → Spells u r s t
      → Spells u raw (b ∷ s) t
  rune :
      {raw s t : Bytes} (h1 h2 h3 h4 a b c d : ℕ) (r : Bytes)
      → raw ≡ b'\\' ∷ b'u' ∷ h1 ∷ h2 ∷ h3 ∷ h4 ∷ r
      → HexDigit h1 a
      → HexDigit h2 b
      → HexDigit h3 c
      → HexDigit h4 d
      → u.is_surrogate (((a * 16 + b) * 16 + c) * 16 + d) ≡ false
      → Spells u r s t
      → Spells u raw (u.encode_rune (((a * 16 + b) * 16 + c) * 16 + d) ++ s) t

-- How a pass over the window `w`, with `tl` behind it, splits what is spelled.
abbrev pub Splits : Unicode → Bytes → Bytes → Bytes → Bytes → Found → Type 0
Splits u w tl s t (quote k) = (s ≡ take k w) × (t ≡ drop (suc k) w ++ tl) × (k < length w)
Splits u w tl s t (backslash k) =
    (s' : Bytes) × (s ≡ take k w ++ s')
    × Spells u (b'\\' ∷ drop (suc k) w ++ tl) s' t
    × (k < length w)
Splits u w tl s t (control c) = ⊥
Splits u w tl s t ended = (s' : Bytes) × (s ≡ w ++ s') × Spells u tl s' t

abbrev push : Found → Found
push x = elim x [
  | quote k ↦ quote (suc k)
  | backslash k ↦ backslash (suc k)
  | control d ↦ control d
  | ended ↦ ended
]

Splits-cons :
    (u : Unicode) (c : ℕ) (w tl s t : Bytes) (x : Found)
    → Splits u w tl s t x
    → Splits u (c ∷ w) tl (c ∷ s) t (push x)
Splits-cons u c w tl s t (quote k) (p, q, l) = (ap (◌∷◌ c) p, q, omega arith)
Splits-cons u c w tl s t (backslash k) (s', p, q, l) = (s', ap (◌∷◌ c) p, q, omega arith)
Splits-cons u c w tl s t (control d) h = h
Splits-cons u c w tl s t ended (s', p, q) = (s', ap (◌∷◌ c) p, q)

scan_plain : (c : ℕ) (w : Bytes) → is_plain c ≡ true → scan_string (c ∷ w) ≡ push (scan_string w)
unfolding scan_string
scan_plain c w h = ground arith

scan_quote : (c : ℕ) (w : Bytes) → c ≡ b'"' → scan_string (c ∷ w) ≡ quote 0
unfolding scan_string
scan_quote c w h = ground arith

scan_backslash : (c : ℕ) (w : Bytes) → c ≡ b'\\' → scan_string (c ∷ w) ≡ backslash 0
unfolding scan_string
scan_backslash c w h = ground arith

pub scan_string-Splits :
    (u : Unicode) (w tl : Bytes) {raw s t : Bytes}
    → raw ≡ w ++ tl
    → Spells u raw s t
    → Splits u w tl s t (scan_string w)
scan_string-Splits u [] tl {raw} {s} {t} e d =
    unfold scan_string in (s, refl, subst (λ x. Spells u x s t) e d)
scan_string-Splits u (c ∷ w) tl e (close q) = rw (scan_quote c w (cc)) (refl, cc, omega arith)
scan_string-Splits u (c ∷ w) tl e (plain {s = s1} {t = t1} c' r q p d) =
    let same : c' ≡ c = cc (e, q) in
    let tail_eq : r ≡ w ++ tl = cc (e, q) in
    rw (scan_plain c w (rw same at p)) (
      subst (λ x. Splits u (c ∷ w) tl (x ∷ s1) t1 (push (scan_string w))) (sym same)
        (Splits-cons u c w tl s1 t1 (scan_string w) (scan_string-Splits u w tl tail_eq d)))
scan_string-Splits u (c ∷ w) tl e (letter {s = s1} {t = t1} x b r q p d) =
    let same : c ≡ b'\\' = cc (e, q) in
    let raw_eq : b'\\' ∷ x ∷ r ≡ b'\\' ∷ w ++ tl = rw same at (sym q ∙ e) in
    rw (scan_backslash c w same) (b ∷ s1, refl, letter x b r (sym raw_eq) p d, omega arith)
scan_string-Splits u (c ∷ w) tl e
      (rune {s = s1} {t = t1} h1 h2 h3 h4 x1 x2 x3 x4 r q p1 p2 p3 p4 n d) =
    let same : c ≡ b'\\' = cc (e, q) in
    let raw_eq : b'\\' ∷ b'u' ∷ h1 ∷ h2 ∷ h3 ∷ h4 ∷ r ≡ b'\\' ∷ w ++ tl = rw same at (sym q ∙ e) in
    rw (scan_backslash c w same) (
      u.encode_rune (((x1 * 16 + x2) * 16 + x3) * 16 + x4) ++ s1,
      refl,
      rune h1 h2 h3 h4 x1 x2 x3 x4 r (sym raw_eq) p1 p2 p3 p4 n d,
      omega arith,
    )
