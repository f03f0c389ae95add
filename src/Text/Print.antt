-- ===== src/Text/Print.antt =====
-- The quoted form of a text, and WriteString.
use jsoniter.Base.{
  ℕ, ◌+◌, ◌/◌, ◌%◌, ◌*◌, ◌<◌, ◌≡◌, refl, sym, ap, ◌∙◌, subst, inl, inr, true, false, not, ◌&&◌, [],
  ◌∷◌, ◌++◌, append_assoc, append-nil, Bytes, ltb, ◌==◌, if◌then◌else◌, arith, Bool-cases, ==_iff,
}
use jsoniter.Text.Write.{
  safe_set, escaped, flush_run, slow_path, fast_path, is_plain, put_string, hex_chars,
}
use jsoniter.Text.Read.{Unicode}
use jsoniter.Text.Escapes.{
  HexDigit, zero_to_nine, quotation_mark, reverse_solidus, line_feed, carriage_return, tab,
  hex_chars-HexDigit,
}
use jsoniter.Text.Spells.{Spells, close, plain, letter, rune}

-- What one byte becomes.
abbrev pub unit : ℕ → Bytes
unit b = if ltb b 128 && not (safe_set b) then escaped b else b ∷ []

unfoldable pub quoted : Bytes → Bytes
quoted [] = b'"' ∷ []
quoted (b ∷ s) = unit b ++ quoted s

flush_run-append : (run buf : Bytes) → flush_run run buf ≡ buf ++ run
flush_run-append [] buf = sym (append-nil buf)
flush_run-append (c ∷ run) buf = ground arith

slow_path-quoted : (s run buf : Bytes) → slow_path s run buf ≡ buf ++ (run ++ quoted s)
unfolding slow_path quoted
slow_path-quoted [] run buf = rw (flush_run-append run buf) (append_assoc buf run (b'"' ∷ []))
slow_path-quoted (b ∷ s) run buf = elim (Bool-cases (ltb b 128 && not (safe_set b))) [
  | inl unsafe ↦
      rw (unsafe, slow_path)
        (slow_path-quoted s [] (flush_run run buf ++ escaped b)
          ∙ ap (λ x. (x ++ escaped b) ++ quoted s) (flush_run-append run buf)
          ∙ simp append_assoc)
  | inr safe ↦ rw (safe, slow_path) (slow_path-quoted s (run ++ b ∷ []) buf ∙ simp append_assoc)
]

pub unit_plain : (b : ℕ) → is_plain b ≡ true → unit b ≡ b ∷ []
unfolding safe_set
unit_plain b h = ground arith

fast_path-quoted :
    (s buf : Bytes)
    → (fast_path is_plain s buf).0 ++ quoted (fast_path is_plain s buf).1 ≡ buf ++ quoted s
unfolding fast_path
fast_path-quoted [] buf = refl
fast_path-quoted (c ∷ s) buf = elim (Bool-cases (is_plain c)) [
  | inl fast ↦
      rw (fast, fast_path)
        (fast_path-quoted s (buf ++ c ∷ [])
          ∙ append_assoc buf (c ∷ []) (quoted s)
          ∙ ap (λ x. buf ++ (x ++ quoted s)) (sym (unit_plain c fast))
          ∙ unfold quoted in refl)
  | inr slow ↦ rw (slow, fast_path)
]

rest-quoted :
    (rest buf : Bytes)
    → elim rest as (λ _. Bytes) [ [] ↦ buf ++ b'"' ∷ [] | c ∷ s ↦ slow_path (c ∷ s) [] buf ]
      ≡ buf ++ quoted rest
rest-quoted [] buf = unfold quoted in refl
rest-quoted (c ∷ s) buf = slow_path-quoted (c ∷ s) [] buf

-- WriteString, with its fast and its slow path, appends a quote, each byte of the text by
-- itself in its escaped form or as it is, and a quote.
pub put_string-quoted : (s buf : Bytes) → put_string s buf ≡ buf ++ b'"' ∷ quoted s
unfolding put_string
put_string-quoted s buf =
    rest-quoted (fast_path is_plain s (buf ++ b'"' ∷ [])).1
      (fast_path is_plain s (buf ++ b'"' ∷ [])).0
    ∙ fast_path-quoted s (buf ++ b'"' ∷ [])
    ∙ append_assoc buf (b'"' ∷ []) (quoted s)

-- The properties of Go's packages that the strings of this code rest on.
pub record IsUnicode (u : Unicode) : Type 0 where
  pub surrogates : (r : ℕ) → r < 0xd800 → u.is_surrogate r ≡ false
  pub ascii : (r : ℕ) → r < 128 → u.encode_rune r ≡ r ∷ []

below_space : (b : ℕ) → is_plain b ≡ false → (b == b'"') ≡ false → (b == b'\\') ≡ false → b < 32
below_space b h n1 n2 = ground arith

unit_control :
    (b : ℕ)
    → b < 32
    → (b == b'"') ≡ false
    → (b == b'\\') ≡ false
    → (b == 10) ≡ false
    → (b == 13) ≡ false
    → (b == 9) ≡ false
    → unit b ≡ b'\\' ∷ b'u' ∷ b'0' ∷ b'0' ∷ hex_chars (b / 16) ∷ hex_chars (b % 16) ∷ []
unfolding safe_set escaped
unit_control b h n1 n2 n3 n4 n5 = ground arith

module _ (u : Unicode) (law : IsUnicode u) {r s t : Bytes} (d : Spells u r s t) where
  control-Spells :
      (b : ℕ)
      → b < 32
      → Spells u
          (b'\\' ∷ b'u' ∷ b'0' ∷ b'0' ∷ hex_chars (b / 16) ∷ hex_chars (b % 16) ∷ r)
          (b ∷ s)
          t
  control-Spells b h =
      let p = hex_chars-HexDigit (b / 16) (omega (arith, h)) in
      let q = hex_chars-HexDigit (b % 16) (omega arith) in
      let zero_digit : HexDigit b'0' 0 = zero_to_nine 0 (omega arith) in
      let e : ((0 * 16 + 0) * 16 + b / 16) * 16 + b % 16 ≡ b = omega arith in
      let enc = ap u.encode_rune e ∙ law.ascii b (omega arith) in
      let raw = b'\\' ∷ b'u' ∷ b'0' ∷ b'0' ∷ hex_chars (b / 16) ∷ hex_chars (b % 16) ∷ r in
      subst (λ x. Spells u raw (x ++ s) t) enc
        (rune b'0' b'0' _ _ 0 0 (b / 16) (b % 16) r refl zero_digit zero_digit p q
          (law.surrogates _ (omega arith)) d)

  unit-Spells : (b : ℕ) → Spells u (unit b ++ r) (b ∷ s) t
  unfolding safe_set escaped
  unit-Spells b = elim (Bool-cases (is_plain b)) [
    | inl safe ↦ rw (unit_plain b safe) (plain b r refl safe d)
    | inr special ↦ elim (Bool-cases (b == b'"')) [
      | inl e ↦ rw ((==_iff b _).0 e) (letter b'"' b'"' r refl quotation_mark d)
      | inr n1 ↦ elim (Bool-cases (b == b'\\')) [
        | inl e ↦ rw ((==_iff b _).0 e) (letter b'\\' b'\\' r refl reverse_solidus d)
        | inr n2 ↦ elim (Bool-cases (b == 10)) [
          | inl e ↦ rw ((==_iff b _).0 e) (letter b'n' 10 r refl line_feed d)
          | inr n3 ↦ elim (Bool-cases (b == 13)) [
            | inl e ↦ rw ((==_iff b _).0 e) (letter b'r' 13 r refl carriage_return d)
            | inr n4 ↦ elim (Bool-cases (b == 9)) [
              | inl e ↦ rw ((==_iff b _).0 e) (letter b't' 9 r refl tab d)
              | inr n5 ↦
                  let low : b < 32 = below_space b special n1 n2 in
                  rw (unit_control b low n1 n2 n3 n4 n5) (control-Spells b low)
            ]
          ]
        ]
      ]
    ]
  ]

pub quoted-Spells : (u : Unicode) → IsUnicode u → (s t : Bytes) → Spells u (quoted s ++ t) s t
unfolding quoted
quoted-Spells u law [] t = close refl
quoted-Spells u law (b ∷ s) t =
    rw (append_assoc (unit b) (quoted s) t) (unit-Spells u law (quoted-Spells u law s t) b)
