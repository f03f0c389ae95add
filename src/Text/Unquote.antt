-- ===== src/Text/Unquote.antt =====
-- readEscapedChar on the escapes of a JSON string.
use jsoniter.Base.{
  ℕ, ◌+◌, ◌*◌, ◌<◌, ◌≤◌, ◌≡◌, refl, ap, ◌∙◌, true, false, none, some, [], ◌∷◌, ◌++◌, Bytes, length,
  ◌==◌, arith,
}
use jsoniter.Iter.Defs.{Iterator, loads, read_byte}
use jsoniter.Iter.View.{Sees}
use jsoniter.Iter.Token.{Took}
use jsoniter.Text.Write.{is_plain}
use jsoniter.Text.Read.{Unicode, simple_escape, escape_letter, read_u4, read_escaped_char}
use jsoniter.Text.Escapes.{LetterEscape, HexDigit, simple_escape-LetterEscape}
use jsoniter.Text.Spells.{Spells, close, plain, letter, rune}
use jsoniter.Text.Hex.{read_byte-Took, IsHex, ReadsTo, read_u4-ReadsTo}

-- An escape was read: `piece` was appended, and what follows spells the rest of the text.
pub record Unescaped (u : Unicode) (sb s t rest : Bytes) (it : Iterator) (r : Bytes × Iterator)
    : Type 0 where
  pub piece : Bytes
  pub left : Bytes
  pub after : Bytes
  pub splits : s ≡ piece ++ left
  pub text : r.0 ≡ sb ++ piece
  pub seen : Sees after r.1
  pub more : Spells u after left t
  pub clear : r.1.error ≡ none
  pub same_depth : r.1.depth ≡ it.depth
  pub shorter : length after < length rest
  pub loads_le : loads r.1 ≤ loads it

letter-ne-u : (e b : ℕ) → simple_escape e ≡ some b → (e == b'u') ≡ false
unfolding simple_escape
letter-ne-u e b p = ground arith

not_plain : (c : ℕ) → c ≡ b'\\' → is_plain c ≡ true → ⊥
not_plain c e p = ground arith

not_closed : (x y : Bytes) {raw : Bytes} → raw ≡ b'"' ∷ x → raw ≡ b'\\' ∷ y → ⊥
not_closed x y p q = cc

same_tail : (a b : ℕ) (x y : Bytes) {raw : Bytes} → raw ≡ a ∷ x → raw ≡ b ∷ y → y ≡ x
same_tail a b x y p q = cc

same_head : (a b : ℕ) (x y : Bytes) {raw : Bytes} → raw ≡ a ∷ x → raw ≡ b ∷ y → a ≡ b
same_head a b x y p q = cc

module _ (u : Unicode) (sb : Bytes) (it : Iterator) (clear : it.error ≡ none) where
  letter_run :
      (e b : ℕ) (rest : Bytes)
      → Took e rest it (read_byte it)
      → simple_escape e ≡ some b
      → read_escaped_char u sb it ≡ (sb ++ b ∷ [], (read_byte it).1)
  unfolding read_escaped_char escape_letter
  letter_run e b rest took p = rw (took.byte, letter-ne-u e b p, escape_letter, p)

  rune_run :
      (v : ℕ) (rest after : Bytes)
      → Took b'u' rest it (read_byte it)
      → ReadsTo v after (read_byte it).1 (read_u4 (read_byte it).1)
      → u.is_surrogate v ≡ false
      → read_escaped_char u sb it ≡ (sb ++ u.encode_rune v, (read_u4 (read_byte it).1).1)
  unfolding read_escaped_char
  rune_run v rest after took read p = rw (took.byte, read.result, p, read.clear, read.result)

  letter-Unescaped :
      (e b : ℕ) (r rest : Bytes) {s t : Bytes}
      → Sees rest it
      → rest ≡ e ∷ r
      → LetterEscape e b
      → Spells u r s t
      → Unescaped u sb (b ∷ s) t rest it (read_escaped_char u sb it)
  letter-Unescaped e b r rest {s} sees front p d =
      let took = read_byte-Took it sees.valid (sees.remains ∙ front) in
      rw (letter_run e b r took (simple_escape-LetterEscape p)) (record {
        piece = b ∷ [];
        left = s;
        after = r;
        splits = refl;
        text = refl;
        seen = took.seen;
        more = d;
        clear = took.same_error ∙ clear;
        same_depth = took.same_depth;
        shorter = omega (arith, ap length front);
        loads_le = took.loads_le;
      })

  rune-Unescaped :
      (h1 h2 h3 h4 v : ℕ) (r rest : Bytes) {s t : Bytes}
      → Sees rest it
      → rest ≡ b'u' ∷ h1 ∷ h2 ∷ h3 ∷ h4 ∷ r
      → IsHex h1 h2 h3 h4 v
      → u.is_surrogate v ≡ false
      → Spells u r s t
      → Unescaped u sb (u.encode_rune v ++ s) t rest it (read_escaped_char u sb it)
  rune-Unescaped h1 h2 h3 h4 v r rest {s} sees front hex n k =
      let took = read_byte-Took it sees.valid (sees.remains ∙ front) in
      let read =
        read_u4-ReadsTo hex r (read_byte it).1 took.seen.valid (took.same_error ∙ clear)
          took.seen.remains in
      rw (rune_run v _ r took read n) (record {
        piece = u.encode_rune v;
        left = s;
        after = r;
        splits = refl;
        text = refl;
        seen = read.seen;
        more = k;
        clear = read.clear;
        same_depth = read.same_depth ∙ took.same_depth;
        shorter = omega (arith, ap length front);
        loads_le = omega (arith, took.loads_le, read.loads_le);
      })

  rune_digits :
      (h1 h2 h3 h4 a b c d : ℕ)
      → HexDigit h1 a
      → HexDigit h2 b
      → HexDigit h3 c
      → HexDigit h4 d
      → IsHex h1 h2 h3 h4 (((a * 16 + b) * 16 + c) * 16 + d)
  rune_digits h1 h2 h3 h4 a b c d p1 p2 p3 p4 = record {
    a = a;
    b = b;
    c = c;
    d = d;
    first = p1;
    second = p2;
    third = p3;
    fourth = p4;
    value = refl;
  }

  pub read_escaped_char-Unescaped :
      (rest : Bytes) {raw s t : Bytes}
      → Sees rest it
      → raw ≡ b'\\' ∷ rest
      → Spells u raw s t
      → Unescaped u sb s t rest it (read_escaped_char u sb it)
  read_escaped_char-Unescaped rest sees eq (close q) = absurd (not_closed _ _ q eq)
  read_escaped_char-Unescaped rest sees eq (plain c r q p d) =
      absurd (not_plain c (same_head _ _ _ _ q eq) p)
  read_escaped_char-Unescaped rest sees eq (letter e b r q p d) =
      letter-Unescaped e b r rest sees (same_tail _ _ _ _ q eq) p d
  read_escaped_char-Unescaped rest sees eq (rune h1 h2 h3 h4 a b c d r q p1 p2 p3 p4 n k) =
      rune-Unescaped h1 h2 h3 h4 _ r rest sees (same_tail _ _ _ _ q eq)
        (rune_digits h1 h2 h3 h4 a b c d p1 p2 p3 p4) n k
