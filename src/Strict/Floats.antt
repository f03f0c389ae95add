-- ===== src/Strict/Floats.antt =====
-- ReadFloat32 and ReadFloat64 on the text of a JSON number.
use jsoniter.Base.{ℕ, ◌≡◌, refl, ap, ◌∙◌, inl, false, none, some, ◌∷◌, ◌++◌, Bytes, ◌==◌, arith}
use jsoniter.Base.Int.{ℤ}
use jsoniter.Iter.Defs.{Iterator, next_token, unread_byte, is_space}
use jsoniter.Iter.View.{Sees}
use jsoniter.Iter.Token.{token, unread_byte-Sees}
use jsoniter.Iter.Rounds.{unread_byte-depth}
use jsoniter.Array.Elements.{token-Took}
use jsoniter.Integer.Value.{IsDigit}
use jsoniter.Float.Defs.{Floats, read_positive_float, read_float}
use jsoniter.Float.Bytes.{Ends}
use jsoniter.Float.Reads.{read_positive_float-Reads}
use jsoniter.Strict.Grammar.{Unsigned, Unsigned-number, Unsigned-NoDigit}
use jsoniter.Strict.Dots.{Unsigned-valid}

-- What a reading function leaves: the bytes `t`, no error, and the depth it found.
pub record Leaves (t : Bytes) (d : ℤ) (it : Iterator) : Type 0 where
  pub seen : Sees t it
  pub clear : it.error ≡ none
  pub same_depth : it.depth ≡ d

-- A number with the byte `c` and then `s`, whose unsigned part the parser takes.
pub data Number (ops : Floats) (c : ℕ) (s : Bytes) : Type 0 where
  plain : (x : ops.F) → Unsigned c s → ops.parse (c ∷ s) ≡ inl x → Number ops c s
  minus :
      (d : ℕ) (r : Bytes) (x : ops.F)
      → c ≡ b'-'
      → s ≡ d ∷ r
      → Unsigned d r
      → ops.parse (d ∷ r) ≡ inl x
      → Number ops c s

digit-space : (c : ℕ) → IsDigit c → is_space c ≡ false
digit-space c d = ground (arith, d)

digit-minus : (c : ℕ) → IsDigit c → (c == b'-') ≡ false
digit-minus c d = ground (arith, d)

module _ (ops : Floats) (u : Bytes) (h : Ends u) where
  read_positive_float-Leaves :
      (d : ℕ) (s : Bytes) (x : ops.F) (it : Iterator)
      → Unsigned d s
      → ops.parse (d ∷ s) ≡ inl x
      → Sees (d ∷ s ++ u) it
      → it.error ≡ none
      → Leaves u it.depth (read_positive_float ops it).1
  read_positive_float-Leaves d s x it n p sees clear =
      let r =
        read_positive_float-Reads ops (λ _. Unit) d s u it x p tt (Unsigned-valid n) sees.valid
          clear h n.first (Unsigned-number n) sees.remains (λ y den. tt) (Unsigned-NoDigit n) in
      record { seen = r.seen; clear = r.clear; same_depth = r.same_depth }

  read_float_plain :
      (it : Iterator)
      → ((next_token it).0 == b'-') ≡ false
      → read_float ops it ≡ read_positive_float ops (unread_byte (next_token it).1)
  unfolding read_float
  read_float_plain it e = rw e refl

  read_float_minus :
      (it : Iterator)
      → (next_token it).0 ≡ b'-'
      → (read_float ops it).1 ≡ (read_positive_float ops (next_token it).1).1
  unfolding read_float
  read_float_minus it e = rw e refl

  pub read_float-Leaves :
      (c : ℕ) (s : Bytes) (it : Iterator)
      → Number ops c s
      → Sees (c ∷ s ++ u) it
      → it.error ≡ none
      → Leaves u it.depth (read_float ops it).1
  read_float-Leaves c s it (plain x n p) sees clear =
      let e : token (c ∷ s ++ u) ≡ some (c, s ++ u) = rw (digit-space c n.first) refl in
      let took = token-Took c (s ++ u) (c ∷ s ++ u) it sees e in
      let (seen, ok, _) = unread_byte-Sees took clear in
      let it1 = unread_byte (next_token it).1 in
      let x = read_positive_float-Leaves c s x it1 n p seen ok in
      rw (read_float_plain it (ap (λ b. b == b'-') took.byte ∙ digit-minus c n.first)) (record {
        seen = x.seen;
        clear = x.clear;
        same_depth = x.same_depth ∙ unread_byte-depth (next_token it).1 ∙ took.same_depth;
      })
  read_float-Leaves c s it (minus d r x m f n p) sees clear =
      let e : token (c ∷ s ++ u) ≡ some (b'-', d ∷ r ++ u) = rw (m, f) refl in
      let took = token-Took b'-' (d ∷ r ++ u) (c ∷ s ++ u) it sees e in
      let it1 = (next_token it).1 in
      let x = read_positive_float-Leaves d r x it1 n p took.seen (took.same_error ∙ clear) in
      rw (read_float_minus it took.byte)
        (record { seen = x.seen; clear = x.clear; same_depth = x.same_depth ∙ took.same_depth })
