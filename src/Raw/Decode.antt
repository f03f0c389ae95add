-- ===== src/Raw/Decode.antt =====
-- RawString.String on what the raw reader returns.
use jsoniter.Base.{
  ℕ, suc, ◌+◌, ◌-◌, ◌*◌, ◌<◌, ◌≡◌, ◌≢◌, refl, sym, ap, ◌∙◌, subst, inl, inr, Bool, true, false,
  none, some, [], ◌∷◌, append-nil, Bytes, All, length, take, take_all, arith, Bool-cases,
}
use jsoniter.Iter.Defs.{Iterator, window}
use jsoniter.Iter.View.{remaining, IsValid, Sees}
use jsoniter.Iter.Token.{token}
use jsoniter.Text.Read.{Unicode, read_string_inner}
use jsoniter.Text.Spells.{Spells}
use jsoniter.Text.Hex.{IsHex}
use jsoniter.Text.Loop.{read_string_inner-ReadsText}
use jsoniter.Raw.Defs.{RawString, over, to_string, read_raw_string}
use jsoniter.Raw.Body.{Body}
use jsoniter.Raw.Marks.{Marked}
use jsoniter.Raw.Loop.{read_raw_string-ReadsRaw}

-- The body `b` of what spells `s`, alone and in front of `t`.
pub record Decodes (u : Unicode) (raw s t : Bytes) : Type 0 where
  pub bytes : Bytes
  pub body : Body raw bytes t
  pub spells : Spells u bytes s []
  pub bare : All (λ c. c ≢ b'\\') bytes → s ≡ take (length bytes - 1) bytes

Body-length : {raw b t : Bytes} → Body raw b t → 0 < length b
Body-length (Body.close q) = omega arith
Body-length (Body.plain c r q p d) = omega arith
Body-length (Body.letter e v r q p d) = omega arith
Body-length (Body.rune h1 h2 h3 h4 v r q h d) = omega arith

-- A body without its closing quote, behind one more byte.
shorter :
    (c : ℕ) {raw b t : Bytes}
    → Body raw b t
    → take (suc (length b) - 1) (c ∷ b) ≡ c ∷ take (length b - 1) b
shorter c {b = b} d =
    let e : suc (length b) - 1 ≡ suc (length b - 1) = omega (arith, Body-length d) in rw e refl

pub Spells-Decodes : {u : Unicode} {raw s t : Bytes} → Spells u raw s t → Decodes u raw s t
Spells-Decodes (Spells.close q) = record {
  bytes = b'"' ∷ [];
  body = Body.close q;
  spells = Spells.close refl;
  bare = λ a. refl;
}
Spells-Decodes (Spells.plain c r q p d) =
    let x = Spells-Decodes d in
    record {
      bytes = c ∷ x.bytes;
      body = Body.plain c r q p x.body;
      spells = Spells.plain c x.bytes refl p x.spells;
      bare = λ a. ap (◌∷◌ c) (x.bare a.1) ∙ sym (shorter c x.body);
    }
Spells-Decodes (Spells.letter e b r q p d) =
    let x = Spells-Decodes d in
    record {
      bytes = b'\\' ∷ e ∷ x.bytes;
      body = Body.letter e b r q p x.body;
      spells = Spells.letter e b x.bytes refl p x.spells;
      bare = λ a. absurd (a.0 refl);
    }
Spells-Decodes (Spells.rune h1 h2 h3 h4 a b c d r q p1 p2 p3 p4 n k) =
    let x = Spells-Decodes k in
    let hex : IsHex h1 h2 h3 h4 (((a * 16 + b) * 16 + c) * 16 + d) = record {
      a = a;
      b = b;
      c = c;
      d = d;
      first = p1;
      second = p2;
      third = p3;
      fourth = p4;
      value = refl;
    } in
    record {
      bytes = b'\\' ∷ b'u' ∷ h1 ∷ h2 ∷ h3 ∷ h4 ∷ x.bytes;
      body = Body.rune h1 h2 h3 h4 _ r q hex x.body;
      spells = Spells.rune h1 h2 h3 h4 a b c d x.bytes refl p1 p2 p3 p4 n x.spells;
      bare = λ y. absurd (y.0 refl);
    }

over-IsValid : (b : Bytes) → IsValid (over b)
over-IsValid b = record { head_le = omega arith; tail_le = omega arith; fits = tt }

remaining-over : (b : Bytes) → remaining (over b) ≡ b
remaining-over b =
    let e : length b - 0 ≡ length b = omega arith in
    append-nil (window (over b)) ∙ ap (λ (n : ℕ). take n b) e ∙ take_all b

module _ (u : Unicode) (format_int : ℕ → Bytes) where
  to_string-bare :
      (r : RawString) (b : Bytes)
      → r.buf ≡ some b
      → r.has_escapes ≡ false
      → to_string u format_int r ≡ some (take (length b - 1) b)
  unfolding to_string
  to_string-bare r b e f = rw (e, f) refl

  to_string-escapes :
      (r : RawString) (b : Bytes)
      → r.buf ≡ some b
      → r.has_escapes ≡ true
      → (read_string_inner u format_int (over b)).1.error ≡ none
      → to_string u format_int r ≡ some (read_string_inner u format_int (over b)).0
  unfolding to_string
  to_string-escapes r b e f clear = rw (e, f, clear) refl

  pub to_string-Decodes :
      (r : RawString) (raw s t : Bytes) (x : Decodes u raw s t)
      → r.buf ≡ some x.bytes
      → Marked r.has_escapes x.bytes
      → to_string u format_int r ≡ some s
  to_string-Decodes r raw s t x e m = elim (Bool-cases r.has_escapes) [
    | inl f ↦
        let y =
          read_string_inner-ReadsText u format_int (over x.bytes) s [] (over-IsValid x.bytes) refl
            (subst (λ z. Spells u z s []) (sym (remaining-over x.bytes)) x.spells) in
        to_string-escapes r x.bytes e f y.clear ∙ ap some y.text
    | inr f ↦
        to_string-bare r x.bytes e f ∙ ap some (sym (x.bare (unmarked r.has_escapes x.bytes f m)))
  ]
    where
      unmarked : (f : Bool) (b : Bytes) → f ≡ false → Marked f b → All (λ c. c ≢ b'\\') b
      unmarked f b e (inl g) = cc
      unmarked f b e (inr a) = a

  -- Decoding lazily is decoding: for an iterator in bounds and without an error, over any
  -- chunks, whose first byte behind white space is a quote, followed by raw, the body of a
  -- JSON string that spells s, with no surrogate escapes, and then t: String of what
  -- ReadRawString returns is s, with no panic, and ReadRawString leaves t and no error.
  pub to_string-read_raw_string :
      (it : Iterator) (raw s t : Bytes)
      → IsValid it
      → it.error ≡ none
      → token (remaining it) ≡ some (b'"', raw)
      → Spells u raw s t
      → (to_string u format_int (read_raw_string format_int it).0 ≡ some s)
        × Sees t (read_raw_string format_int it).1
        × ((read_raw_string format_int it).1.error ≡ none)
  to_string-read_raw_string it raw s t v clear e d =
      let x = Spells-Decodes d in
      let y = read_raw_string-ReadsRaw format_int it raw x.bytes t v clear e x.body in
      (
        to_string-Decodes (read_raw_string format_int it).0 raw s t x y.body y.marked,
        y.seen,
        y.clear,
      )
