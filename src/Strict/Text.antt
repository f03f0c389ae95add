-- ===== src/Strict/Text.antt =====
-- skipString on the body of a string, and skipThreeBytes and skipFourBytes on a literal.
use jsoniter.Base.{
  same_head, same_tail, ℕ, suc, ◌+◌, ◌<◌, ◌≤◌, ◌≡◌, refl, sym, ◌∙◌, subst, inl, inr, true, ◌&&◌,
  none, [], ◌∷◌, ◌++◌, Bytes, length, drop, ltb, leb, ◌==◌, arith, Bool-cases,
}
use jsoniter.Iter.Defs.{Iterator, window, with_head, read_byte}
use jsoniter.Iter.View.{to_load, remaining, IsValid, Sees, with_head-Sees}
use jsoniter.Iter.Rounds.{step_over}
use jsoniter.Text.Read.{skip_three_bytes, skip_four_bytes}
use jsoniter.Text.Hex.{read_byte-Took}
use jsoniter.Text.Write.{is_plain}
use jsoniter.Raw.Defs.{read_raw_string_inner}
use jsoniter.Raw.Body.{Body, close, plain, letter, rune}
use jsoniter.Raw.Loop.{read_raw_string_inner-ReadsRaw}
use jsoniter.Strict.Defs.{
  StringScan, quote_at, left_at, not_found, beyond, scan_string, skip_string,
}
use jsoniter.Strict.Floats.{Leaves}

-- How a pass over the window `w`, with `tl` behind it, splits a body before `t`.
abbrev TextAt : Bytes → Bytes → Bytes → StringScan → Type 0
TextAt w tl t (quote_at k) = (drop (suc k) w ++ tl ≡ t) × (k < length w)
TextAt w tl t (left_at k) = ((b : Bytes) × Body (drop k w ++ tl) b t) × (k ≤ length w)
TextAt w tl t not_found = Unit

TextAt-beyond :
    (c : ℕ) (w tl t : Bytes) (x : StringScan) → TextAt w tl t x → TextAt (c ∷ w) tl t (beyond x)
TextAt-beyond c w tl t (quote_at k) (e, l) = (e, omega (arith, l))
TextAt-beyond c w tl t (left_at k) (b, l) = (b, omega (arith, l))
TextAt-beyond c w tl t not_found h = h

module _ (c : ℕ) (w : Bytes) where
  scan_quote : c ≡ b'"' → scan_string (c ∷ w) ≡ quote_at 0
  unfolding scan_string
  scan_quote e = rw e refl

  scan_backslash : c ≡ b'\\' → scan_string (c ∷ w) ≡ left_at 0
  unfolding scan_string
  scan_backslash e = rw e refl

  scan_plain : is_plain c ≡ true → scan_string (c ∷ w) ≡ beyond (scan_string w)
  unfolding scan_string
  scan_plain e = ground (arith, e)

scan_string-nil : scan_string [] ≡ not_found
unfolding scan_string
scan_string-nil = refl

scan_string-TextAt :
    (w tl : Bytes) {raw b t : Bytes} → Body raw b t → raw ≡ w ++ tl → TextAt w tl t (scan_string w)
scan_string-TextAt [] tl d e = rw scan_string-nil tt
scan_string-TextAt (c ∷ w) tl (close q) e =
    rw (scan_quote c w (same_head _ _ _ _ (sym e ∙ q))) (same_tail _ _ _ _ (sym e ∙ q), omega arith)
scan_string-TextAt (c ∷ w) tl (plain c' r q p d) e =
    rw (scan_plain c w (subst (λ x. is_plain x ≡ true) (same_head _ _ _ _ (sym q ∙ e)) p)) (
      TextAt-beyond c w tl _ (scan_string w)
        (scan_string-TextAt w tl d (same_tail _ _ _ _ (sym q ∙ e))))
scan_string-TextAt (c ∷ w) tl {b = b} {t = t} (letter x v r q p d) e =
    rw (scan_backslash c w (same_head _ _ _ _ (sym e ∙ q)))
      ((b, subst (λ y. Body y b t) e (letter x v r q p d)), omega arith)
scan_string-TextAt (c ∷ w) tl {b = b} {t = t} (rune h1 h2 h3 h4 v r q h d) e =
    rw (scan_backslash c w (same_head _ _ _ _ (sym e ∙ q)))
      ((b, subst (λ y. Body y b t) e (rune h1 h2 h3 h4 v r q h d)), omega arith)

module _ (format_int : ℕ → Bytes) where
  inner-Leaves :
      (b t : Bytes) (it : Iterator)
      → Body (remaining it) b t
      → IsValid it
      → it.error ≡ none
      → Leaves t it.depth (read_raw_string_inner format_int it).1
  inner-Leaves b t it d v clear =
      let r = read_raw_string_inner-ReadsRaw format_int it b t v clear d in
      record { seen = r.seen; clear = r.clear; same_depth = r.same_depth }

  -- For an iterator in bounds and without an error, over any chunks, whose remaining bytes
  -- are the body b of a JSON string, with its closing quote, and then t: the strict
  -- skipString leaves t, no error and the depth.
  pub skip_string-Leaves :
      (b t : Bytes) (it : Iterator)
      → Body (remaining it) b t
      → IsValid it
      → it.error ≡ none
      → Leaves t it.depth (skip_string format_int it)
  unfolding skip_string
  skip_string-Leaves b t it d v clear =
      elim (Bool-cases (ltb it.head it.tail && leb it.tail (length it.buf))) [
        | inr out ↦ rw out (inner-Leaves b t it d v clear)
        | inl inside ↦
            rw inside (
              scanned (scan_string (window it))
                (scan_string-TextAt (window it) (to_load it) d refl))
      ]
    where
      scanned :
          (x : StringScan)
          → TextAt (window it) (to_load it) t x
          → Leaves t it.depth (elim x [
            | quote_at k ↦ with_head (it.head + k + 1) it
            | left_at k ↦ (read_raw_string_inner format_int (with_head (it.head + k) it)).1
            | not_found ↦ (read_raw_string_inner format_int it).1
          ])
      scanned (quote_at k) (e, l) = record {
        seen = subst (λ y. Sees y (with_head (it.head + k + 1) it)) e (step_over k it v l);
        clear = clear;
        same_depth = refl;
      }
      scanned (left_at k) ((b', d'), l) =
          let sees = with_head-Sees k it v l in
          inner-Leaves b' t (with_head (it.head + k) it)
            (subst (λ y. Body y b' t) (sym sees.remains) d') sees.valid clear
      scanned not_found x = inner-Leaves b t it d v clear

==-refl : (n : ℕ) → (n == n) ≡ true
==-refl n = ground arith

skip_three_bytes-run :
    (a b c : ℕ) (it : Iterator)
    → (read_byte it).0 ≡ a
    → (read_byte (read_byte it).1).0 ≡ b
    → (read_byte (read_byte (read_byte it).1).1).0 ≡ c
    → skip_three_bytes a b c it ≡ (read_byte (read_byte (read_byte it).1).1).1
unfolding skip_three_bytes
skip_three_bytes-run a b c it e f g =
    let p = ==-refl a in let q = ==-refl b in let r = ==-refl c in rw (e, f, g, p, q, r) refl

pub skip_three_bytes-Leaves :
    (a b c : ℕ) (t : Bytes) (it : Iterator)
    → Sees (a ∷ b ∷ c ∷ t) it
    → it.error ≡ none
    → Leaves t it.depth (skip_three_bytes a b c it)
skip_three_bytes-Leaves a b c t it sees clear =
    let x = read_byte-Took it sees.valid sees.remains in
    let y = read_byte-Took (read_byte it).1 x.seen.valid x.seen.remains in
    let z = read_byte-Took (read_byte (read_byte it).1).1 y.seen.valid y.seen.remains in
    rw (skip_three_bytes-run a b c it x.byte y.byte z.byte) (record {
      seen = z.seen;
      clear = z.same_error ∙ y.same_error ∙ x.same_error ∙ clear;
      same_depth = z.same_depth ∙ y.same_depth ∙ x.same_depth;
    })

skip_four_bytes-run :
    (a b c d : ℕ) (it : Iterator)
    → (read_byte it).0 ≡ a
    → (read_byte (read_byte it).1).0 ≡ b
    → (read_byte (read_byte (read_byte it).1).1).0 ≡ c
    → (read_byte (read_byte (read_byte (read_byte it).1).1).1).0 ≡ d
    → skip_four_bytes a b c d it ≡ (read_byte (read_byte (read_byte (read_byte it).1).1).1).1
unfolding skip_four_bytes
skip_four_bytes-run a b c d it e f g h =
    let p = ==-refl a in
    let q = ==-refl b in let r = ==-refl c in let s = ==-refl d in rw (e, f, g, h, p, q, r, s) refl

pub skip_four_bytes-Leaves :
    (a b c d : ℕ) (t : Bytes) (it : Iterator)
    → Sees (a ∷ b ∷ c ∷ d ∷ t) it
    → it.error ≡ none
    → Leaves t it.depth (skip_four_bytes a b c d it)
skip_four_bytes-Leaves a b c d t it sees clear =
    let x = read_byte-Took it sees.valid sees.remains in
    let y = read_byte-Took (read_byte it).1 x.seen.valid x.seen.remains in
    let z = read_byte-Took (read_byte (read_byte it).1).1 y.seen.valid y.seen.remains in
    let w =
      read_byte-Took (read_byte (read_byte (read_byte it).1).1).1 z.seen.valid z.seen.remains in
    rw (skip_four_bytes-run a b c d it x.byte y.byte z.byte w.byte) (record {
      seen = w.seen;
      clear = w.same_error ∙ z.same_error ∙ y.same_error ∙ x.same_error ∙ clear;
      same_depth = w.same_depth ∙ z.same_depth ∙ y.same_depth ∙ x.same_depth;
    })
