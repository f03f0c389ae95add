-- ===== src/Text/Loop.antt =====
-- The loop of readStringInner, and ReadString, against what a JSON string spells.
use jsoniter.Base.{
  ℕ, zero, suc, ◌+◌, ◌<◌, ◌≡◌, refl, sym, ap, ◌∙◌, subst, true, false, none, some, [], ◌∷◌, ◌++◌,
  append_assoc, Bytes, length, take, drop, ltb, ◌==◌, if◌then◌else◌, arith, length-append,
  length-drop,
}
use jsoniter.Base.Int.{ℤ}
use jsoniter.Iter.Defs.{
  Iterator, window, loads, with_head, read_byte, unread_byte, next_token, report_error,
}
use jsoniter.Iter.View.{to_load, remaining, IsValid, Sees}
use jsoniter.Iter.Token.{token, Took, Takes, next_token-Takes}
use jsoniter.Iter.Rounds.{clear_record, step_over, length-remaining, read_byte-Next}
use jsoniter.Text.Write.{is_plain}
use jsoniter.Text.Read.{
  Unicode, read_escaped_char, Found, quote, backslash, control, ended, scan_string, string_loop,
  read_string_inner, read_string,
}
use jsoniter.Text.Spells.{Spells, close, plain, letter, rune, Splits, scan_string-Splits}
use jsoniter.Text.Unquote.{read_escaped_char-Unescaped}

-- The text read is `s`, `t` is left, there is no error, and the depth is `d`.
pub record ReadsText (s t : Bytes) (d : ℤ) (r : Bytes × Iterator) : Type 0 where
  pub text : r.0 ≡ s
  pub seen : Sees t r.1
  pub clear : r.1.error ≡ none
  pub same_depth : r.1.depth ≡ d

at_depth :
    {s t : Bytes} {d e : ℤ} {r : Bytes × Iterator} → d ≡ e → ReadsText s t d r → ReadsText s t e r
at_depth p x = record {
  text = x.text;
  seen = x.seen;
  clear = x.clear;
  same_depth = x.same_depth ∙ p;
}

plain-ne-zero : (c : ℕ) → is_plain c ≡ true → (c == 0) ≡ false
plain-ne-zero c p = ground arith

-- A string body has a first byte, and it is not 0.
Spells-front :
    {u : Unicode} {raw s t : Bytes}
    → Spells u raw s t
    → (c : ℕ) × (rest : Bytes) × (raw ≡ c ∷ rest) × ((c == 0) ≡ false)
Spells-front (close {t = t} q) = (b'"', t, q, refl)
Spells-front (plain c r q p d) = (c, r, q, plain-ne-zero c p)
Spells-front (letter e b r q p d) = (b'\\', e ∷ r, q, refl)
Spells-front (rune h1 h2 h3 h4 a b c d r q p1 p2 p3 p4 n k) =
    (b'\\', b'u' ∷ h1 ∷ h2 ∷ h3 ∷ h4 ∷ r, q, refl)

module _ (u : Unicode) (format_int : ℕ → Bytes) where
  abbrev LoopReads : ℕ → Type 0
  LoopReads fuel =
      (sb raw s t : Bytes) (it : Iterator)
      → IsValid it
      → it.error ≡ none
      → remaining it ≡ raw
      → Spells u raw s t
      → length raw + loads it < fuel
      → ReadsText (sb ++ s) t it.depth (string_loop u format_int fuel sb it)

  -- One round, by where the pass over the window ends.
  abbrev round : ℕ → Bytes → Iterator → Found → Bytes × Iterator
  round fuel sb it x = elim x [
    | quote k ↦ (sb ++ take k (window it), with_head (it.head + k + 1) it)
    | backslash k ↦
        let (sb', it') =
          read_escaped_char u (sb ++ take k (window it)) (with_head (it.head + k + 1) it) in
        string_loop u format_int fuel sb' it'
    | control c ↦
        ([], report_error "ReadString" "invalid control character found: " (format_int c) it)
    | ended ↦
        let (c, it') = read_byte (with_head it.tail it) in
        let next = string_loop u format_int fuel (sb ++ window it) (unread_byte it') in
        if c == 0 then ([], report_error "ReadString" "unexpected end of input" [] it') else next
  ]

  string_loop-round :
      (fuel : ℕ) (sb : Bytes) (it : Iterator)
      → it.error ≡ none
      → ltb (length it.buf) it.tail ≡ false
      → string_loop u format_int (suc fuel) sb it ≡ round fuel sb it (scan_string (window it))
  unfolding string_loop
  string_loop-round fuel sb it clear room =
      rw (clear, room, string_loop)
        (ap (λ j. round fuel sb j (scan_string (window it))) (clear_record it clear))

  module _ (fuel : ℕ) (next : LoopReads fuel) (sb : Bytes) (it : Iterator) (v : IsValid it)
      (clear : it.error ≡ none) (enough : length (remaining it) + loads it < suc fuel) where
    ended-ReadsText :
        (s t : Bytes)
        → Spells u (to_load it) s t
        → ReadsText ((sb ++ window it) ++ s) t it.depth (round fuel sb it ended)
    ended-ReadsText s t d =
        let (c, rest, e, pos) = Spells-front d in
        let x = read_byte-Next c rest it v clear e in
        rw (x.byte, pos)
          (at_depth x.same_depth (
            next (sb ++ window it) (c ∷ rest) s t _ x.seen.valid x.clear x.seen.remains
              (subst (λ y. Spells u y s t) e d)
              (omega (arith, enough, x.fewer, length-remaining it, ap length e))))

    backslash-ReadsText :
        (k : ℕ) (s t : Bytes)
        → k < length (window it)
        → Spells u (b'\\' ∷ drop (suc k) (window it) ++ to_load it) s t
        → ReadsText ((sb ++ take k (window it)) ++ s) t it.depth (round fuel sb it (backslash k))
    backslash-ReadsText k s t h d =
        let rest = drop (suc k) (window it) ++ to_load it in
        let sees = step_over k it v h in
        let base = sb ++ take k (window it) in
        let x =
          read_escaped_char-Unescaped u base (with_head (it.head + k + 1) it) clear rest sees refl
            d in
        let r = read_escaped_char u base (with_head (it.head + k + 1) it) in
        let read =
          next (base ++ x.piece) x.after x.left t r.1 x.seen.valid x.clear x.seen.remains x.more (
            omega (
              arith,
              enough,
              length-remaining it,
              length-append (drop (suc k) (window it)) (to_load it),
              length-drop (suc k) (window it),
              x.shorter,
              x.loads_le,
            )) in
        let same : (base ++ x.piece) ++ x.left ≡ base ++ s =
          append_assoc base x.piece x.left ∙ ap (λ y. base ++ y) (sym x.splits) in
        rw x.text (
          subst (λ y. ReadsText y t it.depth (string_loop u format_int fuel (base ++ x.piece) r.1))
            same (at_depth x.same_depth read))

    round-ReadsText :
        (x : Found) (s t : Bytes)
        → Splits u (window it) (to_load it) s t x
        → ReadsText (sb ++ s) t it.depth (round fuel sb it x)
    round-ReadsText (quote k) s t (p, q, h) =
        rw (p, q)
          (record { text = refl; seen = step_over k it v h; clear = clear; same_depth = refl })
    round-ReadsText (backslash k) s t (s', p, d, h) =
        rw (p, ← append_assoc sb (take k (window it)) s') (backslash-ReadsText k s' t h d)
    round-ReadsText (control c) s t h = absurd h
    round-ReadsText ended s t (s', p, d) =
        rw (p, ← append_assoc sb (window it) s') (ended-ReadsText s' t d)

  string_loop-ReadsText : (fuel : ℕ) → LoopReads fuel
  string_loop-ReadsText zero sb raw s t it v clear e d h = absurd (omega arith)
  string_loop-ReadsText (suc fuel) sb raw s t it v clear e d h =
      let room : ltb (length it.buf) it.tail ≡ false = ground (arith, v.tail_le) in
      rw (string_loop-round fuel sb it clear room) (
        round-ReadsText fuel (string_loop-ReadsText fuel) sb it v clear
          (omega (arith, h, ap length e)) (scan_string (window it)) s t
          (scan_string-Splits u (window it) (to_load it) (sym e) d))

  pub read_string_inner-ReadsText :
      (it : Iterator) (s t : Bytes)
      → IsValid it
      → it.error ≡ none
      → Spells u (remaining it) s t
      → ReadsText s t it.depth (read_string_inner u format_int it)
  unfolding read_string_inner
  read_string_inner-ReadsText it s t v clear d =
      string_loop-ReadsText (length (remaining it) + loads it + 1) [] (remaining it) s t it v clear
        refl d (omega arith)

  read_string_quote :
      (it : Iterator)
      → (next_token it).0 ≡ b'"'
      → read_string u format_int it ≡ read_string_inner u format_int (next_token it).1
  unfolding read_string
  read_string_quote it e = rw e

  -- For an iterator in bounds and without an error, over any chunks, whose first byte behind
  -- white space is a quote, followed by raw: if raw is the body of a JSON string that spells
  -- s, with plain bytes, the eight one letter escapes of JSON and \u escapes of four
  -- hexadecimal digits that are no surrogates, and t is behind its closing quote, then
  -- ReadString returns s, leaves t, sets no error and keeps the depth.
  pub read_string-Spells :
      (it : Iterator) (raw s t : Bytes)
      → IsValid it
      → it.error ≡ none
      → token (remaining it) ≡ some (b'"', raw)
      → Spells u raw s t
      → ReadsText s t it.depth (read_string u format_int it)
  read_string-Spells it raw s t v clear e d =
      let took : Took b'"' raw it (next_token it) =
        subst (λ o. Takes o it (next_token it)) e (next_token-Takes it v) in
      rw (read_string_quote it took.byte) (
        at_depth took.same_depth (
          read_string_inner-ReadsText (next_token it).1 s t took.seen.valid
            (took.same_error ∙ clear) (subst (λ x. Spells u x s t) (sym took.seen.remains) d)))
