-- ===== src/Raw/Loop.antt =====
-- The loop of readRawStringInner, and ReadRawString.
use jsoniter.Base.{
  ℕ, zero, suc, ◌+◌, ◌-◌, ◌<◌, ◌≤◌, ◌≡◌, refl, sym, ap, ◌∙◌, subst, inl, inr, Bool, true, false,
  none, some, [], ◌∷◌, ◌++◌, append_assoc, Bytes, length, take, drop, take-nil, ltb, leb, ◌==◌,
  if◌then◌else◌, arith, length-append, length-drop, length-take, Bool-cases,
}
use jsoniter.Base.Int.{ℤ}
use jsoniter.Iter.Defs.{
  Iterator, window, loads, with_head, read_byte, unread_byte, next_token, report_error,
}
use jsoniter.Iter.View.{to_load, remaining, IsValid, Sees, with_head-Sees, length-window}
use jsoniter.Iter.Token.{token, Took, Takes, next_token-Takes}
use jsoniter.Iter.Rounds.{clear_record, step_over, length-remaining, read_byte-Next}
use jsoniter.Text.Read.{parse_u4}
use jsoniter.Text.Hex.{IsHex, parse_u4-run, drop-append}
use jsoniter.Raw.Defs.{
  RawString, no_string, RawEnd, at_quote, at_unicode, at_control, at_invalid, at_end, scan_raw,
  raw_loop, read_and_fill_u4, read_raw_string_inner, read_raw_string,
}
use jsoniter.Raw.Body.{Body, Rest, Splits, scan_raw-Splits, Rest-front}
use jsoniter.Raw.Marks.{Marked, Flags, Adds, Marks, scan_raw-Marks, Marked-append}
use jsoniter.Raw.Fill.{read_and_fill_u4-Fills}

-- The body `b` was read and `t` is left, with no error and at the depth `d`; an unset flag means
-- that `b` has no escapes, and a view is the bytes of the buffer in front of the head.
pub record ReadsRaw (b t : Bytes) (d : ℤ) (r : RawString × Iterator) : Type 0 where
  pub body : r.0.buf ≡ some b
  pub marked : Marked r.0.has_escapes b
  pub viewed : r.0.is_raw ≡ true → take (length b) (drop (r.1.head - length b) r.1.buf) ≡ b
  pub seen : Sees t r.1
  pub clear : r.1.error ≡ none
  pub same_depth : r.1.depth ≡ d

take-take : (k n : ℕ) (w : Bytes) → take (k + n) w ≡ take k w ++ take n (drop k w)
take-take zero n w = let e : zero + n ≡ n = omega arith in ap (λ (m : ℕ). take m w) e
take-take (suc k) n [] = take-nil (suc k + n) ∙ sym (take-nil n)
take-take (suc k) n (c ∷ w) =
    let e : suc k + n ≡ suc (k + n) = omega arith in rw e (ap (◌∷◌ c) (take-take k n w))

take-within : (k n : ℕ) (w : Bytes) → k ≤ n → take k (take n w) ≡ take k w
take-within zero n w h = refl
take-within (suc k) zero w h = absurd (omega arith)
take-within (suc k) (suc n) [] h = refl
take-within (suc k) (suc n) (c ∷ w) h = ap (◌∷◌ c) (take-within k n w (omega arith))

-- The bytes of the buffer between the old head and the new one.
in_front :
    (k : ℕ) (it : Iterator)
    → IsValid it
    → k < length (window it)
    → (b : Bytes) → b ≡ take (suc k) (window it)
    → take (length b) (drop (it.head + k + 1 - length b) it.buf) ≡ b
in_front k it v h b same =
    let size : length b ≡ suc k = ap length same ∙ length-take (suc k) (window it) (omega arith) in
    let back : it.head + k + 1 - suc k ≡ it.head = omega arith in
    rw (size, back)
      (sym (
          take-within (suc k) (it.tail - it.head) (drop it.head it.buf)
            (omega (arith, h, length-window it v)))
        ∙ sym same)

take_front : (n : ℕ) (s t : Bytes) → n ≤ length s → take n (s ++ t) ≡ take n s
take_front zero s t h = refl
take_front (suc n) [] t h = absurd (omega arith)
take_front (suc n) (c ∷ s) t h = ap (◌∷◌ c) (take_front n s t (omega arith))

nothing_copied : (s : Bytes) → (length s == 0) ≡ true → s ≡ []
nothing_copied [] h = refl
nothing_copied (c ∷ s) h = absurd (ground (arith, h))

module _ (format_int : ℕ → Bytes) where
  abbrev LoopReads : ℕ → Type 0
  LoopReads fuel =
      (copied : Bytes) (reading escapes : Bool) (b t : Bytes) (it : Iterator)
      → IsValid it
      → it.error ≡ none
      → Rest reading (remaining it) b t
      → Marked escapes copied
      → Flags reading escapes
      → length (remaining it) + loads it < fuel
      → ReadsRaw (copied ++ b) t it.depth (raw_loop format_int fuel copied reading escapes it)

  -- One round, by where the pass over the window ends.
  abbrev round : ℕ → Bytes → Iterator → RawEnd → RawString × Iterator
  round fuel copied it x = elim x [
    | at_quote k e ↦
        let bytes = take (suc k) (window it) in
        let it' = with_head (it.head + k + 1) it in
        if length copied == 0
        then (record { buf = some bytes; is_raw = true; has_escapes = e }, it')
        else (record { buf = some (copied ++ bytes); is_raw = false; has_escapes = e }, it')
    | at_unicode k e ↦
        let it1 = with_head (it.head + k + 1) it in
        let (digits, it2) = read_and_fill_u4 it1 in
        let (value, it3) = parse_u4 it1 in
        let filled =
          raw_loop format_int fuel (copied ++ take (suc k) (window it) ++ digits) false e it2 in
        let parsed = raw_loop format_int fuel (copied ++ take (k + 5) (window it)) false e it3 in
        if leb it.tail (it.head + k + 4) then filled else elim value [
          | none ↦
              (no_string, report_error "ReadRawString" "invalid unicode escape sequence" [] it3)
          | some _ ↦ parsed
        ]
    | at_control c ↦ (
      no_string,
      report_error "ReadRawString" "invalid control character found: " (format_int c) it,
    )
    | at_invalid ↦ (no_string, report_error "ReadRawString" "invalid escape char after \\" [] it)
    | at_end r e ↦
        let (c, it') = read_byte (with_head it.tail it) in
        let next = raw_loop format_int fuel (copied ++ window it) r e (unread_byte it') in
        if c == 0
        then (no_string, report_error "ReadRawString" "unexpected end of input" [] it')
        else next
  ]

  raw_loop-round :
      (fuel : ℕ) (copied : Bytes) (reading escapes : Bool) (it : Iterator)
      → it.error ≡ none
      → ltb (length it.buf) it.tail ≡ false
      → raw_loop format_int (suc fuel) copied reading escapes it
        ≡ round fuel copied it (scan_raw reading escapes (window it))
  unfolding raw_loop
  raw_loop-round fuel copied reading escapes it clear room =
      rw (clear, room, raw_loop)
        (ap (λ j. round fuel copied j (scan_raw reading escapes (window it)))
          (clear_record it clear))

  module _ (fuel : ℕ) (next : LoopReads fuel) (copied : Bytes) (escapes : Bool)
      (m : Marked escapes copied) (t : Bytes) (it : Iterator) (v : IsValid it)
      (clear : it.error ≡ none) (enough : length (remaining it) + loads it < suc fuel) where
    quote-ReadsRaw :
        (k : ℕ) (e : Bool) (b : Bytes)
        → Splits (window it) (to_load it) b t (at_quote k e)
        → Adds escapes e (take (suc k) (window it))
        → ReadsRaw (copied ++ b) t it.depth (round fuel copied it (at_quote k e))
    quote-ReadsRaw k e b (p, q, h) a =
        let marked = Marked-append escapes e copied (take (suc k) (window it)) m a in
        elim (Bool-cases (length copied == 0)) [
          | inl z ↦
              let same = ap (λ y. y ++ take (suc k) (window it)) (nothing_copied copied z) in
              rw (z, p, q)
                (record {
                  body = ap some (sym same);
                  marked = marked;
                  viewed = λ r. in_front k it v h (copied ++ take (suc k) (window it)) same;
                  seen = step_over k it v h;
                  clear = clear;
                  same_depth = refl;
                })
          | inr z ↦
              rw (z, p, q)
                (record {
                  body = refl;
                  marked = marked;
                  viewed = λ r. absurd (ground (arith, r));
                  seen = step_over k it v h;
                  clear = clear;
                  same_depth = refl;
                })
        ]

    end-ReadsRaw :
        (r e : Bool) (b : Bytes)
        → Rest r (to_load it) b t
        → Flags r e
        → Adds escapes e (window it)
        → ReadsRaw ((copied ++ window it) ++ b) t it.depth (round fuel copied it (at_end r e))
    end-ReadsRaw r e b d f a =
        let (c, rest, q, pos) = Rest-front r (to_load it) b t d in
        let x = read_byte-Next c rest it v clear q in
        let it' = unread_byte (read_byte (with_head it.tail it)).1 in
        let read =
          next (copied ++ window it) r e b t it' x.seen.valid x.clear
            (subst (λ y. Rest r y b t) (q ∙ sym x.seen.remains) d)
            (Marked-append escapes e copied (window it) m a) f
            (omega (
              arith,
              enough,
              length-remaining it,
              ap length q,
              ap length x.seen.remains,
              x.fewer,
            )) in
        rw (x.byte, pos)
          (record {
            body = read.body;
            marked = read.marked;
            viewed = read.viewed;
            seen = read.seen;
            clear = read.clear;
            same_depth = read.same_depth ∙ x.same_depth;
          })

    module _ (k h1 h2 h3 h4 value : ℕ) (r b' : Bytes) (hex : IsHex h1 h2 h3 h4 value)
        (p : drop (suc k) (window it) ++ to_load it ≡ h1 ∷ h2 ∷ h3 ∷ h4 ∷ r) (d : Body r b' t)
        (h : k < length (window it)) where
      abbrev at_digits : Iterator
      at_digits = with_head (it.head + k + 1) it

      abbrev hexes : Bytes
      hexes = h1 ∷ h2 ∷ h3 ∷ h4 ∷ []

      abbrev upto : Bytes
      upto = copied ++ take (suc k) (window it)

      sees : Sees (drop (suc k) (window it) ++ to_load it) at_digits
      sees = step_over k it v h

      count : length (remaining it) ≡ suc k + (4 + length r)
      count = omega (
        arith,
        length-remaining it,
        ap length p,
        length-append (drop (suc k) (window it)) (to_load it),
        length-drop (suc k) (window it),
      )

      Marked-hexes : Marked true (upto ++ hexes)
      Marked-hexes = inl refl

      -- The loop behind the digits, wherever they have been read from.
      go_on :
          (it' : Iterator)
          → Sees r it'
          → it'.error ≡ none
          → loads it' ≤ loads it
          → it'.depth ≡ it.depth
          → ReadsRaw
              (copied ++ take (suc k) (window it) ++ hexes ++ b')
              t
              it.depth
              (raw_loop format_int fuel (upto ++ hexes) false true it')
      go_on it' s ok l same =
          let read =
            next (upto ++ hexes) false true b' t it' s.valid ok
              (subst (λ y. Body y b' t) (sym s.remains) d) Marked-hexes (inl refl)
              (omega (arith, enough, count, ap length s.remains, l)) in
          record {
            body = read.body;
            marked = read.marked;
            viewed = read.viewed;
            seen = read.seen;
            clear = read.clear;
            same_depth = read.same_depth ∙ same;
          }

      parsed_bytes :
          4 ≤ it.tail - (it.head + k + 1) → copied ++ take (k + 5) (window it) ≡ upto ++ hexes
      parsed_bytes long =
          let enough_bytes : 4 ≤ length (drop (suc k) (window it)) =
            omega (arith, length-drop (suc k) (window it), length-window it v, long) in
          let n : k + 5 ≡ suc k + 4 = omega arith in
          let digits : take 4 (drop (suc k) (window it)) ≡ hexes =
            sym (take_front 4 (drop (suc k) (window it)) (to_load it) enough_bytes)
            ∙ ap (take 4) p in
          ap (λ (i : ℕ). copied ++ take i (window it)) n
          ∙ ap (λ y. copied ++ y)
              (take-take (suc k) 4 (window it) ∙ ap (λ y. take (suc k) (window it) ++ y) digits)
          ∙ sym (append_assoc copied (take (suc k) (window it)) hexes)

      parsed-Sees :
          4 ≤ at_digits.tail - at_digits.head → Sees r (with_head (at_digits.head + 4) at_digits)
      parsed-Sees long =
          let enough_bytes : 4 ≤ length (window at_digits) =
            omega (arith, length-window at_digits sees.valid, long) in
          let left : drop 4 (window at_digits) ++ to_load at_digits ≡ r =
            sym (drop-append 4 (window at_digits) (to_load at_digits) enough_bytes)
            ∙ ap (drop 4) (sees.remains ∙ p) in
          subst (λ y. Sees y (with_head (at_digits.head + 4) at_digits)) left
            (with_head-Sees 4 at_digits sees.valid enough_bytes)

      unicode-ReadsRaw :
          ReadsRaw
            (copied ++ take (suc k) (window it) ++ hexes ++ b')
            t
            it.depth
            (round fuel copied it (at_unicode k true))
      unicode-ReadsRaw = elim (Bool-cases (leb it.tail (it.head + k + 4))) [
        | inl across ↦
            let f = read_and_fill_u4-Fills hex r at_digits sees.valid clear (sees.remains ∙ p) in
            rw (across, f.bytes)
              (go_on (read_and_fill_u4 at_digits).1 f.seen f.clear f.loads_le f.same_depth)
        | inr inside ↦
            let long : 4 ≤ at_digits.tail - at_digits.head = ground (arith, inside) in
            let run = parse_u4-run hex r at_digits sees.valid clear (sees.remains ∙ p) long in
            rw (inside, run, run, parsed_bytes (omega (arith, long)))
              (go_on (with_head (at_digits.head + 4) at_digits) (parsed-Sees long) clear
                (omega arith) refl)
      ]

    round-ReadsRaw :
        (x : RawEnd) (b : Bytes)
        → Splits (window it) (to_load it) b t x
        → Marks escapes (window it) x
        → ReadsRaw (copied ++ b) t it.depth (round fuel copied it x)
    round-ReadsRaw (at_quote k e) b s a = quote-ReadsRaw k e b s a
    round-ReadsRaw (at_unicode k e) b (h1, h2, h3, h4, w, r, b', hex, p, q, d, h) a =
        let same =
          append_assoc (copied ++ take (suc k) (window it)) (h1 ∷ h2 ∷ h3 ∷ h4 ∷ []) b'
          ∙ append_assoc copied (take (suc k) (window it)) (h1 ∷ h2 ∷ h3 ∷ h4 ∷ b') in
        rw q (
          subst (λ y. ReadsRaw y t it.depth (round fuel copied it (at_unicode k e))) same
            (subst
              (λ f.
                ReadsRaw (copied ++ take (suc k) (window it) ++ (h1 ∷ h2 ∷ h3 ∷ h4 ∷ []) ++ b') t
                  it.depth (round fuel copied it (at_unicode k f)))
              (sym a) (unicode-ReadsRaw k h1 h2 h3 h4 w r b' hex p d h)))
    round-ReadsRaw (at_control c) b s a = absurd s
    round-ReadsRaw at_invalid b s a = absurd s
    round-ReadsRaw (at_end r e) b (b', p, d) (f, a) =
        rw (p, ← append_assoc copied (window it) b') (end-ReadsRaw r e b' d f a)

  raw_loop-ReadsRaw : (fuel : ℕ) → LoopReads fuel
  raw_loop-ReadsRaw zero copied reading escapes b t it v clear d m f h = absurd (omega arith)
  raw_loop-ReadsRaw (suc fuel) copied reading escapes b t it v clear d m f h =
      let room : ltb (length it.buf) it.tail ≡ false = ground (arith, v.tail_le) in
      rw (raw_loop-round fuel copied reading escapes it clear room) (
        round-ReadsRaw fuel (raw_loop-ReadsRaw fuel) copied escapes m t it v clear h
          (scan_raw reading escapes (window it)) b
          (scan_raw-Splits reading escapes (window it) (to_load it) b t d)
          (scan_raw-Marks reading escapes (window it) f))

  pub read_raw_string_inner-ReadsRaw :
      (it : Iterator) (b t : Bytes)
      → IsValid it
      → it.error ≡ none
      → Body (remaining it) b t
      → ReadsRaw b t it.depth (read_raw_string_inner format_int it)
  unfolding read_raw_string_inner
  read_raw_string_inner-ReadsRaw it b t v clear d =
      raw_loop-ReadsRaw (length (remaining it) + loads it + 1) [] false false b t it v clear d
        (inr tt) (inl refl) (omega arith)

  read_raw_string_quote :
      (it : Iterator)
      → (next_token it).0 ≡ b'"'
      → read_raw_string format_int it ≡ read_raw_string_inner format_int (next_token it).1
  unfolding read_raw_string
  read_raw_string_quote it e = rw e

  -- For an iterator in bounds and without an error, over any chunks, whose first byte behind
  -- white space is a quote, followed by the body b of a JSON string with its closing quote
  -- and then t: ReadRawString returns the bytes of b unchanged, whether they were in one
  -- window or were copied, leaves t, no error and the depth, and when it says that there are
  -- no escapes then b has no backslash.
  pub read_raw_string-ReadsRaw :
      (it : Iterator) (raw b t : Bytes)
      → IsValid it
      → it.error ≡ none
      → token (remaining it) ≡ some (b'"', raw)
      → Body raw b t
      → ReadsRaw b t it.depth (read_raw_string format_int it)
  read_raw_string-ReadsRaw it raw b t v clear e d =
      let took : Took b'"' raw it (next_token it) =
        subst (λ o. Takes o it (next_token it)) e (next_token-Takes it v) in
      let x =
        read_raw_string_inner-ReadsRaw (next_token it).1 b t took.seen.valid
          (took.same_error ∙ clear) (subst (λ y. Body y b t) (sym took.seen.remains) d) in
      rw (read_raw_string_quote it took.byte) (record {
        body = x.body;
        marked = x.marked;
        viewed = x.viewed;
        seen = x.seen;
        clear = x.clear;
        same_depth = x.same_depth ∙ took.same_depth;
      })
