-- ===== src/Strict/Number.antt =====
-- ReadFloat64 and skipNumber on the text of a JSON number.
use jsoniter.Base.{
  ℕ, ◌+◌, ◌≡◌, ◌⊎◌, refl, ap, ◌∙◌, subst, inl, inr, Bool, true, false, ◌||◌, none, [], ◌++◌, Bytes,
  All, length, ltb, leb, if◌then◌else◌, arith, Bool-cases,
}
use jsoniter.Iter.Defs.{Iterator, window, with_head, unread_byte, report_error}
use jsoniter.Iter.View.{to_load, Sees, with_head-Sees}
use jsoniter.Iter.Token.{Took, unread_byte-Sees}
use jsoniter.Iter.Rounds.{unread_byte-depth}
use jsoniter.Float.Defs.{Floats, is_digit, is_failed, read_float, read_big_float}
use jsoniter.Float.Bytes.{IsNumberByte, Ends}
use jsoniter.Float.Reads.{digit-number}
use jsoniter.Strict.Grammar.{Unsigned-number, Dotted, Unsigned-Dotted}
use jsoniter.Strict.Defs.{
  NumberScan, valid_to, two_dots, no_digit, may_be_invalid, scan_number, try_skip_number,
  skip_number,
}
use jsoniter.Strict.Floats.{Leaves, Number, plain, minus, read_float-Leaves}
use jsoniter.Strict.Scan.{ScanAt, scan_number-ScanAt}

-- A number has been skipped, or the pass has left the iterator as it was.
abbrev Tried : Bytes → Iterator → Bool × Iterator → Type 0
Tried u it (true, it') = Leaves u it.depth it'
Tried u it (false, it') = it' ≡ it

try_skip_number-Tried :
    (s u : Bytes) (it : Iterator)
    → All IsNumberByte s
    → Ends u
    → Dotted false s
    → Sees (s ++ u) it
    → it.error ≡ none
    → Tried u it (try_skip_number it)
unfolding try_skip_number
try_skip_number-Tried s u it a h d sees clear =
    elim (Bool-cases (leb it.tail it.head || ltb (length it.buf) it.tail)) [
      | inl out ↦ rw out refl
      | inr inside ↦ rw inside (
          scanned (scan_number false true (window it))
            (scan_number-ScanAt (window it) (to_load it) s u false true a h d sees.remains))
    ]
  where
    scanned :
        (x : NumberScan)
        → ScanAt (window it) (to_load it) u x
        → Tried u it (elim x [
          | valid_to k ↦ (true, with_head (it.head + k) it)
          | two_dots ↦
              (true, report_error "validateNumber" "more than one dot found in number" [] it)
          | no_digit ↦ (true, report_error "validateNumber" "missing digit after dot" [] it)
          | may_be_invalid ↦ (false, it)
        ])
    scanned (valid_to k) (e, l) = record {
      seen = subst (λ t. Sees t (with_head (it.head + k) it)) e (with_head-Sees k it sees.valid l);
      clear = clear;
      same_depth = refl;
    }
    scanned two_dots x = absurd x
    scanned no_digit x = absurd x
    scanned may_be_invalid x = refl

Number-IsNumberByte : {ops : Floats} {c : ℕ} {s : Bytes} → Number ops c s → All IsNumberByte s
Number-IsNumberByte (plain x n p) = Unsigned-number n
Number-IsNumberByte (minus d r x m f n p) = rw f (digit-number d n.first, Unsigned-number n)

Number-Dotted : {ops : Floats} {c : ℕ} {s : Bytes} → Number ops c s → Dotted false s
Number-Dotted (plain x n p) = Unsigned-Dotted n
Number-Dotted (minus d r x m f n p) =
    let first : is_digit d ≡ true = ground (arith, n.first) in rw (f, first) (Unsigned-Dotted n)

unfailed :
    (a b c : Iterator)
    → a.error ≡ none
    → b.error ≡ none
    → (if is_failed a.error then a else if is_failed b.error then c else b) ≡ b
unfailed a b c f g =
    let p : is_failed a.error ≡ false = ap is_failed f in
    let q : is_failed b.error ≡ false = ap is_failed g in
    ap (λ t. if t then a else if is_failed b.error then c else b) p ∙ ap (λ t. if t then c else b) q

module _ (format_int : ℕ → Bytes) (f32 f64 : Floats) {B : Type 0}
    (parse_big : ℕ → Bytes → B ⊎ ℕ) where
  skip_number_done :
      (it : Iterator)
      → (try_skip_number it).0 ≡ true
      → skip_number format_int f32 f64 parse_big it ≡ (try_skip_number it).1
  unfolding skip_number
  skip_number_done it e = rw e refl

  skip_number_read :
      (it : Iterator)
      → try_skip_number it ≡ (false, it)
      → (unread_byte it).error ≡ none
      → (read_float f64 (unread_byte it)).1.error ≡ none
      → skip_number format_int f32 f64 parse_big it ≡ (read_float f64 (unread_byte it)).1
  unfolding skip_number
  skip_number_read it e f g = rw e (
      unfailed (unread_byte it) (read_float f64 (unread_byte it)).1
        (read_big_float parse_big (record (read_float f64 (unread_byte it)).1 { error = none })).1 f
        g)

  -- For a number of the byte c and then s, as in JSON and such that strconv.ParseFloat takes
  -- its unsigned part, and for a text u that starts with a byte that is not of a number: the
  -- strict skipNumber, behind the byte c that was read from an iterator without an error,
  -- over any chunks, leaves u, no error and the depth, whether the pass over the window
  -- decides or ReadFloat64 does.
  pub skip_number-Leaves :
      (c : ℕ) (s u : Bytes) (it : Iterator) (r : ℕ × Iterator)
      → Number f64 c s
      → Ends u
      → Took c (s ++ u) it r
      → it.error ≡ none
      → Leaves u it.depth (skip_number format_int f32 f64 parse_big r.1)
  skip_number-Leaves c s u it r n h took clear = tried (try_skip_number r.1) refl (
      try_skip_number-Tried s u r.1 (Number-IsNumberByte n) h (Number-Dotted n) took.seen
        (took.same_error ∙ clear))
    where
      tried :
          (x : Bool × Iterator)
          → try_skip_number r.1 ≡ x
          → Tried u r.1 x
          → Leaves u it.depth (skip_number format_int f32 f64 parse_big r.1)
      tried (true, it') e x =
          rw (skip_number_done r.1 (ap (λ y. y.0) e), e)
            (record { seen = x.seen; clear = x.clear; same_depth = x.same_depth ∙ took.same_depth })
      tried (false, it') e x =
          let (seen, ok, _) = unread_byte-Sees took clear in
          let y = read_float-Leaves f64 u h c s (unread_byte r.1) n seen ok in
          rw (skip_number_read r.1 (e ∙ ap (λ (i : Iterator). (false, i)) x) ok y.clear) (record {
            seen = y.seen;
            clear = y.clear;
            same_depth = y.same_depth ∙ unread_byte-depth r.1 ∙ took.same_depth;
          })
