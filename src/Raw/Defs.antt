-- ===== src/Raw/Defs.antt =====
-- RawString of rawstring.go, and the raw string reader of iter_str.go. A RawString is the bytes it
-- had when it was read; what a view of the buffer is after further reads is `view_in`.
use jsoniter.Base.{
  ℕ, zero, suc, ◌+◌, ◌-◌, Bool, true, false, not, Option, none, some, [], ◌∷◌, ◌++◌, Bytes, length,
  take, drop, replicate, ltb, leb, ◌==◌, if◌then◌else◌,
}
use jsoniter.Base.Int.{pos}
use jsoniter.Iter.Defs.{
  Iterator, window, loads, with_head, report_error, read_byte, unread_byte, next_token,
}
use jsoniter.Iter.View.{remaining}
use jsoniter.Text.Read.{
  Unicode, skip_three_bytes, hex_digit, parse_u4, simple_escape, read_string_inner,
}

-- `none` is the nil slice.
pub record RawString : Type 0 where
  pub buf : Option Bytes
  pub is_raw : Bool
  pub has_escapes : Bool

abbrev pub no_string : RawString
no_string = record { buf = none; is_raw = false; has_escapes = false }

unfoldable pub is_nil : RawString → Bool
is_nil r = elim r.buf [ none ↦ true | some _ ↦ false ]

-- The RawString left with the iterator at `it`, when the buffer is that of `now`: a view is the
-- bytes of the buffer in front of the head of `it`, whatever they are by then, and a copy stays.
unfoldable pub view_in : Iterator → RawString → Iterator → RawString
view_in it r now = elim r.buf [
  | none ↦ r
  | some b ↦
      if r.is_raw
      then record r { buf = some (take (length b) (drop (it.head - length b) now.buf)) }
      else r
]

-- A nil slice under isRaw becomes an empty one.
unfoldable pub realize : RawString → RawString
realize r =
    if r.is_raw
    then record r { buf = some (elim r.buf [ none ↦ [] | some b ↦ b ]); is_raw = false }
    else r

unfoldable pub raw_bytes : RawString → Option Bytes × Bool
raw_bytes r = (elim r.buf [ none ↦ none | some b ↦ some (take (length b - 1) b) ], r.is_raw)

unfoldable pub contains_escapes : RawString → Bool
contains_escapes r = r.has_escapes

-- The iterator that String makes for itself.
abbrev pub over : Bytes → Iterator
over b = record {
  reader = none;
  buf = b;
  head = 0;
  tail = length b;
  depth = pos 0;
  capture_started_at = pos 0;
  captured = none;
  input_offset = 0;
  error = none;
}

-- `none` is the panic.
unfoldable pub to_string : Unicode → (ℕ → Bytes) → RawString → Option Bytes
to_string u format_int r = elim r.buf [
  | none ↦ some []
  | some b ↦
      let (s, it) = read_string_inner u format_int (over b) in
      if not r.has_escapes
      then some (take (length b - 1) b)
      else elim it.error [ none ↦ some s | some _ ↦ none ]
]

-- The four bytes of readAndFillU4: those that are read, then zeros. Its value, which no caller
-- uses, is left out.
unfoldable pub fill_u4 : ℕ → Bytes → Iterator → Bytes × Iterator
fill_u4 zero filled it = (filled, it)
fill_u4 (suc n) filled it =
    let (c, it') = read_byte it in
    elim it'.error [
      | some _ ↦ (filled ++ replicate (suc n) 0, it')
      | none ↦ elim (hex_digit c) [
        | some d ↦ fill_u4 n (filled ++ c ∷ []) it'
        | none ↦ (filled ++ c ∷ replicate n 0, report_error "readU4" "invalid hex char" [] it')
      ]
    ]

unfoldable pub read_and_fill_u4 : Iterator → Bytes × Iterator
read_and_fill_u4 = fill_u4 4 []

-- Why the pass over the window ends, with the number of bytes before the byte where it does, and
-- whether a backslash has been seen; at the end of the window also whether an escape is open.
pub data RawEnd : Type 0 where
  at_quote : ℕ → Bool → RawEnd
  at_unicode : ℕ → Bool → RawEnd
  at_control : ℕ → RawEnd
  at_invalid : RawEnd
  at_end : Bool → Bool → RawEnd

abbrev pub later : RawEnd → RawEnd
later x = elim x [
  | at_quote k e ↦ at_quote (suc k) e
  | at_unicode k e ↦ at_unicode (suc k) e
  | at_control c ↦ at_control c
  | at_invalid ↦ at_invalid
  | at_end r e ↦ at_end r e
]

-- The flags are readingEscape and hasEscapes.
unfoldable pub scan_raw : Bool → Bool → Bytes → RawEnd
scan_raw reading escapes [] = at_end reading escapes
scan_raw reading escapes (c ∷ s) =
    let closed = later (scan_raw false escapes s) in
    let toggled = later (scan_raw (not reading) true s) in
    if c == b'"'
    then (if reading then closed else at_quote 0 escapes)
    else if c == b'\\'
    then toggled
    else if ltb c b' '
    then at_control c
    else if not reading
    then closed
    else elim (simple_escape c) [
      | some _ ↦ closed
      | none ↦ if c == b'u' then at_unicode 0 escapes else at_invalid
    ]

module _ (format_int : ℕ → Bytes) where
  -- A round of the outer loop for each call: the bytes copied, the flags, the iterator. A round
  -- reads a byte or a chunk.
  unfoldable pub raw_loop : ℕ → Bytes → Bool → Bool → Iterator → RawString × Iterator
  raw_loop zero copied reading escapes it = (no_string, it)
  raw_loop (suc fuel) copied reading escapes it = elim it.error [
    | some _ ↦ (no_string, report_error "ReadRawString" "unexpected end of input" [] it)
    | none ↦
        if ltb (length it.buf) it.tail
        then (no_string, it)
        else elim (scan_raw reading escapes (window it)) [
          | at_quote k e ↦
              let bytes = take (suc k) (window it) in
              let it' = with_head (it.head + k + 1) it in
              if length copied == 0
              then (record { buf = some bytes; is_raw = true; has_escapes = e }, it')
              else (record { buf = some (copied ++ bytes); is_raw = false; has_escapes = e }, it')
          | at_unicode k e ↦
              let it1 = with_head (it.head + k + 1) it in
              let (digits, it2) = read_and_fill_u4 it1 in
              let (value, it3) = parse_u4 it1 in
              let filled =
                raw_loop fuel (copied ++ take (suc k) (window it) ++ digits) false e it2 in
              let parsed = raw_loop fuel (copied ++ take (k + 5) (window it)) false e it3 in
              if leb it.tail (it.head + k + 4) then filled else elim value [
                | none ↦ (
                  no_string,
                  report_error "ReadRawString" "invalid unicode escape sequence" [] it3,
                )
                | some _ ↦ parsed
              ]
          | at_control c ↦ (
            no_string,
            report_error "ReadRawString" "invalid control character found: " (format_int c) it,
          )
          | at_invalid ↦
              (no_string, report_error "ReadRawString" "invalid escape char after \\" [] it)
          | at_end r e ↦
              let (c, it') = read_byte (with_head it.tail it) in
              let next = raw_loop fuel (copied ++ window it) r e (unread_byte it') in
              if c == 0
              then (no_string, report_error "ReadRawString" "unexpected end of input" [] it')
              else next
        ]
  ]

  unfoldable pub read_raw_string_inner : Iterator → RawString × Iterator
  read_raw_string_inner it = raw_loop (length (remaining it) + loads it + 1) [] false false it

  unfoldable pub read_raw_string : Iterator → RawString × Iterator
  read_raw_string it =
      let (c, it') = next_token it in
      if c == b'"'
      then read_raw_string_inner it'
      else if c == b'n'
      then (no_string, skip_three_bytes b'u' b'l' b'l' it')
      else (
        no_string,
        report_error "ReadRawString" "expects \" or n, but found " (c ∷ []) (unread_byte it'),
      )

  -- The bytes of the raw string, with their closing quote.
  unfoldable pub read_string_as_slice : Iterator → Option Bytes × Iterator
  read_string_as_slice it = let (rs, it') = read_raw_string it in (rs.buf, it')
