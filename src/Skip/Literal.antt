-- ===== src/Skip/Literal.antt =====
-- ReadNil, ReadBool and the captures of iter_skip.go, and ReadArray of iter_array.go.
use jsoniter.Base.{
  ℕ, ◌-◌, Bool, true, false, Option, none, some, [], ◌∷◌, ◌++◌, Bytes, take, drop, ◌==◌,
  if◌then◌else◌,
}
use jsoniter.Base.Int.{pos, negsuc, pos_part}
use jsoniter.Iter.Defs.{Iterator, next_token, unread_byte, report_error}
use jsoniter.Text.Read.{skip_three_bytes, skip_four_bytes}

unfoldable pub read_nil : Iterator → Bool × Iterator
read_nil it =
    let (c, it') = next_token it in
    if c == b'n' then (true, skip_three_bytes b'u' b'l' b'l' it') else (false, unread_byte it')

unfoldable pub read_bool : Iterator → Bool × Iterator
read_bool it =
    let (c, it') = next_token it in
    if c == b't'
    then (true, skip_three_bytes b'r' b'u' b'e' it')
    else if c == b'f'
    then (false, skip_four_bytes b'a' b'l' b's' b'e' it')
    else (false, report_error "ReadBool" "expect t or f, but found " (c ∷ []) it')

-- `none` is the panic "already in capture mode".
unfoldable pub start_capture_to : Option Bytes → ℕ → Iterator → Option Iterator
start_capture_to buf started_at it = elim it.captured [
  | some _ ↦ none
  | none ↦ some (record it { capture_started_at = pos started_at; captured = buf })
]

unfoldable pub start_capture : ℕ → Iterator → Option Iterator
start_capture started_at it = start_capture_to (some []) started_at it

-- `none` is the panic "not in capture mode".
unfoldable pub stop_capture : Iterator → Option (Bytes × Iterator)
stop_capture it = elim it.captured [
  | none ↦ none
  | some bytes ↦
      let from = pos_part it.capture_started_at in
      some (
        bytes ++ take (it.head - from) (drop from it.buf),
        record it { capture_started_at = negsuc 0; captured = none },
      )
]

unfoldable pub read_array : Iterator → Bool × Iterator
read_array it =
    let (c, it') = next_token it in
    let (c', it'') = next_token it' in
    if c == b'n'
    then (false, skip_three_bytes b'u' b'l' b'l' it')
    else if c == b'['
    then (if c' == b']' then (false, it'') else (true, unread_byte it''))
    else if c == b']'
    then (false, it')
    else if c == b','
    then (true, it')
    else (
      false,
      report_error "ReadArray" "expect [ or , or ] or n, but found " (c ∷ []) (unread_byte it'),
    )

unfoldable pub is_object_end : Iterator → Bool × Iterator
is_object_end it =
    let (c, it') = next_token it in
    if c == b',' then (false, it') else if c == b'}' then (true, it') else (
      true,
      report_error "isObjectEnd" "object ended prematurely, unexpected char " (c ∷ [])
          (unread_byte it'),
    )

unfoldable pub read_object_start : Iterator → Bool × Iterator
read_object_start it =
    let (c, it') = next_token it in
    let (c', it'') = next_token it' in
    if c == b'{'
    then (if c' == b'}' then (false, it'') else (true, unread_byte it''))
    else if c == b'n'
    then (false, skip_three_bytes b'u' b'l' b'l' it')
    else (false, report_error "readObjectStart" "expect { or n, but found " (c ∷ []) it')
