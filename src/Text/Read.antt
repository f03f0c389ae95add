-- ===== src/Text/Read.antt =====
-- ReadString of iter_str.go, with the literals of iter_skip.go that it needs.
use Prim.Native.Nat.{bit_or}
use jsoniter.Base.{
  ℕ, zero, suc, ◌+◌, ◌-◌, ◌*◌, ◌%◌, Bool, ◌||◌, Option, none, some, [], ◌∷◌, ◌++◌, Bytes, length,
  get_or, take, ltb, leb, ◌==◌, if◌then◌else◌,
}
use jsoniter.Iter.Defs.{
  Iterator, window, loads, with_head, report_error, read_byte, unread_byte, next_token,
}
use jsoniter.Iter.View.{remaining}

-- What Go's utf16 and utf8 packages give: utf16.IsSurrogate, utf16.DecodeRune, and the bytes that
-- strings.Builder's WriteRune appends.
pub record Unicode : Type 0 where
  pub is_surrogate : ℕ → Bool
  pub decode_pair : ℕ → ℕ → ℕ
  pub encode_rune : ℕ → Bytes

unfoldable pub skip_three_bytes : ℕ → ℕ → ℕ → Iterator → Iterator
skip_three_bytes b1 b2 b3 it =
    let fail = report_error "skipThreeBytes" "expect " (b1 ∷ b2 ∷ b3 ∷ []) in
    let (c1, it1) = read_byte it in
    let (c2, it2) = read_byte it1 in
    let (c3, it3) = read_byte it2 in
    if c1 == b1
    then (if c2 == b2 then (if c3 == b3 then it3 else fail it3) else fail it2)
    else fail it1

unfoldable pub skip_four_bytes : ℕ → ℕ → ℕ → ℕ → Iterator → Iterator
skip_four_bytes b1 b2 b3 b4 it =
    let fail = report_error "skipFourBytes" "expect " (b1 ∷ b2 ∷ b3 ∷ b4 ∷ []) in
    let (c1, it1) = read_byte it in
    let (c2, it2) = read_byte it1 in
    let (c3, it3) = read_byte it2 in
    let (c4, it4) = read_byte it3 in
    if c1 == b1
    then (if c2 == b2
        then (if c3 == b3 then (if c4 == b4 then it4 else fail it4) else fail it3)
        else fail it2)
    else fail it1

-- The value of a hexadecimal digit, by the arithmetic on bytes of parseU4.
unfoldable pub hex_digit : ℕ → Option ℕ
hex_digit b =
    let c = (b + 256 - b'0') % 256 in
    let d = (bit_or c 0x20 + 256 - 49) % 256 in
    if leb c 9 then some c else if leb d 5 then some (d + 10) else none

-- parseU4 on the four bytes under head; `none` is -1.
unfoldable pub parse_u4 : Iterator → Option ℕ × Iterator
parse_u4 it =
    let digit = λ (k : ℕ). hex_digit (get_or it.buf (it.head + k) 0) in
    if ltb (length it.buf) (it.head + 4) then (none, it) else elim (digit 0) [
      | none ↦ (none, it)
      | some a ↦ elim (digit 1) [
        | none ↦ (none, it)
        | some b ↦ elim (digit 2) [
          | none ↦ (none, it)
          | some c ↦ elim (digit 3) [
            | none ↦ (none, it)
            | some d ↦ (some (((a * 16 + b) * 16 + c) * 16 + d), with_head (it.head + 4) it)
          ]
        ]
      ]
    ]

-- The loop of readU4 over readByte: the rounds left and the value so far. A result under an error
-- is the value so far.
unfoldable pub read_u4_bytes : ℕ → ℕ → Iterator → ℕ × Iterator
read_u4_bytes zero ret it = (ret, it)
read_u4_bytes (suc n) ret it =
    let (c, it') = read_byte it in
    elim it'.error [
      | some _ ↦ (ret, it')
      | none ↦ elim (hex_digit c) [
        | some d ↦ read_u4_bytes n (ret * 16 + d) it'
        | none ↦ (ret, report_error "readU4" "invalid hex char" [] it')
      ]
    ]

unfoldable pub read_u4 : Iterator → ℕ × Iterator
read_u4 it =
    let (r, it') = parse_u4 it in
    if leb 4 (it.tail - it.head)
    then elim r [ none ↦ (0, report_error "readU4" "invalid hex char" [] it') | some v ↦ (v, it') ]
    else read_u4_bytes 4 0 it

-- The byte that a one-letter escape stands for.
unfoldable pub simple_escape : ℕ → Option ℕ
simple_escape c =
    if c == b'"' || c == b'\\' || c == b'/'
    then some c
    else if c == b'b'
    then some 8
    else if c == b'f'
    then some 12
    else if c == b'n'
    then some 10
    else if c == b'r'
    then some 13
    else if c == b't'
    then some 9
    else none

module _ (u : Unicode) where
  -- The switch of readEscapedChar, but for the case 'u'.
  unfoldable pub escape_letter : ℕ → Bytes → Iterator → Bytes × Iterator
  escape_letter c sb it = elim (simple_escape c) [
    | some b ↦ (sb ++ b ∷ [], it)
    | none ↦ (sb, report_error "readEscapedChar" "invalid escape char after \\" [] it)
  ]

  -- The second half of a surrogate pair, behind the escape of `r`. The jump back to the switch is
  -- taken with a letter other than 'u'.
  unfoldable pub second_half : ℕ → Bytes → Iterator → Bytes × Iterator
  second_half r sb it =
      let (c, it1) = read_byte it in
      let (c', it2) = read_byte it1 in
      let (r2, it3) = read_u4 it2 in
      let combined = u.decode_pair r r2 in
      elim it1.error [
        | some _ ↦ (sb, it1)
        | none ↦
            if c == b'\\'
            then elim it2.error [
              | some _ ↦ (sb, it2)
              | none ↦
                  if c' == b'u'
                  then elim it3.error [
                    | some _ ↦ (sb, it3)
                    | none ↦
                        if combined == 0xfffd
                        then (sb ++ u.encode_rune r ++ u.encode_rune r2, it3)
                        else (sb ++ u.encode_rune combined, it3)
                  ]
                  else escape_letter c' (sb ++ u.encode_rune r) it2
            ]
            else (sb ++ u.encode_rune r, unread_byte it1)
      ]

  unfoldable pub read_escaped_char : Bytes → Iterator → Bytes × Iterator
  read_escaped_char sb it =
      let (c, it1) = read_byte it in
      let (r, it2) = read_u4 it1 in
      if c == b'u'
      then (if u.is_surrogate r
          then second_half r sb it2
          else elim it2.error [ none ↦ (sb ++ u.encode_rune r, it2) | some _ ↦ (sb, it2) ])
      else escape_letter c sb it1

-- Why the pass of readStringInner over the window ends, with the number of bytes before the end.
pub data Found : Type 0 where
  quote : ℕ → Found
  backslash : ℕ → Found
  control : ℕ → Found
  ended : Found

unfoldable pub scan_string : Bytes → Found
scan_string [] = ended
scan_string (c ∷ s) =
    let more : Found = elim (scan_string s) [
      | quote k ↦ quote (suc k)
      | backslash k ↦ backslash (suc k)
      | control d ↦ control d
      | ended ↦ ended
    ] in
    if c == b'"'
    then quote 0
    else if c == b'\\'
    then backslash 0
    else if ltb c b' '
    then control c
    else more

module _ (u : Unicode) (format_int : ℕ → Bytes) where
  -- A round of the outer loop for each call. A round reads a byte or a chunk.
  unfoldable pub string_loop : ℕ → Bytes → Iterator → Bytes × Iterator
  string_loop zero sb it = ([], it)
  string_loop (suc fuel) sb it = elim it.error [
    | some _ ↦ ([], report_error "ReadString" "unexpected end of input" [] it)
    | none ↦ if ltb (length it.buf) it.tail then ([], it) else elim (scan_string (window it)) [
      | quote k ↦ (sb ++ take k (window it), with_head (it.head + k + 1) it)
      | backslash k ↦
          let (sb', it') =
            read_escaped_char u (sb ++ take k (window it)) (with_head (it.head + k + 1) it) in
          string_loop fuel sb' it'
      | control c ↦
          ([], report_error "ReadString" "invalid control character found: " (format_int c) it)
      | ended ↦
          let (c, it') = read_byte (with_head it.tail it) in
          let next = string_loop fuel (sb ++ window it) (unread_byte it') in
          if c == 0 then ([], report_error "ReadString" "unexpected end of input" [] it') else next
    ]
  ]

  unfoldable pub read_string_inner : Iterator → Bytes × Iterator
  read_string_inner it = string_loop (length (remaining it) + loads it + 1) [] it

  unfoldable pub read_string : Iterator → Bytes × Iterator
  read_string it =
      let (c, it') = next_token it in
      if c == b'"'
      then read_string_inner it'
      else if c == b'n'
      then ([], skip_three_bytes b'u' b'l' b'l' it')
      else ([], report_error "ReadString" "expects \" or n, but found " (c ∷ []) (unread_byte it'))
