-- ===== src/Iter/Defs.antt =====
-- The state and the operations of iter.go.
use jsoniter.Base.{
  ℕ, zero, suc, ◌+◌, ◌-◌, String, Bool, true, false, ◌&&◌, ◌||◌, Option, none, some, List, [], ◌∷◌,
  ◌++◌, Bytes, length, get_or, take, drop, replicate, ltb, leb, ◌==◌, if◌then◌else◌, min,
}
use jsoniter.Base.Int.{ℤ, pos, pos_part, ◌+ℤ◌, ◌-ℤ◌, lebℤ}

-- What ReportError formats: the operation, the message (its fixed text, then the bytes put behind
-- that text), and the position and the two excerpts of the buffer.
pub record Report : Type 0 where
  pub operation : String
  pub message : String
  pub detail : Bytes
  pub offset : ℕ
  pub parsing : Bytes
  pub context : Bytes

-- io.EOF, another error of the reader, or of strconv and math/big, an error made by ReportError, and
-- one that fmt.Errorf makes of another by a text in front of it.
pub data Error : Type 0 where
  eof : Error
  read_error : ℕ → Error
  reported : Report → Error
  wrapped : Bytes → Error → Error

-- One result of Read.
pub record Chunk : Type 0 where
  pub bytes : Bytes
  pub err : Option Error

-- captured is nil exactly when it is `none`.
pub record Iterator : Type 0 where
  pub reader : Option (List Chunk)
  pub buf : Bytes
  pub head : ℕ
  pub tail : ℕ
  pub depth : ℤ
  pub capture_started_at : ℤ
  pub captured : Option Bytes
  pub input_offset : ℕ
  pub error : Option Error

unfoldable pub parse : List Chunk → ℕ → Iterator
parse chunks buf_size = record {
  reader = some chunks;
  buf = replicate buf_size 0;
  head = 0;
  tail = 0;
  depth = pos 0;
  capture_started_at = pos 0;
  captured = none;
  input_offset = 0;
  error = none;
}

unfoldable pub parse_bytes : Bytes → Iterator
parse_bytes input = record {
  reader = none;
  buf = input;
  head = 0;
  tail = length input;
  depth = pos 0;
  capture_started_at = pos 0;
  captured = none;
  input_offset = 0;
  error = none;
}

unfoldable pub reset : List Chunk → Iterator → Iterator
reset chunks it = record it {
  reader = some chunks;
  head = 0;
  tail = 0;
  depth = pos 0;
  input_offset = 0;
}

unfoldable pub reset_bytes : Bytes → Iterator → Iterator
reset_bytes input it = record it {
  reader = none;
  buf = input;
  head = 0;
  tail = length input;
  depth = pos 0;
  input_offset = 0;
}

unfoldable pub input_offset_at : Iterator → ℕ
input_offset_at it = it.input_offset + it.head

-- buf[head:tail]
abbrev pub window : Iterator → Bytes
window it = take (it.tail - it.head) (drop it.head it.buf)

-- What the reader returned by Buffered holds.
unfoldable pub buffered : Iterator → Bytes
buffered it = window it

abbrev pub with_head : ℕ → Iterator → Iterator
with_head h it = record it { head = h }

-- The number of Read results that are left.
abbrev pub loads : Iterator → ℕ
loads it = elim it.reader [ none ↦ 0 | some chunks ↦ length chunks ]

excerpt : ℕ → Iterator → Bytes
excerpt n it =
    let start = it.head - n in take (min (it.head + n) it.tail - start) (drop start it.buf)

pub make_report : String → String → Bytes → Iterator → Report
unfolding excerpt
make_report operation message detail it = record {
  operation = operation;
  message = message;
  detail = detail;
  offset = it.head - (it.head - 10);
  parsing = excerpt 10 it;
  context = excerpt 50 it;
}

-- An error that is not io.EOF stays.
unfoldable pub report_error : String → String → Bytes → Iterator → Iterator
unfolding make_report
report_error operation message detail it = elim it.error [
  | none ↦ record it { error = some (reported (make_report operation message detail it)) }
  | some eof ↦ record it { error = some (reported (make_report operation message detail it)) }
  | some _ ↦ it
]

-- Read puts its bytes at the front of the buffer.
abbrev pub overwrite : Bytes → Bytes → Bytes
overwrite bytes buf = bytes ++ drop (length bytes) buf

abbrev pub keep_error : Error → Iterator → Iterator
keep_error e it = elim it.error [ none ↦ record it { error = some e } | some _ ↦ it ]

-- The loop round Read: a result of 0 bytes and no error is tried again.
unfoldable pub read_loop : List Chunk → Iterator → Bool × Iterator
read_loop [] it = (false, record (keep_error eof it) { reader = some [] })
read_loop (c ∷ cs) it =
    if length c.bytes == 0
    then elim c.err [
      | none ↦ read_loop cs it
      | some e ↦ (false, record (keep_error e it) { reader = some cs })
    ]
    else (
      true,
      record it {
        reader = some cs;
        buf = overwrite c.bytes it.buf;
        input_offset = it.input_offset + it.tail;
        head = 0;
        tail = length c.bytes;
      },
    )

-- What a running capture keeps before the buffer is overwritten.
unfoldable pub capture : Iterator → Iterator
capture it = elim it.captured [
  | none ↦ it
  | some bytes ↦
      let from = pos_part it.capture_started_at in
      record it {
        captured = some (bytes ++ take (it.tail - from) (drop from it.buf));
        capture_started_at = pos 0;
      }
]

unfoldable pub no_reader : Iterator → Iterator
no_reader it = elim it.error [ none ↦ record it { head = it.tail; error = some eof } | some _ ↦ it ]

unfoldable pub load_more : Iterator → Bool × Iterator
unfolding read_loop capture no_reader
load_more it = elim it.reader [
  | none ↦ (false, no_reader it)
  | some chunks ↦ read_loop chunks (capture it)
]

abbrev pub is_space : ℕ → Bool
is_space c = c == b' ' || c == 10 || c == 9 || c == 13

-- The first byte that is not white space, behind the number of bytes before it.
unfoldable pub first_token : Bytes → Option (ℕ × ℕ)
first_token [] = none
first_token (c ∷ s) =
    let rest : Option (ℕ × ℕ) = elim (first_token s) [
      | none ↦ none
      | some (n, d) ↦ some (suc n, d)
    ] in
    if is_space c then rest else some (0, c)

-- A round for each window; every load uses up a Read result, so `loads` bounds the rounds.
unfoldable pub next_token_loop : ℕ → Iterator → ℕ × Iterator
next_token_loop zero it = (0, it)
next_token_loop (suc fuel) it = elim (first_token (window it)) [
  | some (n, c) ↦ (c, with_head (it.head + n + 1) it)
  | none ↦
      let (more, it') = load_more it in
      elim more [ true ↦ next_token_loop fuel it' | false ↦ (0, it') ]
]

unfoldable pub next_token : Iterator → ℕ × Iterator
unfolding first_token next_token_loop load_more
next_token it = next_token_loop (loads it + 1) it

unfoldable pub is_next_token_buffered : Iterator → Bool × Iterator
unfolding first_token
is_next_token_buffered it =
    if leb it.tail it.head || ltb (length it.buf) it.tail
    then (false, it)
    else elim (first_token (window it)) [
      | none ↦ (false, it)
      | some (n, c) ↦ (true, with_head (it.head + n) it)
    ]

unfoldable pub read_byte : Iterator → ℕ × Iterator
unfolding load_more
read_byte it =
    let (more, it') = load_more it in
    if it.head == it.tail
    then elim more [
      | true ↦ (get_or it'.buf it'.head 0, with_head (it'.head + 1) it')
      | false ↦ (0, it')
    ]
    else (get_or it.buf it.head 0, with_head (it.head + 1) it)

-- Every caller has moved head forward since the buffer was loaded, so head is positive here.
unfoldable pub unread_byte : Iterator → Iterator
unread_byte it = elim it.error [ none ↦ with_head (it.head - 1) it | some _ ↦ it ]

abbrev pub max_depth : ℕ
max_depth = 10000

unfoldable pub increment_depth : Iterator → Bool × Iterator
unfolding report_error
increment_depth it =
    let it' = record it { depth = it.depth +ℤ pos 1 } in
    if lebℤ it'.depth (pos max_depth)
    then (true, it')
    else (false, report_error "incrementDepth" "exceeded max depth" [] it')

unfoldable pub decrement_depth : Iterator → Bool × Iterator
unfolding report_error
decrement_depth it =
    let it' = record it { depth = it.depth -ℤ pos 1 } in
    if lebℤ (pos 0) it'.depth
    then (true, it')
    else (false, report_error "decrementDepth" "unexpected negative nesting" [] it')

pub data ValueType : Type 0 where
  invalid_value string_value number_value nil_value bool_value array_value object_value : ValueType

unfoldable pub value_types : ℕ → ValueType
value_types c =
    if c == b'"'
    then string_value
    else if c == b'-' || leb b'0' c && leb c b'9'
    then number_value
    else if c == b't' || c == b'f'
    then bool_value
    else if c == b'n'
    then nil_value
    else if c == b'['
    then array_value
    else if c == b'{'
    then object_value
    else invalid_value

unfoldable pub what_is_next : Iterator → ValueType × Iterator
unfolding next_token unread_byte value_types
what_is_next it = let (c, it') = next_token it in (value_types c, unread_byte it')
