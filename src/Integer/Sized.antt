-- ===== src/Integer/Sized.antt =====
-- ReadUint8 to ReadInt64 of iter_int.go. A signed result is its two's complement pattern's integer.
use jsoniter.Base.{ℕ, ◌+◌, ◌-◌, ◌^◌, String, Bytes, ltb, ◌==◌, if◌then◌else◌}
use jsoniter.Base.Int.{ℤ, pos, sub_ℕ}
use jsoniter.Iter.Defs.{Iterator, next_token, read_byte, report_error}
use jsoniter.Integer.Defs.{read_uint32_from, read_uint64_from}

unfoldable pub read_uint32 : Iterator → ℕ × Iterator
unfolding next_token read_uint32_from
read_uint32 it = let (c, it') = next_token it in read_uint32_from c it'

unfoldable pub read_uint64 : Iterator → ℕ × Iterator
unfolding next_token read_uint64_from
read_uint64 it = let (c, it') = next_token it in read_uint64_from c it'

-- -int8(val), where val is at most the bound of the test: at 128 the negation wraps to itself.
abbrev pub negate : ℕ → ℤ
negate val = sub_ℕ 0 val

-- strconv's decimal print is a parameter.
module _ (format_uint : ℕ → Bytes) where
  -- The common body of ReadUint8 and ReadUint16: the value, or an error above `max`.
  unfoldable pub checked_uint : String → ℕ → ℕ × Iterator → ℕ × Iterator
  checked_uint operation max (val, it) =
      if ltb max val
      then (0, report_error operation "overflow: " (format_uint val) it)
      else (val, it)

  unfoldable pub read_uint8 : Iterator → ℕ × Iterator
  unfolding checked_uint next_token read_uint32_from
  read_uint8 it =
      let (c, it') = next_token it in checked_uint "ReadUint8" 255 (read_uint32_from c it')

  unfoldable pub read_uint16 : Iterator → ℕ × Iterator
  unfolding checked_uint next_token read_uint32_from
  read_uint16 it =
      let (c, it') = next_token it in checked_uint "ReadUint16" 65535 (read_uint32_from c it')

  -- The common body of the signed readers, whose unsigned reader is `read`.
  unfoldable pub checked_int : String → ℕ → (ℕ → Iterator → ℕ × Iterator) → Iterator → ℤ × Iterator
  unfolding next_token read_byte report_error
  checked_int operation max read it =
      let (c, it') = next_token it in
      if c == b'-'
      then (let (d, it'') = read_byte it' in
          let (val, r) = read d it'' in
          if ltb (max + 1) val
          then (pos 0, report_error operation "overflow: " (format_uint val) r)
          else (negate val, r))
      else (let (val, r) = read c it' in
          if ltb max val
          then (pos 0, report_error operation "overflow: " (format_uint val) r)
          else (pos val, r))

  unfoldable pub read_int8 : Iterator → ℤ × Iterator
  unfolding checked_int read_uint32_from
  read_int8 = checked_int "ReadInt8" 127 read_uint32_from

  unfoldable pub read_int16 : Iterator → ℤ × Iterator
  unfolding checked_int read_uint32_from
  read_int16 = checked_int "ReadInt16" 32767 read_uint32_from

  unfoldable pub read_int32 : Iterator → ℤ × Iterator
  unfolding checked_int read_uint32_from
  read_int32 = checked_int "ReadInt32" (2 ^ 31 - 1) read_uint32_from

  unfoldable pub read_int64 : Iterator → ℤ × Iterator
  unfolding checked_int read_uint64_from
  read_int64 = checked_int "ReadInt64" (2 ^ 63 - 1) read_uint64_from

-- strconv.IntSize is 32 or 64.
unfoldable pub read_uint_of : ℕ → Iterator → ℕ × Iterator
unfolding read_uint32 read_uint64
read_uint_of int_size it = if int_size == 32 then read_uint32 it else read_uint64 it

unfoldable pub read_int_of : (ℕ → Bytes) → ℕ → Iterator → ℤ × Iterator
unfolding read_int32 read_int64
read_int_of format_uint int_size it =
    if int_size == 32 then read_int32 format_uint it else read_int64 format_uint it
