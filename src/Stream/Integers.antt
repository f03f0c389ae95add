-- ===== src/Stream/Integers.antt =====
-- stream_int.go: the table of three digits and the writers that use it.
use jsoniter.Base.{ℕ, ◌+◌, ◌-◌, ◌*◌, ◌/◌, ◌%◌, ◌^◌, [], ◌∷◌, ◌++◌, Bytes, ltb, ◌==◌, if◌then◌else◌}
use jsoniter.Base.Int.{ℤ, pos, negsuc}
use jsoniter.Stream.Defs.{Stream, append}

-- digits[i]: three digits in the low bytes, the number of leading zeros in the top byte. The index
-- of a table of 1000 entries is below 1000 at each use.
unfoldable pub digits : ℕ → ℕ
digits i =
    let d = ((i / 100 + b'0') * 2 ^ 16 + (i / 10 % 10 + b'0') * 2 ^ 8 + i % 10 + b'0') % 2 ^ 32 in
    if ltb i 10
    then (d + 2 * 2 ^ 24) % 2 ^ 32
    else if ltb i 100
    then (d + 1 * 2 ^ 24) % 2 ^ 32
    else d

-- byte(v >> 16) and the like.
abbrev pub byte_at : ℕ → ℕ → ℕ
byte_at v shift = v / 2 ^ shift % 256

unfoldable pub write_first_buf : Bytes → ℕ → Bytes
write_first_buf space v =
    let start = v / 2 ^ 24 in
    let space' =
      if start == 0
      then space ++ byte_at v 16 ∷ byte_at v 8 ∷ []
      else if start == 1
      then space ++ byte_at v 8 ∷ []
      else space in
    space' ++ v % 256 ∷ []

unfoldable pub write_buf : Bytes → ℕ → Bytes
write_buf buf v = buf ++ byte_at v 16 ∷ byte_at v 8 ∷ v % 256 ∷ []

-- The functions below are over the buffer; `on_buffer` makes a method of one.
abbrev on_buffer : (Bytes → Bytes) → Stream → Stream
on_buffer f st = record st { buf = f st.buf }

unfoldable pub put_uint16 : ℕ → Bytes → Bytes
unfolding digits write_first_buf write_buf
put_uint16 val buf =
    let q1 = val / 1000 in
    if q1 == 0
    then write_first_buf buf (digits val)
    else write_buf (write_first_buf buf (digits q1)) (digits (val - q1 * 1000))

unfoldable pub put_uint32 : ℕ → Bytes → Bytes
unfolding digits write_first_buf write_buf
put_uint32 val buf =
    let q1 = val / 1000 in
    let r1 = val - q1 * 1000 in
    let q2 = q1 / 1000 in
    let r2 = q1 - q2 * 1000 in
    let q3 = q2 / 1000 in
    let r3 = q2 - q3 * 1000 in
    if q1 == 0
    then write_first_buf buf (digits val)
    else if q2 == 0
    then write_buf (write_first_buf buf (digits q1)) (digits r1)
    else (let buf' =
          if q3 == 0
          then write_first_buf buf (digits q2)
          else write_buf (buf ++ (q3 + b'0') % 256 ∷ []) (digits r3) in
        write_buf (write_buf buf' (digits r2)) (digits r1))

unfoldable pub put_uint64 : ℕ → Bytes → Bytes
unfolding digits write_first_buf write_buf
put_uint64 val buf =
    let q1 = val / 1000 in
    let r1 = val - q1 * 1000 in
    let q2 = q1 / 1000 in
    let r2 = q1 - q2 * 1000 in
    let q3 = q2 / 1000 in
    let r3 = q2 - q3 * 1000 in
    let q4 = q3 / 1000 in
    let r4 = q3 - q4 * 1000 in
    let q5 = q4 / 1000 in
    let r5 = q4 - q5 * 1000 in
    let q6 = q5 / 1000 in
    let r6 = q5 - q6 * 1000 in
    let first = λ (q : ℕ). write_first_buf buf (digits q) in
    let next = λ (b : Bytes) (r : ℕ). write_buf b (digits r) in
    if q1 == 0
    then first val
    else if q2 == 0
    then next (first q1) r1
    else if q3 == 0
    then next (next (first q2) r2) r1
    else if q4 == 0
    then next (next (next (first q3) r3) r2) r1
    else if q5 == 0
    then next (next (next (next (first q4) r4) r3) r2) r1
    else (let start = if q6 == 0 then first q5 else next (first q6) r6 in
        next (next (next (next (next start r5) r4) r3) r2) r1)

unfoldable pub write_uint8 : ℕ → Stream → Stream
unfolding digits write_first_buf
write_uint8 val = on_buffer λ buf. write_first_buf buf (digits val)

unfoldable pub write_uint16 : ℕ → Stream → Stream
unfolding put_uint16
write_uint16 val = on_buffer (put_uint16 val)

unfoldable pub write_uint32 : ℕ → Stream → Stream
unfolding put_uint32
write_uint32 val = on_buffer (put_uint32 val)

unfoldable pub write_uint64 : ℕ → Stream → Stream
unfolding put_uint64
write_uint64 val = on_buffer (put_uint64 val)

-- uint8(-nval) and the like, where the negative of the least integer wraps to itself: the magnitude.
unfoldable pub write_signed : (ℕ → Stream → Stream) → ℤ → Stream → Stream
write_signed unsigned (pos n) st = unsigned n st
write_signed unsigned (negsuc n) st = unsigned (n + 1) (append (b'-' ∷ []) st)

unfoldable pub write_int8 : ℤ → Stream → Stream
unfolding write_signed write_uint8
write_int8 = write_signed write_uint8

unfoldable pub write_int16 : ℤ → Stream → Stream
unfolding write_signed write_uint16
write_int16 = write_signed write_uint16

unfoldable pub write_int32 : ℤ → Stream → Stream
unfolding write_signed write_uint32
write_int32 = write_signed write_uint32

unfoldable pub write_int64 : ℤ → Stream → Stream
unfolding write_signed write_uint64
write_int64 = write_signed write_uint64

unfoldable pub write_int : ℤ → Stream → Stream
unfolding write_int64
write_int = write_int64

unfoldable pub write_uint : ℕ → Stream → Stream
unfolding write_uint64
write_uint = write_uint64
