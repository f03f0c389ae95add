-- ===== src/RoundTrip/Signed.antt =====
-- The signed readers on what the signed writers append.
use jsoniter.Base.{
  ℕ, ◌+◌, ◌-◌, ◌^◌, ◌<◌, ◌≤◌, ◌≡◌, refl, ap, ◌∙◌, subst, String, false, Option, [], ◌∷◌, ◌++◌,
  Bytes, ltb, ◌==◌, if◌then◌else◌, arith,
}
use jsoniter.Base.Int.{ℤ, pos, negsuc}
use jsoniter.Iter.Defs.{Iterator, next_token, read_byte, report_error}
use jsoniter.Iter.View.{remaining, IsValid}
use jsoniter.Iter.Token.{token, Took, Takes, next_token-Takes}
use jsoniter.Integer.Defs.{Width, u32, u64, read_uint, read_uint32_from, read_uint64_from}
use jsoniter.Integer.Fast.{IsWide}
use jsoniter.Integer.Value.{IsDigit, EndsNumber, u32-IsWide, u64-IsWide}
use jsoniter.Integer.Sized.{negate, checked_int, read_int32, read_int64}
use jsoniter.Stream.Defs.{Writer, new_stream}
use jsoniter.Stream.Integers.{write_signed, write_int32, write_int64, write_uint32, write_uint64}
use jsoniter.Stream.Decimal.{IsDecimal, put_uint32-Appends, put_uint64-Appends}
use jsoniter.Text.Hex.{read_byte-Took}
use jsoniter.RoundTrip.Unsigned.{ReadsBack, read_uint-decimal, token_digit}

-- The integers of a signed type with largest value `max`.
abbrev pub Fits : ℕ → ℤ → Type 0
Fits max (pos n) = n ≤ max
Fits max (negsuc n) = n ≤ max

-- The print of an integer: a sign in front of the magnitude's decimal print.
abbrev pub IsSigned : ℤ → Bytes → Type 0
IsSigned (pos n) s = IsDecimal n s
IsSigned (negsuc n) [] = ⊥
IsSigned (negsuc n) (c ∷ s) = (c ≡ b'-') × IsDecimal (n + 1) s

not_minus : (c : ℕ) → IsDigit c → (c == b'-') ≡ false
not_minus c d = ground arith

negate_suc : (n : ℕ) → negate (n + 1) ≡ negsuc n
negate_suc n = ground arith

module _ (format_uint : ℕ → Bytes) (operation : String) (max : ℕ)
    (from : ℕ → Iterator → ℕ × Iterator) (it : Iterator) where
  abbrev accept_pos : ℕ × Iterator → ℤ × Iterator
  accept_pos (val, r) =
      if ltb max val
      then (pos 0, report_error operation "overflow: " (format_uint val) r)
      else (pos val, r)

  abbrev accept_neg : ℕ × Iterator → ℤ × Iterator
  accept_neg (val, r) =
      if ltb (max + 1) val
      then (pos 0, report_error operation "overflow: " (format_uint val) r)
      else (negate val, r)

  checked_positive :
      (c : ℕ)
      → (next_token it).0 ≡ c
      → (c == b'-') ≡ false
      → checked_int format_uint operation max from it ≡ accept_pos (from c (next_token it).1)
  unfolding checked_int
  checked_positive c e n = rw (e, n)

  checked_negative :
      (next_token it).0 ≡ b'-'
      → checked_int format_uint operation max from it
        ≡ accept_neg (from (read_byte (next_token it).1).0 (read_byte (next_token it).1).1)
  unfolding checked_int
  checked_negative e = rw e

  accept_pos_le : (r : ℕ × Iterator) (n : ℕ) → r.0 ≡ n → n ≤ max → accept_pos r ≡ (pos n, r.1)
  accept_pos_le r n e h = let b : ltb max n ≡ false = ground arith in rw (e, b)

  accept_neg_le :
      (r : ℕ × Iterator) (n : ℕ) → r.0 ≡ n + 1 → n ≤ max → accept_neg r ≡ (negsuc n, r.1)
  accept_neg_le r n e h =
      let b : ltb (max + 1) (n + 1) ≡ false = ground arith in rw (e, b, negate_suc n)

module _ (format_uint : ℕ → Bytes) (operation : String) (max : ℕ) (w : Width) (wide : IsWide w)
    (room : max + 1 < w.modulus) (it : Iterator) (v : IsValid it) (t : Bytes)
    (ends : EndsNumber t) where
  abbrev read : ℤ × Iterator
  read = checked_int format_uint operation max (read_uint w) it

  positive :
      (n : ℕ) (s : Bytes)
      → remaining it ≡ s ++ t
      → IsDecimal n s
      → n ≤ max
      → ReadsBack (pos n) t it read
  positive n [] e d h = absurd d
  positive n (c ∷ s) e d h =
      let took : Took c (s ++ t) it (next_token it) =
        subst (λ o. Takes o it (next_token it)) (ap token e ∙ token_digit c (s ++ t) d.0.0)
          (next_token-Takes it v) in
      let (value, left) =
        read_uint-decimal w wide c s t n (next_token it).1 it d ends (omega arith) took.seen
          took.same_error in
      rw
        (
          checked_positive format_uint operation max (read_uint w) it c took.byte
              (not_minus c d.0.0),
          accept_pos_le format_uint operation max (read_uint w) it (read_uint w c (next_token it).1)
              n value h,
        )
        (refl, left)

  negative :
      (n : ℕ) (s : Bytes)
      → remaining it ≡ (b'-' ∷ s) ++ t
      → IsDecimal (n + 1) s
      → n ≤ max
      → ReadsBack (negsuc n) t it read
  negative n [] e d h = absurd d
  negative n (c ∷ s) e d h =
      let took : Took b'-' (c ∷ s ++ t) it (next_token it) =
        subst (λ o. Takes o it (next_token it)) (ap token e) (next_token-Takes it v) in
      let it1 = (next_token it).1 in
      let took1 = read_byte-Took it1 took.seen.valid took.seen.remains in
      let (value, left) =
        read_uint-decimal w wide c s t (n + 1) (read_byte it1).1 it d ends (omega arith) took1.seen
          (took1.same_error ∙ took.same_error) in
      let first : read_uint w (read_byte it1).0 (read_byte it1).1
          ≡ read_uint w c (read_byte it1).1 =
        ap (λ b. read_uint w b (read_byte it1).1) took1.byte in
      rw
        (
          checked_negative format_uint operation max (read_uint w) it took.byte,
          first,
          accept_neg_le format_uint operation max (read_uint w) it (read_uint w c (read_byte it1).1)
              n value h,
        )
        (refl, left)

  signed-ReadsBack :
      (z : ℤ) (s : Bytes)
      → remaining it ≡ s ++ t
      → IsSigned z s
      → Fits max z
      → ReadsBack z t it read
  signed-ReadsBack (pos n) s e d h = positive n s e d h
  signed-ReadsBack (negsuc n) [] e d h = absurd d
  signed-ReadsBack (negsuc n) (c ∷ s) e d h = negative n s (e ∙ ap (λ x. (x ∷ s) ++ t) d.0) d.1 h

write_int64-IsSigned :
    (z : ℤ) (step : ℕ) (out : Option Writer)
    → Fits (2 ^ 63 - 1) z
    → IsSigned z (write_int64 z (new_stream step out)).buf
unfolding write_int64 write_signed write_uint64 new_stream
write_int64-IsSigned (pos n) step out h =
    let (s, e, d) = put_uint64-Appends n [] (omega arith) in rw e d
write_int64-IsSigned (negsuc n) step out h =
    let (s, e, d) = put_uint64-Appends (n + 1) (b'-' ∷ []) (omega arith) in rw e (refl, d)

write_int32-IsSigned :
    (z : ℤ) (step : ℕ) (out : Option Writer)
    → Fits (2 ^ 31 - 1) z
    → IsSigned z (write_int32 z (new_stream step out)).buf
unfolding write_int32 write_signed write_uint32 new_stream
write_int32-IsSigned (pos n) step out h =
    let (s, e, d) = put_uint32-Appends n [] (omega arith) in rw e d
write_int32-IsSigned (negsuc n) step out h =
    let (s, e, d) = put_uint32-Appends (n + 1) (b'-' ∷ []) (omega arith) in rw e (refl, d)

-- For every int64 z and an iterator in bounds whose remaining bytes are what WriteInt64
-- appends to a new stream and then t, where t does not go on with a digit: ReadInt64
-- returns z. It leaves t, and the error it had unless t starts with a point; for an empty t
-- only that the iterator is in bounds.
pub read_int64-write_int64 :
    (format_uint : ℕ → Bytes) (z : ℤ) (step : ℕ) (out : Option Writer) (t : Bytes) (it : Iterator)
    → Fits (2 ^ 63 - 1) z
    → IsValid it
    → remaining it ≡ (write_int64 z (new_stream step out)).buf ++ t
    → EndsNumber t
    → ReadsBack z t it (read_int64 format_uint it)
unfolding read_int64 read_uint64_from
read_int64-write_int64 format_uint z step out t it h v e ends =
    signed-ReadsBack format_uint "ReadInt64" (2 ^ 63 - 1) u64 u64-IsWide (omega arith) it v t ends z
      _ e (write_int64-IsSigned z step out h) h

-- For every int32 z and an iterator in bounds whose remaining bytes are what WriteInt32
-- appends to a new stream and then t, where t does not go on with a digit: ReadInt32
-- returns z. It leaves t, and the error it had unless t starts with a point; for an empty t
-- only that the iterator is in bounds.
pub read_int32-write_int32 :
    (format_uint : ℕ → Bytes) (z : ℤ) (step : ℕ) (out : Option Writer) (t : Bytes) (it : Iterator)
    → Fits (2 ^ 31 - 1) z
    → IsValid it
    → remaining it ≡ (write_int32 z (new_stream step out)).buf ++ t
    → EndsNumber t
    → ReadsBack z t it (read_int32 format_uint it)
unfolding read_int32 read_uint32_from
read_int32-write_int32 format_uint z step out t it h v e ends =
    signed-ReadsBack format_uint "ReadInt32" (2 ^ 31 - 1) u32 u32-IsWide (omega arith) it v t ends z
      _ e (write_int32-IsSigned z step out h) h
