-- ===== src/RoundTrip/Unsigned.antt =====
-- The unsigned readers on decimal prints, and on what the unsigned writers append.
use jsoniter.Base.{
  ℕ, suc, ◌-◌, ◌^◌, ◌<◌, ◌≡◌, ◌⊎◌, sym, ap, ◌∙◌, subst, inl, inr, true, ◌&&◌, Option, some, [], ◌∷◌,
  ◌++◌, Bytes, get_or, ltb, ◌==◌, arith, Bool-cases, ==_iff,
}
use jsoniter.Iter.Defs.{Iterator, next_token, report_error}
use jsoniter.Iter.Report.{report_error-IsValid, report_error-Sees}
use jsoniter.Iter.View.{to_load, remaining, IsValid, Sees}
use jsoniter.Iter.Token.{token, Took, Takes, next_token-Takes, slice-cons}
use jsoniter.Integer.Defs.{
  Width, u32, u64, int_digits, assert_integer, read_uint, read_uint32_from, read_uint64_from,
}
use jsoniter.Integer.Digits.{number, digits_of, Reads}
use jsoniter.Integer.Fast.{IsWide, read_uint-Reads}
use jsoniter.Integer.Value.{
  IsDigit, decimal, EndsNumber, int_digits_digit, digits_of-decimal, u32-IsWide, u64-IsWide,
}
use jsoniter.Integer.Sized.{read_uint32, read_uint64}
use jsoniter.Stream.Defs.{Writer, new_stream}
use jsoniter.Stream.Integers.{write_uint64}
use jsoniter.Stream.Decimal.{IsDecimal, put_uint64-Appends}

-- What a reader leaves before `t`: the bytes of `t`, and no new error unless `t` makes a float.
abbrev pub Leaves : Bytes → Iterator → Iterator → Type 0
Leaves [] base it = IsValid it
Leaves (b ∷ t) base it = Sees (b ∷ t) it × ((b ≡ b'.') ⊎ (it.error ≡ base.error))

abbrev pub ReadsBack {ℓ} : {A : Type ℓ} → A → Bytes → Iterator → A × Iterator → Type ℓ
ReadsBack n t base r = (r.0 ≡ n) × Leaves t base r.1

front_byte :
    (it : Iterator)
    → IsValid it
    → it.head < it.tail
    → {b : ℕ} {t : Bytes} → remaining it ≡ b ∷ t
    → get_or it.buf it.head 0 ≡ b
front_byte it v h {b} {t} e =
    let front =
      slice-cons it.head (it.tail - it.head) it.buf (omega arith) (omega (arith, v.tail_le)) in
    cc (e, ap (λ w. w ++ to_load it) front)

assert_integer-Leaves :
    (t : Bytes) (it base : Iterator)
    → Sees t it
    → it.error ≡ base.error
    → Leaves t base (assert_integer it)
unfolding assert_integer
assert_integer-Leaves t it base s e =
    elim (Bool-cases (ltb it.head it.tail && get_or it.buf it.head 0 == b'.')) [
      | inl dot ↦ rw dot (at_dot t s dot)
      | inr other ↦ rw other (elsewhere t s)
    ]
  where
    failing : Iterator
    failing = report_error "assertInteger" "can not decode float as int" [] it

    at_dot :
        (t : Bytes)
        → Sees t it
        → (ltb it.head it.tail && get_or it.buf it.head 0 == b'.') ≡ true
        → Leaves t base failing
    at_dot [] s d = report_error-IsValid "assertInteger" "can not decode float as int" [] it s.valid
    at_dot (b ∷ t) s d = (
      report_error-Sees "assertInteger" "can not decode float as int" [] it (b ∷ t) s,
      inl (ground (arith, front_byte it s.valid (ground arith) s.remains)),
    )

    elsewhere : (t : Bytes) → Sees t it → Leaves t base it
    elsewhere [] s = s.valid
    elsewhere (b ∷ t) s = (s, inr e)

Reads-ReadsBack :
    (n : ℕ) (t : Bytes) (a b : Iterator) (r : ℕ × Iterator)
    → a.error ≡ b.error
    → Reads (number n t) a r
    → ReadsBack n t b r
Reads-ReadsBack n [] a b r e (v, f) = (v, f.valid)
Reads-ReadsBack n (c ∷ t) a b r e (v, s, inl (dot, _)) = (v, (s, inl dot))
Reads-ReadsBack n (c ∷ t) a b r e (v, s, inr (_, same)) = (v, (s, inr (same ∙ e)))

read_uint_zero :
    (w : Width) (c : ℕ) (it : Iterator) → c ≡ b'0' → read_uint w c it ≡ (0, assert_integer it)
unfolding read_uint int_digits
read_uint_zero w c it e = rw e

single : (c : ℕ) (s : Bytes) → c ≡ b'0' → s ≡ [] → decimal 0 (c ∷ s) ≡ 0
single c s e f = rw f (omega arith)

-- Behind the first digit `c`, which is in front of the bytes that remain.
pub read_uint-decimal :
    (w : Width)
    → IsWide w
    → (c : ℕ) (s t : Bytes) (n : ℕ) (it base : Iterator) → IsDecimal n (c ∷ s)
    → EndsNumber t
    → n < w.modulus
    → Sees (s ++ t) it
    → it.error ≡ base.error
    → ReadsBack n t base (read_uint w c it)
read_uint-decimal w wide c s t n it base (g, v, z) ends fits sees e =
    elim (Bool-cases (c == b'0')) [
      | inl zero_first ↦
          let f : c ≡ b'0' = (==_iff c b'0').0 zero_first in
          let alone : s ≡ [] = elim z [ inl first ↦ absurd (first f) | inr e ↦ e ] in
          let m : n ≡ 0 = sym v ∙ single c s f alone in
          let sees' : Sees t it = subst (λ x. Sees (x ++ t) it) alone sees in
          rw (read_uint_zero w c it f) (sym m, assert_integer-Leaves t it base sees' e)
      | inr other ↦
          let first : int_digits c ≡ some (suc (c - b'1')) =
            int_digits_digit c g.0 ∙ ap some (ground arith) in
          let value : decimal (suc (c - b'1')) s ≡ n =
            ap (λ (m : ℕ). decimal m s) (ground (arith, g.0)) ∙ v in
          let reading : digits_of w (suc (c - b'1')) (remaining it) ≡ number n t =
            ap (digits_of w (suc (c - b'1'))) sees.remains
            ∙ digits_of-decimal w (suc (c - b'1')) s t g.1 ends (omega arith)
            ∙ ap (λ (m : ℕ). number m t) value in
          Reads-ReadsBack n t it base (read_uint w c it) e (
            subst (λ q. Reads q it (read_uint w c it)) reading
              (read_uint-Reads w it wide sees.valid c (c - b'1') first))
    ]

-- A digit is no white space.
pub token_digit : (c : ℕ) (s : Bytes) → IsDigit c → token (c ∷ s) ≡ some (c, s)
token_digit c s d = ground arith

read_token-decimal :
    (w : Width)
    → IsWide w
    → (n : ℕ) (s t : Bytes) (it : Iterator) → IsValid it
    → remaining it ≡ s ++ t
    → IsDecimal n s
    → EndsNumber t
    → n < w.modulus
    → ReadsBack n t it (read_uint w (next_token it).0 (next_token it).1)
read_token-decimal w wide n [] t it v e d ends fits = absurd d
read_token-decimal w wide n (c ∷ s) t it v e d ends fits =
    let took : Took c (s ++ t) it (next_token it) =
      subst (λ o. Takes o it (next_token it)) (ap token e ∙ token_digit c (s ++ t) d.0.0)
        (next_token-Takes it v) in
    rw took.byte
      (read_uint-decimal w wide c s t n (next_token it).1 it d ends fits took.seen took.same_error)

-- For n below 2^64 and an iterator in bounds whose remaining bytes are a decimal print of
-- n, without a leading zero, and then t, where t does not go on with a digit: ReadUint64
-- returns n. It leaves t, and the error it had unless t starts with a point; for an empty t
-- only that the iterator is in bounds.
pub read_uint64-decimal :
    (n : ℕ) (s t : Bytes) (it : Iterator)
    → IsValid it
    → remaining it ≡ s ++ t
    → IsDecimal n s
    → EndsNumber t
    → n < 2 ^ 64
    → ReadsBack n t it (read_uint64 it)
unfolding read_uint64 read_uint64_from
read_uint64-decimal = read_token-decimal u64 u64-IsWide

-- For n below 2^32 and an iterator in bounds whose remaining bytes are a decimal print of
-- n, without a leading zero, and then t, where t does not go on with a digit: ReadUint32
-- returns n. It leaves t, and the error it had unless t starts with a point; for an empty t
-- only that the iterator is in bounds.
pub read_uint32-decimal :
    (n : ℕ) (s t : Bytes) (it : Iterator)
    → IsValid it
    → remaining it ≡ s ++ t
    → IsDecimal n s
    → EndsNumber t
    → n < 2 ^ 32
    → ReadsBack n t it (read_uint32 it)
unfolding read_uint32 read_uint32_from
read_uint32-decimal = read_token-decimal u32 u32-IsWide

-- For n below 2^64 and an iterator in bounds whose remaining bytes are what WriteUint64
-- appends to a new stream and then t, where t does not go on with a digit: ReadUint64
-- returns n. It leaves t, and the error it had unless t starts with a point; for an empty t
-- only that the iterator is in bounds.
pub read_uint64-write_uint64 :
    (n step : ℕ) (out : Option Writer) (t : Bytes) (it : Iterator)
    → n < 2 ^ 64
    → IsValid it
    → remaining it ≡ (write_uint64 n (new_stream step out)).buf ++ t
    → EndsNumber t
    → ReadsBack n t it (read_uint64 it)
unfolding write_uint64 new_stream
read_uint64-write_uint64 n step out t it fits v e ends =
    let (s, printed, d) = put_uint64-Appends n [] fits in
    read_uint64-decimal n s t it v (e ∙ ap (λ x. x ++ t) printed) d ends fits
