-- ===== src/Stream/Decimal.antt =====
-- Decimal prints, and the integer writers of stream_int.go.
use mathlib.Core.List.{cons-ne-nil}
use jsoniter.Base.{
  ◌⊎◌, ◌≢◌, ℕ, ◌+◌, ◌-◌, ◌*◌, ◌/◌, ◌%◌, ◌^◌, ◌<◌, ◌≤◌, ◌≡◌, ◌≢◌, refl, ap, subst, ◌∙◌, inl, inr,
  true, false, [], ◌∷◌, ◌++◌, append_assoc, Bytes, All, All-append, ltb, ◌==◌, if◌then◌else◌, arith,
  Bool-cases, ltb→lt,
}
use jsoniter.Integer.Value.{IsDigit, decimal}
use jsoniter.Stream.Integers.{
  digits, byte_at, write_first_buf, write_buf, put_uint16, put_uint32, put_uint64,
}

-- A decimal print: digits, the right value, and a zero in front only in `0`.
abbrev pub IsDecimal : ℕ → Bytes → Type 0
IsDecimal n [] = ⊥
IsDecimal n (c ∷ s) = All IsDigit (c ∷ s) × (decimal 0 (c ∷ s) ≡ n) × ((c ≢ b'0') ⊎ (s ≡ []))

-- `out` is `buf` with the decimal print of `n` behind it.
abbrev pub Appends : Bytes → ℕ → Bytes → Type 0
Appends buf n out = (s : Bytes) × (out ≡ buf ++ s) × IsDecimal n s

abbrev zeros : ℕ → ℕ
zeros v = if ltb v 10 then 2 else if ltb v 100 then 1 else 0

-- The four bytes of a table entry.
digits_bytes :
    (v : ℕ)
    → v < 1000
    → (digits v / 2 ^ 24 ≡ zeros v)
      × (byte_at (digits v) 16 ≡ v / 100 + b'0')
      × (byte_at (digits v) 8 ≡ v / 10 % 10 + b'0')
      × (digits v % 256 ≡ v % 10 + b'0')
unfolding digits
digits_bytes v h = ground arith

first_one : (buf : Bytes) (v : ℕ) → v < 10 → write_first_buf buf (digits v) ≡ buf ++ (v + b'0') ∷ []
unfolding write_first_buf
first_one buf v h =
    let (z, _, _, c) = digits_bytes v (omega arith) in
    let e : digits v / 2 ^ 24 ≡ 2 = ground (arith, z) in
    let d : digits v % 256 ≡ v + b'0' = omega (arith, c) in rw (e, d)

first_two :
    (buf : Bytes) (v : ℕ)
    → 10 ≤ v
    → v < 100
    → write_first_buf buf (digits v) ≡ buf ++ (v / 10 + b'0') ∷ (v % 10 + b'0') ∷ []
unfolding write_first_buf
first_two buf v l h =
    let (z, _, b, c) = digits_bytes v (omega arith) in
    let e : digits v / 2 ^ 24 ≡ 1 = ground (arith, z) in
    let d : byte_at (digits v) 8 ≡ v / 10 + b'0' = omega (arith, b) in rw (e, d, c, append_assoc)

first_three :
    (buf : Bytes) (v : ℕ)
    → 100 ≤ v
    → v < 1000
    → write_first_buf buf (digits v)
      ≡ buf ++ (v / 100 + b'0') ∷ (v / 10 % 10 + b'0') ∷ (v % 10 + b'0') ∷ []
unfolding write_first_buf
first_three buf v l h =
    let (z, a, b, c) = digits_bytes v h in
    let e : digits v / 2 ^ 24 ≡ 0 = ground (arith, z) in rw (e, a, b, c, append_assoc)

-- byte(q3 + '0') for the one digit that may be in front.
one-Appends : (buf : Bytes) (v : ℕ) → v < 10 → Appends buf v (buf ++ (v + b'0') % 256 ∷ [])
one-Appends buf v h = ((v + b'0') % 256 ∷ [], refl, (omega arith, omega arith, inr refl))

first-Appends : (buf : Bytes) (v : ℕ) → v < 1000 → Appends buf v (write_first_buf buf (digits v))
first-Appends buf v h = elim (Bool-cases (ltb v 10)) [
  | inl small ↦
      let lt = ltb→lt _ _ small in
      ((v + b'0') ∷ [], first_one buf v lt, (omega arith, omega arith, inr refl))
  | inr large ↦ elim (Bool-cases (ltb v 100)) [
    | inl small ↦
        let lt = ltb→lt _ _ small in
        let le : 10 ≤ v = ground arith in
        (
          (v / 10 + b'0') ∷ (v % 10 + b'0') ∷ [],
          first_two buf v le lt,
          (omega arith, omega arith, inl (λ z. absurd (omega arith))),
        )
    | inr huge ↦
        let le : 100 ≤ v = ground arith in
        (
          (v / 100 + b'0') ∷ (v / 10 % 10 + b'0') ∷ (v % 10 + b'0') ∷ [],
          first_three buf v le h,
          (omega arith, omega arith, inl (λ z. absurd (omega arith))),
        )
  ]
]

decimal-append : (n : ℕ) (s t : Bytes) → decimal n (s ++ t) ≡ decimal (decimal n s) t
decimal-append n [] t = refl
decimal-append n (c ∷ s) t = decimal-append (n * 10 + (c - b'0')) s t

-- The print of three more digits behind that of a positive number.
IsDecimal-append :
    (n r : ℕ) (s t : Bytes)
    → 0 < n
    → IsDecimal n s
    → All IsDigit t
    → decimal n t ≡ r
    → IsDecimal r (s ++ t)
IsDecimal-append n r [] t p d a e = absurd d
IsDecimal-append n r (c ∷ s) t p (g, v, z) a e = (
  All-append IsDigit (c ∷ s) t g a,
  decimal-append 0 (c ∷ s) t ∙ ap (λ (m : ℕ). decimal m t) v ∙ e,
  inl (λ zero_first. elim z [
    | inl other ↦ other zero_first
    | inr single ↦ leading c s n p v zero_first single
  ]),
)
  where
    leading : (c : ℕ) (s : Bytes) (n : ℕ) → 0 < n → decimal 0 (c ∷ s) ≡ n → c ≡ b'0' → s ≡ [] → ⊥
    leading c [] n p v f e = omega arith
    leading c (x ∷ s) n p v f e = absurd (cons-ne-nil x s e)

next-Appends :
    (buf out : Bytes) (n r : ℕ)
    → r < 1000
    → 0 < n
    → Appends buf n out
    → Appends buf (n * 1000 + r) (write_buf out (digits r))
unfolding write_buf
next-Appends buf out n r h p (s, e, d) =
    let (_, a, b, c) = digits_bytes r h in
    let t = (r / 100 + b'0') ∷ (r / 10 % 10 + b'0') ∷ (r % 10 + b'0') ∷ [] in
    (
      s ++ t,
      rw (e, a, b, c, append_assoc),
      IsDecimal-append n (n * 1000 + r) s t p d (omega arith) (omega arith),
    )

-- The thousands are printed, then the last three digits.
thousands-Appends :
    (buf out : Bytes) (n : ℕ)
    → (n / 1000 == 0) ≡ false
    → Appends buf (n / 1000) out
    → Appends buf n (write_buf out (digits (n - n / 1000 * 1000)))
thousands-Appends buf out n h a =
    let e : n / 1000 * 1000 + (n - n / 1000 * 1000) ≡ n = omega arith in
    subst (λ m. Appends buf m (write_buf out (digits (n - n / 1000 * 1000)))) e
      (next-Appends buf out (n / 1000) (n - n / 1000 * 1000) (omega arith) (ground arith) a)

quotient_zero : (n : ℕ) → (n / 1000 == 0) ≡ true → n < 1000
quotient_zero n h = ground arith

pub put_uint16-Appends : (n : ℕ) (buf : Bytes) → n < 2 ^ 16 → Appends buf n (put_uint16 n buf)
unfolding put_uint16
put_uint16-Appends n buf h = elim (Bool-cases (n / 1000 == 0)) [
  | inl z1 ↦ rw z1 (first-Appends buf n (quotient_zero n z1))
  | inr p1 ↦ rw p1 (thousands-Appends buf _ n p1 (first-Appends buf (n / 1000) (omega arith)))
]

-- For n below 2^32, WriteUint32 appends to the buffer the decimal digits of n, with no
-- leading zero but in 0 itself.
pub put_uint32-Appends : (n : ℕ) (buf : Bytes) → n < 2 ^ 32 → Appends buf n (put_uint32 n buf)
unfolding put_uint32
put_uint32-Appends n buf h =
    let q1 = n / 1000 in
    let q2 = q1 / 1000 in
    let q3 = q2 / 1000 in
    elim (Bool-cases (n / 1000 == 0)) [
      | inl z1 ↦ rw z1 (first-Appends buf n (quotient_zero n z1))
      | inr p1 ↦ elim (Bool-cases (q1 / 1000 == 0)) [
        | inl z2 ↦
            rw (p1, z2) (thousands-Appends buf _ n p1 (first-Appends buf q1 (quotient_zero q1 z2)))
        | inr p2 ↦ elim (Bool-cases (q2 / 1000 == 0)) [
          | inl z3 ↦
              rw (p1, p2, z3)
                (thousands-Appends buf _ n p1
                  (thousands-Appends buf _ q1 p2 (first-Appends buf q2 (quotient_zero q2 z3))))
          | inr p3 ↦
              rw (p1, p2, p3)
                (thousands-Appends buf _ n p1 (
                  thousands-Appends buf _ q1 p2
                    (thousands-Appends buf _ q2 p3 (one-Appends buf q3 (omega arith)))))
        ]
      ]
    ]

-- For n below 2^64, WriteUint64 appends to the buffer the decimal digits of n, with no
-- leading zero but in 0 itself.
pub put_uint64-Appends : (n : ℕ) (buf : Bytes) → n < 2 ^ 64 → Appends buf n (put_uint64 n buf)
unfolding put_uint64
put_uint64-Appends n buf h =
    let t = thousands-Appends buf in
    let f = first-Appends buf in
    let q1 = n / 1000 in
    let q2 = q1 / 1000 in
    let q3 = q2 / 1000 in
    let q4 = q3 / 1000 in
    let q5 = q4 / 1000 in
    let q6 = q5 / 1000 in
    elim (Bool-cases (n / 1000 == 0)) [
      | inl z1 ↦ rw z1 (f n (quotient_zero n z1))
      | inr p1 ↦ elim (Bool-cases (q1 / 1000 == 0)) [
        | inl z2 ↦ rw (p1, z2) (t _ n p1 (f q1 (quotient_zero q1 z2)))
        | inr p2 ↦ elim (Bool-cases (q2 / 1000 == 0)) [
          | inl z3 ↦ rw (p1, p2, z3) (t _ n p1 (t _ q1 p2 (f q2 (quotient_zero q2 z3))))
          | inr p3 ↦ elim (Bool-cases (q3 / 1000 == 0)) [
            | inl z4 ↦
                rw (p1, p2, p3, z4) (t _ n p1 (t _ q1 p2 (t _ q2 p3 (f q3 (quotient_zero q3 z4)))))
            | inr p4 ↦ elim (Bool-cases (q4 / 1000 == 0)) [
              | inl z5 ↦
                  rw (p1, p2, p3, p4, z5)
                    (t _ n p1 (t _ q1 p2 (t _ q2 p3 (t _ q3 p4 (f q4 (quotient_zero q4 z5))))))
              | inr p5 ↦ elim (Bool-cases (q5 / 1000 == 0)) [
                | inl z6 ↦
                    rw (p1, p2, p3, p4, p5, z6)
                      (t _ n p1 (
                        t _ q1 p2 (t _ q2 p3 (t _ q3 p4 (t _ q4 p5 (f q5 (quotient_zero q5 z6)))))))
                | inr p6 ↦
                    rw (p1, p2, p3, p4, p5, p6)
                      (t _ n p1 (
                        t _ q1 p2
                          (t _ q2 p3 (t _ q3 p4 (t _ q4 p5 (t _ q5 p6 (f q6 (omega arith))))))))
              ]
            ]
          ]
        ]
      ]
    ]
