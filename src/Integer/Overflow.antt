-- ===== src/Integer/Overflow.antt =====
-- The overflow test of readUint32, on digits that spell more than a uint32 holds.
use jsoniter.Base.{
  ℕ, suc, ◌+◌, ◌-◌, ◌*◌, ◌^◌, ◌≤◌, ◌≡◌, ap, ◌∙◌, subst, some, [], ◌∷◌, ◌++◌, Bytes, All, arith,
}
use jsoniter.Iter.Defs.{Iterator, next_token}
use jsoniter.Iter.View.{remaining, IsValid}
use jsoniter.Iter.Token.{token, Took, Takes, next_token-Takes}
use jsoniter.Integer.Defs.{u32, int_digits, add_digit, read_uint, read_uint32_from}
use jsoniter.Integer.Digits.{number, digits_of, digits_of_step, Reads}
use jsoniter.Integer.Fast.{read_uint-Reads}
use jsoniter.Integer.Value.{
  IsDigit, decimal, EndsNumber, int_digits_digit, digits_of-decimal, le-decimal, add_digit_fits,
  u32-IsWide,
}
use jsoniter.Integer.Sized.{read_uint32}
use jsoniter.RoundTrip.Unsigned.{token_digit}

-- The values to which one more digit can be added without the overflow being found.
pub record Wraps (v : ℕ) : Type 0 where
  pub above : 954437177 ≤ v
  pub below : v ≤ 1288490187

add_digit-Wraps : (v d : ℕ) → Wraps v → d ≤ 9 → add_digit u32 v d ≡ some (v * 10 + d - 2 * 2 ^ 32)
unfolding add_digit
add_digit-Wraps v d h k = ground (arith, h)

digits_of-Wraps :
    (v : ℕ) (s : Bytes) (d : ℕ) (t : Bytes)
    → All IsDigit s
    → IsDigit d
    → EndsNumber t
    → Wraps (decimal v s)
    → digits_of u32 v (s ++ d ∷ t) ≡ number (decimal v s * 10 + (d - b'0') - 2 * 2 ^ 32) t
digits_of-Wraps v [] d t a g e h =
    digits_of_step u32 v d t (int_digits_digit d g)
      (add_digit-Wraps v (d - b'0') h (omega (arith, g)))
    ∙ digits_of-decimal u32 (v * 10 + (d - b'0') - 2 * 2 ^ 32) [] t tt e
        (omega (arith, g, h.above, h.below))
digits_of-Wraps v (c ∷ s) d t a g e h =
    digits_of_step u32 v c (s ++ d ∷ t) (int_digits_digit c a.0)
      (add_digit_fits u32 v (c - b'0') (omega (arith, h.below, le-decimal s (v * 10 + (c - b'0')))))
    ∙ digits_of-Wraps (v * 10 + (c - b'0')) s d t a.1 g e h

-- For an iterator in bounds whose remaining bytes are a number of the value v with a first
-- digit from 1 to 9, where 954437177 <= v <= 1288490187, then one more digit d, then t that
-- does not go on with a digit: ReadUint32 returns 10 v + d - 2^33 as the number read, so
-- the overflow is not reported. Where t is empty there is an error in the end, and nothing
-- is said of what is left; where t is not, it leaves t, with an error if t starts with a
-- point, and else the error that nextToken left.
pub read_uint32-Wraps :
    (c : ℕ) (s : Bytes) (d : ℕ) (t : Bytes) (it : Iterator)
    → IsValid it
    → remaining it ≡ (c ∷ s) ++ d ∷ t
    → b'1' ≤ c
    → All IsDigit (c ∷ s)
    → IsDigit d
    → EndsNumber t
    → Wraps (decimal 0 (c ∷ s))
    → Reads
        (number (decimal 0 (c ∷ s) * 10 + (d - b'0') - 2 * 2 ^ 32) t)
        (next_token it).1
        (read_uint32 it)
unfolding read_uint32 read_uint32_from
read_uint32-Wraps c s d t it v e p a g ends h =
    let took : Took c (s ++ d ∷ t) it (next_token it) =
      subst (λ o. Takes o it (next_token it)) (ap token e ∙ token_digit c (s ++ d ∷ t) a.0)
        (next_token-Takes it v) in
    let first : int_digits c ≡ some (suc (c - b'1')) =
      int_digits_digit c a.0 ∙ ap some (ground arith) in
    let start : suc (c - b'1') ≡ 0 * 10 + (c - b'0') = ground arith in
    let reading : digits_of u32 (suc (c - b'1')) (remaining (next_token it).1)
        ≡ number (decimal 0 (c ∷ s) * 10 + (d - b'0') - 2 * 2 ^ 32) t =
      ap (λ (m : ℕ). digits_of u32 m (remaining (next_token it).1)) start
      ∙ ap (digits_of u32 (0 * 10 + (c - b'0'))) took.seen.remains
      ∙ digits_of-Wraps (0 * 10 + (c - b'0')) s d t a.1 g ends h in
    rw took.byte (
      subst (λ q. Reads q (next_token it).1 (read_uint u32 c (next_token it).1)) reading
        (read_uint-Reads u32 (next_token it).1 u32-IsWide took.seen.valid c (c - b'1') first))
