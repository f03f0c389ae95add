-- ===== src/Integer/Fast.antt =====
-- The unrolled rounds of read_uint against the digit by digit reading.
use native.Mathlib.Nat.{mod-eq_of_lt, add-zero}
use jsoniter.Base.{
  ℕ, zero, suc, ◌+◌, ◌-◌, ◌*◌, ◌/◌, ◌^◌, ◌<◌, ◌≤◌, ◌≡◌, refl, sym, ap, ◌∙◌, subst, inl, inr, Option,
  none, some, ◌∷◌, ◌++◌, get_or, drop, ltb, arith, Bool-cases, Option-cases, ltb→lt,
}
use jsoniter.Iter.Defs.{Iterator, window, loads, with_head}
use jsoniter.Iter.View.{to_load, remaining, IsValid, Sees, length-window, with_head-Sees}
use jsoniter.Iter.Token.{slice-cons}
use jsoniter.Integer.Defs.{
  Width, wrap, int_digits, assert_integer, Step, returns, goes_on, fast_path, add_digit,
  read_digits, read_uint,
}
use jsoniter.Integer.Digits.{
  number, digits_of, digits_of_stop, digits_of_step, Reads, assert_integer-Reads, Reads-of_same,
  read_digits-Reads,
}

-- A width at which eight digits need no test.
pub record IsWide (w : Width) : Type 0 where
  pub roomy : 10 ^ 8 ≤ w.safe
  pub below : w.safe * 10 + 10 < w.modulus

-- The value of the digits so far is below this bound when `n` rounds are left.
abbrev bound : ℕ → ℕ
bound zero = 10 ^ 8
bound (suc n) = bound n / 10

bound-le : (n : ℕ) → bound n ≤ 10 ^ 8
bound-le zero = omega arith
bound-le (suc n) = omega (arith, bound-le n)

pub int_digits-le : (c : ℕ) {d : ℕ} → int_digits c ≡ some d → d ≤ 9
unfolding int_digits
int_digits-le c h = ground arith

pub add_digit_safe :
    (w : Width) → IsWide w → (v d : ℕ) → v ≤ w.safe → d ≤ 9 → add_digit w v d ≡ some (v * 10 + d)
unfolding add_digit
add_digit_safe w wide v d h k =
    let a = mod-eq_of_lt {n = v * 8} {m = w.modulus} (omega (arith, wide.below)) in
    let b = mod-eq_of_lt {n = v * 2} {m = w.modulus} (omega (arith, wide.below)) in
    let c = mod-eq_of_lt {n = v * 8 + v * 2 + d} {m = w.modulus} (omega (arith, wide.below)) in
    rw (a, b, c) (ground arith)

module _ (w : Width) (it : Iterator) where
  abbrev ind : ℕ → Option ℕ
  ind k = int_digits (get_or it.buf (it.head + k) 0)

  abbrev stop : ℕ → ℕ → Step
  stop k v = returns v (assert_integer (with_head (it.head + k) it))

  -- The rounds as a loop over one more digit at a time.
  rounds : ℕ → ℕ → ℕ → Step
  rounds zero k v = elim (ind k) [
    | none ↦ stop k v
    | some _ ↦ goes_on v (with_head (it.head + k) it)
  ]
  rounds (suc n) k v = elim (ind k) [ none ↦ stop k v | some d ↦ rounds n (suc k) (v * 10 + d) ]

  wrap_small : IsWide w → (x y : ℕ) → x ≡ y → y < 10 ^ 8 → wrap w x ≡ y
  wrap_small wide x y e h = rw e (mod-eq_of_lt (omega (arith, wide.below, wide.roomy)))

  fast_path-rounds : IsWide w → (value : ℕ) → value ≤ 9 → fast_path w value it ≡ rounds 7 0 value
  unfolding fast_path rounds
  fast_path-rounds wide value h = elim (Option-cases (ind 0)) [
    | inl e0 ↦
        rw (e0, fast_path, rounds) (ap (stop 0) (wrap_small wide _ _ (omega arith) (omega arith)))
    | inr (d0, e0) ↦
        let le0 = int_digits-le _ e0 in
        elim (Option-cases (ind 1)) [
          | inl e1 ↦
              rw (e0, e1, fast_path, rounds)
                (ap (stop 1) (wrap_small wide _ _ (omega arith) (omega arith)))
          | inr (d1, e1) ↦
              let le1 = int_digits-le _ e1 in
              elim (Option-cases (ind 2)) [
                | inl e2 ↦
                    rw (e0, e1, e2, fast_path, rounds)
                      (ap (stop 2) (wrap_small wide _ _ (omega arith) (omega arith)))
                | inr (d2, e2) ↦
                    let le2 = int_digits-le _ e2 in
                    elim (Option-cases (ind 3)) [
                      | inl e3 ↦
                          rw (e0, e1, e2, e3, fast_path, rounds)
                            (ap (stop 3) (wrap_small wide _ _ (omega arith) (omega arith)))
                      | inr (d3, e3) ↦
                          let le3 = int_digits-le _ e3 in
                          elim (Option-cases (ind 4)) [
                            | inl e4 ↦
                                rw (e0, e1, e2, e3, e4, fast_path, rounds)
                                  (ap (stop 4) (wrap_small wide _ _ (omega arith) (omega arith)))
                            | inr (d4, e4) ↦
                                let le4 = int_digits-le _ e4 in
                                elim (Option-cases (ind 5)) [
                                  | inl e5 ↦
                                      rw (e0, e1, e2, e3, e4, e5, fast_path, rounds)
                                        (ap (stop 5)
                                          (wrap_small wide _ _ (omega arith) (omega arith)))
                                  | inr (d5, e5) ↦
                                      let le5 = int_digits-le _ e5 in
                                      elim (Option-cases (ind 6)) [
                                        | inl e6 ↦
                                            rw (e0, e1, e2, e3, e4, e5, e6, fast_path, rounds)
                                              (ap (stop 6)
                                                (wrap_small wide _ _ (omega arith) (omega arith)))
                                        | inr (d6, e6) ↦
                                            let le6 = int_digits-le _ e6 in
                                            elim (Option-cases (ind 7)) [
                                              | inl e7 ↦
                                                  rw
                                                    (
                                                      e0, e1, e2, e3, e4, e5, e6, e7, fast_path,
                                                      rounds,
                                                    )
                                                    (ap (stop 7) (
                                                      wrap_small wide _ _ (omega arith)
                                                        (omega arith)))
                                              | inr (_, e7) ↦
                                                  rw
                                                    (
                                                      e0, e1, e2, e3, e4, e5, e6, e7, fast_path,
                                                      rounds,
                                                    )
                                                    (ap
                                                      (λ (v : ℕ).
                                                        goes_on v (with_head (it.head + 7) it))
                                                      (wrap_small wide _ _ (omega arith)
                                                        (omega arith)))
                                            ]
                                      ]
                                ]
                          ]
                    ]
              ]
        ]
  ]

  abbrev StepReads : ℕ → Step → Type 0
  StepReads value (returns u it') = Reads (digits_of w value (remaining it)) it (u, it')
  StepReads value (goes_on u it') =
      IsValid it'
      × (it'.error ≡ it.error)
      × (loads it' ≡ loads it)
      × (digits_of w value (remaining it) ≡ digits_of w u (remaining it'))

  -- Reading on from offset `k`, at a byte that ends the number and at a digit.
  module _ (wide : IsWide w) (valid : IsValid it) (k v : ℕ) (room : k < it.tail - it.head) where
    abbrev at_k : Iterator
    at_k = with_head (it.head + k) it

    front : window at_k ≡ get_or it.buf (it.head + k) 0 ∷ drop 1 (window at_k)
    front =
        slice-cons (it.head + k) (it.tail - (it.head + k)) it.buf (omega arith)
          (omega (arith, valid.tail_le))

    at_k-Sees : Sees (drop k (window it) ++ to_load it) at_k
    at_k-Sees = with_head-Sees k it valid (omega (arith, length-window it valid))

    digits_of-none : ind k ≡ none → digits_of w v (remaining at_k) ≡ number v (remaining at_k)
    digits_of-none e =
        subst (λ s. digits_of w v (s ++ to_load it) ≡ number v (s ++ to_load it)) (sym front)
          (digits_of_stop w v _ _ e)

    digits_of-some :
        v ≤ w.safe
        → (d : ℕ) → ind k ≡ some d
        → digits_of w v (remaining at_k)
          ≡ digits_of w (v * 10 + d) (remaining (with_head (it.head + suc k) it))
    digits_of-some h d e =
        let next =
          with_head-Sees 1 at_k at_k-Sees.valid
            (omega (arith, length-window at_k at_k-Sees.valid)) in
        let e' : it.head + k + 1 ≡ it.head + suc k = omega arith in
        let r : remaining (with_head (it.head + suc k) it) ≡ drop 1 (window at_k) ++ to_load it =
          rw e' at next.remains in
        ap (λ s. digits_of w v (s ++ to_load it)) front
        ∙ digits_of_step w v _ _ e (add_digit_safe w wide v d h (int_digits-le _ e))
        ∙ ap (digits_of w (v * 10 + d)) (sym r)

    stop-Reads :
        (value : ℕ)
        → digits_of w value (remaining it) ≡ digits_of w v (remaining at_k)
        → ind k ≡ none
        → StepReads value (stop k v)
    stop-Reads value e stops =
        rw (e, digits_of-none stops)
          (assert_integer-Reads v at_k it at_k-Sees.valid (omega arith) refl)

  -- What follows the unrolled rounds.
  after_fast :
      (value : ℕ) (s : Step)
      → StepReads value s
      → Reads (digits_of w value (remaining it)) it (elim s [
        | returns v it' ↦ (v, it')
        | goes_on v it' ↦ read_digits w (loads it' + 1) v it'
      ])
  after_fast value (returns v it') h = h
  after_fast value (goes_on v it') h = rw h.3 (
      Reads-of_same (digits_of w v (remaining it')) it' it (read_digits w (loads it' + 1) v it') h.1
        (read_digits-Reads w (loads it' + 1) v it' h.0 (omega arith)))

  rounds-StepReads :
      IsWide w
      → IsValid it
      → (value n k v : ℕ) → n + k < it.tail - it.head
      → v < bound n
      → digits_of w value (remaining it) ≡ digits_of w v (remaining (with_head (it.head + k) it))
      → StepReads value (rounds n k v)
  unfolding rounds
  rounds-StepReads wide valid value zero k v room small e = elim (Option-cases (ind k)) [
    | inl stops ↦ rw (stops, rounds) (stop-Reads wide valid k v (omega arith) value e stops)
    | inr (d, goes) ↦
        rw (goes, rounds)
          ((with_head-Sees k it valid (omega (arith, length-window it valid))).valid, refl, refl, e)
  ]
  rounds-StepReads wide valid value (suc n) k v room small e = elim (Option-cases (ind k)) [
    | inl stops ↦ rw (stops, rounds) (stop-Reads wide valid k v (omega arith) value e stops)
    | inr (d, goes) ↦
        let le = int_digits-le _ goes in
        rw (goes, rounds)
          (rounds-StepReads wide valid value n (suc k) (v * 10 + d) (omega arith) (omega arith) (
            e
            ∙ digits_of-some wide valid k v (omega arith)
                (omega (arith, bound-le (suc n), wide.roomy)) d goes))
  ]

  fast_path-StepReads :
      IsWide w
      → IsValid it
      → (value : ℕ) → value ≤ 9
      → 10 < it.tail - it.head
      → StepReads value (fast_path w value it)
  fast_path-StepReads wide valid value h room = rw (fast_path-rounds wide value h) (
      rounds-StepReads wide valid value 7 0 value (omega arith) (omega arith)
        (rw (add-zero it.head)))

  -- readUint32 and readUint64, with their unrolled rounds and over any chunks, read behind a
  -- first digit other than 0 what the digit by digit definition reads of the bytes that
  -- remain: for a number its value and what follows it, with an error where a point or
  -- nothing follows and else the error it had, and for an overflow that the test finds 0 and
  -- an error. The iterator is in bounds, and the bound up to which the width multiplies by
  -- ten without a test is at least 10^8 and safe.
  pub read_uint-Reads :
      IsWide w
      → IsValid it
      → (c n : ℕ) → int_digits c ≡ some (suc n)
      → Reads (digits_of w (suc n) (remaining it)) it (read_uint w c it)
  unfolding read_uint
  read_uint-Reads wide valid c n e = elim (Bool-cases (ltb 10 (it.tail - it.head))) [
    | inl long ↦
        rw (e, read_uint, long)
          (after_fast (suc n) (fast_path w (suc n) it)
            (fast_path-StepReads wide valid (suc n) (int_digits-le c e) (ltb→lt _ _ long)))
    | inr short ↦
        rw (e, read_uint, short) (read_digits-Reads w (loads it + 1) (suc n) it valid (omega arith))
  ]
