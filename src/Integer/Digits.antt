-- ===== src/Integer/Digits.antt =====
-- The digits that read_uint reads, as a function of the bytes that remain.
use jsoniter.Base.{
  ℕ, zero, suc, ◌+◌, ◌-◌, ◌<◌, ◌≡◌, ◌≢◌, ◌⊎◌, refl, sym, ap, ◌∙◌, subst, inl, inr, Bool, true,
  false, ◌&&◌, none, some, [], ◌∷◌, ◌++◌, Bytes, length, get_or, drop, ltb, ◌==◌, arith, Bool-cases,
  Option-cases, ==_iff, lt→ltb,
}
use jsoniter.Iter.Defs.{Iterator, window, loads, report_error, load_more, with_head}
use jsoniter.Iter.View.{
  to_load, remaining, IsValid, Sees, Failed, Loaded, LoadResult, length-window, with_head-Sees,
}
use jsoniter.Iter.Load.{load_more-result}
use jsoniter.Iter.Token.{slice-cons}
use jsoniter.Iter.Report.{report_error-Sees, report_error-ne-none, report_error-IsValid}
use jsoniter.Integer.Defs.{
  Width, int_digits, assert_integer, Scan, stopped, overflowed, ran_out, add_digit, scan_digits,
  read_digits,
}

-- A number and what follows its digits, or an overflow that was found.
pub data Reading : Type 0 where
  number : ℕ → Bytes → Reading
  too_big : Reading

module _ (w : Width) where
  abbrev pub digits_of : ℕ → Bytes → Reading
  digits_of value [] = number value []
  digits_of value (b ∷ s) = elim (int_digits b) [
    | none ↦ number value (b ∷ s)
    | some ind ↦ elim (add_digit w value ind) [ none ↦ too_big | some v ↦ digits_of v s ]
  ]

module _ (w : Width) (value : ℕ) (b : ℕ) (s : Bytes) where
  pub digits_of_stop : int_digits b ≡ none → digits_of w value (b ∷ s) ≡ number value (b ∷ s)
  digits_of_stop e = rw (e, digits_of)

  pub digits_of_big :
      {d : ℕ}
      → int_digits b ≡ some d
      → add_digit w value d ≡ none
      → digits_of w value (b ∷ s) ≡ too_big
  digits_of_big e f = rw (e, digits_of, f)

  pub digits_of_step :
      {d v : ℕ}
      → int_digits b ≡ some d
      → add_digit w value d ≡ some v
      → digits_of w value (b ∷ s) ≡ digits_of w v s
  digits_of_step e f = rw (e, digits_of, f)

-- How an integer reader leaves the iterator, for what it should read.
abbrev pub Reads : Reading → Iterator → ℕ × Iterator → Type 0
Reads (number v []) it r = (r.0 ≡ v) × Failed r.1
Reads (number v (b ∷ s)) it r =
    (r.0 ≡ v)
    × Sees (b ∷ s) r.1
    × (((b ≡ b'.') × (r.1.error ≢ none)) ⊎ ((b ≢ b'.') × (r.1.error ≡ it.error)))
Reads too_big it r = (r.0 ≡ 0) × IsValid r.1 × (r.1.error ≢ none)

-- What a pass over a window makes of the reading, with `s` the window and `t` what follows it.
abbrev after : Width → Bytes → Bytes → Scan → Reading
after w s t (stopped k u) = number u (drop k s ++ t)
after w s t overflowed = too_big
after w s t (ran_out u) = digits_of w u t

after_cons :
    (w : Width) (b : ℕ) (s t : Bytes) (x : Scan)
    → after w s t x
      ≡ after w (b ∷ s) t (elim x [
        | stopped k v ↦ stopped (suc k) v
        | overflowed ↦ overflowed
        | ran_out v ↦ ran_out v
      ])
after_cons w b s t (stopped k u) = refl
after_cons w b s t overflowed = refl
after_cons w b s t (ran_out u) = refl

scan_digits-digits_of :
    (w : Width) (v : ℕ) (s t : Bytes) → digits_of w v (s ++ t) ≡ after w s t (scan_digits w v s)
unfolding scan_digits
scan_digits-digits_of w v [] t = refl
scan_digits-digits_of w v (b ∷ s) t = elim (Option-cases (int_digits b)) [
  | inl e ↦ digits_of_stop w v b (s ++ t) e ∙ rw (e, scan_digits)
  | inr (d, e) ↦ elim (Option-cases (add_digit w v d)) [
    | inl big ↦ digits_of_big w v b (s ++ t) e big ∙ rw (e, scan_digits, big)
    | inr (v2, fits) ↦
        digits_of_step w v b (s ++ t) e fits
        ∙ scan_digits-digits_of w v2 s t
        ∙ rw (e, scan_digits, fits) (after_cons w b s t (scan_digits w v2 s))
  ]
]

StopsBelow : (n : ℕ) → Scan → Type 0
StopsBelow n (stopped k u) = k < n
StopsBelow n _ = Unit

StopsBelow-cons :
    (n : ℕ) (x : Scan)
    → StopsBelow n x
    → StopsBelow (suc n) (elim x [
      | stopped k v ↦ stopped (suc k) v
      | overflowed ↦ overflowed
      | ran_out v ↦ ran_out v
    ])
unfolding StopsBelow
StopsBelow-cons n (stopped k u) h = omega arith
StopsBelow-cons n overflowed h = tt
StopsBelow-cons n (ran_out u) h = tt

scan_digits-lt : (w : Width) (v : ℕ) (s : Bytes) → StopsBelow (length s) (scan_digits w v s)
unfolding scan_digits StopsBelow
scan_digits-lt w v [] = tt
scan_digits-lt w v (b ∷ s) = elim (Option-cases (int_digits b)) [
  | inl e ↦ rw (e, scan_digits, StopsBelow) (omega arith)
  | inr (d, e) ↦ elim (Option-cases (add_digit w v d)) [
    | inl big ↦ rw (e, scan_digits, big, StopsBelow) tt
    | inr (v2, fits) ↦
        rw (e, scan_digits, fits)
          (StopsBelow-cons (length s) (scan_digits w v2 s) (scan_digits-lt w v2 s))
  ]
]

module _ (it : Iterator) where
  assert_integer_dot :
      it.head < it.tail
      → (get_or it.buf it.head 0 == b'.') ≡ true
      → assert_integer it ≡ report_error "assertInteger" "can not decode float as int" [] it
  unfolding assert_integer
  assert_integer_dot h d = rw (d, lt→ltb _ _ h)

  assert_integer_other : (get_or it.buf it.head 0 == b'.') ≡ false → assert_integer it ≡ it
  unfolding assert_integer
  assert_integer_other d = ground arith

  pub assert_integer_end : it.head ≡ it.tail → assert_integer it ≡ it
  unfolding assert_integer
  assert_integer_end h = ground arith

pub assert_integer-Reads :
    (u : ℕ) (it base : Iterator)
    → IsValid it
    → it.head < it.tail
    → it.error ≡ base.error
    → Reads (number u (remaining it)) base (u, assert_integer it)
assert_integer-Reads u it base v h e =
    let front =
      slice-cons it.head (it.tail - it.head) it.buf (omega arith) (omega (arith, v.tail_le)) in
    let b = get_or it.buf it.head 0 in
    let rest = drop 1 (window it) ++ to_load it in
    let sees : Sees (b ∷ rest) it = record {
      valid = v;
      remains = ap (λ s. s ++ to_load it) front;
    } in
    subst (λ s. Reads (number u (s ++ to_load it)) base (u, assert_integer it)) (sym front)
      (elim (Bool-cases (b == b'.')) [
        | inl dot ↦ rw (assert_integer_dot it h dot) (
          refl,
          report_error-Sees "assertInteger" "can not decode float as int" [] it (b ∷ rest) sees,
          inl (
            (==_iff b b'.').0 dot,
            report_error-ne-none "assertInteger" "can not decode float as int" [] it,
          ),
        )
        | inr other ↦ rw (assert_integer_other it other) (refl, sees, inr ((λ d. ground arith), e))
      ])

pub assert_integer-Failed : (it : Iterator) → Failed it → Failed (assert_integer it)
unfolding assert_integer
assert_integer-Failed it f =
    elim (Bool-cases (ltb it.head it.tail && get_or it.buf it.head 0 == b'.')) [
      | inl dot ↦ rw dot (record {
        valid = report_error-IsValid "assertInteger" "can not decode float as int" [] it f.valid;
        fails = report_error-ne-none "assertInteger" "can not decode float as int" [] it;
      })
      | inr other ↦ rw other f
    ]

pub Reads-of_same :
    (q : Reading) (a b : Iterator) (r : ℕ × Iterator)
    → a.error ≡ b.error
    → Reads q a r
    → Reads q b r
Reads-of_same too_big a b r e h = h
Reads-of_same (number v []) a b r e h = h
Reads-of_same (number v (c ∷ s)) a b r e (v', s', inl dot) = (v', s', inl dot)
Reads-of_same (number v (c ∷ s)) a b r e (v', s', inr (other, same)) =
    (v', s', inr (other, same ∙ e))

-- After a window of digits alone, reading goes on in what is loaded or ends.
module _ (w : Width) (fuel u : ℕ) (it : Iterator) where
  load-Reads :
      (r : Bool × Iterator)
      → LoadResult it r
      → (Loaded it r.1 → Reads (digits_of w u (remaining r.1)) r.1 (read_digits w fuel u r.1))
      → Reads
          (digits_of w u (to_load it))
          it
          (elim r.0 [ true ↦ read_digits w fuel u r.1 | false ↦ (u, assert_integer r.1) ])
  load-Reads (true, it') l k =
      Reads-of_same (digits_of w u (to_load it)) it' it (read_digits w fuel u it') l.same_error
        (subst (λ s. Reads (digits_of w u s) it' (read_digits w fuel u it')) l.seen.remains (k l))
  load-Reads (false, it') l k = rw l.nothing (refl, assert_integer-Failed it' l.failed)

-- The end of a pass over the window, by what the pass found.
module _ (w : Width) (fuel : ℕ) (it : Iterator) (v : IsValid it) where
  abbrev finish : Scan → ℕ × Iterator
  finish (stopped k u) = (u, assert_integer (with_head (it.head + k) it))
  finish overflowed = (0, report_error w.operation "overflow" [] it)
  finish (ran_out u) =
      let (more, it') = load_more it in
      elim more [ true ↦ read_digits w fuel u it' | false ↦ (u, assert_integer it') ]

  finish-Reads :
      (x : Scan)
      → StopsBelow (length (window it)) x
      → ((u : ℕ) (it' : Iterator)
          → Loaded it it'
          → Reads (digits_of w u (remaining it')) it' (read_digits w fuel u it'))
      → Reads (after w (window it) (to_load it) x) it (finish x)
  unfolding StopsBelow
  finish-Reads (stopped k u) h next =
      let s = with_head-Sees k it v (omega arith) in
      subst (λ t. Reads (number u t) it (finish (stopped k u))) s.remains
        (assert_integer-Reads u (with_head (it.head + k) it) it s.valid
          (omega (arith, length-window it v)) refl)
  finish-Reads overflowed h next = (
    refl,
    report_error-IsValid w.operation "overflow" [] it v,
    report_error-ne-none w.operation "overflow" [] it,
  )
  finish-Reads (ran_out u) h next =
      load-Reads w fuel u it (load_more it) (load_more-result it v) (next u (load_more it).1)

pub read_digits-Reads :
    (w : Width) (fuel value : ℕ) (it : Iterator)
    → IsValid it
    → loads it < fuel
    → Reads (digits_of w value (remaining it)) it (read_digits w fuel value it)
unfolding read_digits
read_digits-Reads w zero value it v h = absurd (omega arith)
read_digits-Reads w (suc fuel) value it v h =
    rw (scan_digits-digits_of w value (window it) (to_load it)) (
      finish-Reads w fuel it v (scan_digits w value (window it))
        (scan_digits-lt w value (window it))
        λ u it' l. read_digits-Reads w fuel u it' l.seen.valid (omega (arith, l.fewer)))
