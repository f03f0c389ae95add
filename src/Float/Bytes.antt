-- ===== src/Float/Bytes.antt =====
-- readNumberAsBytes on the bytes of a number and what follows them.
use jsoniter.Base.{
  same_head, same_tail, ℕ, zero, suc, ◌+◌, ◌<◌, ◌≡◌, refl, sym, ap, ◌∙◌, subst, Bool, true, false,
  Option, none, some, [], ◌∷◌, ◌++◌, append_assoc, Bytes, All, length, take, drop, ltb, ◌==◌,
  if◌then◌else◌, arith,
}
use jsoniter.Iter.Defs.{Iterator, window, loads, with_head, load_more}
use jsoniter.Iter.View.{to_load, remaining, IsValid, Sees, Loaded, LoadResult, with_head-Sees}
use jsoniter.Iter.Load.{load_more-result}
use jsoniter.Float.Defs.{is_number_byte, number_end, end_number, number_loop, read_number_as_bytes}

abbrev pub IsNumberByte : ℕ → Type 0
IsNumberByte c = is_number_byte c ≡ true

abbrev later : Option ℕ → Option ℕ
later x = elim x [ none ↦ none | some k ↦ some (suc k) ]

pub number_end-more :
    (c : ℕ) (w : Bytes) → IsNumberByte c → number_end (c ∷ w) ≡ later (number_end w)
unfolding number_end
number_end-more c w e = rw (e, number_end)

pub number_end-stop : (c : ℕ) (w : Bytes) → is_number_byte c ≡ false → number_end (c ∷ w) ≡ some 0
unfolding number_end
number_end-stop c w e = rw (e, number_end)

number_end-nil : number_end [] ≡ none
unfolding number_end
number_end-nil = refl

-- How a pass over the window `w`, with `tl` behind it, splits the bytes `s` of a number and `u`.
abbrev pub Splits : Bytes → Bytes → Bytes → Bytes → Option ℕ → Type 0
Splits w tl s u (some k) = (s ≡ take k w) × (drop k w ++ tl ≡ u) × (k < length w)
Splits w tl s u none = (s' : Bytes) × (s ≡ w ++ s') × (tl ≡ s' ++ u) × All IsNumberByte s'

Splits-later :
    (b c : ℕ) (w tl s u : Bytes) (x : Option ℕ)
    → b ≡ c
    → Splits w tl s u x
    → Splits (b ∷ w) tl (c ∷ s) u (later x)
Splits-later b c w tl s u (some k) e (p, q, l) =
    (ap (◌∷◌ c) p ∙ ap (λ (y : ℕ). y ∷ take k w) (sym e), q, omega (arith, l))
Splits-later b c w tl s u none e (s', p, q, a) =
    (s', ap (◌∷◌ c) p ∙ ap (λ (y : ℕ). y ∷ w ++ s') (sym e), q, a)

-- What follows a number: a byte that is not of one.
abbrev pub Ends : Bytes → Type 0
Ends [] = ⊥
Ends (c ∷ t) = is_number_byte c ≡ false

pub Ends-front : (b : ℕ) (w u : Bytes) → b ∷ w ≡ u → Ends u → is_number_byte b ≡ false
Ends-front b w [] e h = absurd h
Ends-front b w (c ∷ t) e h = ap is_number_byte (same_head b c w t e) ∙ h

pub number_end-Splits :
    (w tl s u : Bytes)
    → All IsNumberByte s
    → Ends u
    → w ++ tl ≡ s ++ u
    → Splits w tl s u (number_end w)
number_end-Splits [] tl s u a h e = rw number_end-nil (s, refl, e, a)
number_end-Splits (b ∷ w) tl [] u a h e =
    rw (number_end-stop b w (Ends-front b (w ++ tl) u e h)) (refl, e, omega arith)
number_end-Splits (b ∷ w) tl (c ∷ s) u a h e =
    let same : b ≡ c = same_head _ _ _ _ e in
    rw (number_end-more b w (subst IsNumberByte (sym same) a.0)) (
      Splits-later b c w tl s u (number_end w) same
        (number_end-Splits w tl s u a.1 h (same_tail _ _ _ _ e)))

-- The bytes `s` have been read, `u` remains, and there is no error.
pub record ReadsBytes (s u : Bytes) (it : Iterator) (r : Bytes × Iterator) : Type 0 where
  pub bytes : r.0 ≡ s
  pub seen : Sees u r.1
  pub clear : r.1.error ≡ none
  pub same_depth : r.1.depth ≡ it.depth

end_number-clear :
    (buf : Bytes) (it : Iterator)
    → it.error ≡ none
    → (length buf == 0) ≡ false
    → end_number buf it ≡ (buf, it)
unfolding end_number
end_number-clear buf it e h = rw (e, h) refl

nothing_left : (s u : Bytes) → Ends u → [] ≡ s ++ u → ⊥
nothing_left [] [] h e = h
nothing_left [] (c ∷ u) h e = cc
nothing_left (b ∷ s) u h e = cc

-- A round, by where the pass over the window ends.
abbrev round : ℕ → Bytes → Iterator → Option ℕ → Bytes × Iterator
round fuel buf it x = elim x [
  | some k ↦ end_number (buf ++ take k (window it)) (with_head (it.head + k) it)
  | none ↦
      let (more, it') = load_more it in
      let rest = number_loop fuel (buf ++ window it) it' in
      if more then rest else end_number (buf ++ window it) it'
]

number_loop-round :
    (fuel : ℕ) (buf : Bytes) (it : Iterator)
    → IsValid it
    → number_loop (suc fuel) buf it ≡ round fuel buf it (number_end (window it))
unfolding number_loop
number_loop-round fuel buf it v =
    let room : ltb (length it.buf) it.tail ≡ false = ground (arith, v.tail_le) in
    rw (room, number_loop)

module _ (u : Bytes) (h : Ends u) where
  abbrev LoopReads : ℕ → Type 0
  LoopReads fuel =
      (buf s : Bytes) (it : Iterator)
      → IsValid it
      → it.error ≡ none
      → remaining it ≡ s ++ u
      → All IsNumberByte s
      → (length (buf ++ s) == 0) ≡ false
      → loads it < fuel
      → ReadsBytes (buf ++ s) u it (number_loop fuel buf it)

  load-ReadsBytes :
      (fuel : ℕ) (buf s : Bytes) (it : Iterator) (r : Bool × Iterator)
      → LoadResult it r
      → to_load it ≡ s ++ u
      → (Loaded it r.1 → ReadsBytes (buf ++ s) u r.1 (number_loop fuel buf r.1))
      → ReadsBytes (buf ++ s) u it (if r.0 then number_loop fuel buf r.1 else end_number buf r.1)
  load-ReadsBytes fuel buf s it (true, it') l e k =
      let x = k l in
      record {
        bytes = x.bytes;
        seen = x.seen;
        clear = x.clear;
        same_depth = x.same_depth ∙ l.same_depth;
      }
  load-ReadsBytes fuel buf s it (false, it') l e k = absurd (nothing_left s u h (sym l.nothing ∙ e))

  round-ReadsBytes :
      (fuel : ℕ)
      → LoopReads fuel
      → (buf s : Bytes) (it : Iterator) (x : Option ℕ) → IsValid it
      → it.error ≡ none
      → Splits (window it) (to_load it) s u x
      → (length (buf ++ s) == 0) ≡ false
      → loads it < suc fuel
      → ReadsBytes (buf ++ s) u it (round fuel buf it x)
  round-ReadsBytes fuel next buf s it (some k) v clear (p, q, l) some_byte n =
      let sees = with_head-Sees k it v (omega (arith, l)) in
      rw
        (
          p,
          end_number-clear (buf ++ take k (window it)) (with_head (it.head + k) it) clear
              (ap (λ y. length (buf ++ y) == 0) (sym p) ∙ some_byte),
        )
        (record {
          bytes = refl;
          seen = subst (λ y. Sees y (with_head (it.head + k) it)) q sees;
          clear = clear;
          same_depth = refl;
        })
  round-ReadsBytes fuel next buf s it none v clear (s', p, q, a) some_byte n =
      rw (p, ← append_assoc buf (window it) s')
        (load-ReadsBytes fuel (buf ++ window it) s' it (load_more it) (load_more-result it v) q λ l.
          next (buf ++ window it) s' (load_more it).1 l.seen.valid (l.same_error ∙ clear)
            (l.seen.remains ∙ q) a
            (ap (λ y. length y == 0) (append_assoc buf (window it) s' ∙ ap (λ y. buf ++ y) (sym p))
              ∙ some_byte)
            (omega (arith, l.fewer, n)))

  number_loop-ReadsBytes : (fuel : ℕ) → LoopReads fuel
  number_loop-ReadsBytes zero buf s it v clear e a some_byte n = absurd (omega arith)
  number_loop-ReadsBytes (suc fuel) buf s it v clear e a some_byte n =
      rw (number_loop-round fuel buf it v) (
        round-ReadsBytes fuel (number_loop-ReadsBytes fuel) buf s it (number_end (window it)) v
          clear (number_end-Splits (window it) (to_load it) s u a h e) some_byte n)

  -- readNumberAsBytes comes to an end: for an iterator in bounds and without an error, over
  -- any chunks, whose remaining bytes are s, with only bytes of numbers, and then u that
  -- starts with another byte, where buf and s are not both empty, it returns buf and s and
  -- leaves u, no error and the depth. One round more than the results that the reader has
  -- left is enough.
  pub read_number_as_bytes-ReadsBytes :
      (buf s : Bytes) (it : Iterator)
      → IsValid it
      → it.error ≡ none
      → remaining it ≡ s ++ u
      → All IsNumberByte s
      → (length (buf ++ s) == 0) ≡ false
      → ReadsBytes (buf ++ s) u it (read_number_as_bytes buf it)
  unfolding read_number_as_bytes
  read_number_as_bytes-ReadsBytes buf s it v clear e a some_byte =
      number_loop-ReadsBytes (loads it + 1) buf s it v clear e a some_byte (omega arith)
