-- ===== src/Text/Hex.antt =====
-- readU4: its branch on the window and its loop over readByte.
use jsoniter.Base.{
  ℕ, zero, suc, ◌+◌, ◌-◌, ◌*◌, ◌<◌, ◌≤◌, ◌≡◌, refl, sym, ap, ◌∙◌, subst, inl, inr, false, none,
  some, [], ◌∷◌, ◌++◌, Bytes, length, get_or, take, drop, ltb, leb, arith, Bool-cases, leb→le,
}
use jsoniter.Iter.Defs.{Iterator, window, loads, with_head, read_byte}
use jsoniter.Iter.View.{to_load, remaining, IsValid, Sees, length-window, with_head-Sees}
use jsoniter.Iter.Token.{Took, Takes, uncons, read_byte-Takes}
use jsoniter.Text.Read.{hex_digit, parse_u4, read_u4_bytes, read_u4}
use jsoniter.Text.Escapes.{HexDigit, hex_digit-HexDigit}

pub read_byte-Took :
    (it : Iterator)
    → IsValid it
    → {c : ℕ} {rest : Bytes} → remaining it ≡ c ∷ rest
    → Took c rest it (read_byte it)
read_byte-Took it v e = subst (λ o. Takes o it (read_byte it)) (ap uncons e) (read_byte-Takes it v)

-- Four digits, their value, and what follows.
pub record IsHex (h1 h2 h3 h4 v : ℕ) : Type 0 where
  pub a : ℕ
  pub b : ℕ
  pub c : ℕ
  pub d : ℕ
  pub first : HexDigit h1 a
  pub second : HexDigit h2 b
  pub third : HexDigit h3 c
  pub fourth : HexDigit h4 d
  pub value : v ≡ ((a * 16 + b) * 16 + c) * 16 + d

-- What has been read is `v`, and `rest` remains, with no error, the same depth and no more loads
-- than before.
pub record ReadsTo (v : ℕ) (rest : Bytes) (it : Iterator) (r : ℕ × Iterator) : Type 0 where
  pub result : r.0 ≡ v
  pub seen : Sees rest r.1
  pub clear : r.1.error ≡ none
  pub same_depth : r.1.depth ≡ it.depth
  pub loads_le : loads r.1 ≤ loads it

get_or-slice :
    (h n k : ℕ) (b t : Bytes)
    → k < n
    → h + n ≤ length b
    → get_or (take n (drop h b) ++ t) k 0 ≡ get_or b (h + k) 0
get_or-slice zero zero k b t p q = absurd (omega arith)
get_or-slice zero (suc n) k [] t p q = absurd (omega arith)
get_or-slice zero (suc n) zero (x ∷ b) t p q = refl
get_or-slice zero (suc n) (suc k) (x ∷ b) t p q =
    let e : 0 + suc k ≡ suc (0 + k) = omega arith in
    rw e (get_or-slice zero n k b t (omega arith) (omega arith))
get_or-slice (suc h) n k [] t p q = absurd (omega arith)
get_or-slice (suc h) n k (x ∷ b) t p q =
    let e : suc h + k ≡ suc (h + k) = omega arith in rw e (get_or-slice h n k b t p (omega arith))

pub drop-append : (n : ℕ) (s t : Bytes) → n ≤ length s → drop n (s ++ t) ≡ drop n s ++ t
drop-append zero s t h = refl
drop-append (suc n) [] t h = absurd (omega arith)
drop-append (suc n) (x ∷ s) t h = drop-append n s t (omega arith)

read_u4_bytes_step :
    (n ret c d : ℕ) (rest : Bytes) (it : Iterator)
    → Took c rest it (read_byte it)
    → it.error ≡ none
    → hex_digit c ≡ some d
    → read_u4_bytes (suc n) ret it ≡ read_u4_bytes n (ret * 16 + d) (read_byte it).1
unfolding read_u4_bytes
read_u4_bytes_step n ret c d rest it t e h = rw (t.same_error ∙ e, t.byte, h, read_u4_bytes)

module _ {h1 h2 h3 h4 v : ℕ} (x : IsHex h1 h2 h3 h4 v) (rest : Bytes) (it : Iterator)
    (valid : IsValid it) (clear : it.error ≡ none)
    (e : remaining it ≡ h1 ∷ h2 ∷ h3 ∷ h4 ∷ rest) where
  read_u4_bytes-ReadsTo : ReadsTo v rest it (read_u4_bytes 4 0 it)
  read_u4_bytes-ReadsTo =
      let t1 = read_byte-Took it valid e in
      let it1 = (read_byte it).1 in
      let t2 = read_byte-Took it1 t1.seen.valid t1.seen.remains in
      let it2 = (read_byte it1).1 in
      let t3 = read_byte-Took it2 t2.seen.valid t2.seen.remains in
      let it3 = (read_byte it2).1 in
      let t4 = read_byte-Took it3 t3.seen.valid t3.seen.remains in
      let it4 = (read_byte it3).1 in
      let c1 = t1.same_error ∙ clear in
      let c2 = t2.same_error ∙ c1 in
      let c3 = t3.same_error ∙ c2 in
      let run : read_u4_bytes 4 0 it
          ≡ (((((0 * 16 + x.a) * 16 + x.b) * 16 + x.c) * 16 + x.d), it4) =
        read_u4_bytes_step 3 0 h1 x.a _ it t1 clear (hex_digit-HexDigit x.first)
        ∙ read_u4_bytes_step 2 _ h2 x.b _ it1 t2 c1 (hex_digit-HexDigit x.second)
        ∙ read_u4_bytes_step 1 _ h3 x.c _ it2 t3 c2 (hex_digit-HexDigit x.third)
        ∙ read_u4_bytes_step 0 _ h4 x.d _ it3 t4 c3 (hex_digit-HexDigit x.fourth)
        ∙ unfold read_u4_bytes in refl in
      rw run (record {
        result = omega (arith, x.value);
        seen = t4.seen;
        clear = t4.same_error ∙ c3;
        same_depth = t4.same_depth ∙ t3.same_depth ∙ t2.same_depth ∙ t1.same_depth;
        loads_le = omega (arith, t1.loads_le, t2.loads_le, t3.loads_le, t4.loads_le);
      })

  pub parse_u4-run : 4 ≤ it.tail - it.head → parse_u4 it ≡ (some v, with_head (it.head + 4) it)
  unfolding parse_u4
  parse_u4-run h =
      let at = λ (k : ℕ) (p : k < it.tail - it.head).
        sym (
          get_or-slice it.head (it.tail - it.head) k it.buf (to_load it) p
            (omega (arith, valid.tail_le)))
        ∙ ap (λ s. get_or s k 0) e in
      let room : ltb (length it.buf) (it.head + 4) ≡ false = ground (arith, valid.tail_le) in
      let d1 = ap hex_digit (at 0 (omega arith)) ∙ hex_digit-HexDigit x.first in
      let d2 = ap hex_digit (at 1 (omega arith)) ∙ hex_digit-HexDigit x.second in
      let d3 = ap hex_digit (at 2 (omega arith)) ∙ hex_digit-HexDigit x.third in
      let d4 = ap hex_digit (at 3 (omega arith)) ∙ hex_digit-HexDigit x.fourth in
      rw (room, d1, d2, d3, d4, parse_u4, x.value)

  -- For an iterator in bounds and without an error whose remaining bytes are four hexadecimal
  -- digits, 0 to 9, A to F or a to f, and then rest: readU4, on its branch within the window
  -- and on its loop over chunks, returns the number they spell, leaves rest, sets no error,
  -- keeps the depth, and does not add to the results left of the reader.
  pub read_u4-ReadsTo : ReadsTo v rest it (read_u4 it)
  unfolding read_u4
  read_u4-ReadsTo = elim (Bool-cases (leb 4 (it.tail - it.head))) [
    | inl buffered ↦
        let long = leb→le _ _ buffered in
        let s = with_head-Sees 4 it valid (omega (arith, length-window it valid)) in
        let left : drop 4 (window it) ++ to_load it ≡ rest =
          sym (drop-append 4 (window it) (to_load it) (omega (arith, length-window it valid)))
          ∙ ap (drop 4) e in
        rw (buffered, parse_u4-run long, parse_u4-run long)
          (record {
            result = refl;
            seen = subst (λ t. Sees t (with_head (it.head + 4) it)) left s;
            clear = clear;
            same_depth = refl;
            loads_le = omega arith;
          })
    | inr across ↦ rw across read_u4_bytes-ReadsTo
  ]
