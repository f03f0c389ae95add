-- ===== src/Iter/Token.antt =====
-- nextToken and readByte as functions of the bytes that remain.
use jsoniter.Base.{
  ℕ, zero, suc, ◌+◌, ◌-◌, ◌≤◌, ◌<◌, ◌≡◌, refl, sym, ap, ◌∙◌, subst, inl, inr, Bool, true, false,
  Option, none, some, [], ◌∷◌, ◌++◌, Bytes, length, get_or, take, drop, ◌||◌, ◌==◌, ==_iff,
  if◌then◌else◌, arith, Bool-cases, Option-cases,
}
use jsoniter.Iter.Defs.{
  Iterator, window, loads, load_more, first_token, next_token_loop, next_token, read_byte,
  unread_byte, with_head,
}
use jsoniter.Iter.View.{
  to_load, remaining, IsValid, Sees, Failed, Loaded, LoadResult, length-window, with_head-Sees,
}
use jsoniter.Iter.Load.{load_more-result}

-- The white space of JSON: space, tab, line feed and carriage return.
abbrev pub is_blank : ℕ → Bool
is_blank c = c == 0x20 || c == 0x0a || c == 0x09 || c == 0x0d

-- The first byte of a text that is not white space, and what follows it.
abbrev pub token : Bytes → Option (ℕ × Bytes)
token [] = none
token (c ∷ s) = if is_blank c then token s else some (c, s)

-- A byte was taken off the front, and `rest` is left. Head is positive, so the byte can be put back.
pub record Took (c : ℕ) (rest : Bytes) (it : Iterator) (r : ℕ × Iterator) : Type 0 where
  pub byte : r.0 ≡ c
  pub seen : Sees rest r.1
  pub same_error : r.1.error ≡ it.error
  pub same_depth : r.1.depth ≡ it.depth
  pub moved : 0 < r.1.head
  pub loads_le : loads r.1 ≤ loads it
  pub before : Sees (c ∷ rest) (with_head (r.1.head - 1) r.1)

-- There was no byte: the result is 0, and the iterator holds an error.
pub record Ended (it : Iterator) (r : ℕ × Iterator) : Type 0 where
  pub byte : r.0 ≡ 0
  pub failed : Failed r.1
  pub same_depth : r.1.depth ≡ it.depth

abbrev pub Takes : Option (ℕ × Bytes) → Iterator → ℕ × Iterator → Type 0
Takes none it r = Ended it r
Takes (some (c, rest)) it r = Took c rest it r

pub first_token-token :
    (w t : Bytes)
    → token (w ++ t)
      ≡ elim (first_token w) [ none ↦ token t | some (n, c) ↦ some (c, drop (suc n) w ++ t) ]
unfolding first_token
first_token-token [] t = refl
first_token-token (c ∷ w) t = ground (arith, first_token-token w t)

pub first_token-lt : (w : Bytes) {n c : ℕ} → first_token w ≡ some (n, c) → n < length w
unfolding first_token
first_token-lt [] h = cc
first_token-lt (d ∷ w) {n} {c} h = elim (Option-cases (first_token w)) [
  | inl e ↦ ground arith
  | inr ((m, b), e) ↦ ground (arith, first_token-lt w e)
]

pub first_token-drop :
    (w : Bytes) {n c : ℕ} → first_token w ≡ some (n, c) → drop n w ≡ c ∷ drop (suc n) w
unfolding first_token
first_token-drop [] h = cc
first_token-drop (d ∷ w) {n} {c} h = elim (Option-cases (first_token w)) [
  | inl e ↦ ground arith
  | inr ((m, b), e) ↦ ground (arith, first_token-drop w e)
]

Takes-of_same :
    (o : Option (ℕ × Bytes)) (a b : Iterator) (r : ℕ × Iterator)
    → b.error ≡ a.error
    → b.depth ≡ a.depth
    → loads a ≤ loads b
    → Takes o a r
    → Takes o b r
Takes-of_same none a b r e d n t = record {
  byte = t.byte;
  failed = t.failed;
  same_depth = t.same_depth ∙ sym d;
}
Takes-of_same (some (c, rest)) a b r e d n t = record {
  byte = t.byte;
  seen = t.seen;
  same_error = t.same_error ∙ sym e;
  same_depth = t.same_depth ∙ sym d;
  moved = t.moved;
  loads_le = omega (arith, t.loads_le);
  before = t.before;
}

-- A round that goes on after a load, or ends because the load failed.
load-Takes :
    (f : Bytes → Option (ℕ × Bytes)) (next : Iterator → ℕ × Iterator) (it : Iterator)
    (r : Bool × Iterator)
    → f [] ≡ none
    → LoadResult it r
    → (Loaded it r.1 → Takes (f (remaining r.1)) r.1 (next r.1))
    → Takes (f (to_load it)) it (elim r.0 [ true ↦ next r.1 | false ↦ (0, r.1) ])
load-Takes f next it (true, it') e l k =
    Takes-of_same (f (to_load it)) it' it (next it') (sym l.same_error) (sym l.same_depth)
      (omega (arith, l.fewer)) (subst (λ s. Takes (f s) it' (next it')) l.seen.remains (k l))
load-Takes f next it (false, it') e l k =
    rw (l.nothing, e) (record { byte = refl; failed = l.failed; same_depth = l.same_depth })

next_token_loop-Takes :
    (fuel : ℕ) (it : Iterator)
    → IsValid it
    → loads it < fuel
    → Takes (token (remaining it)) it (next_token_loop fuel it)
unfolding next_token_loop
next_token_loop-Takes zero it v h = absurd (omega arith)
next_token_loop-Takes (suc fuel) it v h = elim (Option-cases (first_token (window it))) [
  | inl blank ↦
      rw (first_token-token (window it) (to_load it), blank, next_token_loop)
        (load-Takes token (next_token_loop fuel) it (load_more it) refl (load_more-result it v)
          λ l. next_token_loop-Takes fuel (load_more it).1 l.seen.valid (omega (arith, l.fewer)))
  | inr ((n, c), found) ↦
      let e : it.head + n + 1 ≡ it.head + suc n = omega arith in
      let e' : it.head + suc n - 1 ≡ it.head + n = omega arith in
      let lt = first_token-lt (window it) found in
      let s = with_head-Sees (suc n) it v lt in
      rw (first_token-token (window it) (to_load it), found, next_token_loop, e)
        (record {
          byte = refl;
          seen = s;
          same_error = refl;
          same_depth = refl;
          moved = omega arith;
          loads_le = omega arith;
          before = rw e' (
              subst (λ w. Sees (w ++ to_load it) (with_head (it.head + n) it))
                (first_token-drop (window it) found) (with_head-Sees n it v (omega (arith, lt))));
        })
]

-- For an iterator in bounds, over any chunks: nextToken returns the first byte that is not
-- white space of the bytes that remain, leaves those behind it, and keeps the error and the
-- depth; unreading it gives it back. Where there is none it returns 0 and there is an
-- error.
pub next_token-Takes :
    (it : Iterator) → IsValid it → Takes (token (remaining it)) it (next_token it)
unfolding next_token
next_token-Takes it v = next_token_loop-Takes (loads it + 1) it v (omega arith)

abbrev pub uncons : Bytes → Option (ℕ × Bytes)
uncons [] = none
uncons (c ∷ s) = some (c, s)

pub slice-cons :
    (h n : ℕ) (b : Bytes)
    → 0 < n
    → h + n ≤ length b
    → take n (drop h b) ≡ get_or b h 0 ∷ drop 1 (take n (drop h b))
slice-cons zero zero b p q = absurd (omega arith)
slice-cons zero (suc n) [] p q = absurd (omega arith)
slice-cons zero (suc n) (x ∷ b) p q = refl
slice-cons (suc h) n [] p q = absurd (omega arith)
slice-cons (suc h) n (x ∷ b) p q = slice-cons h n b p (omega arith)

pub window_front :
    (it : Iterator)
    → IsValid it
    → it.head < it.tail
    → window it ≡ get_or it.buf it.head 0 ∷ drop 1 (window it)
window_front it v h =
    slice-cons it.head (it.tail - it.head) it.buf (omega arith) (omega (arith, v.tail_le))

-- The byte under head, when there is one in the buffer.
front-Takes :
    (it : Iterator)
    → IsValid it
    → it.head < it.tail
    → Takes (uncons (remaining it)) it (get_or it.buf it.head 0, with_head (it.head + 1) it)
front-Takes it v h =
    let s = with_head-Sees 1 it v (omega (arith, length-window it v)) in
    let e' : it.head + 1 - 1 ≡ it.head = omega arith in
    let e =
      slice-cons it.head (it.tail - it.head) it.buf (omega arith) (omega (arith, v.tail_le)) in
    subst
      (λ w.
        Takes (uncons (w ++ to_load it)) it (get_or it.buf it.head 0, with_head (it.head + 1) it))
      (sym e)
      (record {
        byte = refl;
        seen = s;
        same_error = refl;
        same_depth = refl;
        moved = omega arith;
        loads_le = omega arith;
        before = rw e' (record { valid = v; remains = ap (λ w. w ++ to_load it) e });
      })

pub window_empty : (it : Iterator) → it.head ≡ it.tail → window it ≡ []
window_empty it e = let z : it.tail - it.head ≡ 0 = omega arith in rw z

-- For an iterator in bounds, over any chunks: readByte returns the first of the bytes that
-- remain, leaves those behind it, and keeps the error and the depth; unreading it gives it
-- back. Where there is none it returns 0 and there is an error.
pub read_byte-Takes : (it : Iterator) → IsValid it → Takes (uncons (remaining it)) it (read_byte it)
unfolding read_byte
read_byte-Takes it v = elim (Bool-cases (it.head == it.tail)) [
  | inl at_end ↦
      rw (window_empty it ((==_iff _ _).0 at_end), at_end)
        (load-Takes uncons (λ r. (get_or r.buf r.head 0, with_head (r.head + 1) r)) it
          (load_more it) refl (load_more-result it v)
          λ l. front-Takes (load_more it).1 l.seen.valid (omega (arith, l.at_front, l.holds)))
  | inr inside ↦ rw inside (front-Takes it v (ground (arith, v.head_le)))
]

-- At the end of the window, a byte that is read costs a load.
pub read_byte-loads :
    {c : ℕ} {rest : Bytes} (it : Iterator)
    → IsValid it
    → it.head ≡ it.tail
    → remaining it ≡ c ∷ rest
    → loads (read_byte it).1 < loads it
unfolding read_byte
read_byte-loads {c} {rest} it v h e = rw (at_end it.head it.tail h) (
    go (load_more it) (load_more-result it v)
      (sym (ap (λ w. w ++ to_load it) (window_empty it h)) ∙ e))
  where
    at_end : (a b : ℕ) → a ≡ b → (a == b) ≡ true
    at_end a b e = ground arith

    go :
        (r : Bool × Iterator)
        → LoadResult it r
        → to_load it ≡ c ∷ rest
        → loads
            (elim r.0 as (λ _. ℕ × Iterator) [
              | true ↦ (get_or r.1.buf r.1.head 0, with_head (r.1.head + 1) r.1)
              | false ↦ (0, r.1)
            ]).1
          < loads it
    go (true, it') l e = l.fewer
    go (false, it') l e = cc (l.nothing)

unread_clear : (it : Iterator) → it.error ≡ none → unread_byte it ≡ with_head (it.head - 1) it
unfolding unread_byte
unread_clear it e = rw e

-- A byte that was taken is put back.
pub unread_byte-Sees :
    {c : ℕ} {rest : Bytes} {it : Iterator} {r : ℕ × Iterator}
    → Took c rest it r
    → it.error ≡ none
    → Sees (c ∷ rest) (unread_byte r.1)
      × ((unread_byte r.1).error ≡ none)
      × (loads (unread_byte r.1) ≡ loads r.1)
unfolding unread_byte
unread_byte-Sees {c} {rest} {it} {r} t e =
    let clear : r.1.error ≡ none = t.same_error ∙ e in
    rw (unread_clear r.1 clear) (t.before, clear, refl)
