-- ===== src/Object/Buffered.antt =====
-- isNextTokenBuffered, and the view that a raw string is.
use jsoniter.Base.{
  ℕ, zero, suc, ◌+◌, ◌<◌, ◌≡◌, refl, sym, ap, ◌∙◌, inl, inr, true, false, ◌||◌, some, [], ◌∷◌, ◌++◌,
  Bytes, length, drop, ltb, leb, arith, Bool-cases, Option-cases,
}
use jsoniter.Iter.Defs.{
  Iterator, window, loads, with_head, is_space, first_token, next_token_loop, next_token,
  is_next_token_buffered,
}
use jsoniter.Iter.View.{to_load, remaining, IsValid, with_head-Sees, window-with_head}
use jsoniter.Iter.Token.{token, first_token-token, first_token-lt, first_token-drop}

first_token-space : (w : Bytes) (n c : ℕ) → first_token w ≡ some (n, c) → is_space c ≡ false
unfolding first_token
first_token-space [] n c e = cc
first_token-space (b ∷ w) n c e = elim (Option-cases (first_token w)) [
  | inl f ↦ ground arith
  | inr ((m, d), f) ↦ ground (arith, first_token-space w m d f)
]

first_token_front : (c : ℕ) (w : Bytes) → is_space c ≡ false → first_token (c ∷ w) ≡ some (0, c)
unfolding first_token
first_token_front c w e = rw e refl

token_front : (c : ℕ) (w : Bytes) → is_space c ≡ false → token (c ∷ w) ≡ some (c, w)
token_front c w e = rw e refl

-- White space may be gone, and nothing else.
pub record Skims (it it' : Iterator) : Type 0 where
  pub valid : IsValid it'
  pub same_token : token (remaining it') ≡ token (remaining it)
  pub same_error : it'.error ≡ it.error
  pub same_depth : it'.depth ≡ it.depth
  pub same_loads : loads it' ≡ loads it

next_token_loop-found :
    (fuel : ℕ) (it : Iterator) (c : ℕ)
    → 0 < fuel
    → first_token (window it) ≡ some (0, c)
    → next_token_loop fuel it ≡ (c, with_head (it.head + 0 + 1) it)
unfolding next_token_loop
next_token_loop-found zero it c h e = absurd (omega arith)
next_token_loop-found (suc fuel) it c h e = rw (e, next_token_loop)

next_token-found :
    (it : Iterator) (c : ℕ)
    → first_token (window it) ≡ some (0, c)
    → next_token it ≡ (c, with_head (it.head + 0 + 1) it)
unfolding next_token
next_token-found it c e = next_token_loop-found (loads it + 1) it c (omega arith) e

module _ (it : Iterator) (v : IsValid it) where
  Skims-found :
      (n c : ℕ) → first_token (window it) ≡ some (n, c) → Skims it (with_head (it.head + n) it)
  Skims-found n c e =
      let sees = with_head-Sees n it v (omega (arith, first_token-lt (window it) e)) in
      let front = first_token-drop (window it) e in
      let there : token (remaining it) ≡ some (c, drop (suc n) (window it) ++ to_load it) =
        first_token-token (window it) (to_load it) ∙ rw e refl in
      let here : token (remaining (with_head (it.head + n) it))
          ≡ some (c, drop (suc n) (window it) ++ to_load it) =
        ap token (sees.remains ∙ ap (λ w. w ++ to_load it) front)
        ∙ token_front c (drop (suc n) (window it) ++ to_load it)
            (first_token-space (window it) n c e) in
      record {
        valid = sees.valid;
        same_token = here ∙ sym there;
        same_error = refl;
        same_depth = refl;
        same_loads = refl;
      }

  pub is_next_token_buffered-Skims : Skims it (is_next_token_buffered it).1
  unfolding is_next_token_buffered
  is_next_token_buffered-Skims =
      elim (Bool-cases (leb it.tail it.head || ltb (length it.buf) it.tail)) [
        | inl e ↦ rw e same
        | inr e ↦ elim (Option-cases (first_token (window it))) [
          | inl f ↦ rw (e, f) same
          | inr ((n, c), f) ↦ rw (e, f) (Skims-found n c f)
        ]
      ]
    where
      same : Skims it it
      same = record {
        valid = v;
        same_token = refl;
        same_error = refl;
        same_depth = refl;
        same_loads = refl;
      }

  found_there :
      (n c : ℕ)
      → first_token (window it) ≡ some (n, c)
      → next_token (with_head (it.head + n) it) ≡ (c, with_head (it.head + n + 0 + 1) it)
  found_there n c e = next_token-found (with_head (it.head + n) it) c (
      ap first_token (window-with_head n it ∙ first_token-drop (window it) e)
      ∙ first_token_front c (drop (suc n) (window it)) (first_token-space (window it) n c e))

  -- For an iterator in bounds: when isNextTokenBuffered returns true, the nextToken that
  -- follows it leaves the buffer and the reader as they were, so that a RawString that is a
  -- view of the buffer is still valid behind it.
  pub next_token-is_next_token_buffered :
      (is_next_token_buffered it).0 ≡ true
      → ((next_token (is_next_token_buffered it).1).1.buf ≡ it.buf)
        × ((next_token (is_next_token_buffered it).1).1.reader ≡ it.reader)
  unfolding is_next_token_buffered
  next_token-is_next_token_buffered h =
      elim (Bool-cases (leb it.tail it.head || ltb (length it.buf) it.tail)) [
        | inl e ↦ absurd (ground (arith, h, e))
        | inr e ↦ elim (Option-cases (first_token (window it))) [
          | inl f ↦ absurd (ground (arith, h, e, f))
          | inr ((n, c), f) ↦ rw (e, f, found_there n c f) (refl, refl)
        ]
      ]
