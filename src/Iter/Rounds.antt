-- ===== src/Iter/Rounds.antt =====
-- The rounds of the loops over windows: a step within the window, and the step to the next one.
use jsoniter.Base.{
  ℕ, suc, ◌+◌, ◌<◌, ◌≡◌, refl, ap, ◌∙◌, subst, inl, inr, Option-cases, none, ◌∷◌, ◌++◌, Bytes,
  length, drop, arith, length-append,
}
use jsoniter.Iter.Defs.{Iterator, window, loads, with_head, read_byte, unread_byte}
use jsoniter.Iter.View.{to_load, remaining, IsValid, Sees, with_head-Sees}
use jsoniter.Iter.Token.{
  Took, Takes, uncons, read_byte-Takes, read_byte-loads, unread_byte-Sees, window_empty,
}

pub step_over :
    (k : ℕ) (it : Iterator)
    → IsValid it
    → k < length (window it)
    → Sees (drop (suc k) (window it) ++ to_load it) (with_head (it.head + k + 1) it)
step_over k it v h =
    let e : it.head + k + 1 ≡ it.head + suc k = omega arith in rw e (with_head-Sees (suc k) it v h)

pub to_tail : (it : Iterator) → IsValid it → Sees (to_load it) (with_head it.tail it)
to_tail it v = record {
  valid = record { head_le = omega arith; tail_le = v.tail_le; fits = v.fits };
  remains = ap (λ w. w ++ to_load it) (window_empty (with_head it.tail it) refl);
}

pub length-remaining :
    (it : Iterator) → length (remaining it) ≡ length (window it) + length (to_load it)
length-remaining it = length-append (window it) (to_load it)

pub unread_byte-depth : (it : Iterator) → (unread_byte it).depth ≡ it.depth
unfolding unread_byte
unread_byte-depth it = elim (Option-cases it.error) [ inl e ↦ rw e refl | inr (x, e) ↦ rw e refl ]

-- The state in which a loop goes on, behind a window that held nothing but what it looked for.
pub record Next (c : ℕ) (rest : Bytes) (it : Iterator) (r : ℕ × Iterator) : Type 0 where
  pub byte : r.0 ≡ c
  pub seen : Sees (c ∷ rest) (unread_byte r.1)
  pub clear : (unread_byte r.1).error ≡ none
  pub fewer : loads (unread_byte r.1) < loads it
  pub same_depth : (unread_byte r.1).depth ≡ it.depth

pub read_byte-Next :
    (c : ℕ) (rest : Bytes) (it : Iterator)
    → IsValid it
    → it.error ≡ none
    → to_load it ≡ c ∷ rest
    → Next c rest it (read_byte (with_head it.tail it))
read_byte-Next c rest it v clear e =
    let at = with_head it.tail it in
    let sees = to_tail it v in
    let took : Took c rest at (read_byte at) =
      subst (λ o. Takes o at (read_byte at)) (ap uncons (sees.remains ∙ e))
        (read_byte-Takes at sees.valid) in
    let fewer = read_byte-loads at sees.valid refl (sees.remains ∙ e) in
    let (seen, ok, same) = unread_byte-Sees took clear in
    record {
      byte = took.byte;
      seen = seen;
      clear = ok;
      fewer = omega (arith, fewer, same);
      same_depth = unread_byte-depth (read_byte at).1 ∙ took.same_depth;
    }

pub clear_record : (it : Iterator) → it.error ≡ none → it ≡ record it { error = none }
clear_record it e = λ i. record it { error = e i }
