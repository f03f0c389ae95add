-- ===== src/Iter/Peek.antt =====
-- WhatIsNext, and the depth counter.
use jsoniter.Base.{ℕ, ◌+◌, ◌≤◌, ◌≡◌, ap, subst, true, none, some, ◌∷◌, Bytes, arith}
use jsoniter.Base.Int.{pos}
use jsoniter.Iter.Defs.{
  Iterator, value_types, next_token, what_is_next, increment_depth, decrement_depth, max_depth,
}
use jsoniter.Iter.View.{remaining, IsValid, Sees}
use jsoniter.Iter.Token.{token, Took, Takes, next_token-Takes, unread_byte-Sees}

-- For an iterator in bounds and without an error whose first byte behind white space is c,
-- followed by rest: WhatIsNext returns the type that valueTypes has for c, c and rest still
-- remain to be read, and there is no error.
pub what_is_next-peeks :
    (c : ℕ) (rest : Bytes) (it : Iterator)
    → IsValid it
    → it.error ≡ none
    → token (remaining it) ≡ some (c, rest)
    → ((what_is_next it).0 ≡ value_types c)
      × Sees (c ∷ rest) (what_is_next it).1
      × ((what_is_next it).1.error ≡ none)
unfolding what_is_next
what_is_next-peeks c rest it v clear e =
    let took : Took c rest it (next_token it) =
      subst (λ o. Takes o it (next_token it)) e (next_token-Takes it v) in
    let (sees, ok, _) = unread_byte-Sees took clear in (ap value_types took.byte, sees, ok)

-- For an iterator whose depth is n, not negative and below maxDepth: incrementDepth and
-- then decrementDepth both succeed, and give back the depth and the error.
pub decrement_depth-increment_depth :
    (it : Iterator) (n : ℕ)
    → it.depth ≡ pos n
    → n + 1 ≤ max_depth
    → ((increment_depth it).0 ≡ true)
      × ((decrement_depth (increment_depth it).1).0 ≡ true)
      × ((decrement_depth (increment_depth it).1).1.depth ≡ it.depth)
      × ((decrement_depth (increment_depth it).1).1.error ≡ it.error)
unfolding increment_depth decrement_depth
decrement_depth-increment_depth it n e h = ground (arith, e, h)
