-- ===== src/Array/Whole.antt =====
-- ReadArrayCB from the opening bracket on.
use jsoniter.Base.{
  ℕ, ◌+◌, ◌<◌, ◌≡◌, ◌≢◌, refl, ap, ◌∙◌, subst, Bool, true, false, some, none, ◌∷◌, ◌++◌, Bytes,
  length, ◌==◌, arith,
}
use jsoniter.Base.Int.{pos}
use jsoniter.Iter.Defs.{Iterator, next_token, unread_byte, increment_depth, max_depth}
use jsoniter.Iter.Rounds.{unread_byte-depth}
use jsoniter.Iter.View.{remaining, IsValid, Sees}
use jsoniter.Iter.Token.{token, unread_byte-Sees}
use jsoniter.Array.Defs.{close_array, array_loop, read_elements, read_array_cb}
use jsoniter.Array.Elements.{
  Collects, Elements, Follows, Elements-token, with_depth-Sees, increment_depth_lem,
  close_array-Collects, token-Took, array_loop-Elements,
}

-- What stands behind the opening bracket: the closing one, or elements, the first of which does
-- not start with a bracket that closes.
pub data Body {S : Type 0} (R : S → Bytes → S → Type 0) : S → Bytes → S → Bytes → Type 0 where
  empty : {s : S} {raw t : Bytes} → token raw ≡ some (b']', t) → Body R s raw s t
  first :
      {s s1 s2 : S} {raw t : Bytes} (c : ℕ) (r x rest : Bytes)
      → token raw ≡ some (c, r)
      → c ≢ b']'
      → c ∷ r ≡ x ++ rest
      → R s x s1
      → Elements R s1 rest s2 t
      → Body R s raw s2 t

module _ {S : Type 0} (callback : Iterator → S → Bool × Iterator × S) (it : Iterator) (s : S) where
  read_elements-close :
      (next_token it).0 ≡ b']' → read_elements callback it s ≡ close_array (next_token it).1 s
  unfolding read_elements
  read_elements-close e = rw e refl

  read_elements-first :
      (c : ℕ)
      → (next_token it).0 ≡ c
      → c ≢ b']'
      → (callback (unread_byte (next_token it).1) s).0 ≡ true
      → read_elements callback it s
        ≡ array_loop callback
            (length (remaining (callback (unread_byte (next_token it).1) s).1) + 1)
            (next_token (callback (unread_byte (next_token it).1) s).1).0
            (next_token (callback (unread_byte (next_token it).1) s).1).1
            (callback (unread_byte (next_token it).1) s).2
  unfolding read_elements
  read_elements-first c e n ok =
      let other : (c == b']') ≡ false = ground (arith, n) in rw (e, other, ok) refl

  read_array_cb-open :
      (it2 : Iterator)
      → (next_token it).0 ≡ b'['
      → increment_depth (next_token it).1 ≡ (true, it2)
      → read_array_cb callback it s ≡ read_elements callback it2 s
  unfolding read_array_cb
  read_array_cb-open it2 e f = rw (e, f) refl

module _ {S : Type 0} (callback : Iterator → S → Bool × Iterator × S) (R : S → Bytes → S → Type 0)
    (n : ℕ)
    (law : (s s' : S) (x t : Bytes) (it : Iterator)
      → R s x s'
      → Follows t
      → Sees (x ++ t) it
      → it.error ≡ none
      → it.depth ≡ pos (n + 1)
      → Collects s' t it.depth (callback it s)) where
  read_elements-Body :
      (s s' : S) (raw t : Bytes) (it : Iterator)
      → Body R s raw s' t
      → Sees raw it
      → it.error ≡ none
      → it.depth ≡ pos (n + 1)
      → Collects s' t (pos n) (read_elements callback it s)
  read_elements-Body s s' raw t it (empty q) sees clear depth =
      let took = token-Took b']' t raw it sees q in
      rw (read_elements-close callback it s took.byte) (
        close_array-Collects s t n (next_token it).1 took.seen (took.same_error ∙ clear)
          (took.same_depth ∙ depth))
  read_elements-Body s s' raw t it (first {s1 = s1} c r x rest q other split step d) sees clear
        depth =
      let took = token-Took c r raw it sees q in
      let (seen, ok, _) = unread_byte-Sees took clear in
      let it1 = unread_byte (next_token it).1 in
      let (c', rest', e', one) = Elements-token d in
      let y =
        law s s1 x rest it1 step (c', rest', e', one) (subst (λ z. Sees z it1) split seen) ok
          (unread_byte-depth (next_token it).1 ∙ took.same_depth ∙ depth) in
      let took' = token-Took c' rest' rest (callback it1 s).1 y.seen e' in
      rw (read_elements-first callback it s c took.byte other y.success, took'.byte, y.state)
        (array_loop-Elements callback R n law (length (remaining (callback it1 s).1) + 1) c' s1 s'
          rest rest' t (next_token (callback it1 s).1).1 d e'
          (omega (arith, ap length y.seen.remains)) took'.seen (took'.same_error ∙ y.clear)
          (took'.same_depth
            ∙ y.depth
            ∙ unread_byte-depth (next_token it).1
            ∙ took.same_depth
            ∙ depth))

  -- For a callback that reads any element x of which R says that it takes the state s to s',
  -- before a comma or a closing bracket, at the depth n + 1, leaving what follows, the depth
  -- and no error: ReadArrayCB on an iterator in bounds, without an error, at a depth n below
  -- maxDepth, over any chunks, whose remaining bytes are the text of an array and then t,
  -- returns true, leaves t, no error and the depth it had, and has called the callback on the
  -- elements in their order. The first element does not start with a closing bracket.
  pub read_array_cb-Body :
      (s s' : S) (body t : Bytes) (it : Iterator)
      → IsValid it
      → it.error ≡ none
      → it.depth ≡ pos n
      → n < max_depth
      → token (remaining it) ≡ some (b'[', body)
      → Body R s body s' t
      → Collects s' t (pos n) (read_array_cb callback it s)
  read_array_cb-Body s s' body t it v clear depth h e d =
      let took = token-Took b'[' body (remaining it) it (record { valid = v; remains = refl }) e in
      let it1 = (next_token it).1 in
      rw
        (read_array_cb-open callback it s (record it1 { depth = pos (n + 1) }) took.byte
          (increment_depth_lem it1 n (took.same_depth ∙ depth) h))
        (read_elements-Body s s' body t (record it1 { depth = pos (n + 1) }) d
          (with_depth-Sees (pos (n + 1)) took.seen) (took.same_error ∙ clear) refl)
