-- ===== src/Struct/Open.antt =====
-- The opening of an object.
use jsoniter.Base.{ℕ, ◌+◌, ◌<◌, ◌≡◌, refl, ◌∙◌, true, false, some, none, ◌∷◌, Bytes}
use jsoniter.Base.Int.{pos}
use jsoniter.Iter.Defs.{Iterator, next_token, unread_byte, increment_depth, max_depth}
use jsoniter.Iter.Rounds.{unread_byte-depth}
use jsoniter.Iter.View.{remaining, IsValid, Sees}
use jsoniter.Iter.Token.{token, unread_byte-Sees}
use jsoniter.Skip.Literal.{read_object_start}
use jsoniter.Array.Elements.{with_depth-Sees, increment_depth_lem, token-Took}
use jsoniter.Codec.Reads.{Decodes}

read_object_start-empty :
    (it : Iterator)
    → (next_token it).0 ≡ b'{'
    → (next_token (next_token it).1).0 ≡ b'}'
    → read_object_start it ≡ (false, (next_token (next_token it).1).1)
unfolding read_object_start
read_object_start-empty it e f = rw (e, f) refl

read_object_start-first :
    (it : Iterator)
    → (next_token it).0 ≡ b'{'
    → (next_token (next_token it).1).0 ≡ b'"'
    → read_object_start it ≡ (true, unread_byte (next_token (next_token it).1).1)
unfolding read_object_start
read_object_start-first it e f = rw (e, f) refl

-- What readObjectStart and incrementDepth leave of an object whose first name is in `name`.
pub record Opened (n : ℕ) (name : Bytes) (it : Iterator) : Type 0 where
  pub inside : Iterator
  pub deeper : Iterator
  pub started : read_object_start it ≡ (true, inside)
  pub deep : increment_depth inside ≡ (true, deeper)
  pub seen : Sees (b'"' ∷ name) deeper
  pub clear : deeper.error ≡ none
  pub depth : deeper.depth ≡ pos (n + 1)

module _ (n : ℕ) (body : Bytes) (it : Iterator) (v : IsValid it) (clear : it.error ≡ none)
    (depth : it.depth ≡ pos n) (h : n < max_depth)
    (e : token (remaining it) ≡ some (b'{', body)) where
  pub read_object_start-Opened : (name : Bytes) → token body ≡ some (b'"', name) → Opened n name it
  read_object_start-Opened name q =
      let took = token-Took b'{' body (remaining it) it (record { valid = v; remains = refl }) e in
      let it1 = (next_token it).1 in
      let took' = token-Took b'"' name body it1 took.seen q in
      let (seen, ok, _) = unread_byte-Sees took' (took.same_error ∙ clear) in
      let it2 = unread_byte (next_token it1).1 in
      let deep : it2.depth ≡ pos n =
        unread_byte-depth (next_token it1).1 ∙ took'.same_depth ∙ took.same_depth ∙ depth in
      record {
        inside = it2;
        deeper = record it2 { depth = pos (n + 1) };
        started = read_object_start-first it took.byte took'.byte;
        deep = increment_depth_lem it2 n deep h;
        seen = with_depth-Sees (pos (n + 1)) seen;
        clear = ok;
        depth = refl;
      }

  -- An empty object is read to its end.
  pub read_object_start-Decodes :
      {S : Type 0} (s : S) (t : Bytes)
      → token body ≡ some (b'}', t)
      → (it1 : Iterator) × (read_object_start it ≡ (false, it1)) × Decodes s t (pos n) (s, it1)
  read_object_start-Decodes s t q =
      let took = token-Took b'{' body (remaining it) it (record { valid = v; remains = refl }) e in
      let it1 = (next_token it).1 in
      let took' = token-Took b'}' t body it1 took.seen q in
      (
        (next_token it1).1,
        read_object_start-empty it took.byte took'.byte,
        record {
          value = refl;
          seen = took'.seen;
          clear = took'.same_error ∙ took.same_error ∙ clear;
          same_depth = took'.same_depth ∙ took.same_depth ∙ depth;
        },
      )
