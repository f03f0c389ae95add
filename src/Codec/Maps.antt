-- ===== src/Codec/Maps.antt =====
-- What the encoder of maps with string keys appends, read by the decoder.
use jsoniter.Base.{
  ℕ, zero, suc, ◌+◌, ◌<◌, ◌≤◌, ◌≡◌, refl, ap, ◌∙◌, Bool, true, Option, some, none, List, [], ◌∷◌,
  ◌++◌, Bytes, length, length-append, arith,
}
use jsoniter.Base.Int.{ℤ, pos}
use jsoniter.Iter.Defs.{Iterator, next_token, unread_byte}
use jsoniter.Iter.Rounds.{unread_byte-depth}
use jsoniter.Iter.View.{remaining, Sees}
use jsoniter.Iter.Token.{token, unread_byte-Sees}
use jsoniter.Text.Read.{Unicode, skip_three_bytes}
use jsoniter.Text.Print.{quoted, IsUnicode, quoted-Spells}
use jsoniter.Text.Loop.{read_string-Spells}
use jsoniter.Array.Elements.{Follows, token-Took}
use jsoniter.Strict.Text.{skip_three_bytes-Leaves}
use jsoniter.Codec.Defs.{Decoder, Encoder}
use jsoniter.Codec.Native.{string_codec}
use jsoniter.Codec.Reads.{Decodes}
use jsoniter.Codec.RoundTrip.{RoundTrips}
use jsoniter.Codec.Map.{set_index, made, map_entry, map_loop, map_decode}

-- An entry has been stored, and `t` is left with no error, at the depth `d`.
record Stored {K V : Type 0} (m : List (K × V)) (t : Bytes) (d : ℤ)
    (r : Bool × List (K × V) × Iterator) : Type 0 where
  success : r.0 ≡ true
  entries : r.1 ≡ m
  seen : Sees t r.2
  clear : r.2.error ≡ none
  same_depth : r.2.depth ≡ d

module _ {V : Type 0} (text : V → Bytes) where
  -- A key and its value before the text `r`.
  abbrev pair_text : Bytes → V → Bytes → Bytes
  pair_text k v r = b'"' ∷ (quoted k ++ b':' ∷ (text v ++ r))

  -- The first byte of the entries up to the closing brace, and the bytes behind it.
  abbrev pub first_byte : List (Bytes × V) → ℕ
  first_byte [] = b'}'
  first_byte (e ∷ es) = b','

  abbrev pub behind : List (Bytes × V) → Bytes → Bytes
  behind [] t = t
  behind ((k, v) ∷ es) t = pair_text k v (first_byte es ∷ behind es t)

  -- The text of a map.
  abbrev pub map_text : Option (List (Bytes × V)) → Bytes → Bytes
  map_text none t = b'n' ∷ b'u' ∷ b'l' ∷ b'l' ∷ t
  map_text (some []) t = b'{' ∷ b'}' ∷ t
  map_text (some (e ∷ es)) t = b'{' ∷ behind (e ∷ es) t

  first_byte-token :
      (es : List (Bytes × V)) (t : Bytes)
      → token (first_byte es ∷ behind es t) ≡ some (first_byte es, behind es t)
  first_byte-token [] t = refl
  first_byte-token (e ∷ es) t = refl

  first_byte-Follows : (es : List (Bytes × V)) (t : Bytes) → Follows (first_byte es ∷ behind es t)
  first_byte-Follows [] t = (b'}', t, refl, refl)
  first_byte-Follows (e ∷ es) t = (b',', behind (e ∷ es) t, refl, refl)

  length-behind : (es : List (Bytes × V)) (t : Bytes) → length es ≤ length (behind es t)
  length-behind [] t = omega arith
  length-behind ((k, v) ∷ es) t = omega (
    arith,
    length-behind es t,
    length-append (quoted k) (b':' ∷ (text v ++ first_byte es ∷ behind es t)),
    length-append (text v) (first_byte es ∷ behind es t),
  )

module _ {V : Type 0} (same : Bytes → Bytes → Bool) where
  -- The entries put into a map one after the other.
  abbrev pub store_all : List (Bytes × V) → List (Bytes × V) → List (Bytes × V)
  store_all [] m = m
  store_all ((k, v) ∷ es) m = store_all es (set_index same k v m)

  -- What a map becomes when a map is decoded into it.
  abbrev pub merge :
      Option (List (Bytes × V)) → Option (List (Bytes × V)) → Option (List (Bytes × V))
  merge none old = none
  merge (some es) old = some (store_all es (made old))

module _ {V : Type 0} (u : Unicode) (format_int : ℕ → Bytes) (law_u : IsUnicode u) (n : ℕ)
    (same : Bytes → Bytes → Bool) (zero_elem : V) (encode : Encoder V) (decode : Decoder V)
    (text : V → Bytes) (law : RoundTrips n encode decode text) where
  abbrev pub key : Decoder Bytes
  key = (string_codec u format_int).decode

  abbrev entry : List (Bytes × V) → Iterator → Bool × List (Bytes × V) × Iterator
  entry = map_entry same [] zero_elem key decode

  abbrev store : Bytes → V → List (Bytes × V) → List (Bytes × V)
  store = set_index same

  entry-colon :
      (m : List (Bytes × V)) (it it1 : Iterator) (k : Bytes) (v : V)
      → (key [] it).0 ≡ k
      → (key [] it).1 ≡ it1
      → (next_token it1).0 ≡ b':'
      → (decode zero_elem (next_token it1).1).0 ≡ v
      → entry m it ≡ (true, store k v m, (decode zero_elem (next_token it1).1).1)
  unfolding map_entry
  entry-colon m it it1 k v e f g h = rw (e, f, g, h) refl

  entry-Stored :
      (m es : List (Bytes × V)) (k : Bytes) (v : V) (t : Bytes) (it : Iterator)
      → Sees (behind text ((k, v) ∷ es) t) it
      → it.error ≡ none
      → it.depth ≡ pos n
      → Stored (store k v m) (first_byte text es ∷ behind text es t) it.depth (entry m it)
  unfolding string_codec
  entry-Stored m es k v t it sees clear depth =
      let rest = first_byte text es ∷ behind text es t in
      let colon = b':' ∷ (text v ++ rest) in
      let y =
        read_string-Spells u format_int it (quoted k ++ colon) k colon sees.valid clear
          (ap token sees.remains) (quoted-Spells u law_u k colon) in
      let it1 = (key [] it).1 in
      let took = token-Took b':' (text v ++ rest) colon it1 y.seen refl in
      let z =
        law.reads v zero_elem rest (next_token it1).1 (first_byte-Follows text es t) took.seen
          (took.same_error ∙ y.clear) (took.same_depth ∙ y.same_depth ∙ depth) in
      rw (entry-colon m it it1 k v y.text refl took.byte z.value) (record {
        success = refl;
        entries = refl;
        seen = z.seen;
        clear = z.clear;
        same_depth = z.same_depth ∙ took.same_depth ∙ y.same_depth;
      })

  abbrev loop : ℕ → ℕ → List (Bytes × V) → Iterator → List (Bytes × V) × Iterator
  loop = map_loop same [] zero_elem key decode

  loop-close :
      (fuel : ℕ) (m : List (Bytes × V)) (it : Iterator) → loop (suc fuel) b'}' m it ≡ (m, it)
  unfolding map_loop
  loop-close fuel m it = refl

  loop-comma :
      (fuel : ℕ) (m m1 : List (Bytes × V)) (it : Iterator)
      → (entry m it).0 ≡ true
      → (entry m it).1 ≡ m1
      → loop (suc fuel) b',' m it
        ≡ loop fuel (next_token (entry m it).2).0 m1 (next_token (entry m it).2).1
  unfolding map_loop
  loop-comma fuel m m1 it e f = rw (e, f) refl

  loop-Decodes :
      (fuel : ℕ) (es m : List (Bytes × V)) (t : Bytes) (it : Iterator)
      → length es < fuel
      → Sees (behind text es t) it
      → it.error ≡ none
      → it.depth ≡ pos n
      → Decodes (store_all same es m) t (pos n) (loop fuel (first_byte text es) m it)
  loop-Decodes zero es m t it h sees clear depth = absurd (omega arith)
  loop-Decodes (suc fuel) [] m t it h sees clear depth =
      rw (loop-close fuel m it)
        (record { value = refl; seen = sees; clear = clear; same_depth = depth })
  loop-Decodes (suc fuel) ((k, v) ∷ es) m t it h sees clear depth =
      let y = entry-Stored m es k v t it sees clear depth in
      let it1 = (entry m it).2 in
      let took =
        token-Took (first_byte text es) (behind text es t) (first_byte text es ∷ behind text es t)
          it1 y.seen (first_byte-token text es t) in
      rw (loop-comma fuel m (store k v m) it y.success y.entries, took.byte)
        (loop-Decodes fuel es (store k v m) t (next_token it1).1 (omega (arith, h)) took.seen
          (took.same_error ∙ y.clear) (took.same_depth ∙ y.same_depth ∙ depth))

  abbrev whole : Decoder (Option (List (Bytes × V)))
  whole = map_decode same [] zero_elem key decode

  map_decode-nil :
      (old : Option (List (Bytes × V))) (it : Iterator)
      → (next_token it).0 ≡ b'n'
      → whole old it ≡ (none, skip_three_bytes b'u' b'l' b'l' (next_token it).1)
  unfolding map_decode
  map_decode-nil old it e = rw e refl

  map_decode-empty :
      (old : Option (List (Bytes × V))) (it : Iterator)
      → (next_token it).0 ≡ b'{'
      → (next_token (next_token it).1).0 ≡ b'}'
      → whole old it ≡ (some (made old), (next_token (next_token it).1).1)
  unfolding map_decode
  map_decode-empty old it e f = rw (e, f) refl

  abbrev first_key : Iterator → Iterator
  first_key it = unread_byte (next_token (next_token it).1).1

  map_decode-first :
      (old : Option (List (Bytes × V))) (it it3 : Iterator) (m : List (Bytes × V))
      → (next_token it).0 ≡ b'{'
      → (next_token (next_token it).1).0 ≡ b'"'
      → (entry (made old) (first_key it)).0 ≡ true
      → (entry (made old) (first_key it)).1 ≡ m
      → (entry (made old) (first_key it)).2 ≡ it3
      → whole old it ≡ (
        some (loop (length (remaining it3) + 1) (next_token it3).0 m (next_token it3).1).0,
        (loop (length (remaining it3) + 1) (next_token it3).0 m (next_token it3).1).1,
      )
  unfolding map_decode
  map_decode-first old it it3 m e f ok g h = rw (e, f, ok, g, h) refl

  pub map_decode-text :
      (m old : Option (List (Bytes × V))) (t : Bytes) (it : Iterator)
      → Sees (map_text text m t) it
      → it.error ≡ none
      → it.depth ≡ pos n
      → Decodes (merge same m old) t (pos n) (whole old it)
  map_decode-text none old t it sees clear depth =
      let took = token-Took b'n' (b'u' ∷ b'l' ∷ b'l' ∷ t) (map_text text none t) it sees refl in
      let y =
        skip_three_bytes-Leaves b'u' b'l' b'l' t (next_token it).1 took.seen
          (took.same_error ∙ clear) in
      rw (map_decode-nil old it took.byte) (record {
        value = refl;
        seen = y.seen;
        clear = y.clear;
        same_depth = y.same_depth ∙ took.same_depth ∙ depth;
      })
  map_decode-text (some []) old t it sees clear depth =
      let took = token-Took b'{' (b'}' ∷ t) (map_text text (some []) t) it sees refl in
      let took' = token-Took b'}' t (b'}' ∷ t) (next_token it).1 took.seen refl in
      rw (map_decode-empty old it took.byte took'.byte) (record {
        value = refl;
        seen = took'.seen;
        clear = took'.same_error ∙ took.same_error ∙ clear;
        same_depth = took'.same_depth ∙ took.same_depth ∙ depth;
      })
  map_decode-text (some ((k, v) ∷ es)) old t it sees clear depth =
      let body = behind text ((k, v) ∷ es) t in
      let rest = first_byte text es ∷ behind text es t in
      let took = token-Took b'{' body (map_text text (some ((k, v) ∷ es)) t) it sees refl in
      let took' =
        token-Took b'"' (quoted k ++ b':' ∷ (text v ++ rest)) body (next_token it).1 took.seen
          refl in
      let (seen, ok, _) = unread_byte-Sees took' (took.same_error ∙ clear) in
      let deep : (first_key it).depth ≡ pos n =
        unread_byte-depth (next_token (next_token it).1).1
        ∙ took'.same_depth
        ∙ took.same_depth
        ∙ depth in
      let y = entry-Stored (made old) es k v t (first_key it) seen ok deep in
      let it3 = (entry (made old) (first_key it)).2 in
      let last =
        token-Took (first_byte text es) (behind text es t) rest it3 y.seen
          (first_byte-token text es t) in
      let z =
        loop-Decodes (length (remaining it3) + 1) es (store k v (made old)) t (next_token it3).1
          (omega (arith, ap length y.seen.remains, length-behind text es t)) last.seen
          (last.same_error ∙ y.clear) (last.same_depth ∙ y.same_depth ∙ deep) in
      rw
        (
          map_decode-first old it it3 (store k v (made old)) took.byte took'.byte y.success
              y.entries refl,
          last.byte,
        )
        (record {
          value = ap some z.value;
          seen = z.seen;
          clear = z.clear;
          same_depth = z.same_depth;
        })
