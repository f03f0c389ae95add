-- ===== src/Codec/Map.antt =====
-- reflect_map.go: the codecs of maps. A map is a list of its entries, in the order in which Go goes
-- through it, and a nil map is `none`.
use jsoniter.Base.{
  ℕ, zero, suc, ◌+◌, Bool, true, false, Option, some, none, List, [], ◌∷◌, ◌++◌, Bytes, length,
  drop, ◌==◌, if◌then◌else◌,
}
use jsoniter.Base.Int.{pos, lebℤ}
use jsoniter.Iter.Defs.{
  eof, Iterator, parse_bytes, reset_bytes, next_token, unread_byte, report_error,
}
use jsoniter.Iter.View.{remaining}
use jsoniter.Text.Read.{Unicode, read_string, skip_three_bytes}
use jsoniter.Stream.Defs.{
  Stream, new_stream, write, write_byte, write_two_bytes, write_nil, write_more, write_object_start,
  write_object_end,
}
use jsoniter.Codec.Defs.{Decoder, Encoder}

-- Go's equality of keys is a parameter.
unfoldable pub set_index : {K V : Type 0} → (K → K → Bool) → K → V → List (K × V) → List (K × V)
set_index same k v [] = (k, v) ∷ []
set_index same k v ((k', v') ∷ m) =
    let rest = set_index same k v m in if same k k' then (k', v) ∷ m else (k', v') ∷ rest

-- The map that the decoder puts the entries in.
abbrev pub made : {K V : Type 0} → Option (List (K × V)) → List (K × V)
made old = elim old [ none ↦ [] | some m ↦ m ]

-- The zero values that UnsafeNew leaves are parameters.
module _ {K V : Type 0} (same : K → K → Bool) (zero_key : K) (zero_elem : V)
    (decode_key : Decoder K) (decode_elem : Decoder V) where
  -- A key, a colon and a value; false where there is no colon.
  unfoldable pub map_entry : List (K × V) → Iterator → Bool × List (K × V) × Iterator
  map_entry m it =
      let (k, it1) = decode_key zero_key it in
      let (c, it2) = next_token it1 in
      let (v, it3) = decode_elem zero_elem it2 in
      if c == b':' then (true, set_index same k v m, it3) else (
        false,
        m,
        report_error "ReadMapCB" "expect : after object field, but found " (c ∷ []) it2,
      )

  -- The loop on the token `c`. Each round reads a comma, so the number of bytes bounds the rounds.
  unfoldable pub map_loop : ℕ → ℕ → List (K × V) → Iterator → List (K × V) × Iterator
  map_loop zero c m it = (m, it)
  map_loop (suc fuel) c m it =
      let (ok, m1, it1) = map_entry m it in
      let (c', it2) = next_token it1 in
      let rest = map_loop fuel c' m1 it2 in
      if c == b','
      then (if ok then rest else (m1, it1))
      else if c == b'}'
      then (m, it)
      else (m, report_error "ReadMapCB" "expect }, but found " (c ∷ []) it)

  unfoldable pub map_decode : Decoder (Option (List (K × V)))
  map_decode old it =
      let (c, it1) = next_token it in
      let (c', it2) = next_token it1 in
      let (ok, m, it3) = map_entry (made old) (unread_byte it2) in
      let (c'', it4) = next_token it3 in
      let (m1, it5) = map_loop (length (remaining it3) + 1) c'' m it4 in
      if c == b'n'
      then (none, skip_three_bytes b'u' b'l' b'l' it1)
      else if c == b'{'
      then (if c' == b'}'
          then (some (made old), it2)
          else if ok
          then (some m1, it5)
          else (some m, it3))
      else (some (made old), report_error "ReadMapCB" "expect { or n, but found " (c ∷ []) it1)

unfoldable pub numeric_map_key_decode : {K : Type 0} → Decoder K → Decoder K
numeric_map_key_decode decode old it =
    let (c, it1) = next_token it in
    let (k, it2) = decode old it1 in
    let (c', it3) = next_token it2 in
    if c == b'"'
    then (
      k,
      if c' == b'"' then it3 else report_error "ReadMapCB" "expect \", but found " (c' ∷ []) it3,
    )
    else (old, report_error "ReadMapCB" "expect \", but found " (c ∷ []) it1)

unfoldable pub numeric_map_key_encode : {K : Type 0} → Encoder K → Encoder K
numeric_map_key_encode encode k st = write_byte b'"' (encode k (write_byte b'"' st))

-- A colon, with a space behind it if the stream `st` has an indention.
abbrev write_colon : Stream → Stream → Stream
write_colon st to =
    if lebℤ (pos 1) st.indention then write_two_bytes b':' b' ' to else write_byte b':' to

module _ {K V : Type 0} (encode_key : Encoder K) (encode_elem : Encoder V) where
  unfoldable pub map_entries : Bool → List (K × V) → Stream → Stream
  map_entries later [] st = st
  map_entries later ((k, v) ∷ m) st =
      let st1 = encode_key k (if later then write_more st else st) in
      map_entries true m (encode_elem v (write_colon st1 st1))

  unfoldable pub map_encode : Encoder (Option (List (K × V)))
  map_encode none st = write_nil st
  map_encode (some m) st = write_object_end (map_entries false m (write_object_start st))

  -- The error of the stream, or else the one of the keys' stream.
  abbrev key_error : Stream → Stream → Stream
  key_error sub st = elim sub.error [
    | none ↦ st
    | some eof ↦ st
    | some e ↦ elim st.error [ none ↦ record st { error = some e } | some e' ↦ st ]
  ]

  module _ (u : Unicode) (format_int : ℕ → Bytes)
      (sort : List (Bytes × Bytes) → List (Bytes × Bytes)) where
    -- The entries on the stream `sub`, each with its key decoded by the iterator `it`, which keeps
    -- its error; `st` is the stream that gets them.
    unfoldable pub key_values :
        List (K × V)
        → List (Bytes × Bytes)
        → Iterator
        → Stream
        → Stream
        → List (Bytes × Bytes) × Stream × Stream
    key_values [] kvs it sub st = (kvs, sub, st)
    key_values ((k, v) ∷ m) kvs it sub st =
        let index = length sub.buf in
        let sub1 = encode_key k sub in
        let st1 = key_error sub1 st in
        let (decoded, it1) = read_string u format_int (reset_bytes (drop index sub1.buf) it) in
        let sub2 = encode_elem v (write_colon st1 sub1) in
        key_values m (kvs ++ (decoded, drop index sub2.buf) ∷ []) it1 sub2 st1

    unfoldable pub write_sorted : Bool → List (Bytes × Bytes) → Stream → Stream
    write_sorted later [] st = st
    write_sorted later ((k, x) ∷ kvs) st =
        write_sorted true kvs (write x (if later then write_more st else st)).1

    -- sort.Sort is a parameter. The stream of the entries and the iterator are borrowed; the stream
    -- has no indention.
    unfoldable pub sort_keys_map_encode : Encoder (Option (List (K × V)))
    sort_keys_map_encode none st = write_nil st
    sort_keys_map_encode (some m) st =
        let (kvs, sub, st1) =
          key_values m [] (parse_bytes []) (new_stream st.indention_step none)
            (write_object_start st) in
        let st2 = write_sorted false (sort kvs) st1 in
        let st3 : Stream = elim st2.error [
          | none ↦ record st2 { error = sub.error }
          | some e ↦ st2
        ] in
        write_object_end st3

unfoldable pub map_is_empty : {K V : Type 0} → Option (List (K × V)) → Bool
map_is_empty none = true
map_is_empty (some []) = true
map_is_empty (some (kv ∷ m)) = false
