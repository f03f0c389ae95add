-- ===== src/Object/Defs.antt =====
-- ReadObject, ReadObjectRaw and ReadObjectRawCB of iter_object.go. The callback is a function on
-- the iterator, the field name and a state of the caller's. A name that may be a view of the buffer
-- is a function of the iterator at which it is looked at.
use jsoniter.Base.{
  ℕ, zero, suc, ◌+◌, Bool, true, false, Option, none, some, [], ◌∷◌, Bytes, length, ◌==◌,
  if◌then◌else◌,
}
use jsoniter.Iter.Defs.{
  Iterator, next_token, unread_byte, report_error, increment_depth, is_next_token_buffered,
}
use jsoniter.Iter.View.{remaining}
use jsoniter.Text.Read.{Unicode, skip_three_bytes}
use jsoniter.Array.Defs.{close_array, leave_array}
use jsoniter.Raw.Defs.{
  RawString, no_string, is_nil, view_in, realize, to_string, read_raw_string, read_raw_string_inner,
}

-- Behind a name: it is copied unless the next token is in the buffer, and then that token is read.
-- The read may load over the buffer that a name not copied is a view of.
unfoldable pub after_name : RawString × Iterator → (Iterator → RawString) × ℕ × Iterator
after_name (rs, it) =
    let (buffered, it1) = is_next_token_buffered it in
    let (c, it2) = next_token it1 in (view_in it (if buffered then rs else realize rs), c, it2)

abbrev pub no_colon : ℕ → Iterator → Iterator
no_colon c it =
    report_error "ReadObject" "expect : after object field, but found " (c ∷ []) (unread_byte it)

unfoldable pub with_colon : RawString × Iterator → RawString × Iterator
with_colon named =
    let (rs, c, it) = after_name named in
    let it' = if c == b':' then it else no_colon c it in (rs it', it')

module _ (format_int : ℕ → Bytes) where
  unfoldable pub read_object_raw : Iterator → RawString × Iterator
  read_object_raw it =
      let (c, it1) = next_token it in
      let (c', it2) = next_token it1 in
      if c == b'n'
      then (no_string, skip_three_bytes b'u' b'l' b'l' it1)
      else if c == b'{'
      then (if c' == b'"'
          then with_colon (read_raw_string_inner format_int it2)
          else if c' == b'}'
          then (no_string, it2)
          else (no_string, report_error "ReadObject" "expect \" after {, but found " (c' ∷ []) it2))
      else if c == b','
      then with_colon (read_raw_string format_int it1)
      else if c == b'}'
      then (no_string, it1)
      else (
        no_string,
        report_error "ReadObject" "expect { or , or } or n, but found " (c ∷ []) (unread_byte it1),
      )

  -- `none` is the panic of String.
  unfoldable pub read_object : Unicode → Iterator → Option (Bytes × Bool × Iterator)
  read_object u it =
      let (rs, it1) = read_object_raw it in
      if is_nil rs
      then some ([], false, it1)
      else elim (to_string u format_int rs) [ none ↦ none | some s ↦ some (s, true, it1) ]

  module _ {S : Type 0}
      (callback : Iterator → (Iterator → RawString) → S → Bool × Iterator × S) where
    -- The loop on the token `c`; as in array_loop, the number of bytes bounds the rounds.
    unfoldable pub object_loop : ℕ → ℕ → Iterator → S → Bool × Iterator × S
    object_loop zero c it s = (false, it, s)
    object_loop (suc fuel) c it s =
        let (rs, c1, it1) = after_name (read_raw_string format_int it) in
        let (ok, it2, s1) = callback it1 rs s in
        let (c2, it3) = next_token it2 in
        let rest = object_loop fuel c2 it3 s1 in
        if c == b','
        then (if c1 == b':'
            then (if ok then rest else leave_array it2 s1)
            else (false, no_colon c1 it1, s))
        else if c == b'}'
        then close_array it s
        else (false, report_error "ReadObjectCB" "object not ended with }" [] (unread_byte it), s)

    unfoldable pub read_fields : Iterator → S → Bool × Iterator × S
    read_fields it s =
        let (c, it1) = next_token it in
        let (rs, c1, it2) = after_name (read_raw_string_inner format_int it1) in
        let (ok, it3, s1) = callback it2 rs s in
        let (c2, it4) = next_token it3 in
        if c == b'"'
        then (if c1 == b':'
            then (if ok
                then object_loop (length (remaining it3) + 1) c2 it4 s1
                else leave_array it3 s1)
            else (false, no_colon c1 it2, s))
        else if c == b'}'
        then close_array it1 s
        else leave_array
            (report_error "ReadObjectCB" "expect \" after {, but found " (c ∷ []) (unread_byte it1))
            s

    unfoldable pub read_object_raw_cb : Iterator → S → Bool × Iterator × S
    read_object_raw_cb it s =
        let (c, it1) = next_token it in
        let (ok, it2) = increment_depth it1 in
        if c == b'{'
        then (if ok then read_fields it2 s else (false, it2, s))
        else if c == b'n'
        then (true, skip_three_bytes b'u' b'l' b'l' it1, s)
        else (
          false,
          report_error "ReadObjectCB" "expect { or n, but found " (c ∷ []) (unread_byte it1),
          s,
        )

-- The callback gets the decoded name. A state of `none` is a panic of String, behind which
-- nothing runs.
module _ (u : Unicode) (format_int : ℕ → Bytes) {S : Type 0}
    (callback : Iterator → Bytes → S → Bool × Iterator × S) where
  unfoldable pub decoded : Iterator → (Iterator → RawString) → Option S → Bool × Iterator × Option S
  decoded it rs none = (false, it, none)
  decoded it rs (some s) = elim (to_string u format_int (rs it)) [
    | none ↦ (false, it, none)
    | some name ↦ let (ok, it', s') = callback it name s in (ok, it', some s')
  ]

  unfoldable pub read_object_cb : Iterator → S → Bool × Iterator × Option S
  read_object_cb it s = read_object_raw_cb format_int decoded it (some s)

  unfoldable pub read_map_cb : Iterator → S → Bool × Iterator × Option S
  read_map_cb it s = read_object_cb it s
