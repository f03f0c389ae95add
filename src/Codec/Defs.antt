-- ===== src/Codec/Defs.antt =====
-- Codecs of slices, arrays and pointers. A pointer to a value is the value: a decoder takes the value
-- it finds and gives the one it leaves. A nil slice or pointer is `none`.
use jsoniter.Base.{
  ℕ, zero, suc, ◌+◌, Bool, true, false, Option, some, none, List, [], ◌∷◌, ◌++◌, Bytes, length,
  get_or, leb, ◌==◌, if◌then◌else◌,
}
use jsoniter.Iter.Defs.{Error, eof, wrapped, Iterator, next_token, unread_byte, report_error}
use jsoniter.Iter.View.{remaining}
use jsoniter.Text.Read.{skip_three_bytes}
use jsoniter.Skip.Literal.{read_nil}
use jsoniter.Stream.Defs.{
  Stream, write_nil, write_more, write_array_start, write_array_end, write_empty_array,
}

abbrev pub Decoder : Type 0 → Type 0
Decoder A = A → Iterator → A × Iterator

abbrev pub Encoder : Type 0 → Type 0
Encoder A = A → Stream → Stream

-- fmt.Errorf over an error that is not io.EOF; the text is that of a type or of a field.
abbrev pub in_context : Bytes → Option Error → Option Error
in_context name e = elim e [ none ↦ none | some eof ↦ some eof | some x ↦ some (wrapped name x) ]

unfoldable pub wrap_error : Bytes → Iterator → Iterator
wrap_error name it = record it { error = in_context name it.error }

unfoldable pub wrap_stream_error : Bytes → Stream → Stream
wrap_stream_error name st = record st { error = in_context name st.error }

module _ {A : Type 0} (name : Bytes) (encode : Encoder A) where
  unfoldable pub encode_more : List A → Stream → Stream
  encode_more [] st = st
  encode_more (v ∷ vs) st = encode_more vs (encode v (write_more st))

  unfoldable pub slice_encode : Encoder (Option (List A))
  slice_encode none st = write_nil st
  slice_encode (some []) st = write_empty_array st
  slice_encode (some (v ∷ vs)) st =
      wrap_stream_error name (write_array_end (encode_more vs (encode v (write_array_start st))))

  -- An array of length 0 has an encoder of its own.
  unfoldable pub array_encode : Encoder (List A)
  array_encode [] st = write_empty_array st
  array_encode (v ∷ vs) st =
      wrap_stream_error name (write_array_end (encode_more vs (encode v (write_array_start st))))

unfoldable pub slice_is_empty : {A : Type 0} → Option (List A) → Bool
slice_is_empty none = true
slice_is_empty (some []) = true
slice_is_empty (some (v ∷ vs)) = false

-- What reflect2's UnsafeGrow leaves in a new element, at its index, is a parameter. Each round of
-- the loop reads a comma, so the number of bytes bounds the rounds.
module _ {A : Type 0} (name : Bytes) (grown : ℕ → A) (decode : Decoder A) where
  unfoldable pub slice_loop : ℕ → ℕ → List A → Iterator → List A × Iterator
  slice_loop zero c vs it = (vs, it)
  slice_loop (suc fuel) c vs it =
      let (v, it1) = decode (grown (length vs)) it in
      let (c', it2) = next_token it1 in
      let rest = slice_loop fuel c' (vs ++ v ∷ []) it2 in
      if c == b','
      then rest
      else if c == b']'
      then (vs, it)
      else (vs, report_error "decode slice" "expect ], but found " (c ∷ []) it)

  unfoldable pub slice_do_decode : Decoder (Option (List A))
  slice_do_decode old it =
      let (c, it1) = next_token it in
      let (c', it2) = next_token it1 in
      let (v, it3) = decode (grown 0) (unread_byte it2) in
      let (c'', it4) = next_token it3 in
      let (vs, it5) = slice_loop (length (remaining it3) + 1) c'' (v ∷ []) it4 in
      if c == b'n'
      then (none, skip_three_bytes b'u' b'l' b'l' it1)
      else if c == b'['
      then (if c' == b']' then (some [], it2) else (some vs, it5))
      else (old, report_error "decode slice" "expect [ or n, but found " (c ∷ []) it1)

  unfoldable pub slice_decode : Decoder (Option (List A))
  slice_decode old it = let (vs, it1) = slice_do_decode old it in (vs, wrap_error name it1)

-- The element at an index is changed in place. Outside the array no element is.
abbrev pub set_at : {A : Type 0} → ℕ → A → List A → List A
set_at i v [] = []
set_at zero v (x ∷ xs) = v ∷ xs
set_at (suc i) v (x ∷ xs) = x ∷ set_at i v xs

-- `zero_value` stands where an index is out of range, and Skip is a parameter of the functions.
module _ {A : Type 0} (name : Bytes) (zero_value : A) (skip_value : Iterator → Iterator)
    (decode : Decoder A) where
  unfoldable pub array_decode_loop : ℕ → ℕ → ℕ → List A → Iterator → List A × Iterator
  array_decode_loop zero c n vs it = (vs, it)
  array_decode_loop (suc fuel) c n vs it =
      let skipped = skip_value it in
      let (c1, it1) = next_token skipped in
      let ignored = array_decode_loop fuel c1 n vs it1 in
      let (v, it2) = decode (get_or vs n zero_value) it in
      let (c2, it3) = next_token it2 in
      let taken = array_decode_loop fuel c2 (suc n) (set_at n v vs) it3 in
      if c == b','
      then (if leb (length vs) n then ignored else taken)
      else if c == b']'
      then (vs, it)
      else (vs, report_error "decode array" "expect ], but found " (c ∷ []) it)

  unfoldable pub array_do_decode : Decoder (List A)
  array_do_decode vs it =
      let (c, it1) = next_token it in
      let (c', it2) = next_token it1 in
      let (v, it3) = decode (get_or vs 0 zero_value) (unread_byte it2) in
      let (c'', it4) = next_token it3 in
      let filled = array_decode_loop (length (remaining it3) + 1) c'' 1 (set_at 0 v vs) it4 in
      if c == b'n'
      then (vs, skip_three_bytes b'u' b'l' b'l' it1)
      else if c == b'['
      then (if c' == b']' then (vs, it2) else filled)
      else (vs, report_error "decode array" "expect [ or n, but found " (c ∷ []) it1)

  unfoldable pub array_decode : Decoder (List A)
  array_decode vs it = let (vs', it1) = array_do_decode vs it in (vs', wrap_error name it1)

-- UnsafeNew's value is the zero value of the type.
module _ {A : Type 0} (zero_value : A) (decode : Decoder A) (encode : Encoder A) where
  unfoldable pub dereference_decode : Decoder (Option A)
  dereference_decode none it = let (v, it1) = decode zero_value it in (some v, it1)
  dereference_decode (some old) it = let (v, it1) = decode old it in (some v, it1)

  unfoldable pub optional_decode : Decoder (Option A)
  optional_decode old it =
      let (nil, it1) = read_nil it in
      let decoded = dereference_decode old it1 in if nil then (none, it1) else decoded

  unfoldable pub optional_encode : Encoder (Option A)
  optional_encode none st = write_nil st
  optional_encode (some v) st = encode v st

unfoldable pub optional_is_empty : {A : Type 0} → Option A → Bool
optional_is_empty none = true
optional_is_empty (some v) = false
