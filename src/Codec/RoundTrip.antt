-- ===== src/Codec/RoundTrip.antt =====
-- What an encoder appends, read by the decoder: strings and slices.
use jsoniter.Base.{
  ℕ, ◌≡◌, ◌≢◌, refl, sym, ap, ◌∙◌, subst, Bool, true, false, Option, some, none, List, [], ◌∷◌,
  ◌++◌, append_assoc, append-nil, Bytes, arith,
}
use jsoniter.Base.Int.{pos}
use jsoniter.Iter.Defs.{Iterator, next_token, is_space}
use jsoniter.Iter.View.{remaining, IsValid}
use jsoniter.Iter.Token.{token}
use jsoniter.Stream.Defs.{
  Stream, Writer, new_stream, write_nil, write_four_bytes, write_two_bytes, write_array_end,
  write_empty_array,
}
use jsoniter.Text.Read.{Unicode, skip_three_bytes}
use jsoniter.Text.Write.{write_string}
use jsoniter.Text.Print.{quoted, put_string-quoted, IsUnicode, quoted-Spells}
use jsoniter.Text.Loop.{read_string-Spells}
use jsoniter.Array.Elements.{Elements, token-Took}
use jsoniter.Array.Whole
use jsoniter.Iter.View.{Sees}
use jsoniter.Strict.Append.{Whole-append}
use jsoniter.Strict.Append.{token_found}
use jsoniter.Strict.Text.{skip_three_bytes-Leaves}
use jsoniter.Codec.Defs.{
  Decoder, Encoder, wrap_stream_error, encode_more, slice_encode, slice_do_decode, slice_decode,
}
use jsoniter.Codec.Native.{string_codec}
use jsoniter.Codec.Reads.{Decodes}
use jsoniter.Codec.Flat.{
  flat, Prints, wrap_stream_error-flat, comma, comma-flat, write_array_start-flat,
  write_array_end-flat,
}
use jsoniter.Codec.Slice.{Reads, Appended, wrapped-Decodes, slice_decode_lem, slice_decode-Body}

-- The text of a value starts with its own first byte, which does not close an array.
abbrev pub Starts : Bytes → Type 0
Starts x = (c : ℕ) × (r : Bytes) × (x ≡ c ∷ r) × (is_space c ≡ false) × (c ≢ b']')

-- The encoder appends the text of a value, and the decoder reads the value from it.
pub record RoundTrips {A : Type 0} (n : ℕ) (encode : Encoder A) (decode : Decoder A)
    (text : A → Bytes) : Type 0 where
  pub prints : (v : A) → Prints encode v (text v)
  pub reads : (v : A) → Reads decode n (text v) v
  pub starts : (v : A) → Starts (text v)

pub string_codec-RoundTrips :
    (u : Unicode) (format_int : ℕ → Bytes) (n : ℕ)
    → IsUnicode u
    → RoundTrips n
        (string_codec u format_int).encode
        (string_codec u format_int).decode
        (λ v. b'"' ∷ quoted v)
unfolding string_codec write_string
string_codec-RoundTrips u format_int n law = record {
  prints = λ v out buf. ap (flat out) (put_string-quoted v buf);
  reads = λ v old t it after sees clear depth.
      let y =
        read_string-Spells u format_int it (quoted v ++ t) v t sees.valid clear
          (ap token sees.remains) (quoted-Spells u law v t) in
      record { value = y.text; seen = y.seen; clear = y.clear; same_depth = y.same_depth };
  starts = λ v. (b'"', quoted v, refl, refl, λ e. omega (arith, e));
}

module _ {A : Type 0} (text : A → Bytes) where
  abbrev pub elements : Bool → List A → Bytes
  elements later [] = []
  elements later (v ∷ vs) = comma later ++ (text v ++ elements true vs)

  abbrev pub slice_text : Option (List A) → Bytes
  slice_text none = b'n' ∷ b'u' ∷ b'l' ∷ b'l' ∷ []
  slice_text (some vs) = b'[' ∷ elements false vs ++ b']' ∷ []

module _ {A : Type 0} (n : ℕ) (name : Bytes) (grown : ℕ → A) (encode : Encoder A)
    (decode : Decoder A) (text : A → Bytes) (law : RoundTrips n encode decode text) where
  encode_more-Prints :
      (vs : List A) (out : Option Writer) (buf : Bytes)
      → encode_more name encode vs (flat out buf) ≡ flat out (buf ++ elements text true vs)
  unfolding encode_more
  encode_more-Prints [] out buf = ap (flat out) (sym (append-nil buf))
  encode_more-Prints (v ∷ vs) out buf =
      ap (λ st. encode_more name encode vs (encode v st)) (comma-flat true out buf)
      ∙ ap (encode_more name encode vs) (law.prints v out (buf ++ b',' ∷ []))
      ∙ encode_more-Prints vs out ((buf ++ b',' ∷ []) ++ text v)
      ∙ ap (flat out) (simp append_assoc)

  slice_encode-Prints :
      (v : Option (List A)) → Prints (slice_encode name encode) v (slice_text text v)
  unfolding slice_encode write_nil write_four_bytes write_empty_array write_two_bytes
  slice_encode-Prints none out buf = refl
  slice_encode-Prints (some []) out buf = refl
  slice_encode-Prints (some (v ∷ vs)) out buf =
      let front = (buf ++ b'[' ∷ []) ++ text v in
      let all = front ++ elements text true vs in
      ap (λ st. wrap_stream_error name (write_array_end (encode_more name encode vs (encode v st))))
        (write_array_start-flat out buf)
      ∙ ap (λ st. wrap_stream_error name (write_array_end (encode_more name encode vs st)))
          (law.prints v out (buf ++ b'[' ∷ []))
      ∙ ap (λ st. wrap_stream_error name (write_array_end st)) (encode_more-Prints vs out front)
      ∙ ap (wrap_stream_error name) (write_array_end-flat out all)
      ∙ wrap_stream_error-flat name out (all ++ b']' ∷ [])
      ∙ ap (flat out) (simp append_assoc)

  elements-Elements :
      (old vs : List A)
      → Elements (Appended decode n) old (elements text true vs ++ b']' ∷ []) (old ++ vs) []
  elements-Elements old [] =
      subst (λ y. Elements (Appended decode n) old (b']' ∷ []) y []) (sym (append-nil old))
        (Elements.close refl)
  elements-Elements old (v ∷ vs) =
      subst (λ y. Elements (Appended decode n) old (elements text true (v ∷ vs) ++ b']' ∷ []) y [])
        (append_assoc old (v ∷ []) vs)
        (Elements.more (text v) (elements text true vs ++ b']' ∷ [])
          (ap (λ y. some (b',', y)) (append_assoc (text v) (elements text true vs) (b']' ∷ [])))
          (v, refl, law.reads v) (elements-Elements (old ++ v ∷ []) vs))

  elements-Body :
      (vs : List A) → Whole.Body (Appended decode n) [] (elements text false vs ++ b']' ∷ []) vs []
  elements-Body [] = Whole.Body.empty refl
  elements-Body (v ∷ vs) =
      let (c, r, e, blank, other) = law.starts v in
      let rest = elements text true vs ++ b']' ∷ [] in
      let split = append_assoc (text v) (elements text true vs) (b']' ∷ []) in
      Whole.Body.first c (r ++ rest) (text v) rest
        (ap token (split ∙ ap (λ y. y ++ rest) e) ∙ token_found c (r ++ rest) blank) other
        (ap (λ y. y ++ rest) (sym e)) (v, refl, law.reads v) (elements-Elements (v ∷ []) vs)

  slice_do_decode-nil :
      (old : Option (List A)) (it : Iterator)
      → (next_token it).0 ≡ b'n'
      → slice_do_decode name grown decode old it
        ≡ (none, skip_three_bytes b'u' b'l' b'l' (next_token it).1)
  unfolding slice_do_decode
  slice_do_decode-nil old it e = rw e refl

  slice_decode-text :
      (v old : Option (List A)) (t : Bytes) (it : Iterator)
      → Sees (slice_text text v ++ t) it
      → it.error ≡ none
      → it.depth ≡ pos n
      → Decodes v t it.depth (slice_decode name grown decode old it)
  slice_decode-text none old t it sees clear depth =
      let took =
        token-Took b'n' (b'u' ∷ b'l' ∷ b'l' ∷ t) (slice_text text none ++ t) it sees refl in
      let y =
        skip_three_bytes-Leaves b'u' b'l' b'l' t (next_token it).1 took.seen
          (took.same_error ∙ clear) in
      rw (slice_decode_lem name grown decode old it, slice_do_decode-nil old it took.byte)
        (wrapped-Decodes name grown decode (record {
          value = refl;
          seen = y.seen;
          clear = y.clear;
          same_depth = y.same_depth ∙ took.same_depth;
        }))
  slice_decode-text (some vs) old t it sees clear depth =
      slice_decode-Body name grown decode n old vs ((elements text false vs ++ b']' ∷ []) ++ t) t it
        sees.valid clear depth (ap token sees.remains) (Whole-append t (elements-Body vs))

  slice_text-Starts : (v : Option (List A)) → Starts (slice_text text v)
  slice_text-Starts none = (b'n', b'u' ∷ b'l' ∷ b'l' ∷ [], refl, refl, λ e. omega (arith, e))
  slice_text-Starts (some vs) =
      (b'[', elements text false vs ++ b']' ∷ [], refl, refl, λ e. omega (arith, e))

  -- Slices of slices, and so on.
  pub slice-RoundTrips :
      RoundTrips n (slice_encode name encode) (slice_decode name grown decode) (slice_text text)
  slice-RoundTrips = record {
    prints = slice_encode-Prints;
    reads = λ v old t it after sees clear depth. slice_decode-text v old t it sees clear depth;
    starts = slice_text-Starts;
  }

  -- For an element codec whose encoder appends to a stream without indention and without an
  -- error the text of each element, which starts with neither white space nor a closing
  -- bracket, and whose decoder reads the element from it at the depth n before a comma or a
  -- closing bracket: sliceDecoder on an iterator in bounds and without an error, at the depth
  -- n, over any chunks, whose remaining bytes are what sliceEncoder appends to a new stream
  -- without indention and then t, returns the slice, nil and empty ones told apart, whatever
  -- slice it finds, and leaves t, no error and the depth.
  pub slice_decode-slice_encode :
      (v old : Option (List A)) (out : Option Writer) (t : Bytes) (it : Iterator)
      → IsValid it
      → it.error ≡ none
      → it.depth ≡ pos n
      → remaining it ≡ (slice_encode name encode v (new_stream 0 out)).buf ++ t
      → Decodes v t it.depth (slice_decode name grown decode old it)
  unfolding new_stream
  slice_decode-slice_encode v old out t it valid clear depth e =
      slice_decode-text v old t it
        (record {
          valid = valid;
          remains = e ∙ ap (λ (st : Stream). st.buf ++ t) (slice_encode-Prints v out []);
        })
        clear depth
