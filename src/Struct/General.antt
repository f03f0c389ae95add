-- ===== src/Struct/General.antt =====
-- The decoders of structs that find a field by its name, the one for a struct without fields, and
-- those of values in quotes.
use jsoniter.Base.{
  ℕ, zero, suc, ◌+◌, Bool, true, false, ◌&&◌, Option, some, none, List, [], ◌∷◌, Bytes, length,
  ◌==◌, if◌then◌else◌,
}
use jsoniter.Iter.Defs.{
  Iterator, parse_bytes, next_token, read_byte, report_error, increment_depth, decrement_depth,
  ValueType, what_is_next, object_value, nil_value,
}
use jsoniter.Iter.View.{remaining}
use jsoniter.Skip.Literal.{read_object_start}
use jsoniter.Text.Read.{Unicode, read_string}
use jsoniter.Raw.Defs.{raw_bytes, read_raw_string}
use jsoniter.Codec.Defs.{Decoder}
use jsoniter.Struct.Defs.{StructType, wrap_struct_error}

abbrev pub bytes_eq : Bytes → Bytes → Bool
bytes_eq [] [] = true
bytes_eq [] (b ∷ t) = false
bytes_eq (a ∷ s) [] = false
bytes_eq (a ∷ s) (b ∷ t) = a == b && bytes_eq s t

-- A map from names, with each name once.
abbrev pub look_up {ℓ} : {A : Type ℓ} → Bytes → List (Bytes × A) → Option A
look_up name [] = none
look_up name ((k, a) ∷ fields) = if bytes_eq name k then some a else look_up name fields

abbrev pub or_else {ℓ} : {A : Type ℓ} → Option A → Option A → Option A
or_else (some a) o = some a
or_else none o = o

-- The test for a colon, which does not end the decoding.
abbrev pub expect_colon : Iterator → Iterator
expect_colon it =
    let (c, it1) = next_token it in
    if c == b':'
    then it1
    else report_error "ReadObject" "expect : after object field, but found " (c ∷ []) it1

-- objectFieldMustBeSimpleString takes the bytes of a name as they are.
unfoldable pub read_name : Unicode → (ℕ → Bytes) → Bool → Iterator → Bytes × Iterator
read_name u format_int simple_names it =
    let (rs, it1) = read_raw_string format_int it in
    let name : Bytes = elim (raw_bytes rs).0 [ none ↦ [] | some b ↦ b ] in
    if simple_names then (name, it1) else read_string u format_int it

unfoldable pub find_field {ℓ} :
    {A : Type ℓ} → (Bytes → Bytes) → Bool → List (Bytes × A) → Bytes → Option A
find_field to_lower case_sensitive fields name =
    or_else (look_up name fields) (if case_sensitive then none else look_up (to_lower name) fields)

module _ {S : Type 0} (skip_value : Iterator → Iterator) (u : Unicode) (format_int : ℕ → Bytes)
    (to_lower : Bytes → Bytes) (case_sensitive simple_names disallow_unknown : Bool)
    (fields : List (Bytes × Decoder S)) where
  unfoldable pub decode_one_field : Decoder S
  decode_one_field s it =
      let (name, it1) = read_name u format_int simple_names it in
      elim (find_field to_lower case_sensitive fields name) [
        | some decode ↦ decode s (expect_colon it1)
        | none ↦
            let it2 =
              if disallow_unknown
              then report_error "ReadObject" "found unknown field: " name it1
              else it1 in
            (s, skip_value (expect_colon it2))
      ]

  -- Each round ends with a token, so the number of bytes bounds the rounds.
  unfoldable pub general_loop : ℕ → S → Iterator → S × ℕ × Iterator
  general_loop zero s it = (s, 0, it)
  general_loop (suc fuel) s it =
      let (s1, it1) = decode_one_field s it in
      let (c, it2) = next_token it1 in
      let rest = general_loop fuel s1 it2 in if c == b',' then rest else (s1, c, it2)

  unfoldable pub general_decode : StructType → Decoder S
  general_decode typ s it =
      let (started, it1) = read_object_start it in
      let (ok, it2) = increment_depth it1 in
      let (s1, c, it3) = general_loop (length (remaining it2) + 1) s it2 in
      let it4 = wrap_struct_error typ it3 in
      let it5 =
        if c == b'}'
        then it4
        else report_error "struct Decode" "expect }, but found " (c ∷ []) it4 in
      if started then (if ok then (s1, (decrement_depth it5).1) else (s, it2)) else (s, it1)

abbrev object_or_nil : ValueType → Bool
object_or_nil x = elim x [ object_value ↦ true | nil_value ↦ true | _ ↦ false ]

abbrev nil_next : ValueType → Bool
nil_next x = elim x [ nil_value ↦ true | _ ↦ false ]

unfoldable pub skip_object_decode : {S : Type 0} → (Iterator → Iterator) → Decoder S
skip_object_decode skip_value s it =
    let (x, it1) = what_is_next it in
    if object_or_nil x
    then (s, skip_value it1)
    else (s, report_error "skipObjectDecoder" "expect object or null" [] it1)

-- The text in the string is read again, and its errors are dropped.
unfoldable pub string_mode_string_decode : Unicode → (ℕ → Bytes) → Decoder Bytes → Decoder Bytes
string_mode_string_decode u format_int decode old it =
    let (text, it1) = decode old it in ((read_string u format_int (parse_bytes text)).0, it1)

unfoldable pub string_mode_number_decode : {A : Type 0} → Decoder A → Decoder A
string_mode_number_decode decode old it =
    let (x, it1) = what_is_next it in
    let (c, it2) = next_token it1 in
    let (v, it3) = decode old it2 in
    let (c', it4) = read_byte it3 in
    let closed =
      if c' == b'"'
      then it4
      else report_error "stringModeNumberDecoder" "expect \", but found " (c' ∷ []) it4 in
    if nil_next x
    then decode old it1
    else if c == b'"'
    then elim it3.error [ some e ↦ (v, it3) | none ↦ (v, closed) ]
    else (old, report_error "stringModeNumberDecoder" "expect \", but found " (c ∷ []) it2)
