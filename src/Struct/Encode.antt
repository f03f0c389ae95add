-- ===== src/Struct/Encode.antt =====
-- The encoders of structs, and the choice of their fields.
use jsoniter.Base.{ℕ, Bool, true, false, ◌&&◌, ◌||◌, List, [], ◌∷◌, ◌++◌, Bytes, if◌then◌else◌}
use jsoniter.Stream.Defs.{
  new_stream, write_byte, write_more, write_object_start, write_object_end, write_empty_object,
}
use jsoniter.Base.{none}
use jsoniter.Text.Write.{write_object_field, write_string}
use jsoniter.Codec.Defs.{Encoder, wrap_stream_error}
use jsoniter.Struct.Defs.{StructType, StructField}
use jsoniter.Struct.General.{bytes_eq}
use jsoniter.Struct.Bindings.{Binding, resolve_conflict}

-- A field's encoder under the name it has in the text: structFieldTo and its structFieldEncoder.
-- `is_embedded_nil` is false where the field's encoder has no IsEmbeddedPtrNil.
pub record FieldTo (S : Type 0) : Type 0 where
  pub to_name : Bytes
  pub encode : Encoder S
  pub omitempty : Bool
  pub is_empty : S → Bool
  pub is_embedded_nil : S → Bool

unfoldable pub field_encode : {S A : Type 0} → StructField S A → Encoder A → Encoder S
field_encode field encode s st = wrap_stream_error field.field_name (encode (field.get s) st)

unfoldable pub field_is_empty : {S A : Type 0} → StructField S A → (A → Bool) → S → Bool
field_is_empty field is_empty s = is_empty (field.get s)

-- Whether the loop goes on without the field.
unfoldable pub leaves_out : {S : Type 0} → FieldTo S → S → Bool
leaves_out f s = (f.omitempty && f.is_empty s) || f.is_embedded_nil s

module _ {S : Type 0} where
  -- The loop, with isNotFirst.
  unfoldable pub encode_fields : Bool → List (FieldTo S) → Encoder S
  encode_fields later [] s st = st
  encode_fields later (f ∷ fs) s st =
      let st1 = write_object_field f.to_name (if later then write_more st else st) in
      let skipped = encode_fields later fs s st in
      let written = encode_fields true fs s (f.encode s st1) in
      if leaves_out f s then skipped else written

  unfoldable pub struct_encode : StructType → List (FieldTo S) → Encoder S
  struct_encode typ fields s st =
      wrap_stream_error typ.printed
        (write_object_end (encode_fields false fields s (write_object_start st)))

unfoldable pub empty_struct_encode : {S : Type 0} → Encoder S
empty_struct_encode s st = write_empty_object st

-- A binding under a name, and whether it is ignored.
pub record BindingTo (D : Type 0) : Type 0 where
  pub binding : Binding D
  pub to_name : Bytes
  pub ignored : Bool

module _ {D : Type 0} where
  -- The loop over the old bindings, with the flag of the new one.
  unfoldable pub ignore_old :
      Binding D → Bytes → Bool → List (BindingTo D) → List (BindingTo D) × Bool
  ignore_old new to_name ignored [] = ([], ignored)
  ignore_old new to_name ignored (old ∷ olds) =
      let (old_ignored, new_ignored) = resolve_conflict old.binding new in
      let (kept, last) = ignore_old new to_name ignored olds in
      let (changed, last') = ignore_old new to_name new_ignored olds in
      if bytes_eq old.to_name to_name
      then (record old { ignored = old_ignored } ∷ changed, last')
      else (old ∷ kept, last)

  abbrev order_names : Binding D → List Bytes → List (BindingTo D) → List (BindingTo D)
  order_names new [] olds = olds
  order_names new (name ∷ names) olds =
      let (olds', ignored) = ignore_old new name false olds in
      order_names new names
        (olds' ++ record { binding = new; to_name = name; ignored = ignored } ∷ [])

  unfoldable pub order_bindings : List (Binding D) → List (BindingTo D) → List (BindingTo D)
  order_bindings [] olds = olds
  order_bindings (b ∷ bs) olds = order_bindings bs (order_names b b.names olds)

  abbrev pub not_ignored : List (BindingTo D) → List (Bytes × D)
  not_ignored [] = []
  not_ignored (b ∷ bs) =
      if b.ignored then not_ignored bs else (b.to_name, b.binding.codec) ∷ not_ignored bs

-- How a field is encoded, but for its name.
pub record FieldEncoder (S : Type 0) : Type 0 where
  pub encode : Encoder S
  pub omitempty : Bool
  pub is_empty : S → Bool
  pub is_embedded_nil : S → Bool

module _ {S : Type 0} where
  abbrev to_fields : List (Bytes × FieldEncoder S) → List (FieldTo S)
  to_fields [] = []
  to_fields ((name, f) ∷ fs) =
      record {
        to_name = name;
        encode = f.encode;
        omitempty = f.omitempty;
        is_empty = f.is_empty;
        is_embedded_nil = f.is_embedded_nil;
      }
      ∷ to_fields fs

  unfoldable pub encoder_of_struct : StructType → List (Binding (FieldEncoder S)) → Encoder S
  encoder_of_struct typ bindings s st =
      let ordered = order_bindings bindings [] in
      let encoded = struct_encode typ (to_fields (not_ignored ordered)) s st in
      elim ordered [ [] ↦ empty_struct_encode s st | _ ∷ _ ↦ encoded ]

unfoldable pub string_mode_number_encode : {A : Type 0} → Encoder A → Encoder A
string_mode_number_encode encode v st = write_byte b'"' (encode v (write_byte b'"' st))

-- The stream that is borrowed is new, with the configuration's step.
unfoldable pub string_mode_string_encode : ℕ → {A : Type 0} → Encoder A → Encoder A
string_mode_string_encode step encode v st = write_string (encode v (new_stream step none)).buf st
