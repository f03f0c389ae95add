-- ===== src/Struct/Bindings.antt =====
-- decoderOfStruct: the fields of a struct under their names.
use jsoniter.Base.{
  ℕ, Bool, true, false, some, none, List, [], ◌∷◌, ◌++◌, Bytes, length, ltb, if◌then◌else◌,
}
use jsoniter.Struct.General.{bytes_eq, look_up}

-- A binding: how deep its field is, whether it has a tag, and its names.
pub record Binding (D : Type 0) : Type 0 where
  pub levels : List ℕ
  pub tagged : Bool
  pub names : List Bytes
  pub codec : D

-- Whether to ignore the old binding, and the new one.
unfoldable pub resolve_conflict : {D E : Type 0} → Binding D → Binding E → Bool × Bool
resolve_conflict old new =
    let deeper =
      if ltb (length new.levels) (length old.levels)
      then (true, false)
      else if ltb (length old.levels) (length new.levels)
      then (false, true)
      else (true, true) in
    if new.tagged
    then (if old.tagged then deeper else (true, false))
    else if old.tagged
    then (true, false)
    else deeper

abbrev pub delete {ℓ} : {A : Type ℓ} → Bytes → List (Bytes × A) → List (Bytes × A)
delete name [] = []
delete name ((k, a) ∷ m) = if bytes_eq name k then delete name m else (k, a) ∷ delete name m

abbrev pub store {ℓ} : {A : Type ℓ} → Bytes → A → List (Bytes × A) → List (Bytes × A)
store name a m = delete name m ++ (name, a) ∷ []

module _ {D : Type 0} where
  unfoldable pub bind_name : Binding D → Bytes → List (Bytes × Binding D) → List (Bytes × Binding D)
  bind_name new name m = elim (look_up name m) [
    | none ↦ store name new m
    | some old ↦
        let (ignore_old, ignore_new) = resolve_conflict old new in
        let kept = if ignore_old then delete name m else m in
        if ignore_new then kept else store name new kept
  ]

  abbrev bind_names : Binding D → List Bytes → List (Bytes × Binding D) → List (Bytes × Binding D)
  bind_names new [] m = m
  bind_names new (name ∷ names) m = bind_names new names (bind_name new name m)

  unfoldable pub bind_all : List (Binding D) → List (Bytes × Binding D) → List (Bytes × Binding D)
  bind_all [] m = m
  bind_all (b ∷ bs) m = bind_all bs (bind_names b b.names m)

  abbrev decoders : List (Bytes × Binding D) → List (Bytes × D)
  decoders [] = []
  decoders ((k, b) ∷ m) = (k, b.codec) ∷ decoders m

  -- In the order in which the map is gone through.
  unfoldable pub add_lower :
      (Bytes → Bytes) → List (Bytes × Binding D) → List (Bytes × D) → List (Bytes × D)
  add_lower to_lower [] fields = fields
  add_lower to_lower ((k, b) ∷ m) fields = elim (look_up (to_lower k) fields) [
    | none ↦ add_lower to_lower m (store (to_lower k) b.codec fields)
    | some old ↦ add_lower to_lower m fields
  ]

  unfoldable pub struct_fields : (Bytes → Bytes) → Bool → List (Binding D) → List (Bytes × D)
  struct_fields to_lower case_sensitive bindings =
      let m = bind_all bindings [] in
      if case_sensitive then decoders m else add_lower to_lower m (decoders m)
