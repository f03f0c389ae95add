-- ===== src/Struct/Lookup.antt =====
-- The field that generalStructDecoder takes for a name: the code's lookups against the map of names.
use jsoniter.Base.{
  ◌≡◌, ◌≢◌, refl, ap, ◌∙◌, ◌⊎◌, inl, inr, Bool, true, false, ◌&&◌, some, none, List, [], ◌∷◌, Bytes,
  ◌==◌, arith, Bool-cases, ==_iff, ℕ,
}
use jsoniter.Struct.General.{bytes_eq, look_up, find_field}

-- A map from names has the field `a` under the name, and it has none.
pub data Has {ℓ} {A : Type ℓ} (name : Bytes) (a : A) : List (Bytes × A) → Type ℓ where
  here : {fields : List (Bytes × A)} → Has name a ((name, a) ∷ fields)
  there :
      {k : Bytes} {b : A} {fields : List (Bytes × A)}
      → name ≢ k
      → Has name a fields
      → Has name a ((k, b) ∷ fields)

abbrev pub Lacks {ℓ} : {A : Type ℓ} → Bytes → List (Bytes × A) → Type 0
Lacks name [] = Unit
Lacks name ((k, a) ∷ fields) = (name ≢ k) × Lacks name fields

and_true : (a b : Bool) → (a && b) ≡ true → (a ≡ true) × (b ≡ true)
and_true a b h = ground arith

bytes_eq_refl : (s : Bytes) → bytes_eq s s ≡ true
bytes_eq_refl [] = refl
bytes_eq_refl (c ∷ s) = let same = bytes_eq_refl s in ground (arith, same)

bytes_eq-true : (s t : Bytes) → bytes_eq s t ≡ true → s ≡ t
bytes_eq-true [] [] h = refl
bytes_eq-true [] (b ∷ t) h = cc
bytes_eq-true (a ∷ s) [] h = cc
bytes_eq-true (a ∷ s) (b ∷ t) h =
    let (p, q) = and_true (a == b) (bytes_eq s t) h in
    ap (λ (c : ℕ). c ∷ s) ((==_iff a b).0 p) ∙ ap (◌∷◌ b) (bytes_eq-true s t q)

bytes_eq-false : (s t : Bytes) → s ≢ t → bytes_eq s t ≡ false
bytes_eq-false s t n = elim (Bool-cases (bytes_eq s t)) [
  | inl e ↦ absurd (n (bytes_eq-true s t e))
  | inr e ↦ e
]

look_up-Has {ℓ} :
    {A : Type ℓ} {name : Bytes} {a : A} {fields : List (Bytes × A)}
    → Has name a fields
    → look_up name fields ≡ some a
look_up-Has {name = name} here = rw (bytes_eq_refl name) refl
look_up-Has {name = name} (there {k = k} n h) = rw (bytes_eq-false name k n) (look_up-Has h)

look_up-Lacks {ℓ} :
    {A : Type ℓ} (name : Bytes) (fields : List (Bytes × A))
    → Lacks name fields
    → look_up name fields ≡ none
look_up-Lacks name [] h = refl
look_up-Lacks name ((k, a) ∷ fields) (n, h) =
    rw (bytes_eq-false name k n) (look_up-Lacks name fields h)

module _ {A : Type 0} (to_lower : Bytes → Bytes) (case_sensitive : Bool) (fields : List (Bytes × A))
    (name : Bytes) where
  -- The field that a name in an object is one of: the name's, and where there is none and the case
  -- does not count, that of its lower case.
  pub data FieldOf (a : A) : Type 0 where
    exact : Has name a fields → FieldOf a
    lowered : case_sensitive ≡ false → Lacks name fields → Has (to_lower name) a fields → FieldOf a

  abbrev pub NoField : Type 0
  NoField = Lacks name fields × ((case_sensitive ≡ true) ⊎ Lacks (to_lower name) fields)

  pub find_field-FieldOf :
      (a : A) → FieldOf a → find_field to_lower case_sensitive fields name ≡ some a
  unfolding find_field
  find_field-FieldOf a (exact h) = rw (look_up-Has h) refl
  find_field-FieldOf a (lowered c n h) = rw (look_up-Lacks name fields n, c, look_up-Has h) refl

  pub find_field-NoField : NoField → find_field to_lower case_sensitive fields name ≡ none
  unfolding find_field
  find_field-NoField (n, inl c) = rw (look_up-Lacks name fields n, c) refl
  find_field-NoField (n, inr m) = elim (Bool-cases case_sensitive) [
    | inl c ↦ rw (look_up-Lacks name fields n, c) refl
    | inr c ↦ rw (look_up-Lacks name fields n, c, look_up-Lacks (to_lower name) fields m) refl
  ]
