-- ===== src/Struct/Slots.antt =====
-- The hashes of the fields: when they differ, each field has its case.
use jsoniter.Base.{
  ℕ, zero, suc, ◌≡◌, ◌≢◌, ◌⊎◌, inl, inr, refl, sym, ap, ◌∙◌, Bool, true, false, some, List, [], ◌∷◌,
  ◌++◌, append_assoc, Bytes, length, ◌==◌, arith,
}
use jsoniter.Iter.Defs.{Iterator}
use jsoniter.Text.Read.{Unicode}
use jsoniter.Field.Defs.{calc_hash}
use jsoniter.Codec.Defs.{Decoder}
use jsoniter.Struct.Defs.{StructType, HashedField, switch_hash}
use jsoniter.Struct.Create.{contains, free_slot, free_slots, fill_slot, hash_fields}

-- The field `decode` of the name `k` is one of the fields.
abbrev pub Has : {D : Type 0} → Bytes → D → List (Bytes × D) → Type 0
Has k d [] = ⊥
Has k d ((k', d') ∷ fields) = ((k ≡ k') × (d ≡ d')) ⊎ Has k d fields

not_known : (h k : ℕ) (known : List ℕ) → contains h (k ∷ known) ≡ false → contains h known ≡ false
not_known h k known e = ground (arith, e)

other_hash : (h k : ℕ) (known : List ℕ) → contains h (k ∷ known) ≡ false → (h == k) ≡ false
other_hash h k known e = ground (arith, e)

fill_slot-later :
    {S : Type 0} (f x y : HashedField S) (slots : List (HashedField S))
    → (x.hash == 0) ≡ false
    → fill_slot f (x ∷ y ∷ slots) ≡ x ∷ fill_slot f (y ∷ slots)
unfolding fill_slot
fill_slot-later f x y slots e = rw e refl

-- The variables that have fields.
abbrev Filled : {S : Type 0} → List (HashedField S) → Type 0
Filled [] = Unit
Filled (x ∷ xs) = ((x.hash == 0) ≡ false) × Filled xs

fill_slot-Filled :
    {S : Type 0} (f : HashedField S) (xs : List (HashedField S)) (n : ℕ)
    → Filled xs
    → fill_slot f (xs ++ free_slots (suc n)) ≡ xs ++ f ∷ free_slots n
unfolding fill_slot
fill_slot-Filled f [] zero h = refl
fill_slot-Filled f [] (suc n) h = refl
fill_slot-Filled f (x ∷ []) n (e, h) =
    fill_slot-later f x free_slot (free_slots n) e ∙ ap (◌∷◌ x) (fill_slot-Filled f [] n h)
fill_slot-Filled f (x ∷ y ∷ xs) n (e, h) =
    fill_slot-later f x y (xs ++ free_slots (suc n)) e
    ∙ ap (◌∷◌ x) (fill_slot-Filled f (y ∷ xs) n h)

Filled-append :
    {S : Type 0} (f : HashedField S) (xs : List (HashedField S))
    → Filled xs
    → (f.hash == 0) ≡ false
    → Filled (xs ++ f ∷ [])
Filled-append f [] h e = (e, tt)
Filled-append f (x ∷ xs) (p, h) e = (p, Filled-append f xs h e)

-- No variable with the hash 0 is taken.
abbrev HasZero : List ℕ → Type 0
HasZero known = (h : ℕ) → contains h known ≡ false → (h == 0) ≡ false

module _ (to_lower : Bytes → Bytes) (case_sensitive : Bool) where
  abbrev pub hash_of : Bytes → ℕ
  hash_of = calc_hash to_lower case_sensitive

  module _ {S : Type 0} where
    -- The hashes of the fields are not known, and differ.
    abbrev pub Fresh : List ℕ → List (Bytes × Decoder S) → Type 0
    Fresh known [] = Unit
    Fresh known ((k, d) ∷ fields) =
        (contains (hash_of k) known ≡ false) × Fresh (hash_of k ∷ known) fields

    -- No field has the hash.
    abbrev pub Unknown : ℕ → List (Bytes × Decoder S) → Type 0
    Unknown h [] = Unit
    Unknown h ((k, d) ∷ fields) = (h ≢ hash_of k) × Unknown h fields

    abbrev pub hashed : List (Bytes × Decoder S) → List (HashedField S)
    hashed [] = []
    hashed ((k, d) ∷ fields) = record { hash = hash_of k; decode = d } ∷ hashed fields

    pub hash_fields-round :
        (known : List ℕ) (slots : List (HashedField S)) (k : Bytes) (d : Decoder S)
        (fields : List (Bytes × Decoder S))
        → contains (hash_of k) known ≡ false
        → hash_fields to_lower case_sensitive known slots ((k, d) ∷ fields)
          ≡ hash_fields to_lower case_sensitive
              (hash_of k ∷ known)
              (fill_slot (record { hash = hash_of k; decode = d }) slots)
              fields
    unfolding hash_fields
    hash_fields-round known slots k d fields e = rw e refl

    hash_fields-Filled :
        (known : List ℕ) (xs : List (HashedField S)) (fields : List (Bytes × Decoder S))
        → HasZero known
        → Filled xs
        → Fresh known fields
        → hash_fields to_lower case_sensitive known (xs ++ free_slots (length fields)) fields
          ≡ some (xs ++ hashed fields)
    unfolding hash_fields
    hash_fields-Filled known xs [] z h fresh = refl
    hash_fields-Filled known xs ((k, d) ∷ fields) z h (e, fresh) =
        let f : HashedField S = record { hash = hash_of k; decode = d } in
        let ok : (hash_of k == 0) ≡ false = z (hash_of k) e in
        let same = fill_slot-Filled f xs (length fields) h in
        let next =
          hash_fields-Filled (hash_of k ∷ known) (xs ++ f ∷ []) fields
            (λ g q. z g (not_known g (hash_of k) known q)) (Filled-append f xs h ok) fresh in
        hash_fields-round known (xs ++ free_slots (suc (length fields))) k d fields e
        ∙ ap (λ y. hash_fields to_lower case_sensitive (hash_of k ∷ known) y fields)
            (same ∙ sym (append_assoc xs (f ∷ []) (free_slots (length fields))))
        ∙ next
        ∙ ap some (append_assoc xs (f ∷ []) (hashed fields))

    pub hash_fields-Fresh :
        (fields : List (Bytes × Decoder S))
        → Fresh (0 ∷ []) fields
        → hash_fields to_lower case_sensitive (0 ∷ []) (free_slots (length fields)) fields
          ≡ some (hashed fields)
    hash_fields-Fresh fields fresh =
        hash_fields-Filled (0 ∷ []) [] fields (λ h e. other_hash h 0 [] e) tt fresh

    Fresh-Has :
        (known : List ℕ) (fields : List (Bytes × Decoder S)) (k : Bytes) (d : Decoder S)
        → Fresh known fields
        → Has k d fields
        → contains (hash_of k) known ≡ false
    Fresh-Has known [] k d fresh m = absurd m
    Fresh-Has known ((k', d') ∷ fields) k d (e, fresh) (inl (p, q)) = rw p e
    Fresh-Has known ((k', d') ∷ fields) k d (e, fresh) (inr m) =
        not_known (hash_of k) (hash_of k') known (Fresh-Has (hash_of k' ∷ known) fields k d fresh m)

    module _ (typ : StructType) (skip_value : Iterator → Iterator) (u : Unicode)
        (format_int : ℕ → Bytes) (runes : Bytes → Bytes) where
      abbrev switch : List (HashedField S) → ℕ → Decoder S
      switch = switch_hash typ skip_value u format_int runes case_sensitive

      switch_hash-here :
          (c : HashedField S) (cs : List (HashedField S)) (h : ℕ) (s : S) (it : Iterator)
          → h ≡ c.hash
          → switch (c ∷ cs) h s it ≡ c.decode s it
      unfolding switch_hash
      switch_hash-here c cs h s it e =
          let same : (h == c.hash) ≡ true = ground (arith, e) in rw same refl

      switch_hash-later :
          (c : HashedField S) (cs : List (HashedField S)) (h : ℕ) (s : S) (it : Iterator)
          → (h == c.hash) ≡ false
          → switch (c ∷ cs) h s it ≡ switch cs h s it
      unfolding switch_hash
      switch_hash-later c cs h s it e = rw e refl

      pub switch_hash-Has :
          (known : List ℕ) (fields : List (Bytes × Decoder S)) (k : Bytes) (d : Decoder S) (s : S)
          (it : Iterator)
          → Fresh known fields
          → Has k d fields
          → switch (hashed fields) (hash_of k) s it ≡ d s it
      switch_hash-Has known [] k d s it fresh m = absurd m
      switch_hash-Has known ((k', d') ∷ fields) k d s it (e, fresh) (inl (p, q)) =
          switch_hash-here (record { hash = hash_of k'; decode = d' }) (hashed fields) (hash_of k) s
            it (ap hash_of p)
          ∙ ap (λ (f : Decoder S). f s it) (sym q)
      switch_hash-Has known ((k', d') ∷ fields) k d s it (e, fresh) (inr m) =
          switch_hash-later (record { hash = hash_of k'; decode = d' }) (hashed fields) (hash_of k)
            s it
            (other_hash (hash_of k) (hash_of k') known
              (Fresh-Has (hash_of k' ∷ known) fields k d fresh m))
          ∙ switch_hash-Has (hash_of k' ∷ known) fields k d s it fresh m

      pub switch_hash-Unknown :
          (fields : List (Bytes × Decoder S)) (h : ℕ) (s : S) (it : Iterator)
          → Unknown h fields
          → switch (hashed fields) h s it ≡ (s, skip_value it)
      unfolding switch_hash
      switch_hash-Unknown [] h s it m = refl
      switch_hash-Unknown ((k, d) ∷ fields) h s it (n, m) =
          let other : (h == hash_of k) ≡ false = ground (arith, n) in
          switch_hash-later (record { hash = hash_of k; decode = d }) (hashed fields) h s it other
          ∙ switch_hash-Unknown fields h s it m
