-- ===== src/Field/Hash.antt =====
-- The hash that is read of a field name, and the hash of the name.
use mathlib.Core.List.{cons-ne-nil}
use jsoniter.Base.{
  ℕ, zero, suc, ◌+◌, ◌<◌, ◌≡◌, refl, sym, ap, ◌∙◌, subst, Bool, true, false, some, [], ◌∷◌, ◌++◌,
  Bytes, All, drop, arith,
}
use jsoniter.Iter.Defs.{Iterator, window, loads, with_head, load_more, next_token, report_error}
use jsoniter.Iter.View.{to_load, remaining, IsValid, Sees, Loaded, LoadResult, with_head-Sees}
use jsoniter.Iter.Load.{load_more-result}
use jsoniter.Iter.Token.{token, Took, Takes, next_token-Takes}
use jsoniter.Text.Read.{Unicode, read_string_inner}
use jsoniter.Field.Defs.{
  hash_round, fold_case, hash_all, calc_hash, FieldEnd, at_quote, at_escape, still_open, scan_field,
  field_colon, hash_folded, field_loop, read_field_hash, offset_basis,
}
use jsoniter.Field.Scan.{IsNameByte, Finds, scan_field-Finds}

-- The hash `h` has been read, `rest` remains, and the error and the depth are those of `it`.
pub record ReadsHash (h : ℕ) (rest : Bytes) (it : Iterator) (r : ℕ × Iterator) : Type 0 where
  pub hash : r.0 ≡ h
  pub seen : Sees rest r.1
  pub same_error : r.1.error ≡ it.error
  pub same_depth : r.1.depth ≡ it.depth

field_colon-ReadsHash :
    (h : ℕ) (t rest : Bytes) (it : Iterator)
    → Sees t it
    → token t ≡ some (b':', rest)
    → ReadsHash h rest it (field_colon h it)
unfolding field_colon
field_colon-ReadsHash h t rest it s e =
    let took : Took b':' rest it (next_token it) =
      subst (λ o. Takes o it (next_token it)) (ap token s.remains ∙ e)
        (next_token-Takes it s.valid) in
    rw took.byte (record {
      hash = refl;
      seen = took.seen;
      same_error = took.same_error;
      same_depth = took.same_depth;
    })

nothing_left : (c : ℕ) (s t : Bytes) → [] ≡ s ++ c ∷ t → ⊥
nothing_left c [] t e = absurd (cons-ne-nil c t (sym e))
nothing_left c (b ∷ s) t e = absurd (cons-ne-nil b (s ++ c ∷ t) (sym e))

module _ (u : Unicode) (format_int : ℕ → Bytes) (runes : Bytes → Bytes) (case_sensitive : Bool)
    (t rest : Bytes) (colon : token t ≡ some (b':', rest)) where
  -- The name `s` and its quote remain, and then `t`.
  record Opens (s : Bytes) (it : Iterator) : Type 0 where
    valid : IsValid it
    name : All IsNameByte s
    remains : remaining it ≡ s ++ b'"' ∷ t

  abbrev loop : ℕ → ℕ → Iterator → ℕ × Iterator
  loop = field_loop u format_int runes case_sensitive

  abbrev Reads : ℕ → Iterator → ℕ × Iterator → Type 0
  Reads h = ReadsHash h rest

  load_more-Reads :
      (fuel h target : ℕ) (s : Bytes) (it : Iterator) (r : Bool × Iterator)
      → hash_folded case_sensitive h s ≡ target
      → to_load it ≡ s ++ b'"' ∷ t
      → LoadResult it r
      → (Loaded it r.1 → Reads (hash_folded case_sensitive h s) r.1 (loop fuel h r.1))
      → Reads target it (elim r.0 [
        | true ↦ loop fuel h r.1
        | false ↦ (0, report_error "readFieldHash" "incomplete field name" [] r.1)
      ])
  load_more-Reads fuel h target s it (true, it') p e l next =
      let x = next l in
      record {
        hash = x.hash ∙ p;
        seen = x.seen;
        same_error = x.same_error ∙ l.same_error;
        same_depth = x.same_depth ∙ l.same_depth;
      }
  load_more-Reads fuel h target s it (false, it') p e l next =
      absurd (nothing_left b'"' s t (sym l.nothing ∙ e))

  -- The end of a round, by what the pass found.
  abbrev finish : ℕ → Iterator → FieldEnd → ℕ × Iterator
  finish fuel it x = elim x [
    | at_quote k h ↦ field_colon h (with_head (it.head + k + 1) it)
    | at_escape k h ↦
        let (s, it') = read_string_inner u format_int (with_head (it.head + k) it) in
        field_colon (hash_folded case_sensitive h (runes s)) it'
    | still_open h ↦
        let (more, it') = load_more it in
        elim more [
          | true ↦ loop fuel h it'
          | false ↦ (0, report_error "readFieldHash" "incomplete field name" [] it')
        ]
  ]

  finish-Reads :
      (fuel hash : ℕ) (s : Bytes) (it : Iterator) (x : FieldEnd)
      → IsValid it
      → Finds case_sensitive hash (window it) (to_load it) s t x
      → ((h : ℕ) (s' : Bytes) (it' : Iterator)
          → Loaded it it'
          → Opens s' it'
          → Reads (hash_folded case_sensitive h s') it' (loop fuel h it'))
      → Reads (hash_folded case_sensitive hash s) it (finish fuel it x)
  finish-Reads fuel hash s it (at_quote k h) v (p, q, l) next =
      let at : it.head + suc k ≡ it.head + k + 1 = omega arith in
      let sees : Sees t (with_head (it.head + k + 1) it) =
        subst (λ y. Sees y (with_head (it.head + k + 1) it)) (sym q)
          (subst (λ (n : ℕ). Sees (drop (suc k) (window it) ++ to_load it) (with_head n it)) at
            (with_head-Sees (suc k) it v (omega arith))) in
      let x = field_colon-ReadsHash h t rest (with_head (it.head + k + 1) it) sees colon in
      record {
        hash = x.hash ∙ p;
        seen = x.seen;
        same_error = x.same_error;
        same_depth = x.same_depth;
      }
  finish-Reads fuel hash s it (at_escape k h) v x next = absurd x
  finish-Reads fuel hash s it (still_open h) v (s', p, q, n) next =
      load_more-Reads fuel h (hash_folded case_sensitive hash s) s' it (load_more it) p q
        (load_more-result it v)
        λ l.
          next h s' (load_more it).1 l
            (record { valid = l.seen.valid; name = n; remains = l.seen.remains ∙ q })

  field_loop-Reads :
      (fuel hash : ℕ) (s : Bytes) (it : Iterator)
      → Opens s it
      → loads it < fuel
      → Reads (hash_folded case_sensitive hash s) it (loop fuel hash it)
  unfolding field_loop
  field_loop-Reads zero hash s it o h = absurd (omega arith)
  field_loop-Reads (suc fuel) hash s it o h =
      finish-Reads fuel hash s it (scan_field case_sensitive hash (window it)) o.valid
        (scan_field-Finds case_sensitive hash (window it) (to_load it) s t o.name o.remains)
        λ h' s' it' l o'. field_loop-Reads fuel h' s' it' o' (omega (arith, l.fewer))

-- The bytes of `s` with the capital letters made small, if the case does not count.
abbrev pub folded : Bool → Bytes → Bytes
folded case_sensitive [] = []
folded case_sensitive (b ∷ s) = fold_case case_sensitive b ∷ folded case_sensitive s

hash_all-folded :
    (case_sensitive : Bool) (hash : ℕ) (s : Bytes)
    → hash_folded case_sensitive hash s ≡ hash_all hash (folded case_sensitive s)
unfolding hash_all hash_folded
hash_all-folded c hash [] = refl
hash_all-folded c hash (b ∷ s) = hash_all-folded c (hash_round hash (fold_case c b)) s

folded_sensitive : (s : Bytes) → folded true s ≡ s
unfolding fold_case
folded_sensitive [] = refl
folded_sensitive (b ∷ s) = ground (arith, folded_sensitive s)

calc_hash_lem :
    (to_lower : Bytes → Bytes) (case_sensitive : Bool) (s : Bytes)
    → to_lower s ≡ folded false s
    → hash_folded case_sensitive offset_basis s ≡ calc_hash to_lower case_sensitive s
unfolding calc_hash
calc_hash_lem to_lower true s e =
    hash_all-folded true offset_basis s ∙ ap (hash_all offset_basis) (folded_sensitive s)
calc_hash_lem to_lower false s e =
    hash_all-folded false offset_basis s ∙ ap (hash_all offset_basis) (sym e)

-- For an iterator in bounds, over any chunks, whose remaining bytes are white space, a
-- quote, a name s without quotes and backslashes, a quote, and then, behind white space, a
-- colon and rest: readFieldHash returns calcHash of s, leaves rest and keeps the error and
-- the depth, provided that strings.ToLower changes nothing in s but the letters from A to
-- Z.
pub read_field_hash-calc_hash :
    (u : Unicode) (format_int : ℕ → Bytes) (runes : Bytes → Bytes) (to_lower : Bytes → Bytes)
    (case_sensitive : Bool) (s t rest : Bytes) (it : Iterator)
    → to_lower s ≡ folded false s
    → IsValid it
    → token (remaining it) ≡ some (b'"', s ++ b'"' ∷ t)
    → All IsNameByte s
    → token t ≡ some (b':', rest)
    → ReadsHash
        (calc_hash to_lower case_sensitive s)
        rest
        it
        (read_field_hash u format_int runes case_sensitive it)
unfolding read_field_hash
read_field_hash-calc_hash u format_int runes to_lower case_sensitive s t rest it lower v e n colon =
    let took : Took b'"' (s ++ b'"' ∷ t) it (next_token it) =
      subst (λ o. Takes o it (next_token it)) e (next_token-Takes it v) in
    let it' = (next_token it).1 in
    let x =
      field_loop-Reads u format_int runes case_sensitive t rest colon (loads it' + 1) offset_basis s
        it' (record { valid = took.seen.valid; name = n; remains = took.seen.remains })
        (omega arith) in
    rw took.byte (record {
      hash = x.hash ∙ calc_hash_lem to_lower case_sensitive s lower;
      seen = x.seen;
      same_error = x.same_error ∙ took.same_error;
      same_depth = x.same_depth ∙ took.same_depth;
    })
