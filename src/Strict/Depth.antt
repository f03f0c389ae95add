-- ===== src/Strict/Depth.antt =====
-- Skip at the depth maxDepth.
use jsoniter.Base.{
  ℕ, suc, ◌≡◌, ◌≢◌, ◌⊎◌, refl, ap, ◌∙◌, inl, inr, Bool, false, none, some, [], ◌∷◌, Bytes,
}
use jsoniter.Base.Int.{pos, lebℤ, ◌+ℤ◌}
use jsoniter.Iter.Defs.{Iterator, next_token, unread_byte, report_error, increment_depth, max_depth}
use jsoniter.Iter.Report.{report_error-ne-none, report_error-Sees}
use jsoniter.Iter.View.{remaining, IsValid, Sees}
use jsoniter.Iter.Token.{token, unread_byte-Sees}
use jsoniter.Iter.Rounds.{unread_byte-depth}
use jsoniter.Array.Defs.{read_array_cb}
use jsoniter.Array.Elements.{token-Took, with_depth-Sees}
use jsoniter.Raw.Defs.{RawString}
use jsoniter.Object.Defs.{read_object_raw_cb}
use jsoniter.Float.Defs.{Floats}
use jsoniter.Strict.Defs.{skip}
use jsoniter.Strict.Json.{levels, element, array-levels, object-levels}

-- Nothing behind the bracket is read, and there is an error.
pub record Refused (rest : Bytes) (it : Iterator) : Type 0 where
  pub seen : Sees rest it
  pub fails : it.error ≢ none

abbrev too_deep : Iterator → Iterator
too_deep it =
    report_error "incrementDepth" "exceeded max depth" [] (record it { depth = it.depth +ℤ pos 1 })

increment_depth-too_deep :
    (it : Iterator) → it.depth ≡ pos max_depth → increment_depth it ≡ (false, too_deep it)
unfolding increment_depth
increment_depth-too_deep it e =
    let over : lebℤ (it.depth +ℤ pos 1) (pos max_depth) ≡ false =
      ap (λ d. lebℤ (d +ℤ pos 1) (pos max_depth)) e in
    rw over refl

too_deep-Refused : (rest : Bytes) (it : Iterator) → Sees rest it → Refused rest (too_deep it)
too_deep-Refused rest it s =
    let at = record it { depth = it.depth +ℤ pos 1 } in
    record {
      seen =
          report_error-Sees "incrementDepth" "exceeded max depth" [] at rest
            (with_depth-Sees (it.depth +ℤ pos 1) s);
      fails = report_error-ne-none "incrementDepth" "exceeded max depth" [] at;
    }

module _ {S : Type 0} (it it2 : Iterator) (s : S) where
  read_array_cb-refused :
      (callback : Iterator → S → Bool × Iterator × S)
      → (next_token it).0 ≡ b'['
      → increment_depth (next_token it).1 ≡ (false, it2)
      → read_array_cb callback it s ≡ (false, it2, s)
  unfolding read_array_cb
  read_array_cb-refused callback e f = rw (e, f) refl

  read_object_raw_cb-refused :
      (format_int : ℕ → Bytes)
      (callback : Iterator → (Iterator → RawString) → S → Bool × Iterator × S)
      → (next_token it).0 ≡ b'{'
      → increment_depth (next_token it).1 ≡ (false, it2)
      → read_object_raw_cb format_int callback it s ≡ (false, it2, s)
  unfolding read_object_raw_cb
  read_object_raw_cb-refused format_int callback e f = rw (e, f) refl

module _ (format_int : ℕ → Bytes) (f32 f64 : Floats) {B : Type 0}
    (parse_big : ℕ → Bytes → B ⊎ ℕ) where
  levels-Refused :
      (fuel c : ℕ) (rest : Bytes) (it : Iterator)
      → (c ≡ b'[') ⊎ (c ≡ b'{')
      → IsValid it
      → it.error ≡ none
      → it.depth ≡ pos max_depth
      → token (remaining it) ≡ some (c, rest)
      → Refused rest (levels format_int f32 f64 parse_big (suc fuel) it)
  levels-Refused fuel c rest it bracket v clear depth e =
      let took = token-Took c rest (remaining it) it (record { valid = v; remains = refl }) e in
      let (seen, ok, _) = unread_byte-Sees took clear in
      let it1 = unread_byte (next_token it).1 in
      let again : token (c ∷ rest) ≡ some (c, rest) = elim bracket [
        | inl f ↦ rw f refl
        | inr f ↦ rw f refl
      ] in
      let took' = token-Took c rest (c ∷ rest) it1 seen again in
      let it2 = (next_token it1).1 in
      let deep =
        increment_depth-too_deep it2
          (took'.same_depth ∙ unread_byte-depth (next_token it).1 ∙ took.same_depth ∙ depth) in
      let refused = too_deep-Refused rest it2 took'.seen in
      elim bracket [
        | inl f ↦
            rw
              (
                array-levels format_int f32 f64 parse_big fuel it (took.byte ∙ f),
                read_array_cb-refused it1 (too_deep it2) tt
                    (element format_int f32 f64 parse_big fuel) (took'.byte ∙ f) deep,
              )
              refused
        | inr f ↦
            rw
              (
                object-levels format_int f32 f64 parse_big fuel it (took.byte ∙ f),
                read_object_raw_cb-refused it1 (too_deep it2) tt format_int
                    (λ i name s. element format_int f32 f64 parse_big fuel i s) (took'.byte ∙ f)
                    deep,
              )
              refused
      ]

  -- For an iterator in bounds, without an error and at the depth maxDepth, over any chunks,
  -- whose first byte behind white space is an opening bracket or brace: Skip reads nothing
  -- behind it and there is an error.
  pub skip-Refused :
      (c : ℕ) (rest : Bytes) (it : Iterator)
      → (c ≡ b'[') ⊎ (c ≡ b'{')
      → IsValid it
      → it.error ≡ none
      → it.depth ≡ pos max_depth
      → token (remaining it) ≡ some (c, rest)
      → Refused rest (skip format_int f32 f64 parse_big it)
  unfolding skip
  skip-Refused = levels-Refused max_depth
