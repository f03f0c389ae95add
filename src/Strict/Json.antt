-- ===== src/Strict/Json.antt =====
-- Skip on the text of a JSON value.
use jsoniter.Base.{
  ℕ, zero, suc, ◌+◌, ◌<◌, ◌≡◌, ◌≢◌, ◌⊎◌, refl, sym, ap, ◌∙◌, subst, Bool, true, false, ◌||◌, none,
  ◌∷◌, ◌++◌, Bytes, ◌==◌, arith,
}
use jsoniter.Base.Int.{ℤ, pos}
use jsoniter.Iter.Defs.{Iterator, next_token, unread_byte, max_depth}
use jsoniter.Iter.View.{remaining, IsValid, Sees}
use jsoniter.Iter.Token.{token, unread_byte-Sees}
use jsoniter.Iter.Rounds.{unread_byte-depth}
use jsoniter.Array.Defs.{read_array_cb}
use jsoniter.Array.Elements.{Follows, Collects, token-Took}
use jsoniter.Array.Whole
use jsoniter.Raw.Body
use jsoniter.Object.Defs.{read_object_raw_cb}
use jsoniter.Object.Fields.{read_object_raw_cb-ObjectBody}
use jsoniter.Text.Read.{skip_three_bytes, skip_four_bytes}
use jsoniter.Float.Defs.{Floats, is_digit, read_float}
use jsoniter.Float.Bytes.{Ends}
use jsoniter.Strict.Defs.{skip_string, skip_number, skip_array, skip_object, skip_levels, skip}
use jsoniter.Strict.Floats.{Leaves, Number, plain, minus, read_float-Leaves}
use jsoniter.Strict.Number.{skip_number-Leaves}
use jsoniter.Strict.Text.{skip_string-Leaves, skip_three_bytes-Leaves, skip_four_bytes-Leaves}
use jsoniter.Strict.Append.{
  token-append, Follows-Ends, Whole-append, Body-append, ObjectBody-append,
}
use jsoniter.Strict.Value.{
  Value, text, null, true_value, false_value, zero_number, number, array, object, Json,
}

module _ (format_int : ℕ → Bytes) (f32 f64 : Floats) {B : Type 0}
    (parse_big : ℕ → Bytes → B ⊎ ℕ) where
  abbrev pub levels : ℕ → Iterator → Iterator
  levels = skip_levels format_int f32 f64 parse_big

  abbrev pub element : ℕ → Iterator → Unit {0} → Bool × Iterator × Unit {0}
  element fuel i s = (true, levels fuel i, s)

  -- A round of Skip, by its token.
  module _ (fuel : ℕ) (it : Iterator) where
    text-levels :
        (next_token it).0 ≡ b'"' → levels (suc fuel) it ≡ skip_string format_int (next_token it).1
    unfolding skip_levels
    text-levels e = rw e refl

    null-levels :
        (next_token it).0 ≡ b'n'
        → levels (suc fuel) it ≡ skip_three_bytes b'u' b'l' b'l' (next_token it).1
    unfolding skip_levels
    null-levels e = rw e refl

    true-levels :
        (next_token it).0 ≡ b't'
        → levels (suc fuel) it ≡ skip_three_bytes b'r' b'u' b'e' (next_token it).1
    unfolding skip_levels
    true-levels e = rw e refl

    false-levels :
        (next_token it).0 ≡ b'f'
        → levels (suc fuel) it ≡ skip_four_bytes b'a' b'l' b's' b'e' (next_token it).1
    unfolding skip_levels
    false-levels e = rw e refl

    zero-levels :
        (next_token it).0 ≡ b'0'
        → levels (suc fuel) it ≡ (read_float f32 (unread_byte (next_token it).1)).1
    unfolding skip_levels
    zero-levels e = rw e refl

    pub array-levels :
        (next_token it).0 ≡ b'['
        → levels (suc fuel) it ≡ (read_array_cb (element fuel) (unread_byte (next_token it).1) tt).1
    unfolding skip_levels skip_array
    array-levels e = rw e refl

    pub object-levels :
        (next_token it).0 ≡ b'{'
        → levels (suc fuel) it
          ≡ (read_object_raw_cb format_int
              (λ i name s. element fuel i s)
              (unread_byte (next_token it).1)
              tt).1
    unfolding skip_levels skip_object
    object-levels e = rw e refl

    number-levels :
        (c : ℕ)
        → (next_token it).0 ≡ c
        → c ≢ b'0'
        → (c == b'-' || is_digit c) ≡ true
        → levels (suc fuel) it ≡ skip_number format_int f32 f64 parse_big (next_token it).1
    unfolding skip_levels
    number-levels c e n h =
        let q : (c == b'"') ≡ false = ground (arith, h) in
        let a : (c == b'n') ≡ false = ground (arith, h) in
        let b : (c == b't') ≡ false = ground (arith, h) in
        let d : (c == b'f') ≡ false = ground (arith, h) in
        let z : (c == b'0') ≡ false = ground (arith, n) in rw (e, q, a, b, d, z, h) refl

  at_depth : {t : Bytes} {d d' : ℤ} {r i : Iterator} → Leaves t d r → d ≡ d' → i ≡ r → Leaves t d' i
  at_depth {t = t} {d' = d'} x e f =
      subst (Leaves t d') (sym f)
        (record { seen = x.seen; clear = x.clear; same_depth = x.same_depth ∙ e })

  collected :
      {t : Bytes} {d : ℤ} {s : Unit {0}} {r : Bool × Iterator × Unit {0}}
      → Collects s t d r
      → Leaves t d r.1
  collected c = record { seen = c.seen; clear = c.clear; same_depth = c.depth }

  -- What Skip does on the texts of which `R` holds, at the depth `n`.
  abbrev Skips : ℕ → ℕ → (Bytes → Type 0) → Type 0
  Skips fuel n R =
      (y t : Bytes) (it : Iterator)
      → R y
      → Ends t
      → Sees (y ++ t) it
      → it.error ≡ none
      → it.depth ≡ pos n
      → Leaves t it.depth (levels fuel it)

  element-Collects :
      (fuel n : ℕ) (R : Bytes → Type 0)
      → Skips fuel n R
      → (y t : Bytes) (it : Iterator) → R y
      → Follows t
      → Sees (y ++ t) it
      → it.error ≡ none
      → it.depth ≡ pos n
      → Collects tt t it.depth (element fuel it tt)
  element-Collects fuel n R next y t it r f sees clear depth =
      let x = next y t it r (Follows-Ends t f) sees clear depth in
      record { success = refl; state = refl; seen = x.seen; clear = x.clear; depth = x.same_depth }

  Number-first :
      {ops : Floats} {c : ℕ} {s : Bytes} → Number ops c s → (c == b'-' || is_digit c) ≡ true
  Number-first (plain x n p) = ground (arith, n.first)
  Number-first {c = c} (minus d r x m f n p) = rw m refl

  levels-Value :
      (fuel n : ℕ) (R : Bytes → Type 0)
      → Skips fuel (n + 1) R
      → n < max_depth
      → Skips (suc fuel) n (Value f32 f64 R)
  levels-Value fuel n R next h x t it (text raw b q d) e sees clear depth =
      let took = token-Took b'"' (raw ++ t) (x ++ t) it sees (token-append x t q) in
      let body = subst (λ y. Body.Body y b t) (sym took.seen.remains) (Body-append t d) in
      at_depth
        (skip_string-Leaves format_int b t (next_token it).1 body took.seen.valid
          (took.same_error ∙ clear))
        took.same_depth (text-levels fuel it took.byte)
  levels-Value fuel n R next h x t it (null q) e sees clear depth =
      let took = token-Took b'n' (b'u' ∷ b'l' ∷ b'l' ∷ t) (x ++ t) it sees (token-append x t q) in
      at_depth
        (skip_three_bytes-Leaves b'u' b'l' b'l' t (next_token it).1 took.seen
          (took.same_error ∙ clear))
        took.same_depth (null-levels fuel it took.byte)
  levels-Value fuel n R next h x t it (true_value q) e sees clear depth =
      let took = token-Took b't' (b'r' ∷ b'u' ∷ b'e' ∷ t) (x ++ t) it sees (token-append x t q) in
      at_depth
        (skip_three_bytes-Leaves b'r' b'u' b'e' t (next_token it).1 took.seen
          (took.same_error ∙ clear))
        took.same_depth (true-levels fuel it took.byte)
  levels-Value fuel n R next h x t it (false_value q) e sees clear depth =
      let took =
        token-Took b'f' (b'a' ∷ b'l' ∷ b's' ∷ b'e' ∷ t) (x ++ t) it sees (token-append x t q) in
      at_depth
        (skip_four_bytes-Leaves b'a' b'l' b's' b'e' t (next_token it).1 took.seen
          (took.same_error ∙ clear))
        took.same_depth (false-levels fuel it took.byte)
  levels-Value fuel n R next h x t it (zero_number s q num) e sees clear depth =
      let took = token-Took b'0' (s ++ t) (x ++ t) it sees (token-append x t q) in
      let (seen, ok, _) = unread_byte-Sees took clear in
      at_depth (read_float-Leaves f32 t e b'0' s (unread_byte (next_token it).1) num seen ok)
        (unread_byte-depth (next_token it).1 ∙ took.same_depth) (zero-levels fuel it took.byte)
  levels-Value fuel n R next h x t it (number c s q other num) e sees clear depth =
      let took = token-Took c (s ++ t) (x ++ t) it sees (token-append x t q) in
      at_depth
        (skip_number-Leaves format_int f32 f64 parse_big c s t it (next_token it) num e took clear)
        refl (number-levels fuel it c took.byte other (Number-first num))
  levels-Value fuel n R next h x t it (array body q d) e sees clear depth =
      let took = token-Took b'[' (body ++ t) (x ++ t) it sees (token-append x t q) in
      let (seen, ok, _) = unread_byte-Sees took clear in
      let it1 = unread_byte (next_token it).1 in
      let at = unread_byte-depth (next_token it).1 ∙ took.same_depth ∙ depth in
      let y =
        Whole.read_array_cb-Body (element fuel) (λ s y s'. R y) n
          (λ s s' y u i r f. element-Collects fuel (n + 1) R next y u i r f) tt tt (body ++ t) t it1
          seen.valid ok at h (ap token seen.remains) (Whole-append t d) in
      at_depth (collected y) (sym depth) (array-levels fuel it took.byte)
  levels-Value fuel n R next h x t it (object body q d) e sees clear depth =
      let took = token-Took b'{' (body ++ t) (x ++ t) it sees (token-append x t q) in
      let (seen, ok, _) = unread_byte-Sees took clear in
      let it1 = unread_byte (next_token it).1 in
      let at = unread_byte-depth (next_token it).1 ∙ took.same_depth ∙ depth in
      let y =
        read_object_raw_cb-ObjectBody format_int (λ i name s. element fuel i s) (λ s b y s'. R y) n
          (λ s s' b y u rs i r name f. element-Collects fuel (n + 1) R next y u i r f) tt tt
          (body ++ t) t it1 seen.valid ok at h (ap token seen.remains) (ObjectBody-append t d) in
      at_depth (collected y) (sym depth) (object-levels fuel it took.byte)

  levels-Json : (m fuel n : ℕ) → n + m < max_depth → m < fuel → Skips fuel n (Json f32 f64 m)
  levels-Json m zero n h k = absurd (omega (arith, k))
  levels-Json zero (suc fuel) n h k =
      levels-Value fuel n (λ y. ⊥) (λ y u i r. absurd r) (omega (arith, h))
  levels-Json (suc m) (suc fuel) n h k =
      levels-Value fuel n (Json f32 f64 m)
        (levels-Json m fuel (n + 1) (omega (arith, h)) (omega (arith, k))) (omega (arith, h))

  -- Skip, as it is built by default, implements the grammar of JSON: for an iterator in
  -- bounds and without an error, over any chunks, whose remaining bytes are a JSON value x,
  -- with white space in front, and then t, where t starts with a byte that is not of a
  -- number: Skip leaves t, no error and the depth n it had. Arrays and objects in x are
  -- nested in at most m others, with n + m below maxDepth. Strings have no control
  -- characters, and their escapes are those of JSON; a number is one that strconv.ParseFloat
  -- takes.
  pub skip-Json :
      (m n : ℕ) (x t : Bytes) (it : Iterator)
      → Json f32 f64 m x
      → Ends t
      → n + m < max_depth
      → IsValid it
      → it.error ≡ none
      → it.depth ≡ pos n
      → remaining it ≡ x ++ t
      → Leaves t it.depth (skip format_int f32 f64 parse_big it)
  unfolding skip
  skip-Json m n x t it j e h v clear depth r =
      levels-Json m (max_depth + 1) n h (omega (arith, h)) x t it j e
        (record { valid = v; remains = r }) clear depth
