-- ===== src/Strict/Append.antt =====
-- The descriptions of a text go on to hold with more text behind it.
use jsoniter.Base.{
  ℕ, ◌≡◌, sym, ap, ◌∙◌, true, false, Option, some, none, [], ◌∷◌, ◌++◌, append_assoc, Bytes,
  if◌then◌else◌, Bool-cases, inl, inr, ◌==◌, ◌||◌, arith,
}
use jsoniter.Iter.Defs.{is_space}
use jsoniter.Iter.Token.{token}
use jsoniter.Array.Elements.{Elements, Follows}
use jsoniter.Array.Whole
use jsoniter.Raw.Body
use jsoniter.Object.Fields
use jsoniter.Float.Defs.{is_number_byte}
use jsoniter.Float.Bytes.{Ends}

token_blank : (b : ℕ) (x : Bytes) → is_space b ≡ true → token (b ∷ x) ≡ token x
token_blank b x e = ap (λ t. if t then token x else some (b, x)) e

pub token_found : (b : ℕ) (x : Bytes) → is_space b ≡ false → token (b ∷ x) ≡ some (b, x)
token_found b x e = ap (λ t. if t then token x else some (b, x)) e

abbrev behind : Bytes → Option (ℕ × Bytes) → Option (ℕ × Bytes)
behind u x = elim x [ none ↦ none | some (c, r) ↦ some (c, r ++ u) ]

pub token-append :
    (x u : Bytes) {c : ℕ} {r : Bytes} → token x ≡ some (c, r) → token (x ++ u) ≡ some (c, r ++ u)
token-append [] u e = cc
token-append (b ∷ x) u e = elim (Bool-cases (is_space b)) [
  | inl blank ↦ token_blank b (x ++ u) blank ∙ token-append x u (sym (token_blank b x blank) ∙ e)
  | inr other ↦ token_found b (x ++ u) other ∙ ap (behind u) (sym (token_found b x other) ∙ e)
]

space-number : (b : ℕ) → is_space b ≡ true → is_number_byte b ≡ false
unfolding is_number_byte
space-number b e = ground (arith, e)

separator-number : (b : ℕ) → (b == b',' || b == b']' || b == b'}') ≡ true → is_number_byte b ≡ false
unfolding is_number_byte
separator-number b e = ground (arith, e)

same_token :
    (a b : ℕ) (r s : Bytes) → ◌≡◌ {A = Option (ℕ × Bytes)} (some (a, r)) (some (b, s)) → a ≡ b
same_token a b r s e = cc

-- What follows an element does not go on with a number.
pub Follows-Ends : (t : Bytes) → Follows t → Ends t
Follows-Ends [] (c, r, e, one) = cc
Follows-Ends (b ∷ t) (c, r, e, one) = elim (Bool-cases (is_space b)) [
  | inl blank ↦ space-number b blank
  | inr other ↦
      ap is_number_byte (same_token b c t r (sym (token_found b t other) ∙ e))
      ∙ separator-number c one
]

Elements-append :
    {S : Type 0} {R : S → Bytes → S → Type 0} {s s' : S} {raw t : Bytes} (u : Bytes)
    → Elements R s raw s' t
    → Elements R s (raw ++ u) s' (t ++ u)
Elements-append {raw = raw} u (Elements.close q) = Elements.close (token-append raw u q)
Elements-append {raw = raw} u (Elements.more x rest q r d) =
    Elements.more x (rest ++ u)
      (token-append raw u q ∙ ap (λ y. some (b',', y)) (append_assoc x rest u)) r
      (Elements-append u d)

pub Whole-append :
    {S : Type 0} {R : S → Bytes → S → Type 0} {s s' : S} {raw t : Bytes} (u : Bytes)
    → Whole.Body R s raw s' t
    → Whole.Body R s (raw ++ u) s' (t ++ u)
Whole-append {raw = raw} u (Whole.Body.empty q) = Whole.Body.empty (token-append raw u q)
Whole-append {raw = raw} u (Whole.Body.first c r x rest q other split step d) =
    Whole.Body.first c (r ++ u) x (rest ++ u) (token-append raw u q) other
      (ap (λ y. y ++ u) split ∙ append_assoc x rest u) step (Elements-append u d)

pub Body-append :
    {raw b t : Bytes} (u : Bytes) → Body.Body raw b t → Body.Body (raw ++ u) b (t ++ u)
Body-append u (Body.Body.close q) = Body.Body.close (ap (λ y. y ++ u) q)
Body-append u (Body.Body.plain c r q p d) =
    Body.Body.plain c (r ++ u) (ap (λ y. y ++ u) q) p (Body-append u d)
Body-append u (Body.Body.letter e v r q p d) =
    Body.Body.letter e v (r ++ u) (ap (λ y. y ++ u) q) p (Body-append u d)
Body-append u (Body.Body.rune h1 h2 h3 h4 v r q h d) =
    Body.Body.rune h1 h2 h3 h4 v (r ++ u) (ap (λ y. y ++ u) q) h (Body-append u d)

Fields-append :
    {S : Type 0} {R : S → Bytes → Bytes → S → Type 0} {s s' : S} {raw t : Bytes} (u : Bytes)
    → Fields.Fields R s raw s' t
    → Fields.Fields R s (raw ++ u) s' (t ++ u)
Fields-append {raw = raw} u (Fields.Fields.close q) = Fields.Fields.close (token-append raw u q)
Fields-append {raw = raw} u (Fields.Fields.more r name b colon x rest q q1 body q3 step d) =
    Fields.Fields.more (r ++ u) (name ++ u) b (colon ++ u) x (rest ++ u) (token-append raw u q)
      (token-append r u q1) (Body-append u body)
      (token-append colon u q3 ∙ ap (λ y. some (b':', y)) (append_assoc x rest u)) step
      (Fields-append u d)

pub ObjectBody-append :
    {S : Type 0} {R : S → Bytes → Bytes → S → Type 0} {s s' : S} {raw t : Bytes} (u : Bytes)
    → Fields.ObjectBody R s raw s' t
    → Fields.ObjectBody R s (raw ++ u) s' (t ++ u)
ObjectBody-append {raw = raw} u (Fields.ObjectBody.empty q) =
    Fields.ObjectBody.empty (token-append raw u q)
ObjectBody-append {raw = raw} u (Fields.ObjectBody.first name b colon x rest q body q3 step d) =
    Fields.ObjectBody.first (name ++ u) b (colon ++ u) x (rest ++ u) (token-append raw u q)
      (Body-append u body)
      (token-append colon u q3 ∙ ap (λ y. some (b':', y)) (append_assoc x rest u)) step
      (Fields-append u d)
