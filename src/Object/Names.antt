-- ===== src/Object/Names.antt =====
-- ReadObjectCB: the fields under their decoded names.
use jsoniter.Base.{
  ℕ, ◌+◌, ◌<◌, ◌≡◌, refl, ap, ◌∙◌, subst, Bool, Option, some, none, [], ◌∷◌, ◌++◌, append-nil,
  Bytes,
}
use jsoniter.Base.Int.{pos}
use jsoniter.Iter.Defs.{Iterator, max_depth}
use jsoniter.Iter.View.{remaining, IsValid, Sees}
use jsoniter.Iter.Token.{token}
use jsoniter.Array.Elements.{Collects, Follows}
use jsoniter.Text.Read.{Unicode}
use jsoniter.Text.Spells.{Spells}
use jsoniter.Raw.Defs.{RawString, to_string}
use jsoniter.Raw.Body
use jsoniter.Raw.Marks.{Marked}
use jsoniter.Raw.Decode.{Spells-Decodes, to_string-Decodes}
use jsoniter.Object.Defs.{decoded, read_object_cb}
use jsoniter.Object.Fields.{Named, ObjectBody, read_object_raw_cb-ObjectBody}

pub Body-append : {raw b t : Bytes} → Body.Body raw b t → raw ≡ b ++ t
Body-append (Body.Body.close q) = q
Body-append (Body.Body.plain c r q p d) = q ∙ ap (◌∷◌ c) (Body-append d)
Body-append (Body.Body.letter e v r q p d) = q ∙ ap (λ y. b'\\' ∷ e ∷ y) (Body-append d)
Body-append (Body.Body.rune h1 h2 h3 h4 v r q h d) =
    q ∙ ap (λ y. b'\\' ∷ b'u' ∷ h1 ∷ h2 ∷ h3 ∷ h4 ∷ y) (Body-append d)

module _ (u : Unicode) (format_int : ℕ → Bytes) where
  to_string-Named :
      (b name : Bytes) (rs : RawString)
      → Spells u b name []
      → Named b rs
      → to_string u format_int rs ≡ some name
  to_string-Named b name rs d n =
      let x = Spells-Decodes d in
      let same : b ≡ x.bytes = Body-append x.body ∙ append-nil x.bytes in
      to_string-Decodes u format_int rs b name [] x (n.body ∙ ap some same)
        (subst (λ y. Marked rs.has_escapes y) same n.marked)

  module _ {S : Type 0} (callback : Iterator → Bytes → S → Bool × Iterator × S)
      (R : S → Bytes → Bytes → S → Type 0) where
    -- The field's name with its quote is `b`, and it is decoded for the callback.
    abbrev pub Decoded : Option S → Bytes → Bytes → Option S → Type 0
    Decoded none b x t = ⊥
    Decoded (some s) b x none = ⊥
    Decoded (some s) b x (some s') = (name : Bytes) × Spells u b name [] × R s name x s'

    decoded-name :
        (it : Iterator) (rs : Iterator → RawString) (s : S) (name : Bytes)
        → to_string u format_int (rs it) ≡ some name
        → decoded u format_int callback it rs (some s)
          ≡ ((callback it name s).0, (callback it name s).1, some (callback it name s).2)
    unfolding decoded
    decoded-name it rs s name e = rw (decoded, e) refl

    module _ (n : ℕ)
        (law : (s s' : S) (name x t : Bytes) (it : Iterator)
          → R s name x s'
          → Follows t
          → Sees (x ++ t) it
          → it.error ≡ none
          → it.depth ≡ pos (n + 1)
          → Collects s' t it.depth (callback it name s)) where
      decoded-Collects :
          (s s' : Option S) (b x t : Bytes) (rs : Iterator → RawString) (it : Iterator)
          → Decoded s b x s'
          → Named b (rs it)
          → Follows t
          → Sees (x ++ t) it
          → it.error ≡ none
          → it.depth ≡ pos (n + 1)
          → Collects s' t it.depth (decoded u format_int callback it rs s)
      decoded-Collects none s' b x t rs it h named f sees clear depth = absurd h
      decoded-Collects (some s) none b x t rs it h named f sees clear depth = absurd h
      decoded-Collects (some s) (some s') b x t rs it (name, d, r) named f sees clear depth =
          let y = law s s' name x t it r f sees clear depth in
          rw (decoded-name it rs s name (to_string-Named b name (rs it) d named)) (record {
            success = y.success;
            state = ap some y.state;
            seen = y.seen;
            clear = y.clear;
            depth = y.depth;
          })

      -- For a callback that reads any value x of a field of the name of which R says that it
      -- takes the state s to s', before a comma or a closing bracket, at the depth n + 1, leaving
      -- what follows, the depth and no error, when it gets the decoded name: ReadObjectCB on an
      -- iterator in bounds, without an error, at a depth n below maxDepth, over any chunks, whose
      -- remaining bytes are the text of an object, with no surrogate escapes in its names, and
      -- then t, returns true with no panic, leaves t, no error and the depth it had, and has
      -- called the callback on the names and values in their order.
      pub read_object_cb-ObjectBody :
          (s s' : S) (body t : Bytes) (it : Iterator)
          → IsValid it
          → it.error ≡ none
          → it.depth ≡ pos n
          → n < max_depth
          → token (remaining it) ≡ some (b'{', body)
          → ObjectBody Decoded (some s) body (some s') t
          → Collects (some s') t (pos n) (read_object_cb u format_int callback it s)
      unfolding read_object_cb
      read_object_cb-ObjectBody s s' body t it v clear depth h e d =
          read_object_raw_cb-ObjectBody format_int (decoded u format_int callback) Decoded n
            decoded-Collects (some s) (some s') body t it v clear depth h e d
