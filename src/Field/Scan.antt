-- ===== src/Field/Scan.antt =====
-- A pass of readFieldHash over a window, on a name without escapes.
use jsoniter.Base.{
  same_head, same_tail, ℕ, suc, ◌<◌, ◌≡◌, ◌≢◌, refl, sym, ap, ◌∙◌, subst, Bool, [], ◌∷◌, ◌++◌,
  Bytes, All, length, drop, arith,
}
use jsoniter.Field.Defs.{
  hash_round, fold_case, FieldEnd, at_quote, at_escape, still_open, scan_field, hash_folded,
}

-- A byte of a name that stands for itself.
abbrev pub IsNameByte : ℕ → Type 0
IsNameByte b = (b ≢ b'"') × (b ≢ b'\\')

abbrev push : FieldEnd → FieldEnd
push x = elim x [
  | at_quote k h ↦ at_quote (suc k) h
  | at_escape k h ↦ at_escape (suc k) h
  | still_open h ↦ still_open h
]

module _ (case_sensitive : Bool) where
  scan_quote :
      (hash b : ℕ) (w : Bytes) → b ≡ b'"' → scan_field case_sensitive hash (b ∷ w) ≡ at_quote 0 hash
  unfolding scan_field
  scan_quote hash b w e = rw e refl

  scan_name :
      (hash b : ℕ) (w : Bytes)
      → IsNameByte b
      → scan_field case_sensitive hash (b ∷ w)
        ≡ push (scan_field case_sensitive (hash_round hash (fold_case case_sensitive b)) w)
  unfolding scan_field
  scan_name hash b w n = ground (arith, n)

  -- What the pass over the window `w` finds, where the name `s` and its quote start in `w`.
  abbrev pub Finds : ℕ → Bytes → Bytes → Bytes → Bytes → FieldEnd → Type 0
  Finds hash w tl s t (at_quote k h) =
      (h ≡ hash_folded case_sensitive hash s) × (t ≡ drop (suc k) w ++ tl) × (k < length w)
  Finds hash w tl s t (at_escape k h) = ⊥
  Finds hash w tl s t (still_open h) =
      (s' : Bytes) × (hash_folded case_sensitive h s' ≡ hash_folded case_sensitive hash s)
      × (tl ≡ s' ++ b'"' ∷ t)
      × All IsNameByte s'

  Finds-push :
      (hash b c : ℕ) (w tl s t : Bytes) (x : FieldEnd)
      → b ≡ c
      → Finds (hash_round hash (fold_case case_sensitive b)) w tl s t x
      → Finds hash (b ∷ w) tl (c ∷ s) t (push x)
  unfolding hash_folded
  Finds-push hash b c w tl s t (at_quote k h) e (p, q, l) = (
    p ∙ ap (λ y. hash_folded case_sensitive (hash_round hash (fold_case case_sensitive y)) s) e,
    q,
    omega (arith, l),
  )
  Finds-push hash b c w tl s t (at_escape k h) e x = x
  Finds-push hash b c w tl s t (still_open h) e (s', p, q, n) = (
    s',
    p ∙ ap (λ y. hash_folded case_sensitive (hash_round hash (fold_case case_sensitive y)) s) e,
    q,
    n,
  )

  pub scan_field-Finds :
      (hash : ℕ) (w tl s t : Bytes)
      → All IsNameByte s
      → w ++ tl ≡ s ++ b'"' ∷ t
      → Finds hash w tl s t (scan_field case_sensitive hash w)
  unfolding hash_folded
  scan_field-Finds hash [] tl s t a e = unfold scan_field in (s, refl, e, a)
  scan_field-Finds hash (b ∷ w) tl [] t a e =
      rw (scan_quote hash b w (same_head _ _ _ _ e)) (refl, sym (same_tail _ _ _ _ e), omega arith)
  scan_field-Finds hash (b ∷ w) tl (c ∷ s) t a e =
      let same = same_head _ _ _ _ e in
      rw (scan_name hash b w (subst IsNameByte (sym same) a.0)) (
        Finds-push hash b c w tl s t _ same (
          scan_field-Finds (hash_round hash (fold_case case_sensitive b)) w tl s t a.1
            (same_tail _ _ _ _ e)))
