-- ===== src/Strict/Valid.antt =====
-- Valid of config.go, on an iterator of the pool of pool.go.
use jsoniter.Base.{
  ℕ, ◌-◌, ◌<◌, ◌≡◌, ◌⊎◌, refl, ap, ◌∙◌, Bool, true, false, none, some, ◌++◌, append-nil, Bytes,
  length, take, take_all, arith,
}
use jsoniter.Iter.Defs.{Iterator, reset_bytes, max_depth}
use jsoniter.Iter.View.{remaining, IsValid}
use jsoniter.Float.Defs.{Floats}
use jsoniter.Float.Bytes.{Ends}
use jsoniter.Strict.Defs.{skip}
use jsoniter.Strict.Value.{Json}
use jsoniter.Strict.Json.{skip-Json}

-- The iterator that the pool gives out is an argument.
unfoldable pub borrow_iterator : Bytes → Iterator → Iterator
borrow_iterator input pooled = reset_bytes input pooled

unfoldable pub return_iterator : Iterator → Iterator
return_iterator it = record it { error = none }

borrow_iterator-IsValid :
    (input : Bytes) (pooled : Iterator) → IsValid (borrow_iterator input pooled)
unfolding borrow_iterator reset_bytes
borrow_iterator-IsValid input pooled = record {
  head_le = omega arith;
  tail_le = omega arith;
  fits = tt;
}

borrow_iterator-remaining :
    (input : Bytes) (pooled : Iterator) → remaining (borrow_iterator input pooled) ≡ input
unfolding borrow_iterator reset_bytes
borrow_iterator-remaining input pooled =
    let size : length input - 0 ≡ length input = omega arith in
    append-nil (take (length input - 0) input) ∙ ap (λ n. take n input) size ∙ take_all input

module _ (format_int : ℕ → Bytes) (f32 f64 : Floats) {B : Type 0}
    (parse_big : ℕ → Bytes → B ⊎ ℕ) where
  -- The answer, and the iterator that goes back to the pool.
  unfoldable pub valid : Bytes → Iterator → Bool × Iterator
  valid input pooled =
      let it = skip format_int f32 f64 parse_big (borrow_iterator input pooled) in
      (elim it.error [ none ↦ true | some _ ↦ false ], return_iterator it)

  -- Valid returns true, and gives an iterator without an error back to the pool, on a JSON
  -- value x, in which arrays and objects are nested in fewer than maxDepth others, with t
  -- behind it, for every t that starts with a byte that is not of a number; the iterator that
  -- the pool gives out has no error.
  pub valid-Json :
      (m : ℕ) (x t : Bytes) (pooled : Iterator)
      → Json f32 f64 m x
      → Ends t
      → m < max_depth
      → pooled.error ≡ none
      → ((valid (x ++ t) pooled).0 ≡ true) × ((valid (x ++ t) pooled).1.error ≡ none)
  unfolding valid borrow_iterator reset_bytes return_iterator
  valid-Json m x t pooled j e h clear =
      let r =
        skip-Json format_int f32 f64 parse_big m 0 x t (borrow_iterator (x ++ t) pooled) j e
          (omega (arith, h)) (borrow_iterator-IsValid (x ++ t) pooled) clear refl
          (borrow_iterator-remaining (x ++ t) pooled) in
      (ap (λ e. elim e [ none ↦ true | some _ ↦ false ]) r.clear, refl)
