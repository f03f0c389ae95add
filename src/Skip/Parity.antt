-- ===== src/Skip/Parity.antt =====
-- The backward count of findStringEnd against a reading that toggles at each backslash.
use jsoniter.Base.{
  ℕ, ◌+◌, ◌≡◌, refl, Bool, true, false, not, ◌&&◌, ◌||◌, Option, none, some, [], ◌∷◌, Bytes, ◌==◌,
  if◌then◌else◌, arith,
}
use jsoniter.Iter.Defs.{Iterator, window}
use jsoniter.Skip.Sloppy.{odd_backslashes, find_from, find_string_end}

-- The offset behind the first quote that no backslash escapes, and whether the bytes end in an
-- escape, reading forward.
abbrev pub closing : Bool → ℕ → Bytes → Option ℕ × Bool
closing escaping i [] = (none, escaping)
closing true i (c ∷ s) = closing false (i + 1) s
closing false i (c ∷ s) =
    if c == b'"' then (some (i + 1), false) else closing (c == b'\\') (i + 1) s

odd_backslashes_cons :
    (c : ℕ) (s : Bytes) → odd_backslashes (c ∷ s) ≡ (c == b'\\' && not (odd_backslashes s))
unfolding odd_backslashes
odd_backslashes_cons c [] = ground arith
odd_backslashes_cons c (d ∷ []) = ground arith
odd_backslashes_cons c (d ∷ e ∷ s) =
    ground (arith, odd_backslashes_cons d (e ∷ s), odd_backslashes_cons e s)

-- The same end, and where there is none the same flag.
abbrev pub Agrees : Option ℕ × Bool → Option ℕ × Bool → Type 0
Agrees r (some i, escaping) = r.0 ≡ some i
Agrees r (none, escaping) = r ≡ (none, escaping)

-- The flag is set once a backslash has been seen.
abbrev Flags : Bool → Bytes → Type 0
Flags escaped seen = escaped ≡ false → odd_backslashes seen ≡ false

Flags-cons :
    (escaped : Bool) (c : ℕ) (seen : Bytes)
    → Flags escaped seen
    → Flags (escaped || c == b'\\') (c ∷ seen)
Flags-cons escaped c seen h e = ground (arith, odd_backslashes_cons c seen)

find_from-closing :
    (escaped : Bool) (seen : Bytes) (i : ℕ) (s : Bytes)
    → Flags escaped seen
    → Agrees (find_from escaped seen i s) (closing (odd_backslashes seen) i s)
unfolding find_from
find_from-closing escaped seen i [] h = refl
find_from-closing escaped seen i (c ∷ s) h =
    let ih =
      find_from-closing (escaped || c == b'\\') (c ∷ seen) (i + 1) s
        (Flags-cons escaped c seen h) in
    ground (arith, odd_backslashes_cons c seen, ih)

-- findStringEnd, which counts the backslashes back from each quote, ends behind the quote
-- at which a reading that toggles at each backslash ends; where there is none it says that
-- the window ends in an escape just when that reading is inside one.
pub find_string_end-closing :
    (it : Iterator) → Agrees (find_string_end it) (closing false 0 (window it))
unfolding find_string_end odd_backslashes
find_string_end-closing it = find_from-closing false [] 0 (window it) (λ _. refl)
