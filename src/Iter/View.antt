-- ===== src/Iter/View.antt =====
-- What an Iterator still has to read, whatever the chunks in which it comes, and its bounds.
use jsoniter.Base.{
  ℕ, ◌+◌, ◌-◌, ◌≤◌, ◌<◌, ◌≡◌, ◌≢◌, ap, Bool, true, false, none, some, List, [], ◌∷◌, ◌++◌, Bytes,
  length, drop, All, ◌==◌, if◌then◌else◌, arith, length-take, length-drop, drop-drop, drop-take,
}
use jsoniter.Iter.Defs.{Chunk, Iterator, window, loads, with_head}

-- The bytes that a reader has still to give: up to its first error.
abbrev pub pending : List Chunk → Bytes
pending [] = []
pending (c ∷ cs) =
    if length c.bytes == 0
    then elim c.err [ none ↦ pending cs | some e ↦ [] ]
    else c.bytes ++ pending cs

abbrev pub to_load : Iterator → Bytes
to_load it = elim it.reader [ none ↦ [] | some chunks ↦ pending chunks ]

-- The bytes that are still to be read, buffered or not.
abbrev pub remaining : Iterator → Bytes
remaining it = window it ++ to_load it

-- Read never returns more bytes than the buffer holds, which is a reader's contract.
abbrev pub Fits : Bytes → List Chunk → Type 0
Fits buf = All (λ c. length c.bytes ≤ length buf)

abbrev pub ReaderFits : Iterator → Type 0
ReaderFits it = elim it.reader [ none ↦ Unit | some chunks ↦ Fits it.buf chunks ]

pub record IsValid (it : Iterator) : Type 0 where
  pub head_le : it.head ≤ it.tail
  pub tail_le : it.tail ≤ length it.buf
  pub fits : ReaderFits it

-- The state in which a reading function leaves the iterator: it is `rest` that remains.
pub record Sees (rest : Bytes) (it : Iterator) : Type 0 where
  pub valid : IsValid it
  pub remains : remaining it ≡ rest

-- The iterator holds an error and stays in bounds.
pub record Failed (it : Iterator) : Type 0 where
  pub valid : IsValid it
  pub fails : it.error ≢ none

pub length-window : (it : Iterator) → IsValid it → length (window it) ≡ it.tail - it.head
length-window it v =
    length-take _ (drop it.head it.buf)
      (omega (arith, length-drop it.head it.buf, v.head_le, v.tail_le))

pub window-with_head :
    (k : ℕ) (it : Iterator) → window (with_head (it.head + k) it) ≡ drop k (window it)
window-with_head k it =
    let e : it.tail - (it.head + k) ≡ it.tail - it.head - k = omega arith in
    rw (drop-take k (it.tail - it.head) (drop it.head it.buf), drop-drop it.head k it.buf, e)

-- Moving head forward by `k` drops `k` of the bytes that remain.
pub with_head-Sees :
    (k : ℕ) (it : Iterator)
    → IsValid it
    → k ≤ length (window it)
    → Sees (drop k (window it) ++ to_load it) (with_head (it.head + k) it)
with_head-Sees k it v h = record {
  valid = record {
    head_le = omega (arith, length-window it v, v.head_le);
    tail_le = v.tail_le;
    fits = v.fits;
  };
  remains = ap (λ w. w ++ to_load it) (window-with_head k it);
}

-- A load that succeeded: what was to be loaded is all that remains.
pub record Loaded (it it' : Iterator) : Type 0 where
  pub seen : Sees (to_load it) it'
  pub same_error : it'.error ≡ it.error
  pub same_depth : it'.depth ≡ it.depth
  pub at_front : it'.head ≡ 0
  pub holds : 0 < it'.tail
  pub fewer : loads it' < loads it

-- A load that failed: nothing was to be loaded.
pub record Exhausted (it it' : Iterator) : Type 0 where
  pub failed : Failed it'
  pub nothing : to_load it ≡ []
  pub same_depth : it'.depth ≡ it.depth

abbrev pub LoadResult : Iterator → Bool × Iterator → Type 0
LoadResult it r = elim r.0 [ true ↦ Loaded it r.1 | false ↦ Exhausted it r.1 ]
