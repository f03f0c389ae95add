-- ===== src/Iter/Load.antt =====
-- What loadMore brings in.
use native.Mathlib.Nat.{sub-zero}
use jsoniter.Base.{
  ◌+◌, ◌≤◌, ◌≡◌, refl, sym, ap, ◌∙◌, subst, inl, inr, Bool, true, false, none, some, List, [], ◌∷◌,
  ◌++◌, Bytes, length, drop, All, ◌==◌, arith, length-append, length-drop, take-append, Bool-cases,
  Option-cases,
}
use jsoniter.Iter.Defs.{
  Error, eof, Chunk, Iterator, loads, keep_error, overwrite, read_loop, capture, no_reader,
  load_more,
}
use jsoniter.Iter.View.{pending, to_load, Fits, IsValid, Failed, Loaded, Exhausted, LoadResult}

Fits-of_length : (b b' : Bytes) (cs : List Chunk) → length b ≡ length b' → Fits b cs → Fits b' cs
Fits-of_length b b' cs e h = subst (λ n. All (λ c. length c.bytes ≤ n) cs) e h

length-overwrite : (b buf : Bytes) → length b ≤ length buf → length (overwrite b buf) ≡ length buf
length-overwrite b buf h =
    omega (arith, length-append b (drop (length b) buf), length-drop (length b) buf)

LoadResult-of_same :
    (a b : Iterator) (r : Bool × Iterator)
    → to_load b ≡ to_load a
    → b.error ≡ a.error
    → b.depth ≡ a.depth
    → loads a ≤ loads b
    → LoadResult a r
    → LoadResult b r
LoadResult-of_same a b (true, it') e f d n l = record {
  seen = rw e l.seen;
  same_error = l.same_error ∙ sym f;
  same_depth = l.same_depth ∙ sym d;
  at_front = l.at_front;
  holds = l.holds;
  fewer = omega (arith, l.fewer);
}
LoadResult-of_same a b (false, it') e f d n l = record {
  failed = l.failed;
  nothing = e ∙ l.nothing;
  same_depth = l.same_depth ∙ sym d;
}

-- A chunk that is not empty becomes the window.
chunk-Loaded :
    (c : Chunk) (cs : List Chunk) (it : Iterator)
    → Fits it.buf (c ∷ cs)
    → (length c.bytes == 0) ≡ false
    → Loaded
        (record it { reader = some (c ∷ cs) })
        (record it {
          reader = some cs;
          buf = overwrite c.bytes it.buf;
          input_offset = it.input_offset + it.tail;
          head = 0;
          tail = length c.bytes;
        })
chunk-Loaded c cs it f full =
    let same = length-overwrite c.bytes it.buf f.0 in
    record {
      seen = record {
        valid = record {
          head_le = omega arith;
          tail_le = omega (arith, same, f.0);
          fits = Fits-of_length it.buf (overwrite c.bytes it.buf) cs (sym same) f.1;
        };
        remains =
            rw (full, sub-zero (length c.bytes))
              (ap (λ w. w ++ pending cs) (take-append c.bytes (drop (length c.bytes) it.buf)));
      };
      same_error = refl;
      same_depth = refl;
      at_front = refl;
      holds = ground arith;
      fewer = omega arith;
    }

keep_error-Failed :
    (e : Error) (cs : List Chunk) (it : Iterator)
    → it.head ≤ it.tail
    → it.tail ≤ length it.buf
    → Fits it.buf cs
    → Failed (record (keep_error e it) { reader = some cs }) × ((keep_error e it).depth ≡ it.depth)
keep_error-Failed e cs it h t f = elim (Option-cases it.error) [
  | inl clear ↦
      rw clear (record { valid = record { head_le = h; tail_le = t; fits = f }; fails = cc }, refl)
  | inr (old, set) ↦
      rw set (record { valid = record { head_le = h; tail_le = t; fits = f }; fails = cc }, refl)
]

pending_skip :
    (c : Chunk) (cs : List Chunk)
    → (length c.bytes == 0) ≡ true
    → c.err ≡ none
    → pending (c ∷ cs) ≡ pending cs
pending_skip c cs empty again = rw (empty, again)

pending_stop :
    (c : Chunk) (cs : List Chunk) {e : Error}
    → (length c.bytes == 0) ≡ true
    → c.err ≡ some e
    → pending (c ∷ cs) ≡ []
pending_stop c cs empty ends = rw (empty, ends)

read_loop-result :
    (cs : List Chunk) (it : Iterator)
    → it.head ≤ it.tail
    → it.tail ≤ length it.buf
    → Fits it.buf cs
    → LoadResult (record it { reader = some cs }) (read_loop cs it)
unfolding read_loop
read_loop-result [] it h t f =
    let (failed, depth) = keep_error-Failed eof [] it h t tt in
    record { failed = failed; nothing = refl; same_depth = depth }
read_loop-result (c ∷ cs) it h t f = elim (Bool-cases (length c.bytes == 0)) [
  | inl empty ↦ elim (Option-cases c.err) [
    | inl again ↦
        simp (empty, again)
          (LoadResult-of_same (record it { reader = some cs })
            (record it { reader = some (c ∷ cs) }) (read_loop cs it) (pending_skip c cs empty again)
            refl refl (omega arith) (read_loop-result cs it h t f.1))
    | inr (e, ends) ↦
        let (failed, depth) = keep_error-Failed e cs it h t f.1 in
        simp (empty, ends)
          (record { failed = failed; nothing = pending_stop c cs empty ends; same_depth = depth })
  ]
  | inr full ↦ simp full (chunk-Loaded c cs it f full)
]

no_reader-Exhausted : (it : Iterator) → IsValid it → it.reader ≡ none → Exhausted it (no_reader it)
unfolding no_reader
no_reader-Exhausted it v e = elim (Option-cases it.error) [
  | inl clear ↦ rw clear (record {
    failed = record {
      valid = record { head_le = omega arith; tail_le = v.tail_le; fits = v.fits };
      fails = cc;
    };
    nothing = rw e;
    same_depth = refl;
  })
  | inr (old, set) ↦ rw set (record {
    failed = record {
      valid = record { head_le = v.head_le; tail_le = v.tail_le; fits = v.fits };
      fails = cc;
    };
    nothing = rw e;
    same_depth = refl;
  })
]

capture_keeps :
    (it : Iterator)
    → ((capture it).head ≡ it.head)
      × ((capture it).tail ≡ it.tail)
      × ((capture it).buf ≡ it.buf)
      × ((capture it).error ≡ it.error)
      × ((capture it).depth ≡ it.depth)
unfolding capture
capture_keeps it = ground arith

capture-result :
    (cs : List Chunk) (it : Iterator)
    → IsValid it
    → it.reader ≡ some cs
    → LoadResult (record it { reader = some cs }) (read_loop cs (capture it))
capture-result cs it v e =
    let (same_head, same_tail, same_buf, same_error, same_depth) = capture_keeps it in
    let fits : Fits it.buf cs = rw e at v.fits in
    LoadResult-of_same (record (capture it) { reader = some cs }) (record it { reader = some cs })
      (read_loop cs (capture it)) refl (sym same_error) (sym same_depth) (omega arith)
      (read_loop-result cs (capture it) (rw (same_head, same_tail) v.head_le)
        (rw (same_tail, same_buf) v.tail_le) (rw same_buf fits))

load_more-none : (it : Iterator) → it.reader ≡ none → load_more it ≡ (false, no_reader it)
unfolding load_more
load_more-none it e = rw e

load_more-some :
    (it : Iterator) {cs : List Chunk}
    → it.reader ≡ some cs
    → load_more it ≡ read_loop cs (capture it)
unfolding load_more
load_more-some it e = rw e

-- For an iterator in bounds: where loadMore succeeds, the iterator stays in bounds, what
-- was to be loaded is what remains, head is 0, the window is not empty, error and depth are
-- kept and fewer results of the reader are left. Where it fails, nothing was to be loaded,
-- and there is an error.
pub load_more-result : (it : Iterator) → IsValid it → LoadResult it (load_more it)
load_more-result it v = elim (Option-cases it.reader) [
  | inl absent ↦ rw (load_more-none it absent) (no_reader-Exhausted it v absent)
  | inr (cs, given) ↦ rw (load_more-some it given) (
      LoadResult-of_same (record it { reader = some cs }) it (read_loop cs (capture it)) (rw given)
        refl refl (rw given (omega arith)) (capture-result cs it v given))
]
