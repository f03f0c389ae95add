-- ===== src/Stream/Conserve.antt =====
-- The bytes of the buffer and of the writer, and the indention, in stream.go.
use jsoniter.Base.{
  ℕ, zero, suc, ◌≡◌, refl, sym, ap, ◌∙◌, inl, inr, none, some, List, [], ◌∷◌, ◌++◌, append_assoc,
  append-nil, Bytes, length, take, drop, arith, Option-cases, Bool-cases,
}
use jsoniter.Base.Int.{pos, ◌+ℤ◌, ◌-ℤ◌, ◌==ℤ◌}
use jsoniter.Stream.Defs.{
  Written, Writer, Stream, write_to, write, write_object_start, write_object_end, write_indention,
  write_byte,
}

-- What the writer has taken, then what is in the buffer.
abbrev pub contents : Stream → Bytes
contents st = elim st.out [ none ↦ st.buf | some w ↦ w.output ++ st.buf ]

take-append-drop : (n : ℕ) (s : Bytes) → take n s ++ drop n s ≡ s
take-append-drop zero s = refl
take-append-drop (suc n) [] = refl
take-append-drop (suc n) (c ∷ s) = ap (◌∷◌ c) (take-append-drop n s)

drop_all : (s : Bytes) → drop (length s) s ≡ []
drop_all [] = refl
drop_all (c ∷ s) = drop_all s

write_to-conserves :
    (p : Bytes) (w : Writer)
    → (write_to p w).1.output ++ drop (write_to p w).0.taken p ≡ w.output ++ p
unfolding write_to
write_to-conserves p w = go w.results
  where
    go :
        (rs : List Written)
        → (write_to p (record w { results = rs })).1.output
            ++ drop (write_to p (record w { results = rs })).0.taken p
          ≡ w.output ++ p
    go [] = ap (λ x. (w.output ++ p) ++ x) (drop_all p) ∙ append-nil (w.output ++ p)
    go (r ∷ rs) =
        append_assoc w.output (take r.taken p) (drop r.taken p)
        ∙ ap (λ x. w.output ++ x) (take-append-drop r.taken p)

-- After Write, what the writer has taken followed by the buffer is what it was before
-- followed by the bytes written, whatever the number of bytes the writer takes and whatever
-- error it returns.
pub contents-write : (p : Bytes) (st : Stream) → contents (write p st).1 ≡ contents st ++ p
unfolding write
contents-write p st = elim (Option-cases st.out) [
  | inl e ↦ rw e refl
  | inr (w, e) ↦ rw e (write_to-conserves (st.buf ++ p) w ∙ sym (append_assoc w.output st.buf p))
]

write_indention-indention :
    (delta : ℕ) (st : Stream)
    → ((write_indention delta st).indention ≡ st.indention)
      × ((write_indention delta st).indention_step ≡ st.indention_step)
unfolding write_indention
write_indention-indention delta st = elim (Bool-cases (st.indention ==ℤ pos 0)) [
  | inl e ↦ rw e (refl, refl)
  | inr e ↦ rw e (refl, refl)
]

add-sub : (n s : ℕ) → pos n +ℤ pos s -ℤ pos s ≡ pos n
add-sub n s = ground arith

-- If the indention before WriteObjectStart is n, then WriteObjectEnd gives back n on any
-- stream that has the indention WriteObjectStart left and the same indention step.
pub write_object_end-indention :
    (opened st : Stream) (n : ℕ)
    → opened.indention ≡ pos n
    → st.indention ≡ (write_object_start opened).indention
    → st.indention_step ≡ opened.indention_step
    → (write_object_end st).indention ≡ pos n
unfolding write_object_start write_object_end
write_object_end-indention opened st n e i k =
    let st1 = record opened { indention = opened.indention +ℤ pos opened.indention_step } in
    let start = write_indention-indention 0 (write_byte b'{' st1) in
    let closed = write_indention-indention st.indention_step st in
    rw (closed.0, closed.1, i, k, start.0, e) (add-sub n opened.indention_step)
