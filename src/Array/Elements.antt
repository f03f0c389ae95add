-- ===== src/Array/Elements.antt =====
-- ReadArrayCB on the text of an array, for a callback that reads the elements.
use jsoniter.Base.{
  ℕ, zero, suc, ◌+◌, ◌<◌, ◌≡◌, refl, ap, ◌∙◌, subst, Bool, true, ◌||◌, ◌==◌, some, none, [], ◌∷◌,
  ◌++◌, Bytes, length, length-append, arith,
}
use jsoniter.Base.Int.{ℤ, pos, ◌+ℤ◌, ◌-ℤ◌, lebℤ}
use jsoniter.Iter.Defs.{Iterator, next_token, increment_depth, decrement_depth, max_depth}
use jsoniter.Iter.View.{Sees}
use jsoniter.Iter.Token.{token, Took, Takes, next_token-Takes}
use jsoniter.Array.Defs.{close_array, array_loop}

pub token-length :
    (s : Bytes) (c : ℕ) (rest : Bytes) → token s ≡ some (c, rest) → length rest < length s
token-length [] c rest e = ground arith
token-length (b ∷ s) c rest e = ground (arith, token-length s c rest)

-- What a callback or ReadArrayCB leaves: success, the state `s`, the bytes `t`, and the depth `d`.
pub record Collects {S : Type 0} (s : S) (t : Bytes) (d : ℤ) (r : Bool × Iterator × S)
    : Type 0 where
  pub success : r.0 ≡ true
  pub state : r.2 ≡ s
  pub seen : Sees t r.1
  pub clear : r.1.error ≡ none
  pub depth : r.1.depth ≡ d

-- Commas and elements up to the closing bracket, where `R s x s'` says that the element `x` takes
-- the state `s` to `s'`; `t` is behind the bracket.
pub data Elements {S : Type 0} (R : S → Bytes → S → Type 0) : S → Bytes → S → Bytes → Type 0 where
  close : {s : S} {raw t : Bytes} → token raw ≡ some (b']', t) → Elements R s raw s t
  more :
      {s s1 s2 : S} {raw t : Bytes} (x rest : Bytes)
      → token raw ≡ some (b',', x ++ rest)
      → R s x s1
      → Elements R s1 rest s2 t
      → Elements R s raw s2 t

pub with_depth-Sees :
    {t : Bytes} {it : Iterator} (d : ℤ) → Sees t it → Sees t (record it { depth = d })
with_depth-Sees d s = record {
  valid = record { head_le = s.valid.head_le; tail_le = s.valid.tail_le; fits = s.valid.fits };
  remains = s.remains;
}

depth_up : (n : ℕ) → pos n +ℤ pos 1 ≡ pos (n + 1)
depth_up n = ground arith

depth_down : (n : ℕ) → pos (n + 1) -ℤ pos 1 ≡ pos n
depth_down n = ground arith

pub increment_depth_lem :
    (it : Iterator) (n : ℕ)
    → it.depth ≡ pos n
    → n < max_depth
    → increment_depth it ≡ (true, record it { depth = pos (n + 1) })
unfolding increment_depth
increment_depth_lem it n e h =
    let fits : lebℤ (pos (n + 1)) (pos max_depth) ≡ true = ground (arith, h) in
    rw (e, depth_up n, fits) refl

pub decrement_depth_lem :
    (it : Iterator) (n : ℕ)
    → it.depth ≡ pos (n + 1)
    → decrement_depth it ≡ (true, record it { depth = pos n })
unfolding decrement_depth
decrement_depth_lem it n e =
    let fits : lebℤ (pos 0) (pos n) ≡ true = ground arith in rw (e, depth_down n, fits) refl

pub close_array-Collects :
    {S : Type 0} (s : S) (t : Bytes) (n : ℕ) (it : Iterator)
    → Sees t it
    → it.error ≡ none
    → it.depth ≡ pos (n + 1)
    → Collects s t (pos n) (close_array it s)
unfolding close_array
close_array-Collects s t n it sees clear d = rw (decrement_depth_lem it n d) (record {
  success = refl;
  state = refl;
  seen = with_depth-Sees (pos n) sees;
  clear = clear;
  depth = refl;
})

pub token-Took :
    (c : ℕ) (rest raw : Bytes) (it : Iterator)
    → Sees raw it
    → token raw ≡ some (c, rest)
    → Took c rest it (next_token it)
token-Took c rest raw it sees e =
    subst (λ o. Takes o it (next_token it)) (ap token sees.remains ∙ e)
      (next_token-Takes it sees.valid)

pub token-byte :
    (raw : Bytes) (a b : ℕ) (s t : Bytes)
    → token raw ≡ some (a, s)
    → token raw ≡ some (b, t)
    → a ≡ b
token-byte raw a b s t p q = cc

pub token-rest :
    (raw : Bytes) (a b : ℕ) (s t : Bytes)
    → token raw ≡ some (a, s)
    → token raw ≡ some (b, t)
    → s ≡ t
token-rest raw a b s t p q = cc

-- A comma or a closing bracket comes next, which is what follows an element.
abbrev pub Follows : Bytes → Type 0
Follows t =
    (c : ℕ) × (rest : Bytes) × (token t ≡ some (c, rest))
    × ((c == b',' || c == b']' || c == b'}') ≡ true)

pub Elements-token :
    {S : Type 0} {R : S → Bytes → S → Type 0} {s s' : S} {raw t : Bytes}
    → Elements R s raw s' t
    → Follows raw
Elements-token (close {t = t} q) = (b']', t, q, refl)
Elements-token (more x rest q r d) = (b',', x ++ rest, q, refl)

module _ {S : Type 0} (callback : Iterator → S → Bool × Iterator × S) where
  array_loop-close :
      (fuel c : ℕ) (it : Iterator) (s : S)
      → c ≡ b']'
      → array_loop callback (suc fuel) c it s ≡ close_array it s
  unfolding array_loop
  array_loop-close fuel c it s e = rw e refl

  array_loop-comma :
      (fuel c : ℕ) (it : Iterator) (s : S)
      → c ≡ b','
      → (callback it s).0 ≡ true
      → array_loop callback (suc fuel) c it s
        ≡ array_loop callback fuel
            (next_token (callback it s).1).0
            (next_token (callback it s).1).1
            (callback it s).2
  unfolding array_loop
  array_loop-comma fuel c it s e ok = rw (e, ok) refl

module _ {S : Type 0} (callback : Iterator → S → Bool × Iterator × S) (R : S → Bytes → S → Type 0)
    (n : ℕ)
    (law : (s s' : S) (x t : Bytes) (it : Iterator)
      → R s x s'
      → Follows t
      → Sees (x ++ t) it
      → it.error ≡ none
      → it.depth ≡ pos (n + 1)
      → Collects s' t it.depth (callback it s)) where
  pub array_loop-Elements :
      (fuel c : ℕ) (s s' : S) (raw rest t : Bytes) (it : Iterator)
      → Elements R s raw s' t
      → token raw ≡ some (c, rest)
      → length raw < fuel
      → Sees rest it
      → it.error ≡ none
      → it.depth ≡ pos (n + 1)
      → Collects s' t (pos n) (array_loop callback fuel c it s)
  array_loop-Elements zero c s s' raw rest t it d e h sees clear depth = absurd (omega arith)
  array_loop-Elements (suc fuel) c s s' raw rest t it (close q) e h sees clear depth =
      rw (array_loop-close callback fuel c it s (token-byte raw c b']' rest t e q)) (
        close_array-Collects s t n it
          (subst (λ y. Sees y it) (token-rest raw c b']' rest t e q) sees) clear depth)
  array_loop-Elements (suc fuel) c s s' raw rest t it (more {s1 = s1} x next q r d) e h sees clear
        depth =
      let same = token-rest raw c b',' rest (x ++ next) e q in
      let (c', rest', e', one) = Elements-token d in
      let y =
        law s s1 x next it r (c', rest', e', one) (subst (λ z. Sees z it) same sees) clear depth in
      let took = token-Took c' rest' next (callback it s).1 y.seen e' in
      rw
        (
          array_loop-comma callback fuel c it s (token-byte raw c b',' rest (x ++ next) e q)
              y.success,
          took.byte,
          y.state,
        )
        (array_loop-Elements fuel c' s1 s' next rest' t (next_token (callback it s).1).1 d e'
          (omega (arith, token-length raw c rest e, ap length same, length-append x next)) took.seen
          (took.same_error ∙ y.clear) (took.same_depth ∙ y.depth ∙ depth))
