-- ===== src/Memory/Kind/Reference.antt =====
-- Pointers, slices and maps: a reference reads as what its allocation holds, and its copy is a new
-- allocation.
use gpu_lease.Common.{Option, none, some, List, [], ◌∷◌, ◌+◌, ◌≤◌, ◌<◌, ◌≡◌, arith, ◌∙◌}
use gpu_lease.Memory.{Addr, Kubernetes, Cells, Memory}
use gpu_lease.Memory.Command.{
  return, and_then, ◌>>=◌, ◌>>◌, Slot, load_cell, load, store, reserve, copy_at, copy_elements, one,
}
use gpu_lease.Memory.Kind.{
  Agree, Grows, Grows-refl, Grows-trans, Kind, Copied, copied, Deep, Reads-Grows,
}

module _ {K : Kubernetes} {A V : Type 0} where
  -- The elements of an array, each as its value.
  pub data ReadsAll (k : Kind K A V) (lo hi : Addr) (f : Cells K) : List A → List V → Type 0 where
    elements_nil : ReadsAll k lo hi f [] []
    elements_cons :
        {a : A} {v : V} {rest : List A} {vs : List V}
        → k.Reads lo hi f a v
        → ReadsAll k lo hi f rest vs
        → ReadsAll k lo hi f (a ∷ rest) (v ∷ vs)

  abbrev pub elements : Kind K A V → Kind K (List A) (List V)
  elements k = record { Reads = ReadsAll k; copy = copy_elements k.copy }

  module _ {k : Kind K A V} (d : Deep k) where
    frame-all :
        {lo hi : Addr} {f g : Cells K} {xs : List A} {vs : List V}
        → Agree lo hi f g
        → ReadsAll k lo hi f xs vs
        → ReadsAll k lo hi g xs vs
    frame-all agree elements_nil = elements_nil
    frame-all agree (elements_cons r rs) = elements_cons (d.frame agree r) (frame-all agree rs)

    widen-all :
        {lo lo' hi hi' : Addr} {f : Cells K} {xs : List A} {vs : List V}
        → lo' ≤ lo
        → hi ≤ hi'
        → ReadsAll k lo hi f xs vs
        → ReadsAll k lo' hi' f xs vs
    widen-all l u elements_nil = elements_nil
    widen-all l u (elements_cons r rs) = elements_cons (d.widen l u r) (widen-all l u rs)

    Copied-cons :
        {m n : Memory K} {a : A} {v : V} {vs : List V} {r : Option (List A × Memory K)}
        → Grows m n
        → k.Reads m.next n.next n.cells a v
        → Copied (elements k) n vs r
        → Copied (elements k) m (v ∷ vs) (and_then r λ rest. return (a ∷ rest))
    Copied-cons g ra (copied h rs) =
        copied (Grows-trans g h)
          (elements_cons (Reads-Grows d h ra) (widen-all g.next_le (ground arith) rs))

    copies-cons :
        {m : Memory K} {v : V} (xs : List A) {vs : List V} {r : Option (A × Memory K)}
        → ((n : Memory K) → Grows m n → Copied (elements k) n vs (copy_elements k.copy xs n))
        → Copied k m v r
        → Copied
            (elements k)
            m
            (v ∷ vs)
            (and_then r λ b. copy_elements k.copy xs >>= λ bs. return (b ∷ bs))
    copies-cons xs rest (copied {n} g r) = Copied-cons g r (rest n g)

    copies-all :
        (m : Memory K) (xs : List A) {vs : List V}
        → ReadsAll k 0 m.next m.cells xs vs
        → Copied (elements k) m vs (copy_elements k.copy xs m)
    unfolding copy_elements
    copies-all m [] elements_nil = copied (Grows-refl m) elements_nil
    copies-all m (a ∷ rest) (elements_cons r rs) =
        copies-cons rest
          (λ n g.
            copies-all n rest
              (widen-all (ground arith) g.next_le (frame-all (λ p l u. g.same p l u) rs)))
          (d.copies m r)

    pub Deep-elements : Deep (elements k)
    Deep-elements = record {
      frame = frame-all;
      widen = widen-all;
      copies = λ m {a = xs} r. copies-all m xs r;
    }

pub load-held :
    {K : Kubernetes} {B : Type 0} (s : Slot K B) (m : Memory K) (p : Addr) {b : B}
    → m.cells p ≡ some (s.put b)
    → load s p m ≡ some (b, m)
unfolding load
load-held s m p {b} e = rw (e, load_cell, s.get-put b)

-- What a reference reads as: `empty` where it is nil, else `wrap` of what its allocation holds.
module _ {K : Kubernetes} {B W T : Type 0} where
  pub data ReadsAt (s : Slot K B) (k : Kind K B W) (empty : T) (wrap : W → T) (lo hi : Addr)
      (f : Cells K) : Option Addr → T → Type 0 where
    reads_nil : {t : T} → t ≡ empty → ReadsAt s k empty wrap lo hi f none t
    reads_at :
        {p : Addr} {b : B} {w : W} {t : T}
        → lo ≤ p
        → p < hi
        → f p ≡ some (s.put b)
        → k.Reads lo hi f b w
        → t ≡ wrap w
        → ReadsAt s k empty wrap lo hi f (some p) t

  abbrev pub reference : Slot K B → Kind K B W → T → (W → T) → Kind K (Option Addr) T
  reference s k empty wrap = record { Reads = ReadsAt s k empty wrap; copy = copy_at s k.copy }

  module _ (s : Slot K B) {k : Kind K B W} {empty : T} {wrap : W → T} (d : Deep k) where
    frame-at :
        {lo hi : Addr} {f g : Cells K} {a : Option Addr} {t : T}
        → Agree lo hi f g
        → ReadsAt s k empty wrap lo hi f a t
        → ReadsAt s k empty wrap lo hi g a t
    frame-at agree (reads_nil e) = reads_nil e
    frame-at agree (reads_at l u held r e) = reads_at l u (agree _ l u ∙ held) (d.frame agree r) e

    widen-at :
        {lo lo' hi hi' : Addr} {f : Cells K} {a : Option Addr} {t : T}
        → lo' ≤ lo
        → hi ≤ hi'
        → ReadsAt s k empty wrap lo hi f a t
        → ReadsAt s k empty wrap lo' hi' f a t
    widen-at l u (reads_nil e) = reads_nil e
    widen-at l u (reads_at l' u' held r e) =
        reads_at (omega (arith, l, l')) (omega (arith, u, u')) held (d.widen l u r) e

    -- the copy of what is held, once it is stored at the reserved address
    Copied-store :
        {m : Memory K} {w : W} {t : T} {r : Option (B × Memory K)}
        → t ≡ wrap w
        → Copied k (record m { next = m.next + 1 }) w r
        → Copied
            (reference s k empty wrap)
            m
            t
            (and_then r λ c. store s m.next c >> return (some m.next))
    unfolding store
    Copied-store {m} e (copied {n} g r) =
        copied
          record {
            next_le = omega (arith, g.next_le);
            same = λ p l u. ground (arith, g.same p l (omega (arith, u)));
          }
          (reads_at (ground arith) (omega (arith, g.next_le)) (ground arith)
            (d.widen (ground arith) (ground arith)
              (d.frame (λ p l u. ground (arith, l, g.next_le)) r))
            e)

    copies-at :
        (m : Memory K) {a : Option Addr} {t : T}
        → ReadsAt s k empty wrap 0 m.next m.cells a t
        → Copied (reference s k empty wrap) m t (copy_at s k.copy a m)
    unfolding copy_at reserve
    copies-at m (reads_nil e) = copied (Grows-refl m) (reads_nil e)
    copies-at m (reads_at {p} l u held r e) = rw (load-held s m p held) (
        Copied-store e
          (d.copies (record m { next = m.next + 1 }) (d.widen (ground arith) (ground arith) r)))

    pub Deep-reference : Deep (reference s k empty wrap)
    Deep-reference = record { frame = frame-at; widen = widen-at; copies = copies-at }

module _ {K : Kubernetes} {A V : Type 0} where
  abbrev pub pointer : Slot K (List A) → Kind K A V → Kind K (Option Addr) (Option V)
  pointer s k = reference (one s) k none some

  abbrev pub slice : Slot K (List A) → Kind K A V → Kind K (Option Addr) (List V)
  slice s k = reference s (elements k) [] (λ vs. vs)

  module _ (s : Slot K (List A)) {k : Kind K A V} (d : Deep k) where
    pub Deep-pointer : Deep (pointer s k)
    Deep-pointer = Deep-reference (one s) d

    pub Deep-slice : Deep (slice s k)
    Deep-slice = Deep-reference s (Deep-elements d)
