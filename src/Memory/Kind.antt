-- ===== src/Memory/Kind.antt =====
-- What a struct in memory reads as, and what a deep copy has to give.
pub mod Optional
pub mod Reference
use gpu_lease.Common.{
  ◌∙◌, subst, sym, ℕ, Option, none, some, List, [], ◌∷◌, ◌+◌, ◌≤◌, ◌<◌, ◌≡◌, refl, arith, ◌==◌,
  if◌then◌else◌,
}
use gpu_lease.Memory.{Addr, Kubernetes, Cell, Cells, Memory}
use gpu_lease.Memory.Command.{
  Command, return, and_then, ◌>>=◌, ◌>>◌, Slot, update, load, store, reserve, copy_at,
  copy_elements,
}

module _ {K : Kubernetes} where
  -- The two memories agree from `lo` to below `hi`.
  abbrev pub Agree : (lo hi : Addr) → Cells K → Cells K → Type 0
  Agree lo hi f g = (p : Addr) → lo ≤ p → p < hi → g p ≡ f p

  -- Nothing that was there has changed.
  pub record Grows (m n : Memory K) : Type 0 where
    pub next_le : m.next ≤ n.next
    pub same : Agree 0 m.next m.cells n.cells

-- How structs of type A with references are read: `Reads lo hi f a v` says that `a` reads as the value
-- `v` through allocations from `lo` to below `hi` of the memory `f`. `copy` is DeepCopyInto: it gives what the
-- target holds after it.
pub record Kind (K : Kubernetes) (A V : Type 0) : Type 1 where
  pub Reads : (lo hi : Addr) → Cells K → A → V → Type 0
  pub copy : A → Command K A

module _ {K : Kubernetes} {A V : Type 0} (k : Kind K A V) where
  -- A copy from the memory `m` was made: all that was in the memory is as it was, and what the copy
  -- refers to is new and reads as the value.
  pub data Copied (m : Memory K) (v : V) : Option (A × Memory K) → Type 0 where
    copied :
        {a : A} {n : Memory K}
        → Grows m n
        → k.Reads m.next n.next n.cells a v
        → Copied m v (some (a, n))

  -- Reading depends only on the allocations between the bounds, and a copy of what reads as a value
  -- succeeds.
  pub record Deep : Type 0 where
    pub frame :
        {lo hi : Addr} {f g : Cells K} {a : A} {v : V}
        → Agree lo hi f g
        → k.Reads lo hi f a v
        → k.Reads lo hi g a v
    pub widen :
        {lo lo' hi hi' : Addr} {f : Cells K} {a : A} {v : V}
        → lo' ≤ lo
        → hi ≤ hi'
        → k.Reads lo hi f a v
        → k.Reads lo' hi' f a v
    pub copies :
        (m : Memory K) {a : A} {v : V} → k.Reads 0 m.next m.cells a v → Copied m v (k.copy a m)

module _ {K : Kubernetes} where
  pub Grows-refl : (m : Memory K) → Grows m m
  Grows-refl m = record { next_le = ground arith; same = λ p _ _. refl }

  pub Grows-trans : {m n o : Memory K} → Grows m n → Grows n o → Grows m o
  Grows-trans g h = record {
    next_le = omega (arith, g.next_le, h.next_le);
    same = λ p l u. h.same p l (omega (arith, u, g.next_le)) ∙ g.same p l u;
  }

  -- What is read before another copy is read after it.
  pub Reads-Grows :
      {A V : Type 0} {k : Kind K A V} {m n : Memory K} {lo : Addr} {a : A} {v : V}
      → Deep k
      → Grows m n
      → k.Reads lo m.next m.cells a v
      → k.Reads lo n.next n.cells a v
  Reads-Grows d g r =
      d.widen (ground arith) g.next_le (d.frame (λ p l u. g.same p (ground arith) u) r)

  -- A struct without references.
  abbrev pub plain : {A : Type 0} → Kind K A A
  plain = record { Reads = λ lo hi f a v. a ≡ v; copy = return }

  pub Deep-plain : {A : Type 0} → Deep (plain {A = A})
  Deep-plain = record {
    frame = λ _ r. r;
    widen = λ _ _ r. r;
    copies = λ m r. copied (Grows-refl m) r;
  }

  -- Two parts, copied one after the other.
  module _ {A B V W : Type 0} where
    unfoldable pub pair : Kind K A V → Kind K B W → Kind K (A × B) (V × W)
    pair k l = record {
      Reads = λ lo hi f p v. k.Reads lo hi f (p.0) (v.0) × l.Reads lo hi f (p.1) (v.1);
      copy = λ p. do
        a ← k.copy (p.0)
        b ← l.copy (p.1)
        return (a, b);
    }

    module _ {k : Kind K A V} {l : Kind K B W} where
      Copied-pair :
          {m n : Memory K} {a : A} {v : V} {w : W} {r : Option (B × Memory K)}
          → Deep k
          → Deep l
          → Grows m n
          → k.Reads m.next n.next n.cells a v
          → Copied l n w r
          → Copied (pair k l) m (v, w) (and_then r λ c. return (a, c))
      unfolding pair
      Copied-pair d e g ra (copied h rb) =
          copied (Grows-trans g h) (Reads-Grows d h ra, e.widen g.next_le (ground arith) rb)

      copies-pair :
          {m : Memory K} {b : B} {v : V} {w : W} {r : Option (A × Memory K)}
          → Deep k
          → Deep l
          → l.Reads 0 m.next m.cells b w
          → Copied k m v r
          → Copied (pair k l) m (v, w) (and_then r λ a. l.copy b >>= λ c. return (a, c))
      unfolding pair
      copies-pair d e rb (copied g ra) = Copied-pair d e g ra (e.copies _ (Reads-Grows e g rb))

      pub Deep-pair : Deep k → Deep l → Deep (pair k l)
      unfolding pair
      Deep-pair d e = record {
        frame = λ agree r. (d.frame agree (r.0), e.frame agree (r.1));
        widen = λ l u r. (d.widen l u (r.0), e.widen l u (r.1));
        copies = λ m r. copies-pair d e (r.1) (d.copies m (r.0));
      }

  -- A struct whose references are in one part of it: `to` takes that part, `build` puts its copy in.
  module _ {A V S T : Type 0} (k : Kind K A V) (to : S → A) (of : T → V) where
    abbrev pub via : (S → Command K S) → Kind K S T
    via copy = record { Reads = λ lo hi f s t. k.Reads lo hi f (to s) (of t); copy = copy }

    copies-via :
        {copy : S → Command K S} (build : S → A → S) (m : Memory K) (s : S) {t : T}
        {r : Option (A × Memory K)}
        → ((s : S) (a : A) → to (build s a) ≡ a)
        → Copied k m (of t) r
        → Copied (via copy) m t (and_then r λ a. return (build s a))
    copies-via build m s {t} to-build (copied {a} {n} g r) =
        copied g (subst (λ (x : A). k.Reads m.next n.next n.cells x (of t)) (sym (to-build s a)) r)

    pub Deep-via :
        {copy : S → Command K S} (build : S → A → S)
        → ((s : S) (a : A) → to (build s a) ≡ a)
        → ((s : S) (m : Memory K) → copy s m ≡ (k.copy (to s) >>= λ a. return (build s a)) m)
        → Deep k
        → Deep (via copy)
    Deep-via {copy} build to-build copy-build d = record {
      frame = d.frame;
      widen = d.widen;
      copies = λ m {a = s} {v = t} r.
          subst (Copied (via copy) m t) (sym (copy-build s m))
            (copies-via build m s to-build (d.copies m r));
    }
