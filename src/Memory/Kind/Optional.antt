-- ===== src/Memory/Kind/Optional.antt =====
-- Fields that are copied where they are not nil.
use gpu_lease.Common.{Option, none, some, ◌≤◌}
use gpu_lease.Memory.{Addr, Kubernetes, Cells, Memory}
use gpu_lease.Memory.Command.{return, and_then, copy_option}
use gpu_lease.Memory.Kind.{Agree, Kind, Copied, copied, Deep, Grows-refl}

module _ {K : Kubernetes} where
  -- A field that is copied where it is not nil.
  module _ {A V : Type 0} where
    pub data ReadsOption (k : Kind K A V) (lo hi : Addr) (f : Cells K)
        : Option A → Option V → Type 0 where
      reads_none : ReadsOption k lo hi f none none
      reads_some : {a : A} {v : V} → k.Reads lo hi f a v → ReadsOption k lo hi f (some a) (some v)

    abbrev pub optional : Kind K A V → Kind K (Option A) (Option V)
    optional k = record { Reads = ReadsOption k; copy = copy_option k.copy }

    module _ {k : Kind K A V} where
      copies-some :
          {m : Memory K} {v : V} {r : Option (A × Memory K)}
          → Copied k m v r
          → Copied (optional k) m (some v) (and_then r λ b. return (some b))
      copies-some (copied g r) = copied g (reads_some r)

      frame-option :
          {lo hi : Addr} {f g : Cells K} {a : Option A} {v : Option V}
          → Deep k
          → Agree lo hi f g
          → ReadsOption k lo hi f a v
          → ReadsOption k lo hi g a v
      frame-option d agree reads_none = reads_none
      frame-option d agree (reads_some r) = reads_some (d.frame agree r)

      widen-option :
          {lo lo' hi hi' : Addr} {f : Cells K} {a : Option A} {v : Option V}
          → Deep k
          → lo' ≤ lo
          → hi ≤ hi'
          → ReadsOption k lo hi f a v
          → ReadsOption k lo' hi' f a v
      widen-option d l u reads_none = reads_none
      widen-option d l u (reads_some r) = reads_some (d.widen l u r)

      copies-option :
          (m : Memory K) {a : Option A} {v : Option V}
          → Deep k
          → ReadsOption k 0 m.next m.cells a v
          → Copied (optional k) m v (copy_option k.copy a m)
      unfolding copy_option
      copies-option m d reads_none = copied (Grows-refl m) reads_none
      copies-option m d (reads_some r) = copies-some (d.copies m r)

      pub Deep-optional : Deep k → Deep (optional k)
      Deep-optional d = record {
        frame = frame-option d;
        widen = widen-option d;
        copies = λ m r. copies-option m d r;
      }
