-- ===== src/Cluster.antt =====
-- The two reconcilers of internal/controller over one API server, which stores the leases by name.
pub mod Evolution
pub mod Guarantee
pub mod Exclusive
use gpu_lease.Common.{◌≡◌, ◌≢◌, String, Option, some, List, [], All, Map, ◌⊎◌}
use gpu_lease.Names.{lease_name}
use gpu_lease.Objects.{GpuLease, Meta, LeasePhase, unset, releasing}
use gpu_lease.Exec.{Result, ok, Call, State, perform}
use gpu_lease.Client.{Api, Machinery}
use gpu_lease.Client.Neutral.{Neutral}
use gpu_lease.LeaseController.Reconcile.Edge.{Edge}
use gpu_lease.WarmPool.{Config}
use gpu_lease.WarmPool.Reconcile.{Request}
use gpu_lease.LeaseController.Reconcile
use gpu_lease.WarmPool.Reconcile as WarmPoolReconcile

-- The leases that the API server stores, by name, and every state of a lease that it has stored so
-- far. A client's cache holds some of the latter.
pub record Store : Type 1 where
  pub at : Map GpuLease
  pub was : GpuLease → Type 0

-- The lease has the name of its node and its GPU.
abbrev pub HasDerivedName : GpuLease → Type 0
HasDerivedName l = l.metadata.name ≡ lease_name l.spec.node_name l.spec.gpu_id

-- Each lease that has been stored so far has the name of its node and its GPU.
pub record IsDerived (s : Store) : Type 0 where
  pub named : (l : GpuLease) → s.was l → HasDerivedName l

-- Where a lease comes from that is stored after `before`: it has the spec and the name of one that
-- had been stored, or the name of its node and its GPU.
pub data Origin (before : Store) (l : GpuLease) : Type 0 where
  kept :
      (l' : GpuLease)
      → before.was l'
      → l.spec ≡ l'.spec
      → l.metadata.name ≡ l'.metadata.name
      → Origin before l
  derived : HasDerivedName l → Origin before l

-- Along the edges of the state machine of a lease, and to Releasing from anywhere.
pub data Reaches (p : LeasePhase) : LeasePhase → Type 0 where
  stays : Reaches p p
  moves : {q r : LeasePhase} → Reaches p q → Edge q r → Reaches p r
  is_released : {q : LeasePhase} → Reaches p q → Reaches p releasing

-- The object `l`, stored at `name` after `before`, is told from others by its UID. If it was stored at
-- the name, its phase is reached from the one that it had; else no object with its UID had been
-- stored, and its phase is reached from none.
pub data ReachedFrom (before : Store) (name : String) (l : GpuLease) : Type 0 where
  from_stored :
      (x : GpuLease)
      → before.at name ≡ some x
      → x.metadata.uid ≡ l.metadata.uid
      → Reaches x.status.phase l.status.phase
      → ReachedFrom before name l
  from_new :
      ((x : GpuLease) → before.was x → x.metadata.uid ≢ l.metadata.uid)
      → Reaches unset l.status.phase
      → ReachedFrom before name l

-- Leases may be deleted, and change in all but their spec and name, and in their phase as the state
-- machine allows.
pub record Evolves (before after : Store) : Type 0 where
  pub remembers : (l : GpuLease) → before.was l → after.was l
  pub phase : (name : String) (l : GpuLease) → after.at name ≡ some l → ReachedFrom before name l
  pub origin : (l : GpuLease) → after.was l → Origin before l

-- As `Evolves`, or `l` was stored at its name: as a new object with no phase, or over one whose UID
-- and phase it keeps.
pub record Puts (l : GpuLease) (before after : Store) : Type 0 where
  pub put_remembers : (l' : GpuLease) → before.was l' → after.was l'
  pub put_phase :
      (name : String) (l' : GpuLease) → after.at name ≡ some l' → ReachedFrom before name l'
  pub source :
      (l' : GpuLease)
      → after.was l'
      → Origin before l' ⊎ ((l'.metadata.name ≡ l.metadata.name) × (l'.spec ≡ l.spec))

-- `seen n v p`: the lease `n` has once had the phase `p` at the resource version `v`.
abbrev pub History : Type 1
History = (name version : String) → LeasePhase → Type 0

-- The phase of `l` was stored at its name over the phase of the resource version of `l`, in the same
-- object; all else is as `Evolves`.
pub record PutsStatus (seen : History) (l : GpuLease) (before after : Store) : Type 0 where
  pub status_remembers : (l' : GpuLease) → before.was l' → after.was l'
  pub same_origin : (l' : GpuLease) → after.was l' → Origin before l'
  pub written :
      (name : String) (l' : GpuLease)
      → after.at name ≡ some l'
      → ReachedFrom before name l'
        ⊎ ((x : GpuLease) × (before.at name ≡ some x)
            × (x.metadata.uid ≡ l'.metadata.uid)
            × seen l.metadata.name l.metadata.resource_version x.status.phase
            × (l'.status.phase ≡ l.status.phase))

-- What the API server documents, where others change leases at any time, but as `Evolves` says:
-- a lease is stored at its name; Create stores the given object without a status and with a new UID,
-- and Update stores it but for its status and UID, at its name; a write of the status leaves the
-- spec and the UID and succeeds only for the resource version that is stored; a deletion adds
-- nothing; and a resource version of a lease stands for one state of it. What a get or a list
-- returns may come from a cache: it has been stored at some time.
pub record Lawful {W : Type 0} (api : Api W) (leases : W → Store) (seen : W → History)
    : Type 1 where
  pub keyed :
      (w : W) (name : String) (l : GpuLease)
      → (leases w).at name ≡ some l
      → (l.metadata.name ≡ name) × (leases w).was l
  pub once : (w : W) (n v : String) (p q : LeasePhase) → seen w n v p → seen w n v q → p ≡ q
  pub got_seen :
      (name : String) (w : W) (l : GpuLease)
      → (api.get_lease name w).0 ≡ ok l
      → seen (api.get_lease name w).1 l.metadata.name l.metadata.resource_version l.status.phase
  pub remembers : (n v : String) (p : LeasePhase) → Neutral (λ s. seen s.world n v p) api
  pub after_update :
      (l : GpuLease) (w : W) (n v : String) (p : LeasePhase)
      → seen w n v p
      → seen (api.update_lease l w).1 n v p
  pub after_status :
      (l : GpuLease) (w : W) (n v : String) (p : LeasePhase)
      → seen w n v p
      → seen (api.update_lease_status l w).1 n v p
  pub others : (before : Store) → Neutral (λ s. Evolves before (leases s.world)) api
  pub creates : (l : GpuLease) (w : W) → Puts l (leases w) (leases (api.create_lease l w).1)
  pub updates : (l : GpuLease) (w : W) → Puts l (leases w) (leases (api.update_lease l w).1)
  pub writes_status :
      (l : GpuLease) (w : W)
      → PutsStatus (seen w) l (leases w) (leases (api.update_lease_status l w).1)
  pub deletes : (l : GpuLease) (w : W) → Evolves (leases w) (leases (api.delete_lease l w).1)
  pub got :
      (name : String) (w : W) (l : GpuLease)
      → (api.get_lease name w).0 ≡ ok l
      → (leases (api.get_lease name w).1).was l
  pub listed :
      (w : W) (ls : List GpuLease)
      → (api.list_leases w).0 ≡ ok ls
      → All ((leases (api.list_leases w).1).was) ls
  pub status_returned :
      (l : GpuLease) (w : W) (l' : GpuLease)
      → (api.update_lease_status l w).0 ≡ ok l'
      → (leases (api.update_lease_status l w).1).was l'

-- controllerutil's AddFinalizer and RemoveFinalizer change only the finalizers.
pub record KeepsNames (k : Machinery) : Type 0 where
  pub adding : (m : Meta) (f : String) → (k.add_finalizer m f).name ≡ m.name
  pub removing : (m : Meta) (f : String) → (k.remove_finalizer m f).name ≡ m.name

-- What may become of a world by Reconciles of both reconcilers, whose single calls others may
-- precede and follow, and by others in between.
pub data Runs {W : Type 0} (api : Api W) (k : Machinery) (cfg : Config) (leases : W → Store)
    (start : W) : W → Type 0 where
  none_yet : Runs api k cfg leases start start
  lease_reconciled :
      (name : String) (w w' : W)
      → Runs api k cfg leases start w
      → (Reconcile.reconcile api k name (record { world = w; trace = [] })).1.world ≡ w'
      → Runs api k cfg leases start w'
  pool_reconciled :
      (req : Request) (w w' : W)
      → Runs api k cfg leases start w
      → (WarmPoolReconcile.reconcile api k cfg req (record { world = w; trace = [] })).1.world ≡ w'
      → Runs api k cfg leases start w'
  others_changed :
      (w w' : W)
      → Runs api k cfg leases start w
      → Evolves (leases w) (leases w')
      → Runs api k cfg leases start w'
