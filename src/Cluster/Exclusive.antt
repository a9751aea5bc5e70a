-- ===== src/Cluster/Exclusive.antt =====
-- No two leases for one GPU: what the reconcilers of internal/controller do to the stored leases.
use gpu_lease.Common.{◌≡◌, sym, subst, ap, ◌∙◌, String, some, []}
use gpu_lease.Names.{lease_name}
use gpu_lease.Objects.{GpuLease}
use gpu_lease.Exec.{State}
use gpu_lease.Client.{Api, Machinery}
use gpu_lease.LeaseController.Reconcile.{reconcile_found, reconcile_lease}
use gpu_lease.WarmPool.{Config}
use gpu_lease.WarmPool.Reconcile.{Request}
use gpu_lease.Cluster.{
  ReachedFrom, History, Store, IsDerived, Evolves, Lawful, KeepsNames, Runs, none_yet,
  lease_reconciled, pool_reconciled, others_changed,
}
use gpu_lease.LeaseController.Reconcile
use gpu_lease.WarmPool.Reconcile as WarmPoolReconcile
use gpu_lease.Cluster.Evolution.{some-inj, Evolves-refl, Evolves-trans, Evolves-IsDerived}
use gpu_lease.Cluster.Guarantee.{Keeps-pool_reconcile, lease_reconcile-Since}

-- With an API server as `Lawful` describes it, and whatever it and the pods answer, a Reconcile of
-- either reconciler changes the stored leases only as the other one expects it of others, where each
-- lease stored so far has the name of its node and its GPU: what has been stored then has the spec
-- and the name of a lease that had been stored before, or has such a name; and an object, by its UID,
-- that was stored at first and still is has a phase that is reached along the edges of the state
-- machine, or by a release, from the one that it had. So no write on an old state of a lease takes
-- its phase back.
pub reconcile-Evolves :
    {W : Type 0} (api : Api W) (k : Machinery) (cfg : Config) (leases : W → Store)
    (seen : W → History)
    → Lawful api leases seen
    → KeepsNames k
    → (s : State W) (name : String) (req : Request) → IsDerived (leases s.world)
    → Evolves (leases s.world) (leases (Reconcile.reconcile api k name s).1.world)
      × Evolves (leases s.world) (leases (WarmPoolReconcile.reconcile api k cfg req s).1.world)
reconcile-Evolves api k cfg leases seen law f s name req h =
    let start : Evolves (leases s.world) (leases s.world) = Evolves-refl (leases s.world) in
    (
      lease_reconcile-Since api k leases seen law f (leases s.world) h name s start,
      (Keeps-pool_reconcile api k leases seen law f (leases s.world) h cfg req).keeps s start,
    )

module _ {W : Type 0} (api : Api W) (k : Machinery) (cfg : Config) (leases : W → Store)
    (seen : W → History) (law : Lawful api leases seen) (f : KeepsNames k) where
  Runs-Evolves :
      (w v : W) → IsDerived (leases w) → Runs api k cfg leases w v → Evolves (leases w) (leases v)
  Runs-Evolves w v h none_yet = Evolves-refl (leases w)
  Runs-Evolves w v h (lease_reconciled name u v' r e) =
      subst (λ x. Evolves (leases w) (leases x)) e
        (lease_reconcile-Since api k leases seen law f (leases w) h name
          (record { world = u; trace = [] }) (Runs-Evolves w u h r))
  Runs-Evolves w v h (pool_reconciled req u v' r e) =
      subst (λ x. Evolves (leases w) (leases x)) e
        ((Keeps-pool_reconcile api k leases seen law f (leases w) h cfg req).keeps
          (record { world = u; trace = [] }) (Runs-Evolves w u h r))
  Runs-Evolves w v h (others_changed u v' r e) =
      Evolves-trans (leases w) (leases u) (leases v) (Runs-Evolves w u h r) e

  -- With an API server as `Lawful` describes it, where every lease stored so far has the name of its
  -- node and its GPU at first: after any Reconciles of both reconcilers, in any order and with other
  -- changes between them and between their calls that evolve the leases as theirs do, there is at most
  -- one lease for each GPU of each node. If its object, by its UID, was stored at first, its phase is
  -- reached along the edges of the state machine, or by a release, from the one that it had; else no
  -- object with its UID had been stored, and its phase is reached from none.
  pub one_lease_per_gpu :
      (w v : W)
      → IsDerived (leases w)
      → Runs api k cfg leases w v
      → (m n : String) (l l' : GpuLease) → (leases v).at m ≡ some l
      → (leases v).at n ≡ some l'
      → l.spec.node_name ≡ l'.spec.node_name
      → l.spec.gpu_id ≡ l'.spec.gpu_id
      → (m ≡ n) × (l ≡ l') × ReachedFrom (leases w) m l
  one_lease_per_gpu w v h r m n l l' e e' node gpu =
      let d : IsDerived (leases v) =
        Evolves-IsDerived (leases w) (leases v) h (Runs-Evolves w v h r) in
      let name : l.metadata.name ≡ l'.metadata.name =
        d.named l (law.keyed v m l e).1
        ∙ ap (λ x. lease_name x l.spec.gpu_id) node
        ∙ ap (lease_name l'.spec.node_name) gpu
        ∙ sym (d.named l' (law.keyed v n l' e').1) in
      let same : m ≡ n = sym (law.keyed v m l e).0 ∙ name ∙ (law.keyed v n l' e').0 in
      (
        same,
        some-inj l l' (sym e ∙ ap ((leases v).at) same ∙ e'),
        (Runs-Evolves w v h r).phase m l e,
      )
