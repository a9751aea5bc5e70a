-- ===== src/Cluster/Guarantee.antt =====
-- What a Reconcile of internal/controller does to the stored leases, by its single calls.
use gpu_lease.Common.{◌≡◌, refl, sym, subst, none, ◌∙◌, String, ℕ, Option, some, All}
use gpu_lease.Names.{finalizer}
use gpu_lease.Objects.{Meta, LeasePhase, GpuLease, releasing}
use gpu_lease.Exec.{
  Result, ok, err, not_found, already_exists, exhausted, node_not_found, other, Call, State,
  perform, read, try, pure, raise, ◌>>=◌,
}
use gpu_lease.Exec.Keeps.{Keeps, Yields, OnCall, Yields-if, Yields-pure}
use gpu_lease.Client.{Api, Machinery}
use gpu_lease.LeaseController.Release.{is_releasing, to_releasing, without_finalizer}
use gpu_lease.LeaseController.{update_status, with_phase}
use gpu_lease.LeaseController.Reconcile.{reconcile_found, reconcile_lease}
use gpu_lease.Client.Neutral.{Neutral-both}
use gpu_lease.LeaseController.Reconcile.Edge.{Moves}
use gpu_lease.LeaseController.Reconcile.Keeps.{Keeps-live_lease, Keeps-deleted_lease}
use gpu_lease.WarmPool.{Config, new_lease}
use gpu_lease.WarmPool.Reconcile.{Request}
use gpu_lease.WarmPool.Decision.Pool.{Keeps-reconcile}
use gpu_lease.Cluster.{
  Reaches, stays, moves, is_released, History, Store, HasDerivedName, IsDerived, Evolves, Lawful,
  KeepsNames,
}
use gpu_lease.LeaseController.Reconcile
use gpu_lease.WarmPool.Reconcile as WarmPoolReconcile
use gpu_lease.Cluster.Evolution.{
  Evolves-trans, Evolves-Puts, Evolves-PutsStatus, Evolves-IsDerived, All-named,
}

releases : (l : GpuLease) (p : LeasePhase) → l.status.phase ≡ releasing → Reaches p l.status.phase
releases l p e = subst (Reaches p) (sym e) (is_released stays)

module _ {W : Type 0} (api : Api W) (k : Machinery) (leases : W → Store) (seen : W → History)
    (law : Lawful api leases seen) (finalizers : KeepsNames k) (before : Store)
    (start : IsDerived before) where
  abbrev pub Since : State W → Type 0
  Since s = Evolves before (leases s.world)

  now-IsDerived : (w : W) → Evolves before (leases w) → IsDerived (leases w)
  now-IsDerived w h = Evolves-IsDerived before (leases w) start h

  OnCall-create :
      (l : GpuLease) → HasDerivedName l → OnCall Since (Call.create_lease l) (api.create_lease l)
  OnCall-create l d s x h = Evolves-Puts l before (leases s.world) _ d h (law.creates l s.world)

  OnCall-update :
      (l : GpuLease) → HasDerivedName l → OnCall Since (Call.update_lease l) (api.update_lease l)
  OnCall-update l d s x h = Evolves-Puts l before (leases s.world) _ d h (law.updates l s.world)

  OnCall-without_finalizer :
      (l : GpuLease)
      → HasDerivedName l
      → (let l' = without_finalizer api k l in
          OnCall Since (Call.update_lease l') (api.update_lease l'))
  unfolding without_finalizer
  OnCall-without_finalizer l d =
      OnCall-update (without_finalizer api k l) (finalizers.removing l.metadata finalizer ∙ d)

  OnCall-status :
      (l : GpuLease)
      → ((w : W) (p : LeasePhase)
          → seen w l.metadata.name l.metadata.resource_version p
          → Reaches p l.status.phase)
      → OnCall Since (Call.update_status l) (api.update_lease_status l)
  OnCall-status l on s x h = Evolves-trans before (leases s.world) _ h (
      Evolves-PutsStatus (seen s.world) l (leases s.world) _ (on s.world)
        (law.writes_status l s.world))

  OnCall-delete : (l : GpuLease) → OnCall Since (Call.delete_lease l) (api.delete_lease l)
  OnCall-delete l s x h = Evolves-trans before (leases s.world) _ h (law.deletes l s.world)

  Yields-listed : Yields Since (All HasDerivedName) (read api.list_leases)
  unfolding read
  Yields-listed = record {
    yields = λ s ls h e.
        All-named _ ls (now-IsDerived _ ((law.others before).list_leases s h))
          (law.listed s.world ls e);
  }

  Yields-update_status :
      (l : GpuLease)
      → l.status.phase ≡ releasing
      → Yields Since HasDerivedName (update_status api k l)
  unfolding update_status perform
  Yields-update_status l r = record {
    yields = λ s l' h e.
        (now-IsDerived _ (OnCall-status l (λ w p q. releases l p r) s none h)).named l'
          (law.status_returned l s.world l' e);
  }

  Yields-to_releasing :
      (l : GpuLease) → HasDerivedName l → Yields Since HasDerivedName (to_releasing api k l)
  unfolding to_releasing pure with_phase
  Yields-to_releasing l d =
      Yields-if (is_releasing l.status.phase) (pure l) _ (λ e. Yields-pure l d)
        (λ e. Yields-update_status (with_phase l releasing l.status.message) refl)

  Keeps-deleted :
      (l : GpuLease) (since : ℕ)
      → l.metadata.deletion_timestamp ≡ some since
      → HasDerivedName l
      → Keeps Since (reconcile_lease api k l)
  Keeps-deleted l since e d =
      Keeps-deleted_lease api k Since (law.others before) l since e
        (λ l' r. OnCall-status l' (λ w p q. releases l' p r.2)) (Yields-to_releasing l d)
        OnCall-without_finalizer

  -- A lease that is not being deleted, where the phase of its resource version is known.
  module _ (lease : GpuLease) where
    abbrev Known : State W → Type 0
    Known s =
        Since s
        × seen s.world lease.metadata.name lease.metadata.resource_version lease.status.phase

    on_edge :
        (w : W) (l : GpuLease) (p : LeasePhase)
        → Moves lease l
        → seen w lease.metadata.name lease.metadata.resource_version lease.status.phase
        → seen w l.metadata.name l.metadata.resource_version p
        → Reaches p l.status.phase
    on_edge w l p (m, spec, edge) g q =
        subst (λ x. Reaches x l.status.phase)
          (law.once w lease.metadata.name lease.metadata.resource_version lease.status.phase p g
            (subst (λ (x : Meta). seen w x.name x.resource_version p) m q))
          (moves stays edge)

    Keeps-live :
        lease.metadata.deletion_timestamp ≡ none
        → HasDerivedName lease
        → Keeps Known (reconcile_lease api k lease)
    Keeps-live e d =
        Keeps-live_lease api k Known
          (Neutral-both Since _ api (law.others before) (law.remembers _ _ _)) lease e
          (λ l m s x h. (
            Evolves-trans before (leases s.world) _ h.0 (
                Evolves-PutsStatus (seen s.world) l (leases s.world) _
                  (λ p q. on_edge s.world l p m h.1 q) (law.writes_status l s.world)),
            law.after_status l s.world _ _ _ h.1,
          ))
          (λ s x h. (
            OnCall-update _ (finalizers.adding lease.metadata finalizer ∙ d) s x h.0,
            law.after_update _ s.world _ _ _ h.1,
          ))

  reconcile_lease-Since :
      (o : Option ℕ) (l : GpuLease) (s : State W)
      → l.metadata.deletion_timestamp ≡ o
      → HasDerivedName l
      → seen s.world l.metadata.name l.metadata.resource_version l.status.phase
      → Since s
      → Since (reconcile_lease api k l s).1
  reconcile_lease-Since none l s e d g h = ((Keeps-live l e d).keeps s (h, g)).0
  reconcile_lease-Since (some since) l s e d g h = (Keeps-deleted l since e d).keeps s h

  reconcile_found-Since :
      (r : Result GpuLease) (s : State W)
      → ((l : GpuLease) → r ≡ ok l → (leases s.world).was l)
      → ((l : GpuLease)
          → r ≡ ok l
          → seen s.world l.metadata.name l.metadata.resource_version l.status.phase)
      → Since s
      → Since (reconcile_found api k r s).1
  unfolding reconcile_found pure raise
  reconcile_found-Since (ok l) s f g h =
      reconcile_lease-Since l.metadata.deletion_timestamp l s refl
        ((now-IsDerived s.world h).named l (f l refl)) (g l refl) h
  reconcile_found-Since (err already_exists) s f g h = h
  reconcile_found-Since (err not_found) s f g h = h
  reconcile_found-Since (err exhausted) s f g h = h
  reconcile_found-Since (err node_not_found) s f g h = h
  reconcile_found-Since (err other) s f g h = h

  pub lease_reconcile-Since :
      (name : String) (s : State W) → Since s → Since (Reconcile.reconcile api k name s).1
  unfolding Reconcile.reconcile ◌>>=◌ try read
  lease_reconcile-Since name s h =
      reconcile_found-Since (api.get_lease name s.world).0 _ (λ l e. law.got name s.world l e)
        (λ l e. law.got_seen name s.world l e) ((law.others before).get_lease name s h)

  pub Keeps-pool_reconcile :
      (cfg : Config) (req : Request) → Keeps Since (WarmPoolReconcile.reconcile api k cfg req)
  unfolding new_lease
  Keeps-pool_reconcile cfg req =
      Keeps-reconcile api k cfg Since (law.others before)
        (λ dep settings pod node model id. OnCall-create _ refl) OnCall-delete HasDerivedName
        Yields-listed OnCall-without_finalizer req
