-- ===== src/Tests/StoreLaws.antt =====
-- The API server of the list keeps to what `Lawful` asks.
use gpu_lease.Common.{
  Bool, Bool-cases, ◌≡◌, refl, sym, ap, subst, ◌∙◌, inl, inr, String, true, false, Option, none,
  some, List, [], ◌∷◌, if◌then◌else◌, str_eq, All, eq_iff, arith,
}
use gpu_lease.Objects.{GpuLease}
use gpu_lease.Exec.{Result, ok}
use gpu_lease.Exec.Keeps.{ok-inj}
use gpu_lease.Client.Neutral.{Neutral}
use gpu_lease.Cluster.{
  ReachedFrom, from_stored, from_new, stays, PutsStatus, IsDerived, kept, Evolves, Puts, Lawful,
  KeepsNames,
}
use gpu_lease.Cluster.Evolution.{Evolves-refl}
use gpu_lease.Tests.Fixtures.{test_machinery}
use gpu_lease.Tests.StoredLeases.{
  phase_of, phase_of-text_of, current, seen_versions, latest, WasStored, stored, has_uid, at_names,
  latest-version, latest-name, latest-cons, latest-was, has_uid-was, at_names-was,
}
use gpu_lease.Tests.StoreServer.{found, add, change, change_status, store_server}

-- What a write of `l'` leaves, where `l'` has the name and the spec of `l`.
cons-Puts :
    (l l' : GpuLease) (w : List GpuLease)
    → l'.metadata.name ≡ l.metadata.name
    → l'.spec ≡ l.spec
    → ((n : String) → l'.metadata.name ≡ n → ReachedFrom (stored w) n (current l'))
    → Puts l (stored w) (stored (l' ∷ w))
unfolding current
cons-Puts l l' w name spec from = record {
  put_remembers = λ x i. inr i;
  put_phase = λ n x e. elim (latest-cons l' w n x e) [
    | inl i ↦ from_stored x i refl stays
    | inr (m, q) ↦ subst (ReachedFrom (stored w) n) (sym q) (from n m)
  ];
  source = λ x h. elim h [
    | inl q ↦ inr (ap (λ y. y.metadata.name) (sym q) ∙ name, ap (λ y. y.spec) (sym q) ∙ spec)
    | inr i ↦ inl (kept x i refl refl)
  ];
}

same_store : (w : List GpuLease) → Evolves (stored w) (stored w)
same_store w = Evolves-refl (stored w)

same-Puts : (l : GpuLease) (w : List GpuLease) → Puts l (stored w) (stored w)
same-Puts l w = record {
  put_remembers = λ x i. i;
  put_phase = (same_store w).phase;
  source = λ x i. inl (kept x i refl refl);
}

add-Puts : (l : GpuLease) (w : List GpuLease) → Puts l (stored w) (stored (add l w).1)
unfolding add current
add-Puts l w = elim (Bool-cases (has_uid l.metadata.name w)) [
  | inl e ↦ rw e (same-Puts l w)
  | inr e ↦ rw e (
      cons-Puts l _ w refl refl λ n m.
        from_new (λ x i q. absurd (grind (arith, has_uid-was w x i, e, ap (λ u. has_uid u w) q)))
          stays)
]

change-Puts :
    (l : GpuLease) (o : Option GpuLease) (w : List GpuLease)
    → latest w l.metadata.name ≡ o
    → Puts l (stored w) (stored (change l o w).1)
unfolding change current
change-Puts l none w e = same-Puts l w
change-Puts l (some x) w e =
    cons-Puts l _ w refl refl λ n m. from_stored x (ap (latest w) (sym m) ∙ e) refl stays

unchanged_status :
    (l : GpuLease) (w : List GpuLease) → PutsStatus (seen_versions w) l (stored w) (stored w)
unchanged_status l w = record {
  status_remembers = λ x i. i;
  same_origin = (same_store w).origin;
  written = λ n y e. inl (from_stored y e refl stays);
}

written_status :
    (l x : GpuLease) (n : String) (w : List GpuLease)
    → latest w n ≡ some x
    → l.metadata.resource_version ≡ x.metadata.resource_version
    → PutsStatus (seen_versions w) l (stored w) (stored (record x { status = l.status } ∷ w))
unfolding current
written_status l x n w h v = record {
  status_remembers = λ y i. inr i;
  same_origin = λ y h'. elim h' [
    | inl q ↦
        kept x (latest-was w n x h) (ap (λ z. z.spec) (sym q)) (ap (λ z. z.metadata.name) (sym q))
    | inr i ↦ kept y i refl refl
  ];
  written = λ m y e. elim (latest-cons (record x { status = l.status }) w m y e) [
    | inl i ↦ inl (from_stored y i refl stays)
    | inr (a, q) ↦ inr (
      x,
      ap (latest w) (sym a ∙ latest-name w n x h) ∙ h,
      ap (λ z. z.metadata.uid) (sym q),
      v ∙ latest-version w n x h,
      ap (λ z. z.status.phase) q,
    )
  ];
}

change_status-PutsStatus :
    (l : GpuLease) (n : String) (o : Option GpuLease) (w : List GpuLease)
    → latest w n ≡ o
    → PutsStatus (seen_versions w) l (stored w) (stored (change_status l o w).1)
unfolding change_status
change_status-PutsStatus l n none w h = unchanged_status l w
change_status-PutsStatus l n (some x) w h =
    elim (Bool-cases (str_eq l.metadata.resource_version x.metadata.resource_version)) [
      | inl e ↦ rw e (written_status l x n w h ((eq_iff _ x.metadata.resource_version).0 e))
      | inr e ↦ rw e (unchanged_status l w)
    ]

-- A lease that one of two answers returns was stored.
returns_stored :
    (b : Bool) (r r' : Result GpuLease × List GpuLease) (y : GpuLease)
    → (r.0 ≡ ok y → WasStored r.1 y)
    → (r'.0 ≡ ok y → WasStored r'.1 y)
    → (if b then r else r').0 ≡ ok y
    → WasStored (if b then r else r').1 y
returns_stored true r r' y h h' e = h e
returns_stored false r r' y h h' e = h' e

change_status_returned :
    (l : GpuLease) (o : Option GpuLease) (w : List GpuLease) (y : GpuLease)
    → (change_status l o w).0 ≡ ok y
    → WasStored (change_status l o w).1 y
unfolding change_status
change_status_returned l none w y e = absurd (grind arith)
change_status_returned l (some x) w y e =
    returns_stored (str_eq l.metadata.resource_version x.metadata.resource_version) _ _ y
      (λ q. inl (ok-inj (current (record x { status = l.status })) y q)) (λ q. absurd (grind arith))
      e

-- No call but the writes of leases changes the list.
no_change : (P : List GpuLease → Type 0) → Neutral (λ s. P s.world) store_server
no_change P = record {
  now = λ s h. h;
  get_lease = λ n s h. h;
  list_leases = λ s h. h;
  get_workload = λ ns n s h. h;
  list_flavors = λ s h. h;
  get_pod = λ ns n s h. h;
  list_pods = λ ns sel s h. h;
  get_node = λ n s h. h;
  list_nodes = λ s h. h;
  get_deployment = λ ns n s h. h;
  pod_state = λ ip s h. h;
  create_workload = λ wl ns n s e h. h;
  delete_workload = λ ns n s e h. h;
  patch = λ old pod s e h. h;
  activates = λ ip req s e h. h;
  releases = λ ip s e h. h;
  events = λ r s h. h;
  failures = λ d r s h. h;
  promotions = λ s h. h;
  demotions = λ s h. h;
  node_gauges = λ n m s h. h;
  pool_gauges = λ n d h w t s e. e;
}

found_lem : (o : Option GpuLease) (l : GpuLease) → found o ≡ ok l → o ≡ some l
unfolding found
found_lem none l e = absurd (grind arith)
found_lem (some x) l e = ap some (ok-inj x l e)

pub store_server-Lawful : Lawful store_server stored seen_versions
store_server-Lawful = record {
  keyed = λ w n l e. (latest-name w n l e, latest-was w n l e);
  others = λ before. no_change (λ w. Evolves before (stored w));
  remembers = λ n v p. no_change (λ w. seen_versions w n v p);
  once = λ w n v p q a b. sym (phase_of-text_of p) ∙ ap phase_of (sym a ∙ b) ∙ phase_of-text_of q;
  got_seen = λ n w l e. latest-version w n l (found_lem (latest w n) l e);
  after_update = λ l w n v p h. h;
  after_status = λ l w n v p h. h;
  creates = λ l w. add-Puts l w;
  updates = λ l w. change-Puts l (latest w l.metadata.name) w refl;
  writes_status =
      λ l w. change_status-PutsStatus l l.metadata.name (latest w l.metadata.name) w refl;
  deletes = λ l w. same_store w;
  got = λ n w l e. latest-was w n l (found_lem (latest w n) l e);
  listed = λ w ls e. subst (All (WasStored w)) (ok-inj (at_names w w) ls e) (at_names-was w w);
  status_returned = λ l w x e. change_status_returned l (latest w l.metadata.name) w x e;
}

pub test_machinery-KeepsNames : KeepsNames test_machinery
test_machinery-KeepsNames = record { adding = λ m f. refl; removing = λ m f. refl }

pub no_leases-IsDerived : IsDerived (stored [])
no_leases-IsDerived = record { named = λ l i. absurd i }
