-- ===== src/Cluster/Evolution.antt =====
-- How stored leases evolve over the steps of the reconcilers of internal/controller and of others.
use gpu_lease.Common.{◌≡◌, refl, sym, subst, ap, ◌∙◌, String, some, List, [], ◌∷◌, All, inl, inr}
use gpu_lease.Names.{lease_name}
use gpu_lease.Objects.{LeasePhase, GpuLease}
use gpu_lease.Cluster.{
  Reaches, stays, moves, is_released, ReachedFrom, from_stored, from_new, History, PutsStatus,
  Store, HasDerivedName, IsDerived, Origin, kept, derived, Evolves, Puts,
}

pub same_name :
    (l l' : GpuLease)
    → l.spec ≡ l'.spec
    → l.metadata.name ≡ l'.metadata.name
    → HasDerivedName l'
    → HasDerivedName l
same_name l l' s n d = n ∙ d ∙ ap (λ x. lease_name x.node_name x.gpu_id) (sym s)

pub some-inj : (l l' : GpuLease) → some l ≡ some l' → l ≡ l'
some-inj l l' h = cc

pub Reaches-trans : {p q r : LeasePhase} → Reaches p q → Reaches q r → Reaches p r
Reaches-trans h stays = h
Reaches-trans h (moves g e) = moves (Reaches-trans h g) e
Reaches-trans h (is_released g) = is_released (Reaches-trans h g)

ReachedFrom-trans :
    (a b : Store) (name : String) (l : GpuLease)
    → Evolves a b
    → ReachedFrom b name l
    → ReachedFrom a name l
ReachedFrom-trans a b name l h (from_stored x e u g) = elim (h.phase name x e) [
  | from_stored y e' u' g' ↦ from_stored y e' (u' ∙ u) (Reaches-trans g' g)
  | from_new f g' ↦ from_new (λ y i q. f y i (q ∙ sym u)) (Reaches-trans g' g)
]
ReachedFrom-trans a b name l h (from_new f g) = from_new (λ x i. f x (h.remembers x i)) g

pub Evolves-refl : (s : Store) → Evolves s s
Evolves-refl s = record {
  remembers = λ l i. i;
  phase = λ name l e. from_stored l e refl stays;
  origin = λ l i. kept l i refl refl;
}

Origin-same :
    (before : Store) (l l' : GpuLease)
    → l.spec ≡ l'.spec
    → l.metadata.name ≡ l'.metadata.name
    → Origin before l'
    → Origin before l
Origin-same before l l' s n (kept o i s' n') = kept o i (s ∙ s') (n ∙ n')
Origin-same before l l' s n (derived d) = derived (same_name l l' s n d)

Origin-trans : (a b : Store) (l : GpuLease) → Evolves a b → Origin b l → Origin a l
Origin-trans a b l h (derived d) = derived d
Origin-trans a b l h (kept l' i s n) = Origin-same a l l' s n (h.origin l' i)

pub Evolves-trans : (a b c : Store) → Evolves a b → Evolves b c → Evolves a c
Evolves-trans a b c h g = record {
  remembers = λ l i. g.remembers l (h.remembers l i);
  phase = λ name l e. ReachedFrom-trans a b name l h (g.phase name l e);
  origin = λ l i. Origin-trans a b l h (g.origin l i);
}

-- A lease with a derived name that is put at its name is as a new one.
pub Evolves-Puts :
    (l : GpuLease) (a b c : Store) → HasDerivedName l → Evolves a b → Puts l b c → Evolves a c
Evolves-Puts l a b c d h p = record {
  remembers = λ l' i. p.put_remembers l' (h.remembers l' i);
  phase = λ name l' e. ReachedFrom-trans a b name l' h (p.put_phase name l' e);
  origin = λ l' i. elim (p.source l' i) [
    | inl o ↦ Origin-trans a b l' h o
    | inr q ↦ derived (same_name l' l q.1 q.0 d)
  ];
}

-- A write of a status evolves where it leads on from the phase of its resource version.
pub Evolves-PutsStatus :
    (seen : History) (l : GpuLease) (b c : Store)
    → ((p : LeasePhase)
        → seen l.metadata.name l.metadata.resource_version p
        → Reaches p l.status.phase)
    → PutsStatus seen l b c
    → Evolves b c
Evolves-PutsStatus seen l b c on p = record {
  remembers = p.status_remembers;
  phase = λ name l' e. elim (p.written name l' e) [
    | inl r ↦ r
    | inr (x, at_x, u, s, q) ↦
        from_stored x at_x u (subst (Reaches x.status.phase) (sym q) (on x.status.phase s))
  ];
  origin = p.same_origin;
}

Origin-HasDerivedName : (s : Store) (l : GpuLease) → IsDerived s → Origin s l → HasDerivedName l
Origin-HasDerivedName s l h (kept l' i q n) = same_name l l' q n (h.named l' i)
Origin-HasDerivedName s l h (derived d) = d

-- What evolves from leases with derived names has derived names.
pub Evolves-IsDerived : (s s' : Store) → IsDerived s → Evolves s s' → IsDerived s'
Evolves-IsDerived s s' h g = record { named = λ l i. Origin-HasDerivedName s l h (g.origin l i) }

pub All-named :
    (s : Store) (ls : List GpuLease) → IsDerived s → All (s.was) ls → All HasDerivedName ls
All-named s [] h a = tt
All-named s (l ∷ ls) h (e, a) = (h.named l e, All-named s ls h a)
