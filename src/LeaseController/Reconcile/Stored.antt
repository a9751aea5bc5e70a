-- ===== src/LeaseController/Reconcile/Stored.antt =====
-- A lease that the API server keeps, and a write that puts it into a phase.
use gpu_lease.Common.{ℕ, ◌≡◌, refl, subst, ap, ◌∙◌, String}
use gpu_lease.Objects.{GpuLease, LeaseStatus, LeasePhase, Meta, Message}
use gpu_lease.Exec.{event, ok, Exec, State, pure, read, perform, note, ◌>>=◌}
use gpu_lease.Exec.Keeps.{Keeps, keeps_rules}
use gpu_lease.Exec.Succeeds.{Answers, succeeds_rules}
use gpu_lease.Exec.Brings.{Brings, Brings-then}
use gpu_lease.Client.{Api, Machinery}
use gpu_lease.Client.Neutral.{Neutral}
use gpu_lease.LeaseController.{Requeue, set_lease_condition, set_condition, clock, update_status}
use gpu_lease.LeaseController.Reconcile.Keeps.Calls.{Keeps-event}

-- The same lease, but for its status and its resource version.
pub record Same (l l' : GpuLease) : Type 0 where
  pub version : String
  pub spec : l'.spec ≡ l.spec
  pub metadata : l'.metadata ≡ record (l.metadata) { resource_version = version }

pub record IsAt (phase : LeasePhase) (l l' : GpuLease) : Type 0 where
  pub at_phase : l'.status.phase ≡ phase
  pub same : Same l l'

-- `stored` is the lease with the name. A get gives it, a status write that names it puts the status
-- there and may change the resource version, and no other call changes it.
pub record Stores {W : Type 0} (api : Api W) (name : String) (stored : W → GpuLease) : Type 1 where
  pub gets : (w : W) → (api.get_lease name w).0 ≡ ok (stored w)
  pub neutral : (Q : GpuLease → Type 0) → Neutral (λ s. Q (stored s.world)) api
  pub puts_status :
      (l : GpuLease) (w : W) → (stored (api.update_lease_status l w).1).status ≡ l.status
  pub keeps_rest : (l : GpuLease) (w : W) → Same (stored w) (stored (api.update_lease_status l w).1)

pub Same-refl : (l : GpuLease) → Same l l
Same-refl l = record { version = l.metadata.resource_version; spec = refl; metadata = refl }

pub Same-trans : (l m n : GpuLease) → Same l m → Same m n → Same l n
Same-trans l m n a b = record {
  version = b.version;
  spec = b.spec ∙ a.spec;
  metadata = b.metadata ∙ ap (λ (x : Meta). record x { resource_version = b.version }) a.metadata;
}

module _ {W : Type 0} (api : Api W) (k : Machinery) (name : String) (stored : W → GpuLease)
    (st : Stores api name stored) (l : GpuLease) (next : LeasePhase)
    (writes : (x : GpuLease) → Answers (api.update_lease_status x)) where
  -- before the write of the phase, and after it
  abbrev Before : State W → Type 0
  Before s = stored s.world ≡ l

  abbrev After : State W → Type 0
  After s = IsAt next l (stored s.world)

  before : Neutral Before api
  before = st.neutral (λ x. x ≡ l)

  after : Neutral After api
  after = st.neutral (IsAt next l)

  Brings-update :
      (x : GpuLease) → x.status.phase ≡ next → Brings Before After (update_status api k x)
  unfolding update_status perform
  Brings-update x e = record {
    brings = λ s i.
        let (a, ok_a) = (writes x).answer s.world in
        (
          a,
          ok_a,
          record {
            at_phase = ap (λ (q : LeaseStatus). q.phase) (st.puts_status x s.world) ∙ e;
            same =
                subst (λ (y : GpuLease). Same y (stored (api.update_lease_status x s.world).1)) i
                  (st.keeps_rest x s.world);
          },
        );
  }

  pub Brings-set_lease_condition :
      {B : Type 0}
      → (x : GpuLease) (type status reason : String) (message : Message) → (f : GpuLease → Exec W B)
      → ((now : ℕ) → Brings Before After (f (set_condition api k x type status reason message now)))
      → Brings Before After (set_lease_condition api k x type status reason message >>= f)
  unfolding set_lease_condition ◌>>=◌ clock pure read
  Brings-set_lease_condition x type status reason message f h = record {
    brings = λ s i.
        (h (api.now s.world).0).brings (record s { world = (api.now s.world).1 }) (before.now s i);
  }

  Keeps-rest : (reason : String) (r : Requeue) → Keeps After (note (event reason) >>= λ _. pure r)
  Keeps-rest reason r = search (keeps_rules, Keeps-event api k After after)

  -- a status write of the phase, and what the code does after it
  pub Brings-write :
      (x : GpuLease) (reason : String) (r : Requeue)
      → x.status.phase ≡ next
      → Brings Before After (update_status api k x >>= λ _. note (event reason) >>= λ _. pure r)
  Brings-write x reason r e =
      Brings-then _ _ (Brings-update x e) (λ _. search succeeds_rules) (λ _. Keeps-rest reason r)
