-- ===== src/Tests/MemoryExamples.antt =====
-- A memory with a lease that has annotations, a time and a condition, and the copy of the lease.
use gpu_lease.Common.{ℕ, String, ◌≡◌, refl, arith, Option, none, some, [], ◌∷◌, ◌≤◌, ◌<◌, pos, Map}
use gpu_lease.Objects.{text, bound, Meta, Condition, PodTemplate, LeaseSpec, GpuLease, new_meta}
use gpu_lease.Memory.{
  Addr, Kubernetes, Cell, Memory, TypeMeta, LeaseStruct, leases, conditions, entries, other,
}
use gpu_lease.Memory.Command.{update, Command, return, ◌>>=◌, ◌>>◌, Slot, load, store, reserve}
use gpu_lease.Memory.Kind.{Kind, Deep, copied, plain, Deep-plain, pair, Deep-pair, via, Deep-via}
use gpu_lease.Memory.Kind.Reference.{elements_nil, elements_cons, reads_at, load-held}
use gpu_lease.Memory.Kind.Optional.{reads_some, reads_none}
use gpu_lease.Memory.MapCopies.{look_up, distinct_cons, distinct_nil}
use gpu_lease.Memory.KueueCopies.Kinds.{map_kind, Deep-map}
use gpu_lease.Memory.Embedded.{Embedded, Documented, Root}
use gpu_lease.Memory.ObjectCopies.{lease, deep_copy_object}
use gpu_lease.Memory.Isolation.{
  lease_value, Isolated, ReadsObject, reads_lease, deep_copy_object-Isolated, all_nil, all_cons,
}

-- Object metadata with a name and annotations; times in cells of their own.
abbrev machine_types : Kubernetes
machine_types = record {
  object_meta = String × Option Addr;
  list_meta = String;
  list_meta_value = String;
  condition = Condition;
  pod_template = PodTemplate;
  other = ℕ;
}

abbrev get_time : Cell machine_types → Option ℕ
get_time (other t) = some t
get_time _ = none

abbrev time_slot : Slot machine_types ℕ
time_slot = record { put = other; get = get_time; get-put = λ _. refl }

abbrev copy_time : Addr → Command machine_types Addr
copy_time p = do t ← load time_slot p; q ← reserve; store time_slot q t; return q

abbrev time_kind : Kind machine_types Addr ℕ
time_kind = record {
  Reads = λ lo hi f p t. (lo ≤ p) × (p < hi) × (f p ≡ some (other t));
  copy = copy_time;
}

Deep-time : Deep time_kind
unfolding store reserve
Deep-time = record {
  frame = λ {a = p} agree r. (r.0, r.1, ground (arith, agree p (r.0) (r.1), r.2));
  widen = λ l u r. (omega (arith, l, r.0), omega (arith, u, r.1), r.2);
  copies = λ m {a = p} {v = t} r. rw (load-held time_slot m p (r.2)) (
      copied record { next_le = ground arith; same = λ q l u. ground arith }
        (ground arith, ground arith, ground arith));
}

abbrev meta_values : Meta × Option String → String × Map String
meta_values v = (v.0.name, v.0.annotations)

abbrev meta_parts : String × Option Addr → String × Option Addr
meta_parts x = x

abbrev meta_kind : Kind machine_types (String × Option Addr) (Meta × Option String)
meta_kind = via (pair plain map_kind) meta_parts meta_values (pair plain map_kind).copy

Deep-meta : Deep meta_kind
unfolding pair
Deep-meta =
    Deep-via (pair plain map_kind) meta_parts meta_values (λ _ a. a) (λ _ a. refl)
      (λ s m. ground arith) (Deep-pair Deep-plain Deep-map)

abbrev machine : Embedded machine_types
machine = record {
  object_meta = meta_kind;
  list_meta = plain;
  time = time_kind;
  condition = plain;
  pod_template = plain;
}

machine-Documented : Documented machine
machine-Documented = record {
  object_meta = Deep-meta;
  list_meta = Deep-plain;
  time = Deep-time;
  condition = Deep-plain;
  pod_template = Deep-plain;
}

abbrev ready : Condition
ready = record {
  type = "Ready";
  status = "True";
  observed_generation = 1;
  last_transition_time = 7;
  reason = "Bound";
  message = text "";
}

abbrev a_spec : LeaseSpec
a_spec = record {
  node_name = "node-a";
  gpu_id = pos 0;
  gpu_model = "";
  claim_ref = record { namespace = "ns"; name = "pod"; uid = "1" };
  deployment_ref = record { namespace = "ns"; name = "app"; uid = "2" };
  local_queue_name = "queue";
}

abbrev lease_type : TypeMeta
lease_type = record { kind = "GPULease"; api_version = "v1alpha1" }

abbrev lease_struct : LeaseStruct machine_types
lease_struct = record {
  type_meta = lease_type;
  object_meta = ("lease", some 0);
  spec = a_spec;
  status = record {
    phase = bound;
    workload_name = "w";
    message = text "";
    admitted_at = some 1;
    bound_at = none;
    conditions = some 2;
  };
}

abbrev the_memory : Memory machine_types
the_memory = record {
  next = 4;
  cells =
      update
        (update (update (update (λ _. none) 0 (entries (("key", "value") ∷ []))) 1 (other 5)) 2
          (conditions (ready ∷ [])))
        3 (leases (lease_struct ∷ []));
}

abbrev the_value : Root GpuLease
the_value = record {
  type_meta = lease_type;
  owner = none;
  object = record {
    metadata = record (new_meta "ns" "lease" []) { annotations = look_up (("key", "value") ∷ []) };
    spec = a_spec;
    status = record {
      phase = bound;
      workload_name = "w";
      message = text "";
      admitted_at = some 5;
      bound_at = none;
      conditions = ready ∷ [];
    };
  };
}

the_lease_reads : ReadsObject machine 0 4 the_memory.cells (lease (some 3)) (lease_value the_value)
unfolding pair look_up
the_lease_reads = reads_lease (
    reads_at (ground arith) (ground arith) refl
      (
        refl,
        (
          (
            refl,
            reads_at (ground arith) (ground arith) refl (distinct_cons refl distinct_nil, refl)
                refl,
          ),
          (
            refl,
            (
              reads_some (ground arith, ground arith, refl),
              (
                reads_none,
                reads_at (ground arith) (ground arith) refl (elements_cons refl elements_nil) refl,
              ),
            ),
          ),
        ),
      )
      refl)

-- A write to the array of conditions of the copy, and one to that of the lease.
deep_copy_object-Isolated_example :
    Isolated machine the_memory
      (lease (some 3))
      (lease_value the_value)
      ((7, conditions []) ∷ [])
      ((2, conditions []) ∷ [])
      (deep_copy_object machine (lease (some 3)) the_memory)
deep_copy_object-Isolated_example =
    deep_copy_object-Isolated machine the_memory (lease (some 3)) (lease_value the_value)
      ((7, conditions []) ∷ []) ((2, conditions []) ∷ []) machine-Documented the_lease_reads
      (all_cons (ground arith) all_nil) (all_cons (ground arith) all_nil)
