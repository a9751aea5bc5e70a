-- ===== src/LeaseController/Reconcile/Gauges.antt =====
-- The gauge of active leases over Reconciles of gpulease_controller.go.
use gpu_lease.Common.{
  ℕ, ◌+◌, ◌≡◌, refl, ap, ◌∙◌, String, Bool, Option, none, some, List, [], ◌∷◌, str_eq, ◌==◌, filter,
  length, Map, empty, put, get_or, if◌then◌else◌, eq_iff, arith,
}
use gpu_lease.Objects.{GpuLease}
use gpu_lease.Exec.{
  Result, ok, err, Call, set_node_gauge, Trace, State, continue, note, read, ◌>>=◌, ◌>>◌,
}
use gpu_lease.Exec.Keeps.{ok-inj, Keeps, Keeps-note, Keeps-read, keeps_rules}
use gpu_lease.Client.{Api, Machinery}
use gpu_lease.Inventory.{node_free_counts}
use gpu_lease.LeaseController.Reconcile.{
  count_leases, refresh_metrics, leases_active, node_gpus_free,
}

-- A loop of `GaugeVec.WithLabelValues(node).Set(n)` over a map leaves the nodes that are not in it.
unfoldable pub set_by : String → Call → Option ℕ → String → Option ℕ
set_by name (set_node_gauge gauge values) old node =
    if str_eq gauge name then elim (values node) [ none ↦ old | some n ↦ some n ] else old
set_by name _ old node = old

-- What a gauge shows of each node after the calls of a trace.
unfoldable pub gauge : String → Trace → Map ℕ
unfolding set_by
gauge name [] node = none
gauge name (e ∷ t) node = set_by name e.call (gauge name t node) node

unfoldable pub is_on : String → GpuLease → Bool
is_on node l = str_eq l.spec.node_name node

-- The number of the leases of a node.
unfoldable pub leases_on : String → List GpuLease → ℕ
unfolding is_on
leases_on node ls = length (filter (is_on node) ls)

count_leases_lem :
    (counts : Map ℕ) (ls : List GpuLease) (node : String)
    → count_leases counts ls node ≡ (
        if leases_on node ls == 0
        then counts node
        else some (get_or (counts node) 0 + leases_on node ls))
unfolding count_leases leases_on is_on filter
count_leases_lem counts [] node = refl
count_leases_lem counts (l ∷ ls) node = ground (
  arith,
  count_leases_lem (put counts l.spec.node_name (get_or (counts l.spec.node_name) 0 + 1)) ls node,
  eq_iff l.spec.node_name node,
)

-- Setting a gauge to the counts of the nodes.
set_by-count_leases :
    (old : Option ℕ) (ls : List GpuLease) (node : String)
    → set_by leases_active (set_node_gauge leases_active (count_leases empty ls)) old node
      ≡ (if leases_on node ls == 0 then old else some (leases_on node ls))
unfolding set_by
set_by-count_leases old ls node = ground (arith, count_leases_lem empty ls node)

module _ {W : Type 0} (api : Api W) (k : Machinery) (node : String) where
  -- The rest of refreshMetrics does not touch the gauge.
  Keeps-leases_active :
      (v : Option ℕ)
      → Keeps
          (λ s. gauge leases_active s.trace node ≡ v)
          (node_free_counts api >>= λ free. note (set_node_gauge node_gpus_free free))
  unfolding node_free_counts gauge set_by
  Keeps-leases_active v = search (keeps_rules, Keeps-read, Keeps-note) depth 10

  after_list :
      (r : Result (List GpuLease)) (ls : List GpuLease) (s : State W)
      → r ≡ ok ls
      → (let s' =
            (continue r
              (λ leases.
                note (set_node_gauge leases_active (count_leases empty leases))
                >> (node_free_counts api >>= λ free. note (set_node_gauge node_gpus_free free)))
              s).1 in
          gauge leases_active s'.trace node ≡ (
            if leases_on node ls == 0
            then gauge leases_active s.trace node
            else some (leases_on node ls)))
  unfolding ◌>>=◌ note gauge
  after_list (ok ls') ls s e =
      (Keeps-leases_active _).keeps
        (record s {
          trace =
              record { call = set_node_gauge leases_active (count_leases empty ls'); error = none }
              ∷ s.trace;
        })
        (set_by-count_leases (gauge leases_active s.trace node) ls' node)
      ∙ ap
          (λ l.
            if leases_on node l == 0
            then gauge leases_active s.trace node
            else some (leases_on node l))
          (ok-inj ls' ls e)
  after_list (err x) ls s e = absurd (grind arith)

  -- After refreshMetrics, where the leases could be listed, the gauge of active leases shows the number
  -- of the leases of a node that has some; for a node that has none it shows what it showed before.
  pub refresh_metrics-leases_active :
      (s : State W) (ls : List GpuLease)
      → (api.list_leases s.world).0 ≡ ok ls
      → gauge leases_active (refresh_metrics api k s).1.trace node ≡ (
          if leases_on node ls == 0
          then gauge leases_active s.trace node
          else some (leases_on node ls))
  unfolding refresh_metrics ◌>>=◌ read
  refresh_metrics-leases_active s ls e =
      after_list (api.list_leases s.world).0 ls (record s { world = (api.list_leases s.world).1 }) e
