-- ===== src/Demand/Fallback.antt =====
-- Which demand is kept over ConfigMaps without a number for the Deployment.
use gpu_lease.Common.{
  ◌≡◌, refl, String, Option, none, some, List, [], ◌∷◌, Map, get_or, length, arith, ◌∙◌, ap, ◌+◌, ℕ,
  suc, ◌==◌, if◌then◌else◌,
}
use gpu_lease.Demand.{
  Watcher, Delivery, added, updated, deleted, publish, warn_once, keep_value, apply_parsed,
  apply_entry, apply_config_map, handle, apply_all, demand_gauge,
}

-- How many ConfigMaps are among the deliveries.
unfoldable pub config_maps : List Delivery → ℕ
config_maps [] = 0
config_maps (added cm ∷ ds) = suc (config_maps ds)
config_maps (updated cm ∷ ds) = suc (config_maps ds)
config_maps (deleted ∷ ds) = config_maps ds

module _ {V : Type 0} (parse_float : String → Option V) where
  -- The number that a delivery gives for the Deployment, if it gives one.
  unfoldable pub number_in : String → Map String → Option V
  number_in deployment cm = elim (cm deployment) [ none ↦ none | some raw ↦ parse_float raw ]

  -- The last number of the deliveries, or the value before them.
  unfoldable pub last_number : String → V → List Delivery → V
  unfolding number_in
  last_number deployment v [] = v
  last_number deployment v (added cm ∷ ds) =
      last_number deployment (get_or (number_in deployment cm) v) ds
  last_number deployment v (updated cm ∷ ds) =
      last_number deployment (get_or (number_in deployment cm) v) ds
  last_number deployment v (deleted ∷ ds) = last_number deployment v ds

  apply_config_map_lem :
      (w : Watcher V) (cm : Map String)
      → ((apply_config_map parse_float w cm).value ≡ get_or (number_in w.deployment cm) w.value)
        × ((apply_config_map parse_float w cm).deployment ≡ w.deployment)
        × ((apply_config_map parse_float w cm).published
            ≡ (apply_config_map parse_float w cm).value ∷ w.published)
  unfolding apply_config_map apply_entry apply_parsed keep_value warn_once publish number_in
  apply_config_map_lem w cm = ground arith

  -- The demand that is kept, and the number of published values, after a ConfigMap and others.
  after_one :
      (w : Watcher V) (cm : Map String) (ds : List Delivery) (v : V) (n m : ℕ)
      → (v
          ≡ last_number
              (apply_config_map parse_float w cm).deployment
              (apply_config_map parse_float w cm).value
              ds)
        × (m ≡ n + length (apply_config_map parse_float w cm).published)
      → (v ≡ last_number w.deployment (get_or (number_in w.deployment cm) w.value) ds)
        × (m ≡ suc n + length w.published)
  after_one w cm ds v n m (e, k) =
      let (x, d, p) = apply_config_map_lem w cm in
      (
        e
            ∙ ap (λ dep. last_number dep (apply_config_map parse_float w cm).value ds) d
            ∙ ap (λ y. last_number w.deployment y ds) x,
        omega (arith, k, ap length p),
      )

  kept_and_published :
      (ds : List Delivery) (w : Watcher V)
      → ((apply_all parse_float w ds).value ≡ last_number w.deployment w.value ds)
        × (length (apply_all parse_float w ds).published ≡ config_maps ds + length w.published)
  unfolding apply_all handle last_number config_maps
  kept_and_published [] w = (refl, omega arith)
  kept_and_published (added cm ∷ ds) w =
      after_one w cm ds _ (config_maps ds) _
        (kept_and_published ds (apply_config_map parse_float w cm))
  kept_and_published (updated cm ∷ ds) w =
      after_one w cm ds _ (config_maps ds) _
        (kept_and_published ds (apply_config_map parse_float w cm))
  kept_and_published (deleted ∷ ds) w = kept_and_published ds w

  -- Deletions alone change nothing.
  no_config_maps :
      (w : Watcher V) (ds : List Delivery) → config_maps ds ≡ 0 → apply_all parse_float w ds ≡ w
  unfolding apply_all handle config_maps
  no_config_maps w [] e = refl
  no_config_maps w (added cm ∷ ds) e = absurd (omega (arith, e))
  no_config_maps w (updated cm ∷ ds) e = absurd (omega (arith, e))
  no_config_maps w (deleted ∷ ds) e = no_config_maps w ds e

  same_value :
      (w : Watcher V) (ds : List Delivery)
      → config_maps ds ≡ 0
      → (apply_all parse_float w ds).value ≡ w.value
  same_value w ds e = ap (λ (x : Watcher V). x.value) (no_config_maps w ds e)

  -- What the gauge shows after a ConfigMap and others.
  shown_after :
      (initial : V) (w : Watcher V) (cm : Map String) (ds : List Delivery)
      → (let w1 = apply_config_map parse_float w cm in
          demand_gauge initial (apply_all parse_float w1 ds).published ≡ (
            if config_maps ds == 0
            then demand_gauge initial w1.published
            else (apply_all parse_float w1 ds).value))
      → (let w1 = apply_config_map parse_float w cm in
          demand_gauge initial (apply_all parse_float w1 ds).published ≡ (
            if suc (config_maps ds) == 0
            then demand_gauge initial w.published
            else (apply_all parse_float w1 ds).value))
  unfolding demand_gauge
  shown_after initial w cm ds h =
      let w1 : Watcher V = apply_config_map parse_float w cm in
      let gauge : demand_gauge initial w1.published ≡ w1.value =
        ap (demand_gauge initial) (apply_config_map_lem w cm).2 in
      ground (arith, h, gauge, same_value w1 ds)

  shown :
      (initial : V) (ds : List Delivery) (w : Watcher V)
      → demand_gauge initial (apply_all parse_float w ds).published ≡ (
          if config_maps ds == 0
          then demand_gauge initial w.published
          else (apply_all parse_float w ds).value)
  unfolding apply_all handle config_maps
  shown initial [] w = refl
  shown initial (added cm ∷ ds) w =
      shown_after initial w cm ds (shown initial ds (apply_config_map parse_float w cm))
  shown initial (updated cm ∷ ds) w =
      shown_after initial w cm ds (shown initial ds (apply_config_map parse_float w cm))
  shown initial (deleted ∷ ds) w = shown initial ds w

  -- After any ConfigMaps that come, change and go, the demand is the last number that one of them had
  -- for the Deployment, and the demand before them if none had one: a missing key, a text that is no
  -- number and a deletion keep it. Each ConfigMap that comes or changes publishes one value, and once
  -- one has, the gauge shows the demand.
  pub apply_all_last :
      (initial : V) (ds : List Delivery) (w : Watcher V)
      → ((apply_all parse_float w ds).value ≡ last_number w.deployment w.value ds)
        × (length (apply_all parse_float w ds).published ≡ config_maps ds + length w.published)
        × (demand_gauge initial (apply_all parse_float w ds).published ≡ (
            if config_maps ds == 0
            then demand_gauge initial w.published
            else (apply_all parse_float w ds).value))
  apply_all_last initial ds w = let (v, n) = kept_and_published ds w in (v, n, shown initial ds w)
