-- ===== src/Common/Maps.antt =====
-- Go's `map[string]V` as the function that a look-up computes. The program never ranges over the
-- label and annotation maps, so their order is not modelled, and a nil map is the empty one.
use Prim.Native.String.{String}
use mathlib.Core.Option.{Option, none, some}
use text.Mathlib.Text.{◌==◌ as str_eq}
use gpu_lease.Common.Tests.{if◌then◌else◌}

abbrev pub Map {ℓ} : Type ℓ → Type ℓ
Map V = String → Option V

abbrev pub empty {ℓ} : {V : Type ℓ} → Map V
empty k = none

-- m[k] = v
abbrev pub put {ℓ} : {V : Type ℓ} → Map V → String → V → Map V
put m k v j = if str_eq k j then some v else m j

-- delete(m, k)
abbrev pub remove {ℓ} : {V : Type ℓ} → Map V → String → Map V
remove m k j = if str_eq k j then none else m j
