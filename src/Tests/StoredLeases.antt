-- ===== src/Tests/StoredLeases.antt =====
-- Leases in a list, with a resource version that stands for the phase.
use Prim.Native.Char.{code}
use Prim.Native.String as Text
use gpu_lease.Common.{
  ◌==◌, ◌≡◌, refl, ap, sym, Map, false, ◌||◌, true, ◌⊎◌, inl, inr, String, Bool, Option, none, some,
  List, [], ◌∷◌, str_eq, All, if◌then◌else◌, eq_iff, arith,
}
use gpu_lease.Objects.{
  GpuLease, LeasePhase, unset, pending, admitted, activating, bound, failed, releasing, unknown,
}
use gpu_lease.Cluster.{History, Store}

unfoldable pub named : String → GpuLease → Bool
named n l = str_eq l.metadata.name n

-- A resource version that stands for the phase.
unfoldable pub text_of : LeasePhase → String
text_of unset = ""
text_of pending = "P"
text_of admitted = "A"
text_of activating = "T"
text_of bound = "B"
text_of failed = "F"
text_of releasing = "R"
text_of (unknown s) = Text.◌∷◌ "?" s

unfoldable pub phase_of : String → LeasePhase
phase_of Text.[] = unset
phase_of (Text.◌∷◌ c s) =
    if code c == code "P"
    then pending
    else if code c == code "A"
    then admitted
    else if code c == code "T"
    then activating
    else if code c == code "B"
    then bound
    else if code c == code "F"
    then failed
    else if code c == code "R"
    then releasing
    else unknown s

pub phase_of-text_of : (p : LeasePhase) → phase_of (text_of p) ≡ p
unfolding phase_of text_of
phase_of-text_of unset = refl
phase_of-text_of pending = refl
phase_of-text_of admitted = refl
phase_of-text_of activating = refl
phase_of-text_of bound = refl
phase_of-text_of failed = refl
phase_of-text_of releasing = refl
phase_of-text_of (unknown s) = refl

-- A lease with its resource version.
unfoldable pub current : GpuLease → GpuLease
unfolding text_of
current l = record l {
  metadata = record (l.metadata) { resource_version = text_of l.status.phase };
}

abbrev pub seen_versions : List GpuLease → History
seen_versions w name version p = version ≡ text_of p

-- The list has every state of a lease that was stored, newest first.
unfoldable pub latest : List GpuLease → Map GpuLease
unfolding named current
latest [] n = none
latest (l ∷ ls) n = if named n l then some (current l) else latest ls n

abbrev pub WasStored : List GpuLease → GpuLease → Type 0
WasStored [] x = ⊥
WasStored (l ∷ ls) x = (current l ≡ x) ⊎ WasStored ls x

abbrev pub stored : List GpuLease → Store
stored w = record { at = latest w; was = WasStored w }

-- Whether an object with the UID was stored.
unfoldable pub has_uid : String → List GpuLease → Bool
has_uid u [] = false
has_uid u (l ∷ ls) = str_eq l.metadata.uid u || has_uid u ls

-- What is stored at each of the names of a list.
unfoldable pub prepend : Option GpuLease → List GpuLease → List GpuLease
prepend none ls = ls
prepend (some l) ls = l ∷ ls

unfoldable pub at_names : List GpuLease → List GpuLease → List GpuLease
unfolding prepend latest
at_names w [] = []
at_names w (l ∷ ls) = prepend (latest w l.metadata.name) (at_names w ls)

pub latest-name :
    (w : List GpuLease) (n : String) (x : GpuLease) → latest w n ≡ some x → x.metadata.name ≡ n
unfolding latest current named
latest-name [] n x h = absurd (grind arith)
latest-name (l ∷ ls) n x h = ground (arith, latest-name ls n x, eq_iff l.metadata.name n)

pub latest-version :
    (w : List GpuLease) (n : String) (x : GpuLease)
    → latest w n ≡ some x
    → x.metadata.resource_version ≡ text_of x.status.phase
unfolding latest current named
latest-version [] n x h = absurd (grind arith)
latest-version (l ∷ ls) n x h = ground (arith, latest-version ls n x, eq_iff l.metadata.name n)

pub latest-cons :
    (l : GpuLease) (w : List GpuLease) (n : String) (x : GpuLease)
    → latest (l ∷ w) n ≡ some x
    → (latest w n ≡ some x) ⊎ ((l.metadata.name ≡ n) × (x ≡ current l))
unfolding latest current named
latest-cons l w n x h = ground (arith, eq_iff l.metadata.name n)

pub latest-was :
    (w : List GpuLease) (n : String) (x : GpuLease) → latest w n ≡ some x → WasStored w x
latest-was [] n x h = unfold latest in absurd (grind arith)
latest-was (l ∷ ls) n x h = elim (latest-cons l ls n x h) [
  | inl e ↦ inr (latest-was ls n x e)
  | inr (m, e) ↦ inl (sym e)
]

pub has_uid-was :
    (w : List GpuLease) (x : GpuLease) → WasStored w x → has_uid x.metadata.uid w ≡ true
unfolding has_uid current
has_uid-was [] x h = absurd h
has_uid-was (l ∷ ls) x (inl e) =
    rw ((eq_iff l.metadata.uid x.metadata.uid).1 (ap (λ y. y.metadata.uid) e)) refl
has_uid-was (l ∷ ls) x (inr i) = ground (arith, has_uid-was ls x i)

prepend-was :
    (w : List GpuLease) (n : String) (o : Option GpuLease) (ls : List GpuLease)
    → latest w n ≡ o
    → All (WasStored w) ls
    → All (WasStored w) (prepend o ls)
unfolding prepend
prepend-was w n none ls e h = h
prepend-was w n (some l) ls e h = (latest-was w n l e, h)

pub at_names-was : (w ls : List GpuLease) → All (WasStored w) (at_names w ls)
unfolding at_names
at_names-was w [] = tt
at_names-was w (l ∷ ls) =
    prepend-was w l.metadata.name (latest w l.metadata.name) _ refl (at_names-was w ls)
