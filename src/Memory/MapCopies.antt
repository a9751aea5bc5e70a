-- ===== src/Memory/MapCopies.antt =====
-- Copying a map entry by entry.
use gpu_lease.Common.{
  String, false, none, some, [], ◌∷◌, ◌++◌, append_assoc, ◌≡◌, refl, append-nil, ◌∙◌, sym, arith,
  if◌then◌else◌, str_eq, eq_iff, Map, ◌⊎◌, inl,
}
use gpu_lease.Memory.{Kubernetes, Entries}
use gpu_lease.Memory.Command.{Command, return}
use gpu_lease.Memory.Kind.{Kind, Deep, copied, Grows-refl}

-- m[key] = value
unfoldable pub set : String → String → Entries → Entries
set key value [] = (key, value) ∷ []
set key value ((k, v) ∷ rest) =
    let later = set key value rest in if str_eq k key then (k, value) ∷ rest else (k, v) ∷ later

-- for key, val := range *in { (*out)[key] = val }
unfoldable pub fill : Entries → Entries → Entries
fill out [] = out
fill out ((key, val) ∷ rest) = fill (set key val out) rest

unfoldable pub look_up : Entries → Map String
look_up [] key = none
look_up ((k, v) ∷ rest) key = if str_eq k key then some v else look_up rest key

-- Each key has one entry.
pub data Distinct : Entries → Type 0 where
  distinct_nil : Distinct []
  distinct_cons :
      {k v : String} {rest : Entries}
      → look_up rest k ≡ none
      → Distinct rest
      → Distinct ((k, v) ∷ rest)

set-append :
    (k v : String) (out : Entries) → look_up out k ≡ none → set k v out ≡ out ++ ((k, v) ∷ [])
unfolding set look_up
set-append k v [] e = refl
set-append k v ((j, w) ∷ rest) e = ground (arith, set-append k v rest)

look_up-append :
    (k v : String) (out : Entries) (j : String)
    → look_up out j ≡ none
    → str_eq k j ≡ false
    → look_up (out ++ ((k, v) ∷ [])) j ≡ none
unfolding look_up
look_up-append k v [] j e d = rw d refl
look_up-append k v ((i, w) ∷ rest) j e d = ground (arith, look_up-append k v rest j)

-- No key is in both.
Apart : Entries → Entries → Type 0
Apart out es = (j : String) → (look_up out j ≡ none) ⊎ (look_up es j ≡ none)

Apart-here :
    (out : Entries) (k v : String) (rest : Entries)
    → (look_up out k ≡ none) ⊎ (look_up ((k, v) ∷ rest) k ≡ none)
    → look_up out k ≡ none
unfolding look_up
Apart-here out k v rest a = ground (arith, eq_iff k k)

Apart-set :
    (out : Entries) (k v : String) (rest : Entries)
    → look_up rest k ≡ none
    → Apart out ((k, v) ∷ rest)
    → Apart (out ++ ((k, v) ∷ [])) rest
unfolding Apart look_up
Apart-set out k v rest new a j = ground (arith, eq_iff k j, a j, look_up-append k v out j)

fill-append : (out es : Entries) → Distinct es → Apart out es → fill out es ≡ out ++ es
unfolding fill Apart
fill-append out [] distinct_nil a = sym (append-nil out)
fill-append out ((k, v) ∷ rest) (distinct_cons new d) a =
    rw (set-append k v out (Apart-here out k v rest (a k))) (
      fill-append (out ++ ((k, v) ∷ [])) rest d (Apart-set out k v rest new a)
      ∙ append_assoc out ((k, v) ∷ []) rest)

module _ {K : Kubernetes} where
  -- The copy that the loop makes of the entries.
  unfoldable pub copy_entries : Entries → Command K Entries
  copy_entries es = return (fill [] es)

  -- Entries read as the map that a look-up computes.
  abbrev pub entries_kind : Kind K Entries (Map String)
  entries_kind = record {
    Reads = λ lo hi f es v. Distinct es × (look_up es ≡ v);
    copy = copy_entries;
  }

  pub Deep-entries : Deep entries_kind
  unfolding copy_entries Apart look_up
  Deep-entries = record {
    frame = λ _ r. r;
    widen = λ _ _ r. r;
    copies = λ m {a = es} r. copied (Grows-refl m) (rw (fill-append [] es (r.0) (λ _. inl refl)) r);
  }
