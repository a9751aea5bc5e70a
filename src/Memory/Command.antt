-- ===== src/Memory/Command.antt =====
-- Commands on the memory, which fail where Go would not compile or would panic: at an address with
-- no cell, or with a cell of another type.
use gpu_lease.Common.{Option, none, some, List, [], ◌∷◌, ◌+◌, ◌≡◌, ◌==◌, if◌then◌else◌}
use gpu_lease.Memory.{Addr, Kubernetes, Cell, Cells, Memory}

abbrev pub Command : Kubernetes → Type 0 → Type 0
Command K A = Memory K → Option (A × Memory K)

-- How a cell holds what is of one type.
pub record Slot (K : Kubernetes) (B : Type 0) : Type 0 where
  pub put : B → Cell K
  pub get : Cell K → Option B
  pub get-put : (b : B) → get (put b) ≡ some b

abbrev pub get_one : {A : Type 0} → Option (List A) → Option A
get_one (some (a ∷ [])) = some a
get_one _ = none

module _ {K : Kubernetes} where
  abbrev pub return : {A : Type 0} → A → Command K A
  return a m = some (a, m)

  module _ {A B : Type 0} where
    abbrev pub and_then : Option (A × Memory K) → (A → Command K B) → Option (B × Memory K)
    and_then none k = none
    and_then (some (a, m)) k = k a m

    infixl 5 ◌>>=◌ ◌>>◌
    abbrev pub ◌>>=◌ : Command K A → (A → Command K B) → Command K B
    (c >>= k) m = and_then (c m) k

    abbrev pub ◌>>◌ : Command K A → Command K B → Command K B
    c >> d = c >>= λ _. d

  abbrev pub update : Cells K → Addr → Cell K → Cells K
  update f p c q = if p == q then some c else f q

  abbrev pub load_cell :
      {B : Type 0} → Slot K B → Option (Cell K) → Memory K → Option (B × Memory K)
  load_cell s none m = none
  load_cell s (some c) m = elim (s.get c) [ none ↦ none | some b ↦ some (b, m) ]

  module _ {B : Type 0} (s : Slot K B) where
    unfoldable pub load : Addr → Command K B
    load p m = load_cell s (m.cells p) m

    unfoldable pub store : Addr → B → Command K (Unit {0})
    store p b m = some (tt, record m { cells = update m.cells p (s.put b) })

  -- if *in != nil { … } at a field
  unfoldable pub copy_option : {A : Type 0} → (A → Command K A) → Option A → Command K (Option A)
  copy_option copy none = return none
  copy_option copy (some a) = do b ← copy a; return (some b)

  -- The address of the next allocation, whose content `store` writes.
  unfoldable pub reserve : Command K Addr
  reserve m = some (m.next, record m { next = m.next + 1 })

  module _ {B : Type 0} (s : Slot K B) where
    -- A pointer, a slice or a map that is nil stays nil; else a new allocation gets the copy of what
    -- the old one holds.
    unfoldable pub copy_at : (B → Command K B) → Option Addr → Command K (Option Addr)
    copy_at copy none = return none
    copy_at copy (some p) = do b ← load s p; q ← reserve; c ← copy b; store s q c; return (some q)

  -- for i := range *in { (*in)[i].DeepCopyInto(&(*out)[i]) }
  unfoldable pub copy_elements : {A : Type 0} → (A → Command K A) → List A → Command K (List A)
  copy_elements copy [] = return []
  copy_elements copy (a ∷ rest) = do b ← copy a; bs ← copy_elements copy rest; return (b ∷ bs)

  -- A single struct is an array of one element.
  abbrev pub one : {A : Type 0} → Slot K (List A) → Slot K A
  one s = record {
    put = λ a. s.put (a ∷ []);
    get = λ c. get_one (s.get c);
    get-put = λ a. rw (s.get-put (a ∷ []));
  }

  abbrev pub copy_slice :
      {A : Type 0} → Slot K (List A) → (A → Command K A) → Option Addr → Command K (Option Addr)
  copy_slice s copy = copy_at s (copy_elements copy)

  -- DeepCopy, and the same at a field that is a pointer.
  abbrev pub copy_pointer :
      {A : Type 0} → Slot K (List A) → (A → Command K A) → Option Addr → Command K (Option Addr)
  copy_pointer s copy = copy_at (one s) copy
