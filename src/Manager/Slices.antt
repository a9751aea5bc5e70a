-- ===== src/Manager/Slices.antt =====
-- Go's slices: a view of the first elements of an array, which append extends in place where the
-- array has room. Slices that share an array see each other's writes.
use gpu_lease.Common.{ℕ, zero, suc, ◌+◌, ◌==◌, List, [], ◌∷◌, ◌++◌, if◌then◌else◌, ltb}

pub record Slice : Type 0 where
  pub array : ℕ
  pub len : ℕ
  pub cap : ℕ

-- The elements of each array that have been written, and the number of the next array.
pub record Arrays (A : Type 0) : Type 0 where
  pub next : ℕ
  pub content : ℕ → List A

abbrev pub nil_slice : Slice
nil_slice = record { array = 0; len = 0; cap = 0 }

module _ {A : Type 0} where
  abbrev pub new_arrays : Arrays A
  new_arrays = record { next = 1; content = λ _. [] }

  unfoldable pub take : ℕ → List A → List A
  take zero xs = []
  take (suc n) [] = []
  take (suc n) (x ∷ xs) = x ∷ take n xs

  -- The array with an element written at an index, which is at most the number of those written.
  unfoldable pub set_at : ℕ → A → List A → List A
  set_at n x [] = x ∷ []
  set_at zero x (y ∷ ys) = x ∷ ys
  set_at (suc n) x (y ∷ ys) = y ∷ set_at n x ys

  abbrev pub with_array : ℕ → List A → Arrays A → (ℕ → List A)
  with_array a xs h b = if a == b then xs else h.content b

  unfoldable pub elements : Slice → Arrays A → List A
  elements s h = take s.len (h.content s.array)

  unfoldable pub append : (capacity : ℕ → ℕ) → Slice → A → Arrays A → Slice × Arrays A
  append capacity s x h =
      if ltb s.len s.cap
      then (
        record s { len = s.len + 1 },
        record h { content = with_array s.array (set_at s.len x (h.content s.array)) h },
      )
      else (
        record { array = h.next; len = s.len + 1; cap = capacity (s.len + 1) },
        record {
          next = h.next + 1;
          content = with_array h.next (take s.len (h.content s.array) ++ (x ∷ [])) h;
        },
      )
