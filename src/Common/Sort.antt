-- ===== src/Common/Sort.antt =====
-- sort.SliceStable: the ordered list of the same elements in which those that the order does not
-- tell apart keep their places, which is insertion from the right.
use mathlib.Core.Path.{◌≡◌, subst}
use mathlib.Core.Bool.{Bool, true, false}
use mathlib.Core.Logic.{inl, inr}
use mathlib.Core.List.{List, [], ◌∷◌, Perm}
use mathlib.Core.List.Perm
use gpu_lease.Common.Tests.{if◌then◌else◌, Bool-cases}
use gpu_lease.Common.Lists.{All, In}

module _ {A : Type 0} (less : A → A → Bool) where
  unfoldable pub insert : A → List A → List A
  insert x [] = x ∷ []
  insert x (y ∷ ys) = let rest = insert x ys in if less y x then y ∷ rest else x ∷ y ∷ ys

  unfoldable pub stable_sort : List A → List A
  unfolding insert
  stable_sort [] = []
  stable_sort (x ∷ xs) = insert x (stable_sort xs)

  -- No element stands behind one that it is less than.
  abbrev pub IsOrdered : List A → Type 0
  IsOrdered [] = Unit
  IsOrdered (x ∷ xs) = All (λ y. less y x ≡ false) xs × IsOrdered xs

  insert-perm : (x : A) (ys : List A) → Perm (insert x ys) (x ∷ ys)
  unfolding insert
  insert-perm x [] = Perm.refl (x ∷ [])
  insert-perm x (y ∷ ys) = elim (Bool-cases (less y x)) [
    | inl before ↦ rw before (Perm.trans (Perm.cons y (insert-perm x ys)) (Perm.swap x y ys))
    | inr behind ↦ rw behind (Perm.refl (x ∷ y ∷ ys))
  ]

  In-insert : (a x : A) (ys : List A) → In a (insert x ys) → In a (x ∷ ys)
  unfolding insert
  In-insert a x [] h = h
  In-insert a x (y ∷ ys) h = elim (Bool-cases (less y x)) [
    | inl before ↦ elim (subst (λ b. In a (if b then y ∷ insert x ys else x ∷ y ∷ ys)) before h) [
      | inl e ↦ inr (inl e)
      | inr i ↦ elim (In-insert a x ys i) [ inl e ↦ inl e | inr j ↦ inr (inr j) ]
    ]
    | inr behind ↦ subst (λ b. In a (if b then y ∷ insert x ys else x ∷ y ∷ ys)) behind h
  ]

  pub In-stable_sort : (a : A) (xs : List A) → In a (stable_sort xs) → In a xs
  unfolding stable_sort
  In-stable_sort a [] h = h
  In-stable_sort a (x ∷ xs) h = elim (In-insert a x (stable_sort xs) h) [
    | inl e ↦ inl e
    | inr i ↦ inr (In-stable_sort a xs i)
  ]

  pub stable_sort-perm : (xs : List A) → Perm (stable_sort xs) xs
  unfolding stable_sort
  stable_sort-perm [] = Perm.refl []
  stable_sort-perm (x ∷ xs) =
      Perm.trans (insert-perm x (stable_sort xs)) (Perm.cons x (stable_sort-perm xs))

  -- What Go asks of the function it is given: a strict weak order.
  pub record IsWeakOrder : Type 0 where
    pub asym : (a b : A) → less a b ≡ true → less b a ≡ false
    pub negative_trans : (a b c : A) → less b a ≡ false → less c b ≡ false → less c a ≡ false

  module _ (w : IsWeakOrder) where
    All-insert : (P : A → Type 0) (x : A) (ys : List A) → P x → All P ys → All P (insert x ys)
    unfolding insert
    All-insert P x [] px h = (px, tt)
    All-insert P x (y ∷ ys) px h = elim (Bool-cases (less y x)) [
      | inl before ↦ rw before (h.0, All-insert P x ys px h.1)
      | inr behind ↦ rw behind (px, h)
    ]

    All-negative_trans :
        (x y : A) (ys : List A)
        → less y x ≡ false
        → All (λ z. less z y ≡ false) ys
        → All (λ z. less z x ≡ false) ys
    All-negative_trans x y [] e h = tt
    All-negative_trans x y (z ∷ ys) e h =
        (w.negative_trans x y z e h.0, All-negative_trans x y ys e h.1)

    insert-IsOrdered : (x : A) (ys : List A) → IsOrdered ys → IsOrdered (insert x ys)
    unfolding insert
    insert-IsOrdered x [] h = (tt, tt)
    insert-IsOrdered x (y ∷ ys) h = elim (Bool-cases (less y x)) [
      | inl before ↦ rw before (
        All-insert (λ z. less z y ≡ false) x ys (w.asym y x before) h.0,
        insert-IsOrdered x ys h.1,
      )
      | inr behind ↦ rw behind ((behind, All-negative_trans x y ys behind h.0), h)
    ]

    pub stable_sort-IsOrdered : (xs : List A) → IsOrdered (stable_sort xs)
    unfolding stable_sort
    stable_sort-IsOrdered [] = tt
    stable_sort-IsOrdered (x ∷ xs) = insert-IsOrdered x (stable_sort xs) (stable_sort-IsOrdered xs)
