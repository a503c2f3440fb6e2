-- ===== src/Base/Sort.antt =====
-- `sort.Slice`: its documentation promises a sorted permutation and no stability, so the sorting
-- is a parameter with those two laws. `insertion` is one function that meets them.
use mathlib.Core.List.{Permᴰ}
use mathlib.Core.List.Permᴰ
use mathlib.Core.Path.{◌≡◌, refl, subst}
use mathlib.Core.Logic.{inl, inr}
use mathlib.Core.Bool.{Bool, true, false}
use mathlib.Core.List.{List, [], ◌∷◌}
use spark_server.Base.Tests.{if◌then◌else◌, Bool-cases}
use spark_server.Base.Lists.{All, All-map}

-- No element is less than one before it.
abbrev pub IsSorted {ℓ} : {A : Type ℓ} → (A → A → Bool) → List A → Type ℓ
IsSorted less [] = Unit
IsSorted less (x ∷ xs) = All (λ y. less y x ≡ false) xs × IsSorted less xs

pub record Sorting {ℓ} {A : Type ℓ} (less : A → A → Bool) : Type ℓ where
  pub sort : List A → List A
  pub is_sorted : (xs : List A) → IsSorted less (sort xs)
  pub permutes : (xs : List A) → Permᴰ xs (sort xs)

pub All-Perm {ℓ κ} :
    {A : Type ℓ} (P : A → Type κ) {xs ys : List A} → Permᴰ xs ys → All P xs → All P ys
All-Perm P Permᴰ.nil h = h
All-Perm P (Permᴰ.cons e d) h = (subst P e h.0, All-Perm P d h.1)
All-Perm P (Permᴰ.swap e d) h = (subst P d h.1.0, (subst P e h.0, h.1.1))
All-Perm P (Permᴰ.trans d e) h = All-Perm P e (All-Perm P d h)

-- What `less` has to be for insertion to sort by it.
pub record IsOrder {ℓ} {A : Type ℓ} (less : A → A → Bool) : Type ℓ where
  pub asym : (x y : A) → less y x ≡ true → less x y ≡ false
  pub chain : (x y z : A) → less y x ≡ false → less z y ≡ false → less z x ≡ false

module _ {ℓ} {A : Type ℓ} (less : A → A → Bool) where
  pub insert : A → List A → List A
  insert x [] = x ∷ []
  insert x (y ∷ ys) = let rest = insert x ys in if less y x then y ∷ rest else x ∷ y ∷ ys

  pub insertion_sort : List A → List A
  unfolding insert
  insertion_sort [] = []
  insertion_sort (x ∷ xs) = insert x (insertion_sort xs)

  insert-perm : (x : A) (ys : List A) → Permᴰ (x ∷ ys) (insert x ys)
  unfolding insert
  insert-perm x [] = Permᴰ.refl (x ∷ [])
  insert-perm x (y ∷ ys) = elim (Bool-cases (less y x)) [
    | inl e ↦ rw e (Permᴰ.trans (Permᴰ.swap refl refl) (Permᴰ.cons refl (insert-perm x ys)))
    | inr e ↦ rw e (Permᴰ.refl (x ∷ y ∷ ys))
  ]

  pub insertion_sort-perm : (xs : List A) → Permᴰ xs (insertion_sort xs)
  unfolding insertion_sort
  insertion_sort-perm [] = Permᴰ.nil
  insertion_sort-perm (x ∷ xs) =
      Permᴰ.trans (Permᴰ.cons refl (insertion_sort-perm xs)) (insert-perm x (insertion_sort xs))

module _ {ℓ} {A : Type ℓ} (less : A → A → Bool) (order : IsOrder less) where
  insert-All : (P : A → Type 0) (x : A) (ys : List A) → P x → All P ys → All P (insert less x ys)
  insert-All P x ys hx h = All-Perm P (insert-perm less x ys) (hx, h)

  insert-IsSorted : (x : A) (ys : List A) → IsSorted less ys → IsSorted less (insert less x ys)
  unfolding insert
  insert-IsSorted x [] h = (tt, tt)
  insert-IsSorted x (y ∷ ys) h = elim (Bool-cases (less y x)) [
    | inl e ↦
        rw e (
          (
            insert-All (λ z. less z y ≡ false) x ys (order.asym x y e) h.0,
            insert-IsSorted x ys h.1,
          ))
    | inr e ↦ rw e (
      (
        e,
        All-map (λ z. less z y ≡ false) (λ z. less z x ≡ false) (λ z. order.chain x y z e) ys h.0,
      ),
      h,
    )
  ]

  pub insertion_sort-IsSorted : (xs : List A) → IsSorted less (insertion_sort less xs)
  unfolding insertion_sort
  insertion_sort-IsSorted [] = tt
  insertion_sort-IsSorted (x ∷ xs) =
      insert-IsSorted x (insertion_sort less xs) (insertion_sort-IsSorted xs)

  unfoldable pub insertion : Sorting less
  unfolding insertion_sort
  insertion = record {
    sort = insertion_sort less;
    is_sorted = insertion_sort-IsSorted;
    permutes = insertion_sort-perm less;
  }
