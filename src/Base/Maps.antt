-- ===== src/Base/Maps.antt =====
-- Go maps with string keys, as lists of keys and values.
use Prim.Native.Nat.{suc, ◌+◌}
use mathlib.Core.Path.{◌≡◌, refl, sym, ap, ◌∙◌}
use mathlib.Core.Bool.{Bool, true, false}
use mathlib.Core.Logic.{inl, inr}
use mathlib.Core.List.{List, [], ◌∷◌}
use mathlib.Core.Option.{Option, none, some}
use native.Mathlib.Omega.{arith}
use spark_server.Base.Tests.{if◌then◌else◌, Bool-cases}
use spark_server.Base.Lists.{length}
use spark_server.Base.Slices.{Bytes, same_bytes, same_bytes_iff}

abbrev pub is_some {ℓ} : {A : Type ℓ} → Option A → Bool
is_some none = false
is_some (some a) = true

module _ {A : Type 0} where
  abbrev pub lookup : Bytes → List (Bytes × A) → Option A
  lookup k [] = none
  lookup k ((l, a) ∷ m) = let rest = lookup k m in if same_bytes l k then some a else rest

  -- An assignment replaces the value of a key, or adds the key.
  abbrev pub store : Bytes → A → List (Bytes × A) → List (Bytes × A)
  store k a [] = (k, a) ∷ []
  store k a ((l, b) ∷ m) =
      let rest = store k a m in if same_bytes l k then (k, a) ∷ m else (l, b) ∷ rest

  abbrev pub remove : Bytes → List (Bytes × A) → List (Bytes × A)
  remove k [] = []
  remove k ((l, b) ∷ m) = let rest = remove k m in if same_bytes l k then rest else (l, b) ∷ rest

  -- No key stands twice.
  abbrev pub IsMap : List (Bytes × A) → Type 0
  IsMap [] = Unit
  IsMap ((k, a) ∷ m) = (lookup k m ≡ none) × IsMap m

  pub lookup-store :
      (j k : Bytes) (a : A) (m : List (Bytes × A))
      → lookup j (store k a m) ≡ (if same_bytes k j then some a else lookup j m)
  lookup-store j k a [] = refl
  lookup-store j k a ((l, b) ∷ m) =
      ground
        (arith, lookup-store j k a m, same_bytes_iff l k, same_bytes_iff l j, same_bytes_iff k j)

  pub lookup-remove :
      (j k : Bytes) (m : List (Bytes × A))
      → lookup j (remove k m) ≡ (if same_bytes k j then none else lookup j m)
  lookup-remove j k [] = ground arith
  lookup-remove j k ((l, b) ∷ m) =
      ground
        (arith, lookup-remove j k m, same_bytes_iff l k, same_bytes_iff l j, same_bytes_iff k j)

  pub store-IsMap : (k : Bytes) (a : A) (m : List (Bytes × A)) → IsMap m → IsMap (store k a m)
  store-IsMap k a [] h = (refl, tt)
  store-IsMap k a ((l, b) ∷ m) h = elim (Bool-cases (same_bytes l k)) [
    | inl same ↦ rw same (ap (λ x. lookup x m) (sym ((same_bytes_iff l k).0 same)) ∙ h.0, h.1)
    | inr other ↦ rw other (
      ground (arith, lookup-store l k a m, h.0, same_bytes_iff l k, same_bytes_iff k l),
      store-IsMap k a m h.1,
    )
  ]

  pub remove-IsMap : (k : Bytes) (m : List (Bytes × A)) → IsMap m → IsMap (remove k m)
  remove-IsMap k [] h = tt
  remove-IsMap k ((l, b) ∷ m) h = elim (Bool-cases (same_bytes l k)) [
    | inl same ↦ rw same (remove-IsMap k m h.1)
    | inr other ↦ rw other (ground (arith, lookup-remove l k m, h.0), remove-IsMap k m h.1)
  ]

  pub length-store :
      (k : Bytes) (a : A) (m : List (Bytes × A))
      → length (store k a m) ≡ (if is_some (lookup k m) then length m else suc (length m))
  length-store k a [] = refl
  length-store k a ((l, b) ∷ m) = ground (arith, length-store k a m)

  length-remove_absent :
      (k : Bytes) (m : List (Bytes × A)) → lookup k m ≡ none → length (remove k m) ≡ length m
  length-remove_absent k [] h = refl
  length-remove_absent k ((l, b) ∷ m) h = ground (arith, length-remove_absent k m)

  pub length-remove :
      (k : Bytes) (m : List (Bytes × A))
      → IsMap m
      → length (remove k m) + (if is_some (lookup k m) then 1 else 0) ≡ length m
  length-remove k [] h = refl
  length-remove k ((l, b) ∷ m) h = elim (Bool-cases (same_bytes l k)) [
    | inl same ↦
        let absent : lookup k m ≡ none =
          ap (λ x. lookup x m) (sym ((same_bytes_iff l k).0 same)) ∙ h.0 in
        rw same (omega (arith, length-remove_absent k m absent))
    | inr other ↦ rw other (omega (arith, length-remove k m h.1))
  ]
