-- ===== src/Firmware/Job/Missed.antt =====
-- `uniqueValidChunkIndexes` against its description.
use spark_server.Base.{
  ℕ, ◌≡◌, refl, false, ◌&&◌, ◌||◌, List, [], ◌∷◌, ◌++◌, ltb, leb, ◌==◌, if◌then◌else◌, arith,
  Bool-cases, inl, inr,
}
use spark_server.Firmware.Job.{contains, unique_valid_from, unique_valid_chunk_indexes}

-- No element stands in a list twice.
abbrev pub IsDistinct : List ℕ → Type 0
IsDistinct [] = Unit
IsDistinct (i ∷ is) = (contains i is ≡ false) × IsDistinct is

contains-append :
    (i : ℕ) (xs ys : List ℕ) → contains i (xs ++ ys) ≡ (contains i xs || contains i ys)
unfolding contains
contains-append i [] ys = refl
contains-append i (x ∷ xs) ys = ground (arith, contains-append i xs ys)

append-IsDistinct :
    (xs : List ℕ) (y : ℕ) → IsDistinct xs → contains y xs ≡ false → IsDistinct (xs ++ y ∷ [])
unfolding contains
append-IsDistinct [] y d h = (refl, tt)
append-IsDistinct (x ∷ xs) y d h = (
  ground (arith, contains-append x xs (y ∷ []), d.0),
  append-IsDistinct xs y d.1 (ground (arith, h)),
)

-- The list of the valid indices after one more index.
abbrev with_index : List ℕ → ℕ → ℕ → List ℕ
with_index valid index n =
    if leb n index then valid else if contains index valid then valid else valid ++ index ∷ []

contains-with_index :
    (i : ℕ) (valid : List ℕ) (index n : ℕ)
    → contains i (with_index valid index n) ≡ (contains i valid || ((index == i) && ltb i n))
unfolding contains
contains-with_index i valid index n = ground (arith, contains-append i valid (index ∷ []))

with_index-IsDistinct :
    (valid : List ℕ) (index n : ℕ) → IsDistinct valid → IsDistinct (with_index valid index n)
with_index-IsDistinct valid index n d = elim (Bool-cases (leb n index)) [
  | inl out ↦ rw out d
  | inr within ↦ elim (Bool-cases (contains index valid)) [
    | inl old ↦ rw (within, old) d
    | inr new ↦ rw (within, new) (append-IsDistinct valid index d new)
  ]
]

contains-unique_valid_from :
    (i : ℕ) (valid indexes : List ℕ) (n : ℕ)
    → contains i (unique_valid_from valid indexes n)
      ≡ (contains i valid || (contains i indexes && ltb i n))
unfolding unique_valid_from contains
contains-unique_valid_from i valid [] n = ground arith
contains-unique_valid_from i valid (index ∷ indexes) n = ground (
  arith,
  contains-unique_valid_from i (with_index valid index n) indexes n,
  contains-with_index i valid index n,
)

unique_valid_from-IsDistinct :
    (valid indexes : List ℕ) (n : ℕ)
    → IsDistinct valid
    → IsDistinct (unique_valid_from valid indexes n)
unfolding unique_valid_from
unique_valid_from-IsDistinct valid [] n d = d
unique_valid_from-IsDistinct valid (index ∷ indexes) n d =
    unique_valid_from-IsDistinct (with_index valid index n) indexes n
      (with_index-IsDistinct valid index n d)

-- The indices that are sent again are those of the request below the number of chunks, each once.
pub unique_valid_chunk_indexes-IsDistinct :
    (indexes : List ℕ) (n i : ℕ)
    → IsDistinct (unique_valid_chunk_indexes indexes n)
      × (contains i (unique_valid_chunk_indexes indexes n) ≡ (contains i indexes && ltb i n))
unfolding unique_valid_chunk_indexes contains
unique_valid_chunk_indexes-IsDistinct indexes n i =
    (unique_valid_from-IsDistinct [] indexes n tt, contains-unique_valid_from i [] indexes n)
