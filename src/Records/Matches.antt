-- ===== src/Records/Matches.antt =====
-- What the loops over a directory find.
use spark_server.Base.{
  ◌≡◌, refl, sym, ap, ◌∙◌, Bool, true, false, List, [], ◌∷◌, Bytes, same_bytes, same_bytes_iff,
  Option, none, some, arith, All, All-map, ◌||◌, Bool-cases, inl, inr, subst,
}
use spark_server.Base.Maps.{lookup}
use spark_server.Records.Files.{write_file, records}
use spark_server.Records.Files.Directory.{IsDirectory, IsDirectory-IsMap, lookup-write_file}
use spark_server.Records.{first_match, matches}

module _ {A : Type 0} (id_of : A → Bytes) where
  -- The first match passes the test and stands under its ID.
  pub first_match-lookup :
      (test : A → Bool) (m : List (Bytes × A)) (a : A)
      → IsDirectory id_of m
      → first_match test (records m) ≡ some a
      → (lookup (id_of a) m ≡ some a) × (test a ≡ true)
  first_match-lookup test [] a d e = cc
  first_match-lookup test ((l, b) ∷ m) a (o, behind, d) e = elim (Bool-cases (test b)) [
    | inl holds ↦
        let is : b ≡ a = ground arith in
        subst (λ c. (lookup (id_of c) ((l, b) ∷ m) ≡ some c) × (test c ≡ true)) is
          (rw ((same_bytes_iff l (id_of b)).1 (sym o)) refl, holds)
    | inr fails ↦
        let (there, passes) = first_match-lookup test m a d (ground arith) in
        let absent = (IsDirectory-IsMap id_of ((l, b) ∷ m) (o, behind, d)).0 in
        (
          elim (Bool-cases (same_bytes l (id_of a))) [
            | inl same ↦
                let none_there : lookup (id_of a) m ≡ none =
                  ap (λ i. lookup i m) (sym ((same_bytes_iff l (id_of a)).0 same)) ∙ absent in
                absurd (ground arith)
            | inr other ↦ rw other there
          ],
          passes,
        )
  ]

  -- What stands under an ID has that ID.
  pub lookup-id :
      (k : Bytes) (m : List (Bytes × A)) (a : A)
      → IsDirectory id_of m
      → lookup k m ≡ some a
      → id_of a ≡ k
  lookup-id k [] a d e = cc
  lookup-id k ((l, b) ∷ m) a (o, behind, d) e = elim (Bool-cases (same_bytes l k)) [
    | inl same ↦
        let is : b ≡ a = ground arith in ap id_of (sym is) ∙ o ∙ (same_bytes_iff l k).0 same
    | inr other ↦ lookup-id k m a d (ground arith)
  ]

  -- A record with its own ID stands in a directory, and passes the test.
  abbrev pub Stands : (A → Bool) → List (Bytes × A) → A → Type 0
  Stands test m a = (lookup (id_of a) m ≡ some a) × (test a ≡ true)

  Stands-cons :
      (test : A → Bool) (l : Bytes) (b : A) (m : List (Bytes × A))
      → lookup l m ≡ none
      → (a : A) → Stands test m a
      → Stands test ((l, b) ∷ m) a
  Stands-cons test l b m absent a (there, passes) = (
    elim (Bool-cases (same_bytes l (id_of a))) [
      | inl same ↦
          let none_there : lookup (id_of a) m ≡ none =
            ap (λ i. lookup i m) (sym ((same_bytes_iff l (id_of a)).0 same)) ∙ absent in
          absurd (ground arith)
      | inr other ↦ rw other there
    ],
    passes,
  )

  pub matches-Stands :
      (test : A → Bool) (m : List (Bytes × A))
      → IsDirectory id_of m
      → All (Stands test m) (matches test (records m))
  matches-Stands test [] d = tt
  matches-Stands test ((l, b) ∷ m) (o, behind, d) =
      let absent = (IsDirectory-IsMap id_of ((l, b) ∷ m) (o, behind, d)).0 in
      let rest =
        All-map (Stands test m) (Stands test ((l, b) ∷ m)) (Stands-cons test l b m absent)
          (matches test (records m)) (matches-Stands test m d) in
      elim (Bool-cases (test b)) [
        | inl holds ↦ rw holds ((rw ((same_bytes_iff l (id_of b)).1 (sym o)) refl, holds), rest)
        | inr fails ↦ rw fails rest
      ]

  -- Whether a record with an ID is in a list.
  abbrev pub is_listed : Bytes → List A → Bool
  is_listed k [] = false
  is_listed k (a ∷ more) = same_bytes (id_of a) k || is_listed k more

  -- What stands in a directory and passes the test is among the matches.
  pub is_listed-matches :
      (test : A → Bool) (k : Bytes) (m : List (Bytes × A)) (a : A)
      → IsDirectory id_of m
      → lookup k m ≡ some a
      → test a ≡ true
      → is_listed k (matches test (records m)) ≡ true
  is_listed-matches test k [] a d e passes = cc
  is_listed-matches test k ((l, b) ∷ m) a (o, behind, d) e passes =
      elim (Bool-cases (same_bytes l k)) [
        | inl same ↦
            let is : b ≡ a = ground arith in
            let holds : test b ≡ true = ap test is ∙ passes in
            let named : same_bytes (id_of b) k ≡ true = ap (λ i. same_bytes i k) o ∙ same in
            rw (holds, named) refl
        | inr other ↦
            let there = is_listed-matches test k m a d (ground arith) passes in
            elim (Bool-cases (test b)) [
              | inl holds ↦ rw holds (ground (arith, there))
              | inr fails ↦ rw fails there
            ]
      ]

  -- Where no record passes the test, no record of the directory does.
  pub first_match-none :
      (test : A → Bool) (k : Bytes) (m : List (Bytes × A)) (a : A)
      → first_match test (records m) ≡ none
      → lookup k m ≡ some a
      → test a ≡ false
  first_match-none test k [] a e there = cc
  first_match-none test k ((l, b) ∷ m) a e there = elim (Bool-cases (test b)) [
    | inl holds ↦ absurd (ground (arith, holds))
    | inr fails ↦ elim (Bool-cases (same_bytes l k)) [
      | inl same ↦ let is : b ≡ a = ground arith in ap test (sym is) ∙ fails
      | inr other ↦ first_match-none test k m a (ground arith) (ground arith)
    ]
  ]

  -- What is found after a write: the record that was written, or one from before.
  pub lookup_written :
      {P : Type 0} (f : A) (m : List (Bytes × A)) (k : Bytes) (g : A)
      → lookup k (write_file (id_of f) f m) ≡ some g
      → (id_of f ≡ k → f ≡ g → P)
      → (same_bytes (id_of f) k ≡ false → lookup k m ≡ some g → P)
      → P
  lookup_written f m k g e new old = elim (Bool-cases (same_bytes (id_of f) k)) [
    | inl same ↦
        let it : ◌≡◌ {A = Option A} (some f) (some g) =
          sym (lookup-write_file k (id_of f) f m ∙ rw same refl) ∙ e in
        new ((same_bytes_iff (id_of f) k).0 same) (ground arith)
    | inr other ↦ old other (sym (lookup-write_file k (id_of f) f m ∙ rw other refl) ∙ e)
  ]
