-- ===== src/Records/Files/Directory.antt =====
-- A directory stays in the order of its file names, with each record under its own ID, and is a map.
use spark_server.Base.{
  length, length-append, ◌≡◌, refl, ap, true, false, List, [], ◌∷◌, ◌++◌, Bytes, codes, same_bytes,
  same_bytes_iff, none, some, if◌then◌else◌, arith, All, Bool-cases, inl, inr, subst,
}
use spark_server.Base.Maps.{lookup, remove, IsMap}
use spark_server.Records.Files.{before, file_name, write_file}

before_trans : (x y z : Bytes) → before x y ≡ true → before y z ≡ true → before x z ≡ true
before_trans [] [] z h k = cc
before_trans [] (y ∷ ys) [] h k = cc
before_trans [] (y ∷ ys) (z ∷ zs) h k = refl
before_trans (x ∷ xs) [] z h k = cc
before_trans (x ∷ xs) (y ∷ ys) [] h k = cc
before_trans (x ∷ xs) (y ∷ ys) (z ∷ zs) h k = ground (arith, before_trans xs ys zs)

before_irrefl : (x : Bytes) → before x x ≡ false
before_irrefl [] = refl
before_irrefl (x ∷ xs) = ground (arith, before_irrefl xs)

before_or_after : (x y : Bytes) → before x y ≡ false → before y x ≡ false → x ≡ y
before_or_after [] [] h k = refl
before_or_after [] (y ∷ ys) h k = cc
before_or_after (x ∷ xs) [] h k = cc
before_or_after (x ∷ xs) (y ∷ ys) h k = ground (arith, before_or_after xs ys)

append_cancel : (x y s : Bytes) → x ++ s ≡ y ++ s → x ≡ y
append_cancel [] [] s e = refl
append_cancel [] (y ∷ ys) s e = absurd (omega (arith, ap length e, length-append (y ∷ ys) s))
append_cancel (x ∷ xs) [] s e = absurd (omega (arith, ap length e, length-append (x ∷ xs) s))
append_cancel (x ∷ xs) (y ∷ ys) s e = ground (arith, append_cancel xs ys s)

-- Of two IDs that differ, one file name is before the other.
before_total :
    (x y : Bytes)
    → same_bytes x y ≡ false
    → before (file_name y) (file_name x) ≡ false
    → before (file_name x) (file_name y) ≡ true
before_total x y h k = elim (Bool-cases (before (file_name x) (file_name y))) [
  | inl holds ↦ holds
  | inr fails ↦
      let same =
        append_cancel x y (codes ".json") (before_or_after (file_name x) (file_name y) fails k) in
      absurd (ground (arith, (same_bytes_iff x y).1 same))
]

module _ {A : Type 0} (id_of : A → Bytes) where
  abbrev pub IsBehind : Bytes → Bytes × A → Type 0
  IsBehind l (k, a) = before (file_name l) (file_name k) ≡ true

  abbrev pub IsDirectory : List (Bytes × A) → Type 0
  IsDirectory [] = Unit
  IsDirectory ((l, b) ∷ m) = (id_of b ≡ l) × All (IsBehind l) m × IsDirectory m

  -- What is behind an ID is behind each ID before it, and has another ID.
  IsBehind-All :
      (k l : Bytes) (m : List (Bytes × A))
      → before (file_name k) (file_name l) ≡ true
      → All (IsBehind l) m
      → All (IsBehind k) m
  IsBehind-All k l [] h a = tt
  IsBehind-All k l ((j, b) ∷ m) h (p, a) =
      (before_trans (file_name k) (file_name l) (file_name j) h p, IsBehind-All k l m h a)

  lookup_behind : (l : Bytes) (m : List (Bytes × A)) → All (IsBehind l) m → lookup l m ≡ none
  lookup_behind l [] a = refl
  lookup_behind l ((j, b) ∷ m) (p, a) = elim (Bool-cases (same_bytes j l)) [
    | inl same ↦
        let is = (same_bytes_iff j l).0 same in
        let itself : before (file_name l) (file_name l) ≡ true =
          subst (λ i. before (file_name l) (file_name i) ≡ true) is p in
        absurd (ground (arith, before_irrefl (file_name l)))
    | inr other ↦ rw other (lookup_behind l m a)
  ]

  pub IsDirectory-IsMap : (m : List (Bytes × A)) → IsDirectory m → IsMap m
  IsDirectory-IsMap [] h = tt
  IsDirectory-IsMap ((l, b) ∷ m) (o, a, h) = (lookup_behind l m a, IsDirectory-IsMap m h)

  write_file-IsBehind :
      (k id : Bytes) (a : A) (m : List (Bytes × A))
      → before (file_name k) (file_name id) ≡ true
      → All (IsBehind k) m
      → All (IsBehind k) (write_file id a m)
  write_file-IsBehind k id a [] h b = (h, tt)
  write_file-IsBehind k id a ((l, c) ∷ m) h b = ground (arith, write_file-IsBehind k id a m h b.1)

  pub write_file-IsDirectory :
      (a : A) (m : List (Bytes × A)) → IsDirectory m → IsDirectory (write_file (id_of a) a m)
  write_file-IsDirectory a [] h = (refl, tt, tt)
  write_file-IsDirectory a ((l, c) ∷ m) (o, b, h) = elim (Bool-cases (same_bytes l (id_of a))) [
    | inl same ↦
        let is = (same_bytes_iff l (id_of a)).0 same in
        rw same (refl, subst (λ i. All (IsBehind i) m) is b, h)
    | inr other ↦ elim (Bool-cases (before (file_name (id_of a)) (file_name l))) [
      | inl first ↦ rw (other, first) (refl, (first, IsBehind-All (id_of a) l m first b), (o, b, h))
      | inr later ↦
          rw (other, later)
            (
              o,
              write_file-IsBehind l (id_of a) a m (before_total l (id_of a) other later) b,
              write_file-IsDirectory a m h,
            )
    ]
  ]

  remove-IsBehind :
      (l id : Bytes) (m : List (Bytes × A)) → All (IsBehind l) m → All (IsBehind l) (remove id m)
  remove-IsBehind l id [] h = tt
  remove-IsBehind l id ((k, b) ∷ m) (p, h) = ground (arith, remove-IsBehind l id m h)

  pub remove-IsDirectory :
      (id : Bytes) (m : List (Bytes × A)) → IsDirectory m → IsDirectory (remove id m)
  remove-IsDirectory id [] h = tt
  remove-IsDirectory id ((l, b) ∷ m) (o, a, h) = elim (Bool-cases (same_bytes l id)) [
    | inl same ↦ rw same (remove-IsDirectory id m h)
    | inr other ↦ rw other (o, remove-IsBehind l id m a, remove-IsDirectory id m h)
  ]

-- A file that is written is found under its ID, and the others are as they were.
pub lookup-write_file :
    {A : Type 0} (j k : Bytes) (a : A) (m : List (Bytes × A))
    → lookup j (write_file k a m) ≡ (if same_bytes k j then some a else lookup j m)
lookup-write_file j k a [] = refl
lookup-write_file j k a ((l, b) ∷ m) =
    ground
      (arith, lookup-write_file j k a m, same_bytes_iff l k, same_bytes_iff l j, same_bytes_iff k j)
