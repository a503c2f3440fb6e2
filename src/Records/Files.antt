-- ===== src/Records/Files.antt =====
-- internal/jsonfile/store.go: a directory of JSON documents, as the list of its record IDs and
-- records in the order of the file names, which is the order that os.ReadDir and List give them in.
pub mod Directory
use spark_server.Base.{
  ℕ, Bool, true, false, ◌||◌, List, [], ◌∷◌, ◌++◌, Bytes, codes, same_bytes, if◌then◌else◌, ltb,
  ◌==◌,
}
use spark_server.Base.Maps.{lookup}

-- The order of strings.
abbrev pub before : Bytes → Bytes → Bool
before [] [] = false
before [] (y ∷ ys) = true
before (x ∷ xs) [] = false
before (x ∷ xs) (y ∷ ys) = let rest = before xs ys in if x == y then rest else ltb x y

abbrev pub file_name : Bytes → Bytes
file_name id = id ++ codes ".json"

-- `strings.ContainsAny(id, "/\\")`.
unfoldable pub has_slash : Bytes → Bool
has_slash [] = false
has_slash (c ∷ cs) = (c == 0x2f || c == 0x5c) || has_slash cs

-- Whether `validateID` refuses an ID.
unfoldable pub bad_id : Bytes → Bool
unfolding has_slash
bad_id id =
    (same_bytes id [] || (same_bytes id (codes ".") || same_bytes id (codes ".."))) || has_slash id

module _ {A : Type 0} where
  -- `writeFile`: the document is written beside the others and renamed, so the file holds the old
  -- record or the new one.
  abbrev pub write_file : Bytes → A → List (Bytes × A) → List (Bytes × A)
  write_file id a [] = (id, a) ∷ []
  write_file id a ((l, b) ∷ m) =
      let rest = write_file id a m in
      if same_bytes l id
      then (id, a) ∷ m
      else if before (file_name id) (file_name l)
      then (id, a) ∷ (l, b) ∷ m
      else (l, b) ∷ rest

  abbrev pub records : List (Bytes × A) → List A
  records [] = []
  records ((l, b) ∷ m) = b ∷ records m
