-- ===== src/Products/Service/Unique.antt =====
-- No two products have one slug.
use spark_server.Base.{◌≡◌, sym, ap, ◌∙◌, List, Bytes, some, arith, subst}
use spark_server.Base.Maps.{lookup, remove, lookup-remove}
use spark_server.Products.Models.{Product}
use spark_server.Records.Files.{write_file}
use spark_server.Records.Files.Directory.{IsDirectory, write_file-IsDirectory, remove-IsDirectory}
use spark_server.Records.Matches.{lookup_written}
use spark_server.Records.Effects.{World, M}
use spark_server.Records.Calls.{Ends, SameRecords}
use spark_server.Products.Service.Found.{id_of, HasProducts}

-- Products with one slug have one ID.
abbrev pub IsUnique : List (Bytes × Product) → Type 0
IsUnique m =
    (k l : Bytes) (p q : Product)
    → lookup k m ≡ some p
    → lookup l m ≡ some q
    → p.slug ≡ q.slug
    → k ≡ l

pub record IsShelf (w : World) : Type 0 where
  pub directory : HasProducts w
  pub unique : IsUnique w.products

-- Any stored product with this slug has this ID.
abbrev pub IsFreeSlug : Bytes → Bytes → List (Bytes × Product) → Type 0
IsFreeSlug slug id m = (l : Bytes) (q : Product) → lookup l m ≡ some q → slug ≡ q.slug → l ≡ id

write_file-IsUnique :
    (p : Product) (m : List (Bytes × Product))
    → IsUnique m
    → IsFreeSlug p.slug p.id m
    → IsUnique (write_file p.id p m)
write_file-IsUnique p m unique free k l a b e f same =
    lookup_written id_of p m k a e
      (λ at_k is_a.
        lookup_written id_of p m l b f (λ at_l is_b. sym at_k ∙ at_l)
          (λ other old. sym at_k ∙ sym (free l b old (ap (λ (c : Product). c.slug) is_a ∙ same))))
      (λ other old.
        lookup_written id_of p m l b f
          (λ at_l is_b. free k a old (ap (λ (c : Product). c.slug) is_b ∙ sym same) ∙ at_l)
          (λ other' old'. unique k l a b old old' same))

pub written-IsShelf :
    (p : Product) (w v : World)
    → IsShelf w
    → IsFreeSlug p.slug p.id w.products
    → v.products ≡ write_file p.id p w.products
    → IsShelf v
written-IsShelf p w v s free stored = record {
  directory =
      subst (IsDirectory id_of) (sym stored)
        (write_file-IsDirectory id_of p w.products s.directory);
  unique = subst IsUnique (sym stored) (write_file-IsUnique p w.products s.unique free);
}

pub removed-IsShelf :
    (id : Bytes) (w v : World) → IsShelf w → v.products ≡ remove id w.products → IsShelf v
removed-IsShelf id w v s stored = record {
  directory =
      subst (IsDirectory id_of) (sym stored) (remove-IsDirectory id_of id w.products s.directory);
  unique =
      subst IsUnique (sym stored)
        (λ k l p q e f same. s.unique k l p q (kept k p e) (kept l q f) same);
}
  where
    kept :
        (k : Bytes) (p : Product)
        → lookup k (remove id w.products) ≡ some p
        → lookup k w.products ≡ some p
    kept k p e = ground (arith, lookup-remove k id w.products)

pub SameRecords-IsShelf : (w v : World) → SameRecords w v → IsShelf w → IsShelf v
SameRecords-IsShelf w v same s = record {
  directory = subst (IsDirectory id_of) (sym same.products) s.directory;
  unique = subst IsUnique (sym same.products) s.unique;
}

-- A call that keeps the slugs apart, whether it fails or not.
abbrev pub KeepsShelf : {A : Type 0} → M A → Type 0
KeepsShelf m = (w : World) → IsShelf w → Ends (λ _ v. IsShelf v) IsShelf (m w)
