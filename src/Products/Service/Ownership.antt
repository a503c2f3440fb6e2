-- ===== src/Products/Service/Ownership.antt =====
-- What the operations leave: slugs that differ, and the products of others.
use spark_server.Base.{
  ◌≡◌, ◌≢◌, Result, ok, err, sym, ap, ◌∙◌, List, [], ◌∷◌, Bytes, same_bytes, same_bytes_iff, Option,
  some, arith, Bool-cases, inl, inr, subst,
}
use spark_server.Base.Maps.{lookup, remove, lookup-remove}
use spark_server.Products.Models.{Product, ProductDevice, CreateRequest, UpdateRequest}
use spark_server.Records.Files.Directory.{IsDirectory, lookup-write_file}
use spark_server.Records.Effects.{Error, World}
use spark_server.Records.{products}
use spark_server.Records.Calls.{Ends, Ends-continue, Ends-weaken, SameRecords}
use spark_server.Products.Service.{Service, create_product, update}
use spark_server.Products.Service.Found.{id_of, HasProducts, IsOwned, get-IsOwned}
use spark_server.Products.Service.Unique.{IsUnique, IsShelf, KeepsShelf, removed-IsShelf}
use spark_server.Products.Service.Updated.{IsUpdated, update-IsUpdated, update-KeepsShelf}
use spark_server.Products.Service.Created.{create-KeepsShelf}
use spark_server.Products.Service.{delete_product, delete_links, get_by_product_id}
use spark_server.Records.{delete, links}
use spark_server.Records.Effects.{ignoring, dropped}
use spark_server.Records.Calls.{delete-Ends, get_all-Ends}

abbrev SameProducts : World → World → Type 0
SameProducts w v = v.products ≡ w.products

-- The products of others are as they were.
abbrev pub KeepsProducts : Bytes → World → World → Type 0
KeepsProducts owner w v =
    (k : Bytes) (p : Product)
    → lookup k w.products ≡ some p
    → p.owner_id ≢ owner
    → lookup k v.products ≡ some p

module _ (service : Service) where
  dropped-Same :
      {A : Type 0} (w : World) (r : Result Error A × World)
      → Ends (λ _ u. SameProducts w u) (SameProducts w) r
      → Ends (λ _ u. SameProducts w u) (SameProducts w) (dropped r)
  dropped-Same w (ok a, v) h = h
  dropped-Same w (err e, v) h = h

  delete_links-Same :
      (all : List ProductDevice) (w v : World)
      → SameProducts w v
      → Ends (λ _ u. SameProducts w u) (SameProducts w) (delete_links service all v)
  delete_links-Same [] w v same = same
  delete_links-Same (l ∷ more) w v same =
      Ends-continue (λ _ u. SameProducts w u) (λ _ u. SameProducts w u) (SameProducts w)
        (ignoring (delete service.env links l.id) v) (λ _. delete_links service more)
        (dropped-Same w (delete service.env links l.id v) (
          delete-Ends service.env links (λ _ u. SameProducts w u) (SameProducts w) l.id v same same
            same))
        (λ _ u kept. delete_links-Same more w u kept)

  -- Delete removes one product of the user's.
  pub record IsDeleted (owner : Bytes) (w v : World) : Type 0 where
    pub old : Product
    pub there : lookup old.id w.products ≡ some old
    pub owned : old.owner_id ≡ owner
    pub stored : v.products ≡ remove old.id w.products

  delete-IsDeleted :
      (owner id_or_slug : Bytes) (w : World)
      → HasProducts w
      → Ends
          (λ _ v. IsDeleted owner w v)
          (SameProducts w)
          (delete_product service owner id_or_slug w)
  unfolding delete_product get_by_product_id
  delete-IsDeleted owner id_or_slug w dir =
      let Q = SameProducts w in
      let T = λ (_ : Unit {0}) (v : World). IsDeleted owner w v in
      Ends-continue (IsOwned owner w) T Q _ _
        (Ends-weaken (IsOwned owner w) (IsOwned owner w) (SameRecords w) Q _ (λ _ _ h. h)
          (λ _ h. h.products) (get-IsOwned service owner id_or_slug w dir))
        (λ p v o.
          Ends-continue (λ _ u. Q u) T Q _ _
            (get_all-Ends service.env links (λ _ u. Q u) Q
              (λ (l : ProductDevice). same_bytes l.product_id p.id) v o.same.products
              o.same.products o.same.products)
            (λ all u same.
              Ends-continue (λ _ x. Q x) T Q _ _ (delete_links-Same all w u same)
                (λ _ x kept. delete-Ends service.env products T Q p.id x kept kept (record {
                  old = p;
                  there = o.there;
                  owned = o.owned;
                  stored = ap (remove p.id) kept;
                }))))

  delete-KeepsShelf :
      (owner id_or_slug : Bytes) → KeepsShelf (delete_product service owner id_or_slug)
  delete-KeepsShelf owner id_or_slug w s =
      Ends-weaken (λ _ v. IsDeleted owner w v) (λ _ v. IsShelf v) (SameProducts w) IsShelf
        (delete_product service owner id_or_slug w)
        (λ _ v d. removed-IsShelf d.old.id w v s d.stored) (λ v same. same-IsShelf w v same s)
        (delete-IsDeleted owner id_or_slug w s.directory)
    where
      same-IsShelf : (w v : World) → SameProducts w v → IsShelf w → IsShelf v
      same-IsShelf w v same s = record {
        directory = subst (IsDirectory id_of) (sym same) s.directory;
        unique = subst IsUnique (sym same) s.unique;
      }

  -- Creating, changing and deleting products keeps the slugs of different products different and each
  -- record under its own ID, whatever the requests are and whatever calls fail.
  pub operations-IsShelf :
      (made : CreateRequest) (owner id_or_slug : Bytes) (change : UpdateRequest) (w : World)
      → IsShelf w
      → Ends (λ _ v. IsShelf v) IsShelf (create_product service made w)
        × Ends (λ _ v. IsShelf v) IsShelf (update service owner id_or_slug change w)
        × Ends (λ _ v. IsShelf v) IsShelf (delete_product service owner id_or_slug w)
  operations-IsShelf made owner id_or_slug change w s = (
    create-KeepsShelf service made w s,
    update-KeepsShelf service owner id_or_slug change w s,
    delete-KeepsShelf owner id_or_slug w s,
  )

  user-KeepsProducts :
      (owner id_or_slug : Bytes) (change : UpdateRequest) (w : World)
      → IsShelf w
      → Ends
          (λ _ v. KeepsProducts owner w v)
          (KeepsProducts owner w)
          (update service owner id_or_slug change w)
        × Ends
            (λ _ v. KeepsProducts owner w v)
            (KeepsProducts owner w)
            (delete_product service owner id_or_slug w)
  user-KeepsProducts owner id_or_slug change w s =
      let kept : (v : World) → SameProducts w v → KeepsProducts owner w v =
        λ v same k p there other. ap (lookup k) same ∙ there in
      (
        Ends-weaken (IsUpdated service owner w) (λ _ v. KeepsProducts owner w v) (SameRecords w)
            (KeepsProducts owner w) (update service owner id_or_slug change w)
            (λ q v u k p there other.
              ap (lookup k) u.stored
              ∙ lookup-write_file k q.id q w.products
              ∙ elim (Bool-cases (same_bytes q.id k)) [
                | inr miss ↦ rw miss there
                | inl hit ↦ absurd (
                    other (
                      not_mine owner w u.old p k u.there there
                        (sym u.id_is ∙ (same_bytes_iff q.id k).0 hit) u.owned))
              ])
            (λ v same. kept v same.products) (update-IsUpdated service owner id_or_slug change w s),
        Ends-weaken (λ _ v. IsDeleted owner w v) (λ _ v. KeepsProducts owner w v) (SameProducts w)
            (KeepsProducts owner w) (delete_product service owner id_or_slug w)
            (λ _ v d k p there other.
              ap (lookup k) d.stored
              ∙ lookup-remove k d.old.id w.products
              ∙ elim (Bool-cases (same_bytes d.old.id k)) [
                | inr miss ↦ rw miss there
                | inl hit ↦ absurd (
                    other (
                      not_mine owner w d.old p k d.there there ((same_bytes_iff d.old.id k).0 hit)
                        d.owned))
              ])
            kept (delete-IsDeleted owner id_or_slug w s.directory),
      )
    where
      not_mine :
          (owner : Bytes) (w : World) (old p : Product) (k : Bytes)
          → lookup old.id w.products ≡ some old
          → lookup k w.products ≡ some p
          → old.id ≡ k
          → old.owner_id ≡ owner
          → p.owner_id ≡ owner
      not_mine owner w old p k at_old at_k same owned =
          let both : ◌≡◌ {A = Option Product} (some old) (some p) =
            sym (ap (λ i. lookup i w.products) (sym same) ∙ at_old) ∙ at_k in
          let is : old ≡ p = ground arith in ap (λ (a : Product). a.owner_id) (sym is) ∙ owned

  -- A user who changes or deletes a product, by whatever ID or slug and whatever calls fail, leaves
  -- every product of another user as it was, where the slugs of the products differ.
  pub products_of_others_kept :
      (owner id_or_slug : Bytes) (change : UpdateRequest) (w : World) (k : Bytes) (p : Product)
      → IsShelf w
      → lookup k w.products ≡ some p
      → p.owner_id ≢ owner
      → Ends
          (λ _ v. lookup k v.products ≡ some p)
          (λ v. lookup k v.products ≡ some p)
          (update service owner id_or_slug change w)
        × Ends
            (λ _ v. lookup k v.products ≡ some p)
            (λ v. lookup k v.products ≡ some p)
            (delete_product service owner id_or_slug w)
  products_of_others_kept owner id_or_slug change w k p s there other =
      let (updated, deleted) = user-KeepsProducts owner id_or_slug change w s in
      let K = KeepsProducts owner w in
      let T = λ (v : World). lookup k v.products ≡ some p in
      (
        Ends-weaken (λ _ v. K v) (λ _ v. T v) K T (update service owner id_or_slug change w)
            (λ _ v h. h k p there other) (λ v h. h k p there other) updated,
        Ends-weaken (λ _ v. K v) (λ _ v. T v) K T (delete_product service owner id_or_slug w)
            (λ _ v h. h k p there other) (λ v h. h k p there other) deleted,
      )
