-- ===== src/Products/Service/Found.antt =====
-- What a lookup of a product finds.
use spark_server.Base.{
  ◌≡◌, refl, sym, ap, ◌∙◌, Bool, true, false, not, [], Bytes, same_bytes, same_bytes_iff, Option,
  none, some, arith,
}
use spark_server.Base.Maps.{lookup}
use spark_server.Products.Models.{Product}
use spark_server.Records.Files.Directory.{IsDirectory}
use spark_server.Records.Matches.{lookup-id, first_match-lookup}
use spark_server.Records.Effects.{product, not_found, World, ◌>>=◌, pure, called, optional}
use spark_server.Records.Files.{records}
use spark_server.Records.{products, get_by_id, first_match}
use spark_server.Records.Calls.{
  Ends, Ends-continue, Ends-guard, optional-Ends, get_first-Ends, SameRecords, SameRecords-called,
  same_records,
}
use spark_server.Products.Service.{Service, get, product_by_id_or_slug, by_id_found, get_by_slug}

abbrev pub id_of : Product → Bytes
id_of p = p.id

abbrev pub HasProducts : World → Type 0
HasProducts w = IsDirectory id_of w.products

-- A product as it is stored, and no record has changed.
pub record IsStored (w : World) (p : Product) (v : World) : Type 0 where
  pub there : lookup p.id w.products ≡ some p
  pub same : SameRecords w v

-- One that is the user's.
pub record IsOwned (owner : Bytes) (w : World) (p : Product) (v : World) : Type 0 where
  pub owned : p.owner_id ≡ owner
  pub there : lookup p.id w.products ≡ some p
  pub same : SameRecords w v

pub not-false : (b : Bool) → not b ≡ false → b ≡ true
not-false b h = ground arith

module _ (service : Service) where
  by_id_found-IsStored :
      (slug : Bytes) (w v : World) (o : Option Product)
      → SameRecords w v
      → HasProducts w
      → ((p : Product) → o ≡ some p → lookup p.id w.products ≡ some p)
      → Ends (IsStored w) (SameRecords w) (by_id_found service slug o v)
  unfolding get_by_slug
  by_id_found-IsStored slug w v (some p) same dir there = record {
    there = there p refl;
    same = same;
  }
  by_id_found-IsStored slug w v none same dir there =
      let once = SameRecords-called w v same in
      let twice = SameRecords-called w (called v) once in
      get_first-Ends service.env products (IsStored w) (SameRecords w) _ v once twice (λ p e.
        record {
          there =
              (first_match-lookup id_of (λ (q : Product). same_bytes q.slug slug) w.products p dir
                (ap (λ m. first_match (λ (q : Product). same_bytes q.slug slug) (records m))
                    (sym same.products)
                  ∙ e)).0;
          same = twice;
        })

  product-IsStored :
      (id_or_slug : Bytes) (w : World)
      → HasProducts w
      → Ends (IsStored w) (SameRecords w) (product_by_id_or_slug service id_or_slug w)
  unfolding product_by_id_or_slug
  product-IsStored id_or_slug w dir =
      let once = SameRecords-called w w (same_records w) in
      let twice = SameRecords-called w (called w) once in
      let P = λ (o : Option Product) (v : World).
        SameRecords w v × ((p : Product) → o ≡ some p → lookup p.id w.products ≡ some p) in
      Ends-guard service.env (IsStored w) (SameRecords w) (same_bytes id_or_slug [])
        (not_found product)
        (do
          o ← optional product (get_by_id service.env products id_or_slug)
          by_id_found service id_or_slug o)
        w (same_records w)
        (λ _.
          Ends-continue P (IsStored w) (SameRecords w)
            (optional product (get_by_id service.env products id_or_slug) w) _
            (optional-Ends service.env products P (SameRecords w) id_or_slug w
              ((once, λ d e. cc), once) ((twice, λ d e. cc), twice)
              (λ p e. (
                twice,
                λ q f.
                    ap (λ i. lookup i w.products)
                      (lookup-id id_of id_or_slug w.products q dir (e ∙ f))
                    ∙ e
                    ∙ f,
              )))
            (λ o v (same, there). by_id_found-IsStored id_or_slug w v o same dir there))

  -- Get, by an ID or a slug, gives a product of the user as it is stored, and changes no record.
  pub get-IsOwned :
      (owner id_or_slug : Bytes) (w : World)
      → HasProducts w
      → Ends (IsOwned owner w) (SameRecords w) (get service owner id_or_slug w)
  unfolding get
  get-IsOwned owner id_or_slug w dir =
      Ends-continue (IsStored w) (IsOwned owner w) (SameRecords w) _ _
        (product-IsStored id_or_slug w dir)
        (λ p v s.
          Ends-guard service.env (IsOwned owner w) (SameRecords w)
            (not (same_bytes p.owner_id owner)) (not_found product) (pure p) v s.same
            (λ mine. record {
              owned =
                  (same_bytes_iff p.owner_id owner).0
                    (not-false (same_bytes p.owner_id owner) mine);
              there = s.there;
              same = s.same;
            }))
