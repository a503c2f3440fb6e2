-- ===== src/Products/Service/Created.antt =====
-- What Create writes.
use spark_server.Base.{◌≡◌, refl, sym, ap, ◌∙◌, false, [], Bytes, same_bytes, Option, none, some}
use spark_server.Base.Maps.{lookup}
use spark_server.Products.Models.{Product, CreateRequest}
use spark_server.Records.Files.{write_file}
use spark_server.Records.Effects.{
  product, not_found, conflict, World, ◌>>=◌, ◌>>◌, pure, refuse_when, called, optional, now,
  fresh_id,
}
use spark_server.Records.{products, create}
use spark_server.Records.Calls.{
  Ends, Ends-continue, Ends-weaken, Ends-guard, Ends-if, Ends-refuse, optional-Ends, create-Ends,
  SameRecords, SameRecords-called, same_records,
}
use spark_server.Products.Service.{
  Service, get_by_slug, create_product, create_new, is_there, new_product, requested_slug,
}
use spark_server.Products.Service.Unique.{
  IsShelf, IsFreeSlug, KeepsShelf, written-IsShelf, SameRecords-IsShelf,
}
use spark_server.Products.Service.Updated.{IsSearched, get_by_slug-IsSearched}

module _ (service : Service) where
  -- Create writes one new product, and changes nothing else.
  pub record IsCreated (request : CreateRequest) (w : World) (p : Product) (v : World)
      : Type 0 where
    pub owner_is : p.owner_id ≡ request.owner_id
    pub slug_is : p.slug ≡ requested_slug service request
    pub free : IsFreeSlug p.slug p.id w.products
    pub new : lookup p.id w.products ≡ none
    pub stored : v.products ≡ write_file p.id p w.products

  none_there : (o : Option Product) → is_there o ≡ false → o ≡ none
  none_there none h = refl
  none_there (some p) h = cc

  create_new-IsCreated :
      (request : CreateRequest) (id : Bytes) (w v : World)
      → SameRecords w v
      → ((i : Bytes) → IsFreeSlug (requested_slug service request) i w.products)
      → Ends
          (IsCreated request w)
          (SameRecords w)
          (create_new service request (requested_slug service request) id v)
  unfolding create_new now
  create_new-IsCreated request id w v same free =
      let made =
        new_product service request id (requested_slug service request)
          (service.env.clock v.calls) in
      let once = SameRecords-called w v same in
      let twice = SameRecords-called w (called v) once in
      let thrice = SameRecords-called w (called (called v)) twice in
      Ends-continue (λ _ u. IsCreated request w made u) (IsCreated request w) (SameRecords w)
        (create service.env products made (called v)) (λ _. pure made)
        (create-Ends service.env products (λ _ u. IsCreated request w made u) (SameRecords w) made
          (called v) twice thrice
          (λ new. record {
            owner_is = refl;
            slug_is = refl;
            free = free id;
            new = ap (lookup id) (sym same.products) ∙ new;
            stored = ap (write_file id made) same.products;
          }))
        (λ _ u h. h)

  searched-IsCreated :
      (request : CreateRequest) (id : Bytes) (w v : World)
      → IsShelf w
      → SameRecords w v
      → Ends (IsCreated request w) (SameRecords w) (
          (do
            by_slug ← optional product (get_by_slug service (requested_slug service request))
            refuse_when (is_there by_slug) (conflict product)
            create_new service request (requested_slug service request) id)
            v)
  searched-IsCreated request id w v s same =
      let slug = requested_slug service request in
      Ends-continue (IsSearched slug w) (IsCreated request w) (SameRecords w) _ _
        (get_by_slug-IsSearched service slug w v s.directory same)
        (λ o u (same', absent, there).
          Ends-guard service.env (IsCreated request w) (SameRecords w) (is_there o)
            (conflict product) (create_new service request slug id) u same'
            (λ free. create_new-IsCreated request id w u same' (absent (none_there o free))))

  pub create-IsCreated :
      (request : CreateRequest) (w : World)
      → IsShelf w
      → Ends (IsCreated request w) (SameRecords w) (create_product service request w)
  unfolding create_product fresh_id
  create-IsCreated request w s =
      let slug = requested_slug service request in
      let T = IsCreated request w in
      let Q = SameRecords w in
      let R = λ (_ : Unit {0}). Q in
      Ends-continue R T Q _ _
        (Ends-refuse service.env R Q (same_bytes request.owner_id []) (not_found product) w
          (same_records w) (same_records w))
        (λ _ v h.
          Ends-continue R T Q _ _
            (Ends-refuse service.env R Q (same_bytes slug []) (not_found product) v h h)
            (λ _ v h.
              Ends-continue (λ _ u. Q u) T Q _ _
                (Ends-if service.env (λ _ u. Q u) Q (same_bytes request.id [])
                  (fresh_id service.env) (pure request.id) v (λ _. SameRecords-called w v h)
                  (λ _. h))
                (λ id v h.
                  let once = SameRecords-called w v h in
                  let twice = SameRecords-called w (called v) once in
                  Ends-continue (λ _ u. Q u) T Q _ _
                    (optional-Ends service.env products (λ _ u. Q u) Q id v (once, once)
                      (twice, twice) (λ a e. twice))
                    (λ o v h.
                      Ends-continue R T Q _ _
                        (Ends-refuse service.env R Q (is_there o) (conflict product) v h h)
                        (λ _ v h. searched-IsCreated request id w v s h)))))

  pub create-KeepsShelf : (request : CreateRequest) → KeepsShelf (create_product service request)
  create-KeepsShelf request w s =
      Ends-weaken (IsCreated request w) (λ _ v. IsShelf v) (SameRecords w) IsShelf
        (create_product service request w) (λ p v c. written-IsShelf p w v s c.free c.stored)
        (λ v same. SameRecords-IsShelf w v same s) (create-IsCreated request w s)
