-- ===== src/Products/Service/Updated.antt =====
-- What Update writes.
use spark_server.Base.{
  ◌≡◌, refl, sym, ap, ◌∙◌, true, false, List, [], Bytes, same_bytes, same_bytes_iff, Option, none,
  some, arith,
}
use spark_server.Base.Maps.{lookup}
use spark_server.Products.Models.{Product, UpdateRequest}
use spark_server.Products.Slugs.{clean_slug}
use spark_server.Records.Files.{write_file, records}
use spark_server.Records.Matches.{first_match-none, first_match-lookup}
use spark_server.Records.Effects.{product, conflict, World, pure, called, optional, now}
use spark_server.Records.{products, first_match, save}
use spark_server.Records.Calls.{
  Ends, Ends-continue, Ends-weaken, Ends-guard, Ends-if, optional_first-Ends, save-Ends,
  SameRecords, SameRecords-called,
}
use spark_server.Products.Service.{
  Service, get_by_slug, update, with_slug, reslugged, is_other, given_text,
}
use spark_server.Products.Service.Found.{id_of, HasProducts, IsOwned, get-IsOwned, not-false}
use spark_server.Products.Service.Unique.{
  IsUnique, IsShelf, IsFreeSlug, KeepsShelf, written-IsShelf, SameRecords-IsShelf,
}

-- What a search by slug has found.
abbrev pub IsSearched : Bytes → World → Option Product → World → Type 0
IsSearched slug w o v =
    SameRecords w v
    × (o ≡ none → (id : Bytes) → IsFreeSlug slug id w.products)
    × ((p : Product) → o ≡ some p → (lookup p.id w.products ≡ some p) × (p.slug ≡ slug))

module _ (service : Service) where
  pub get_by_slug-IsSearched :
      (slug : Bytes) (w v : World)
      → HasProducts w
      → SameRecords w v
      → Ends (IsSearched slug w) (SameRecords w) (optional product (get_by_slug service slug) v)
  unfolding get_by_slug
  get_by_slug-IsSearched slug w v dir same =
      let once = SameRecords-called w v same in
      let twice = SameRecords-called w (called v) once in
      let test = λ (q : Product). same_bytes q.slug slug in
      optional_first-Ends service.env products (IsSearched slug w) (SameRecords w) test v once twice
        (λ o e.
          let found : first_match test (records w.products) ≡ o =
            ap (λ m. first_match test (records m)) (sym same.products) ∙ e in
          (
            twice,
            (λ absent id l q there is_slug.
                let passes : test q ≡ true = (same_bytes_iff q.slug slug).1 (sym is_slug) in
                let fails : test q ≡ false =
                  first_match-none id_of test l w.products q (found ∙ absent) there in
                absurd (ground arith)),
            λ p is.
                let (there, passes) = first_match-lookup id_of test w.products p dir (found ∙ is) in
                (there, (same_bytes_iff p.slug slug).0 passes),
          ))

  slug_free :
      (slug : Bytes) (p : Product) (o : Option Product) (m : List (Bytes × Product))
      → IsUnique m
      → (o ≡ none → (id : Bytes) → IsFreeSlug slug id m)
      → ((q : Product) → o ≡ some q → (lookup q.id m ≡ some q) × (q.slug ≡ slug))
      → is_other p o ≡ false
      → IsFreeSlug slug p.id m
  slug_free slug p none m unique absent there same l q at_l is_slug =
      absent refl p.id l q at_l is_slug
  slug_free slug p (some e) m unique absent there same l q at_l is_slug =
      let (at_e, slug_e) = there e refl in
      unique l e.id q e at_l at_e (sym is_slug ∙ sym slug_e)
      ∙ (same_bytes_iff e.id p.id).0 (not-false (same_bytes e.id p.id) same)

  -- The product with its new slug, and the records are as they were.
  pub record IsReslugged (p : Product) (w : World) (q : Product) (v : World) : Type 0 where
    pub id_is : q.id ≡ p.id
    pub owner_is : q.owner_id ≡ p.owner_id
    pub free : IsFreeSlug q.slug q.id w.products
    pub same : SameRecords w v

  reslugged-IsReslugged :
      (requested : Bytes) (p : Product) (w v : World)
      → IsShelf w
      → SameRecords w v
      → Ends (IsReslugged p w) (SameRecords w) (reslugged service requested p v)
  reslugged-IsReslugged requested p w v s same =
      let slug = clean_slug service.unicode requested in
      Ends-continue (IsSearched slug w) (IsReslugged p w) (SameRecords w) _ _
        (get_by_slug-IsSearched slug w v s.directory same)
        (λ o u (same', absent, there).
          Ends-guard service.env (IsReslugged p w) (SameRecords w) (is_other p o) (conflict product)
            (pure (record p { slug = slug })) u same'
            (λ free. record {
              id_is = refl;
              owner_is = refl;
              free = slug_free slug p o w.products s.unique absent there free;
              same = same';
            }))

  with_slug-IsReslugged :
      (requested : Bytes) (p : Product) (w v : World)
      → IsShelf w
      → lookup p.id w.products ≡ some p
      → SameRecords w v
      → Ends (IsReslugged p w) (SameRecords w) (with_slug service requested p v)
  unfolding with_slug
  with_slug-IsReslugged requested p w v s there same =
      Ends-if service.env (IsReslugged p w) (SameRecords w) (same_bytes requested []) (pure p)
        (reslugged service requested p) v
        (λ _. record {
          id_is = refl;
          owner_is = refl;
          free = λ l q at_l is_slug. s.unique l p.id q p at_l there (sym is_slug);
          same = same;
        })
        (λ _. reslugged-IsReslugged requested p w v s same)

  -- Update writes one product over one of the user's, and changes nothing else.
  pub record IsUpdated (owner : Bytes) (w : World) (q : Product) (v : World) : Type 0 where
    pub old : Product
    pub there : lookup old.id w.products ≡ some old
    pub owned : old.owner_id ≡ owner
    pub id_is : q.id ≡ old.id
    pub owner_is : q.owner_id ≡ owner
    pub free : IsFreeSlug q.slug q.id w.products
    pub stored : v.products ≡ write_file q.id q w.products

  pub update-IsUpdated :
      (owner id_or_slug : Bytes) (request : UpdateRequest) (w : World)
      → IsShelf w
      → Ends (IsUpdated owner w) (SameRecords w) (update service owner id_or_slug request w)
  unfolding update now
  update-IsUpdated owner id_or_slug request w s =
      Ends-continue (IsOwned owner w) (IsUpdated owner w) (SameRecords w) _ _
        (get-IsOwned service owner id_or_slug w s.directory)
        (λ p v o.
          Ends-continue (IsReslugged p w) (IsUpdated owner w) (SameRecords w) _ _
            (with_slug-IsReslugged request.slug p w v s o.there o.same)
            (λ q u r.
              let updated = record q {
                name = given_text request.name q.name;
                description = given_text request.description q.description;
                updated_at = service.env.clock u.calls;
              } in
              let once = SameRecords-called w u r.same in
              let twice = SameRecords-called w (called u) once in
              let thrice = SameRecords-called w (called (called u)) twice in
              Ends-continue (λ _ x. IsUpdated owner w updated x) (IsUpdated owner w) (SameRecords w)
                (save service.env products updated (called u)) (λ _. pure updated)
                (save-Ends service.env products (λ _ x. IsUpdated owner w updated x) (SameRecords w)
                  updated (called u) twice thrice
                  (record {
                    old = p;
                    there = o.there;
                    owned = o.owned;
                    id_is = r.id_is;
                    owner_is = r.owner_is ∙ o.owned;
                    free = r.free;
                    stored = ap (write_file updated.id updated) r.same.products;
                  }))
                (λ _ x h. h)))

  pub update-KeepsShelf :
      (owner id_or_slug : Bytes) (request : UpdateRequest)
      → KeepsShelf (update service owner id_or_slug request)
  update-KeepsShelf owner id_or_slug request w s =
      Ends-weaken (IsUpdated owner w) (λ _ v. IsShelf v) (SameRecords w) IsShelf
        (update service owner id_or_slug request w)
        (λ q v u. written-IsShelf q w v s u.free u.stored)
        (λ v same. SameRecords-IsShelf w v same s) (update-IsUpdated owner id_or_slug request w s)
