-- ===== src/Firmware/Catalog/Current.antt =====
-- Which firmware of a product is current: never more than one.
use spark_server.Base.{
  ◌≡◌, refl, sym, ap, ◌∙◌, Bool, true, false, ◌&&◌, List, [], ◌∷◌, Bytes, same_bytes,
  same_bytes_iff, some, arith, Bool-cases, inl, inr,
}
use spark_server.Base.Maps.{lookup, remove, lookup-remove}
use spark_server.Firmware.Models.{ProductFirmware}
use spark_server.Firmware.Catalog.{Service, get_by_product_id, clear_one, clear_all, clear_current}
use spark_server.Records.Files.{write_file, records}
use spark_server.Records.Files.Directory.{IsDirectory, write_file-IsDirectory, remove-IsDirectory}
use spark_server.Records.Matches.{lookup_written, is_listed, is_listed-matches}
use spark_server.Records.Effects.{World, called, ◌>>=◌, pure, now}
use spark_server.Records.{firmwares, matches, get_all}
use spark_server.Records.Calls.{Ends, Ends-continue, Ends-weaken, Ends-if, save-Ends, get_all-Ends}

abbrev pub id_of : ProductFirmware → Bytes
id_of f = f.id

abbrev pub is_current : ProductFirmware → Bool
is_current f = f.current

abbrev pub Files : Type 0
Files = List (Bytes × ProductFirmware)

-- The records of one product that are current have one ID.
abbrev pub IsSingle : Files → Type 0
IsSingle m =
    (k l : Bytes) (f g : ProductFirmware)
    → lookup k m ≡ some f
    → lookup l m ≡ some g
    → f.product_id ≡ g.product_id
    → f.current ≡ true
    → g.current ≡ true
    → k ≡ l

pub record IsCatalog (m : Files) : Type 0 where
  pub directory : IsDirectory id_of m
  pub single : IsSingle m

-- Every other current record of the product of `f` would stand under its ID.
abbrev pub IsFree : ProductFirmware → Files → Type 0
IsFree f m =
    (l : Bytes) (g : ProductFirmware)
    → lookup l m ≡ some g
    → f.product_id ≡ g.product_id
    → f.current ≡ true
    → g.current ≡ true
    → l ≡ f.id

-- Only listed records of a product are current.
abbrev pub IsLeft : Bytes → List ProductFirmware → Files → Type 0
IsLeft product_id more m =
    (k : Bytes) (g : ProductFirmware)
    → lookup k m ≡ some g
    → g.product_id ≡ product_id
    → g.current ≡ true
    → is_listed id_of k (matches is_current more) ≡ true

pub write_file-IsCatalog :
    (f : ProductFirmware) (m : Files) → IsCatalog m → IsFree f m → IsCatalog (write_file f.id f m)
write_file-IsCatalog f m c free = record {
  directory = write_file-IsDirectory id_of f m c.directory;
  single = λ k l g h e e' same current current'.
      lookup_written id_of f m k g e
        (λ at_k is_g.
          lookup_written id_of f m l h e' (λ at_l is_h. sym at_k ∙ at_l)
            (λ other old.
              sym at_k
              ∙ sym (
                  free l h old (ap (λ (a : ProductFirmware). a.product_id) is_g ∙ same)
                    (ap (λ (a : ProductFirmware). a.current) is_g ∙ current) current')))
        (λ other old.
          lookup_written id_of f m l h e'
            (λ at_l is_h.
              free k g old (ap (λ (a : ProductFirmware). a.product_id) is_h ∙ sym same)
                (ap (λ (a : ProductFirmware). a.current) is_h ∙ current') current
              ∙ at_l)
            (λ other' old'. c.single k l g h old old' same current current'));
}

pub remove-IsCatalog : (id : Bytes) (m : Files) → IsCatalog m → IsCatalog (remove id m)
remove-IsCatalog id m c = record {
  directory = remove-IsDirectory id_of id m c.directory;
  single = λ k l f g e e' same current current'.
      c.single k l f g (kept k f e) (kept l g e') same current current';
}
  where
    kept : (k : Bytes) (f : ProductFirmware) → lookup k (remove id m) ≡ some f → lookup k m ≡ some f
    kept k f e = ground (arith, lookup-remove k id m)

-- A record that stops to be current is off the list.
cleared-IsLeft :
    (product_id : Bytes) (f old : ProductFirmware) (more : List ProductFirmware) (m : Files)
    → f.id ≡ old.id
    → f.current ≡ false
    → IsLeft product_id (old ∷ more) m
    → IsLeft product_id more (write_file f.id f m)
cleared-IsLeft product_id f old more m same_id off left k g e mine current =
    lookup_written id_of f m k g e
      (λ at_k is_g. absurd (ground (arith, ap (λ (a : ProductFirmware). a.current) is_g)))
      (λ other before.
        let differs : same_bytes old.id k ≡ false =
          ap (λ i. same_bytes i k) (sym same_id) ∙ other in
        let listed = left k g before mine current in
        elim (Bool-cases old.current) [
          | inl is ↦ ground (arith, listed, differs, is)
          | inr is ↦ ground (arith, listed, is)
        ])

matches-matches :
    (p q : ProductFirmware → Bool) (fs : List ProductFirmware)
    → matches p (matches q fs) ≡ matches (λ f. q f && p f) fs
matches-matches p q [] = refl
matches-matches p q (f ∷ fs) = ground (arith, matches-matches p q fs)

abbrev pub of_product : Bytes → ProductFirmware → Bool
of_product product_id f = same_bytes f.product_id product_id

abbrev pub Kept : World → Type 0
Kept w = IsCatalog w.firmwares

-- No record of a product is current.
abbrev pub IsCleared : Bytes → Files → Type 0
IsCleared product_id m = IsLeft product_id [] m

matches-IsLeft :
    (product_id : Bytes) (m : Files)
    → IsDirectory id_of m
    → IsLeft product_id (matches (of_product product_id) (records m)) m
matches-IsLeft product_id m d k g e mine current =
    ap (is_listed id_of k) (matches-matches is_current (of_product product_id) (records m))
    ∙ is_listed-matches id_of (λ f. of_product product_id f && is_current f) k m g d e
        (rw ((same_bytes_iff g.product_id product_id).1 mine, current) refl)

module _ (service : Service) where
  clear_one-IsLeft :
      (product_id : Bytes) (f : ProductFirmware) (more : List ProductFirmware) (w : World)
      → Kept w
      → IsLeft product_id (f ∷ more) w.firmwares
      → Ends (λ _ v. Kept v × IsLeft product_id more v.firmwares) Kept (clear_one service f w)
  unfolding clear_one now
  clear_one-IsLeft product_id f more w c left = elim (Bool-cases f.current) [
    | inl is ↦
        let off = record f {
          current = false;
          default = false;
          updated_at = service.env.clock w.calls;
        } in
        rw is (
          save-Ends service.env firmwares (λ _ v. Kept v × IsLeft product_id more v.firmwares) Kept
            off (called w) c c
            (
              write_file-IsCatalog off w.firmwares c (λ l g e same on current. cc),
              cleared-IsLeft product_id off f more w.firmwares refl refl left,
            ))
    | inr is ↦ rw is (c, λ k g e mine current. ground (arith, left k g e mine current, is))
  ]

  clear_all-IsCleared :
      (product_id : Bytes) (fs : List ProductFirmware) (w : World)
      → Kept w
      → IsLeft product_id fs w.firmwares
      → Ends (λ _ v. Kept v × IsCleared product_id v.firmwares) Kept (clear_all service fs w)
  clear_all-IsCleared product_id [] w c left = (c, left)
  clear_all-IsCleared product_id (f ∷ fs) w c left =
      Ends-continue (λ _ v. Kept v × IsLeft product_id fs v.firmwares)
        (λ _ v. Kept v × IsCleared product_id v.firmwares) Kept (clear_one service f w)
        (λ _. clear_all service fs) (clear_one-IsLeft product_id f fs w c left)
        (λ u v (kept, rest). clear_all-IsCleared product_id fs v kept rest)

  -- Where firmware is stored, no record of the product is current afterwards.
  pub clear_current-IsCleared :
      (product_id : Bytes) (w : World)
      → Kept w
      → Ends
          (λ _ v. Kept v × (service.has_firmwares ≡ true → IsCleared product_id v.firmwares))
          Kept
          (clear_current service product_id w)
  unfolding clear_current get_by_product_id
  clear_current-IsCleared product_id w c =
      let P = λ (_ : Unit {0}) (v : World).
        Kept v × (service.has_firmwares ≡ true → IsCleared product_id v.firmwares) in
      let got =
        λ (fs : List ProductFirmware) (v : World). Kept v × IsLeft product_id fs v.firmwares in
      Ends-if service.env P Kept service.has_firmwares
        (do all ← get_by_product_id service product_id; clear_all service all) (pure tt) w
        (λ stored.
          Ends-continue got P Kept (get_all service.env firmwares (of_product product_id) w)
            (λ fs. clear_all service fs)
            (get_all-Ends service.env firmwares got Kept (of_product product_id) w c c
              (c, matches-IsLeft product_id w.firmwares c.directory))
            (λ fs v (kept, left).
              Ends-weaken (λ _ u. Kept u × IsCleared product_id u.firmwares) P Kept Kept
                (clear_all service fs v) (λ _ u h. (h.0, λ _. h.1)) (λ u h. h)
                (clear_all-IsCleared product_id fs v kept left)))
        (λ lacking. (c, λ stored. cc))
