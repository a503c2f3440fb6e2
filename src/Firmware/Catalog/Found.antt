-- ===== src/Firmware/Catalog/Found.antt =====
-- What a lookup of a product's firmware finds.
use spark_server.Base.{
  ◌≡◌, refl, ap, ◌∙◌, ◌||◌, not, List, [], ◌∷◌, Bytes, same_bytes, same_bytes_iff, Option, none,
  some, if◌then◌else◌, arith, All, All-map, Bool-cases, inl, inr, subst,
}
use spark_server.Base.Maps.{lookup}
use spark_server.Base.Sort.{All-Perm}
use spark_server.Base.Integers.{ℤ, same_int}
use spark_server.Firmware.Models.{ProductFirmware}
use spark_server.Firmware.Catalog.Uploads.{with_version, int_from_string}
use spark_server.Firmware.Catalog.Current.{id_of, of_product}
use spark_server.Firmware.Catalog.{
  Service, get_by_product_id, list_product_firmware, get_product_firmware, the_firmware,
  by_version_number, by_id_found,
}
use spark_server.Records.Files.Directory.{IsDirectory}
use spark_server.Records.Matches.{lookup-id, Stands, matches-Stands}
use spark_server.Records.Effects.{World, optional, firmware, not_found, ◌>>=◌, pure}
use spark_server.Records.{firmwares, get_by_id, get_all}
use spark_server.Records.Calls.{
  Ends, Ends-continue, Ends-guard, Ends-if, optional-Ends, get_all-Ends,
}

-- The firmware files are as they were.
abbrev pub SameFiles : World → World → Type 0
SameFiles w v = v.firmwares ≡ w.firmwares

-- A record of the product, as it is stored.
pub record IsFound (product_id : Bytes) (w : World) (f : ProductFirmware) (v : World) : Type 0 where
  pub there : lookup f.id w.firmwares ≡ some f
  pub product : f.product_id ≡ product_id
  pub same : SameFiles w v

with_version-All :
    (P : ProductFirmware → Type 0) (version : ℤ) (fs : List ProductFirmware) (f : ProductFirmware)
    → All P fs
    → with_version version fs ≡ some f
    → P f
with_version-All P version [] f h e = cc
with_version-All P version (g ∷ fs) f (p, h) e = elim (Bool-cases (same_int g.version version)) [
  | inl same ↦ let is : g ≡ f = ground arith in subst P is p
  | inr other ↦ with_version-All P version fs f h (ground arith)
]

module _ (service : Service) (product_id : Bytes) where
  abbrev pub Listed : World → List ProductFirmware → World → Type 0
  Listed w fs v = SameFiles w v × All (Stands id_of (of_product product_id) w.firmwares) fs

  -- ListProductFirmware gives records of the product, as they are stored.
  pub list_product_firmware-Listed :
      (w v : World)
      → IsDirectory id_of w.firmwares
      → SameFiles w v
      → Ends (Listed w) (SameFiles w) (list_product_firmware service product_id v)
  unfolding list_product_firmware get_by_product_id
  list_product_firmware-Listed w v d same =
      let sorted = (do
        all ← get_by_product_id service product_id
        pure (service.sort_firmwares.sort all)) in
      Ends-guard service.env (Listed w) (SameFiles w) (same_bytes product_id [])
        (not_found firmware) (if service.has_firmwares then sorted else pure []) v same
        (λ _.
          Ends-if service.env (Listed w) (SameFiles w) service.has_firmwares sorted (pure []) v
            (λ stored.
              Ends-continue (Listed w) (Listed w) (SameFiles w)
                (get_all service.env firmwares (of_product product_id) v)
                (λ all. pure (service.sort_firmwares.sort all))
                (get_all-Ends service.env firmwares (Listed w) (SameFiles w) (of_product product_id)
                  v same same
                  (same, rw same (matches-Stands id_of (of_product product_id) w.firmwares d)))
                (λ all u (kept, h). (
                  kept,
                  All-Perm (Stands id_of (of_product product_id) w.firmwares)
                      (service.sort_firmwares.permutes all) h,
                )))
            (λ lacking. (same, tt)))

  Stands-IsFound :
      (w v : World) (f : ProductFirmware)
      → SameFiles w v
      → Stands id_of (of_product product_id) w.firmwares f
      → IsFound product_id w f v
  Stands-IsFound w v f same h = record {
    there = h.0;
    product = (same_bytes_iff f.product_id product_id).0 h.1;
    same = same;
  }

  the_firmware-Ends :
      (w v : World) (o : Option ProductFirmware)
      → SameFiles w v
      → ((f : ProductFirmware) → o ≡ some f → IsFound product_id w f v)
      → Ends (IsFound product_id w) (SameFiles w) (the_firmware service o v)
  the_firmware-Ends w v none same h = same
  the_firmware-Ends w v (some f) same h = h f refl

  by_version_number-IsFound :
      (w v : World) (o : Option ℤ)
      → IsDirectory id_of w.firmwares
      → SameFiles w v
      → Ends (IsFound product_id w) (SameFiles w) (by_version_number service product_id o v)
  by_version_number-IsFound w v none d same = same
  by_version_number-IsFound w v (some version) d same =
      Ends-continue (Listed w) (IsFound product_id w) (SameFiles w)
        (list_product_firmware service product_id v)
        (λ all. the_firmware service (with_version version all))
        (list_product_firmware-Listed w v d same)
        (λ all u (kept, h). the_firmware-Ends w u (with_version version all) kept (λ f e.
          with_version-All (λ g. IsFound product_id w g u) version all f
            (All-map (Stands id_of (of_product product_id) w.firmwares)
              (λ g. IsFound product_id w g u) (λ g s. Stands-IsFound w u g kept s) all h)
            e))

  by_id_found-IsFound :
      (id : Bytes) (w v : World) (o : Option ProductFirmware)
      → IsDirectory id_of w.firmwares
      → SameFiles w v
      → ((f : ProductFirmware) → o ≡ some f → lookup f.id w.firmwares ≡ some f)
      → Ends (IsFound product_id w) (SameFiles w) (by_id_found service product_id id o v)
  by_id_found-IsFound id w v none d same there =
      by_version_number-IsFound w v (int_from_string service.unicode id) d same
  by_id_found-IsFound id w v (some f) d same there =
      elim (Bool-cases (same_bytes f.product_id product_id)) [
        | inl mine ↦ rw mine (Stands-IsFound w v f same (there f refl, mine))
        | inr other ↦ rw other same
      ]

  -- GetProductFirmware, by an ID or by a version, gives a record of the product as it is stored.
  pub get_product_firmware-IsFound :
      (id : Bytes) (w : World)
      → IsDirectory id_of w.firmwares
      → Ends (IsFound product_id w) (SameFiles w) (get_product_firmware service product_id id w)
  unfolding get_product_firmware
  get_product_firmware-IsFound id w d =
      let wrong = same_bytes product_id [] || same_bytes id [] || not service.has_firmwares in
      let P = λ (o : Option ProductFirmware) (v : World).
        SameFiles w v × ((f : ProductFirmware) → o ≡ some f → lookup f.id w.firmwares ≡ some f) in
      Ends-guard service.env (IsFound product_id w) (SameFiles w) wrong (not_found firmware)
        (do
          o ← optional firmware (get_by_id service.env firmwares id)
          by_id_found service product_id id o)
        w refl
        (λ _.
          Ends-continue P (IsFound product_id w) (SameFiles w)
            (optional firmware (get_by_id service.env firmwares id) w)
            (by_id_found service product_id id)
            (optional-Ends service.env firmwares P (SameFiles w) id w ((refl, λ f e. cc), refl)
              ((refl, λ f e. cc), refl)
              (λ g e. (
                refl,
                λ f is_f.
                    ap (λ i. lookup i w.firmwares) (lookup-id id_of id w.firmwares f d (e ∙ is_f))
                    ∙ e
                    ∙ is_f,
              )))
            (λ o v (same, there). by_id_found-IsFound id w v o d same there))
