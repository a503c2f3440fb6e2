-- ===== src/Firmware/Catalog/Single.antt =====
-- The steps of the operations, and the two that mark a firmware.
use spark_server.Base.{◌≡◌, refl, sym, ◌∙◌, Bool, true, false, Bytes, arith}
use spark_server.Firmware.Models.{ProductFirmware}
use spark_server.Firmware.Catalog.Uploads.{made_current}
use spark_server.Firmware.Catalog.Current.{
  Kept, IsFree, IsCleared, Files, write_file-IsCatalog, clear_current-IsCleared,
}
use spark_server.Firmware.Catalog.Found.{SameFiles, IsFound, get_product_firmware-IsFound}
use spark_server.Firmware.Catalog.{
  Service, clear_current, take_over, created, saved, get_product_firmware, release_product_firmware,
  set_default_product_firmware,
}
use spark_server.Records.Effects.{World, M, called, pure, now, ◌>>=◌}
use spark_server.Records.{firmwares, save, create}
use spark_server.Records.Calls.{Ends, Ends-continue, Ends-weaken, Ends-if, save-Ends, create-Ends}

-- A call that leaves at most one firmware of a product current, whether it fails or not.
abbrev pub KeepsCatalog : {A : Type 0} → M A → Type 0
KeepsCatalog m = (w : World) → Kept w → Ends (λ _ v. Kept v) Kept (m w)

module _ (service : Service) where
  pub saved-Kept :
      (f : ProductFirmware) (w : World)
      → Kept w
      → (service.has_firmwares ≡ true → IsFree f w.firmwares)
      → Ends (λ _ v. Kept v) Kept (saved service f w)
  saved-Kept f w c free =
      Ends-if service.env (λ _ v. Kept v) Kept service.has_firmwares (save service.env firmwares f)
        (pure tt) w
        (λ stored.
          save-Ends service.env firmwares (λ _ v. Kept v) Kept f w c c
            (write_file-IsCatalog f w.firmwares c (free stored)))
        (λ lacking. c)

  pub created-Kept :
      (f : ProductFirmware) (w : World)
      → Kept w
      → (service.has_firmwares ≡ true → IsFree f w.firmwares)
      → Ends (λ _ v. Kept v) Kept (created service f w)
  created-Kept f w c free =
      Ends-if service.env (λ _ v. Kept v) Kept service.has_firmwares
        (create service.env firmwares f) (pure tt) w
        (λ stored.
          create-Ends service.env firmwares (λ _ v. Kept v) Kept f w c c
            (λ new. write_file-IsCatalog f w.firmwares c (free stored)))
        (λ lacking. c)

  -- In a product without a current record, any record may become current.
  IsCleared-IsFree :
      (product_id : Bytes) (f : ProductFirmware) (m : Files)
      → f.product_id ≡ product_id
      → IsCleared product_id m
      → IsFree f m
  IsCleared-IsFree product_id f m mine cleared l g there same current current' =
      absurd (ground (arith, cleared l g there (sym same ∙ mine) current'))

  -- A record that is current as it is stored may be written again.
  pub IsFound-IsFree :
      (product_id : Bytes) (f g : ProductFirmware) (w v : World)
      → Kept w
      → IsFound product_id w f v
      → g.id ≡ f.id
      → g.product_id ≡ f.product_id
      → (g.current ≡ true → f.current ≡ true)
      → IsFree g w.firmwares
  IsFound-IsFree product_id f g w v c o same_id same_product marked l h there same current
        current' =
      c.single l f.id h f there o.there (sym same ∙ same_product) current' (marked current)
      ∙ sym same_id

  abbrev pub IsTaken : ProductFirmware → ProductFirmware → World → Type 0
  IsTaken f g v =
      Kept v
      × (g.id ≡ f.id)
      × (g.product_id ≡ f.product_id)
      × (service.has_firmwares ≡ true → IsFree g v.firmwares)

  pub take_over-IsTaken :
      (test : Bool) (product_id : Bytes) (f : ProductFirmware) (w : World)
      → Kept w
      → f.product_id ≡ product_id
      → (test ≡ false → IsFree f w.firmwares)
      → Ends (IsTaken f) Kept (take_over service test product_id f w)
  unfolding take_over
  take_over-IsTaken false product_id f w c mine free = (c, refl, refl, λ _. free refl)
  take_over-IsTaken true product_id f w c mine free =
      Ends-continue
        (λ _ v. Kept v × (service.has_firmwares ≡ true → IsCleared product_id v.firmwares))
        (IsTaken f) Kept (clear_current service product_id w) (λ _. pure (made_current f))
        (clear_current-IsCleared service product_id w c)
        (λ _ v (kept, cleared). (
          kept,
          refl,
          refl,
          λ stored. IsCleared-IsFree product_id (made_current f) v.firmwares mine (cleared stored),
        ))

  pub found-Kept :
      {A : Type 0} (product_id id : Bytes) (w : World) (next : ProductFirmware → M A)
      → Kept w
      → ((f : ProductFirmware) (v : World)
          → IsFound product_id w f v
          → Kept v
          → Ends (λ _ u. Kept u) Kept (next f v))
      → Ends (λ _ v. Kept v) Kept ((get_product_firmware service product_id id >>= next) w)
  found-Kept product_id id w next c then_kept =
      let kept : (v : World) → SameFiles w v → Kept v = λ v same. rw same c in
      Ends-continue (IsFound product_id w) (λ _ v. Kept v) Kept _ next
        (Ends-weaken (IsFound product_id w) (IsFound product_id w) (SameFiles w) Kept _ (λ f v h. h)
          kept (get_product_firmware-IsFound service product_id id w c.directory))
        (λ f v o. then_kept f v o (kept v o.same))

  pub release-KeepsCatalog :
      (product_id id : Bytes) → KeepsCatalog (release_product_firmware service product_id id)
  unfolding release_product_firmware now
  release-KeepsCatalog product_id id w c = found-Kept product_id id w _ c (λ f v o kept.
      let released = record f { released = true; updated_at = service.env.clock v.calls } in
      Ends-continue (λ _ u. Kept u) (λ _ u. Kept u) Kept (saved service released (called v))
        (λ _. pure released)
        (saved-Kept released (called v) kept
          (λ _. rw o.same (IsFound-IsFree product_id f released w v c o refl refl (λ h. h))))
        (λ _ u h. h))

  pub set_default-KeepsCatalog :
      (product_id id : Bytes) → KeepsCatalog (set_default_product_firmware service product_id id)
  unfolding set_default_product_firmware now
  set_default-KeepsCatalog product_id id w c = found-Kept product_id id w _ c (λ f v o kept.
      Ends-continue
        (λ _ u. Kept u × (service.has_firmwares ≡ true → IsCleared product_id u.firmwares))
        (λ _ u. Kept u) Kept (clear_current service product_id v) _
        (clear_current-IsCleared service product_id v kept)
        (λ _ u (kept', cleared).
          let chosen = record (made_current f) { updated_at = service.env.clock u.calls } in
          Ends-continue (λ _ x. Kept x) (λ _ x. Kept x) Kept (saved service chosen (called u))
            (λ _. pure chosen)
            (saved-Kept chosen (called u) kept'
              (λ stored. IsCleared-IsFree product_id chosen u.firmwares o.product (cleared stored)))
            (λ _ x h. h)))
