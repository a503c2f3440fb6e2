-- ===== src/Firmware/Catalog/Operations.antt =====
-- Each operation keeps at most one firmware of a product current.
use spark_server.Base.{
  ◌≡◌, refl, sym, ◌∙◌, Bool, true, false, not, ◌||◌, [], Bytes, same_bytes, Option, none, some,
  Result, ok, err, arith,
}
use spark_server.Base.Integers.{ℤ}
use spark_server.Firmware.Models.{ProductFirmware}
use spark_server.Firmware.Effects
use spark_server.Firmware.Signals.{has_active_flash_job_for_firmware}
use spark_server.Firmware.Catalog.Uploads.{Upload, Update, new_firmware, with_fields}
use spark_server.Firmware.Catalog.Current.{Kept, IsCatalog, remove-IsCatalog}
use spark_server.Firmware.Catalog.Found.{SameFiles, Listed, list_product_firmware-Listed}
use spark_server.Firmware.Catalog.Written.{
  SameFirmware, with_binary-SameFirmware, write_binary-IsQuiet, begin-IsQuiet, remove_file-IsQuiet,
}
use spark_server.Firmware.Catalog.{
  Service, take_over, created, saved, upload_product_firmware, uploaded, release_product_firmware,
  set_default_product_firmware, update_product_firmware, delete_product_firmware, chosen_version,
  next_version, remove_binary, remove_file,
}
use spark_server.Firmware.Catalog.Single.{
  KeepsCatalog, IsTaken, saved-Kept, created-Kept, IsFound-IsFree, take_over-IsTaken, found-Kept,
  release-KeepsCatalog, set_default-KeepsCatalog,
}
use spark_server.Products.Service.{given}
use spark_server.Records.Effects.{
  Error, firmware, not_found, conflict, World, called, pure, refuse_when, now, fresh_id, on_flash,
  lifted, ◌>>=◌, ◌>>◌,
}
use spark_server.Records.{firmwares, delete}
use spark_server.Records.Calls.{
  Ends, Ends-continue, Ends-weaken, Ends-refuse, Ends-guard, Ends-if, delete-Ends,
}

module _ (service : Service) where
  -- What an upload adds when all that comes before has left the records.
  stored-Kept :
      (test : Bool) (product_id : Bytes) (made : ProductFirmware) (w : World)
      → Kept w
      → made.product_id ≡ product_id
      → (test ≡ false → made.current ≡ false)
      → Ends
          (λ _ v. Kept v)
          Kept
          ((do f ← take_over service test product_id made; created service f; pure f) w)
  stored-Kept test product_id made w c mine plain =
      Ends-continue (IsTaken service made) (λ _ v. Kept v) Kept _ _
        (take_over-IsTaken service test product_id made w c mine
          (λ no l g there same current. absurd (ground (arith, plain no))))
        (λ f v (kept, same_id, same_product, free).
          Ends-continue (λ _ u. Kept u) (λ _ u. Kept u) Kept (created service f v) (λ _. pure f)
            (created-Kept service f v kept free) (λ _ u h. h))

  chosen_version-Same :
      (product_id : Bytes) (version : ℤ) (w v : World)
      → Kept w
      → SameFiles w v
      → Ends (λ _ u. SameFiles w u) (SameFiles w) (chosen_version service product_id version v)
  unfolding chosen_version next_version
  chosen_version-Same product_id version w v c same =
      Ends-if service.env (λ _ u. SameFiles w u) (SameFiles w) _ (next_version service product_id)
        (pure version) v
        (λ _.
          Ends-continue (Listed service product_id w) (λ _ u. SameFiles w u) (SameFiles w) _ _
            (list_product_firmware-Listed service product_id w v c.directory same) (λ all u h. h.0))
        (λ _. same)

  none_marked : (a b : Bool) → (a || (b || a)) ≡ false → a ≡ false
  none_marked a b h = ground arith

  uploaded-KeepsCatalog :
      (upload : Upload) (reader : Option (Result Error Bytes))
      → KeepsCatalog (uploaded service upload reader)
  unfolding now fresh_id
  uploaded-KeepsCatalog upload none w c = c
  uploaded-KeepsCatalog upload (some reader) w c =
      let back : (v : World) → SameFiles w v → Kept v = λ v same. rw same c in
      Ends-continue (λ _ v. SameFiles w v) (λ _ v. Kept v) Kept _ _
        (Ends-weaken (λ _ v. SameFiles w v) (λ _ v. SameFiles w v) (SameFiles w) Kept _ (λ _ v h. h)
          back (begin-IsQuiet service w w refl))
        (λ _ v same.
          Ends-continue (λ _ u. SameFiles w u) (λ _ u. Kept u) Kept _ _
            (Ends-weaken (λ _ u. SameFiles w u) (λ _ u. SameFiles w u) (SameFiles w) Kept _
              (λ _ u h. h) back (chosen_version-Same upload.product_id upload.version w v c same))
            (λ version u same'.
              Ends-continue (λ _ x. SameFiles w x) (λ _ x. Kept x) Kept _ _
                (Ends-weaken (λ _ x. SameFiles w x) (λ _ x. SameFiles w x) (SameFiles w) Kept _
                  (λ _ x h. h) back
                  (write_binary-IsQuiet service w (service.env.new_id (called u).calls)
                    upload.filename reader (called (called u)) same'))
                (λ (path, size, checksum) x same''.
                  let made =
                    new_firmware upload (service.env.new_id (called u).calls) version path size
                      checksum (service.env.clock u.calls) in
                  stored-Kept (made.current || made.default) upload.product_id made x
                    (back x same'') refl (none_marked upload.current upload.default))))

  upload-KeepsCatalog : (upload : Upload) → KeepsCatalog (upload_product_firmware service upload)
  unfolding upload_product_firmware
  upload-KeepsCatalog upload w c =
      Ends-guard service.env (λ _ v. Kept v) Kept (same_bytes upload.product_id [])
        (not_found firmware) (uploaded service upload upload.reader) w c
        (λ _. uploaded-KeepsCatalog upload upload.reader w c)

  -- Without a new mark, a record keeps its own or loses it.
  marked_before :
      (current default : Option Bool) (old : Bool)
      → (given default false || given current false) ≡ false
      → given current old ≡ true
      → old ≡ true
  marked_before none none old h k = k
  marked_before none (some d) old h k = k
  marked_before (some true) none old h k = cc
  marked_before (some true) (some true) old h k = cc
  marked_before (some true) (some false) old h k = cc
  marked_before (some false) default old h k = cc

  update-KeepsCatalog :
      (product_id id : Bytes) (update : Update)
      → KeepsCatalog (update_product_firmware service product_id id update)
  unfolding update_product_firmware now
  update-KeepsCatalog product_id id update w c =
      found-Kept service product_id id w _ c (λ f v o kept.
        let changed = with_fields update f in
        Ends-continue (λ _ u. SameFiles w u) (λ _ u. Kept u) Kept _ _
          (Ends-refuse service.env (λ _ u. SameFiles w u) Kept _ _ v o.same kept)
          (λ _ v' same'.
            Ends-continue (λ g u. SameFirmware changed g × SameFiles w u) (λ _ u. Kept u) Kept _ _
              (Ends-weaken _ (λ g u. SameFirmware changed g × SameFiles w u) (SameFiles w) Kept _
                (λ _ u h. h) (λ u same. rw same c)
                (with_binary-SameFirmware service w update update.reader changed v' same'))
              (λ g u (s, same).
                Ends-continue (IsTaken service g) (λ _ x. Kept x) Kept _ _
                  (take_over-IsTaken service
                    (given update.default false || given update.current false) product_id g u
                    (rw same c) (s.product ∙ o.product)
                    (λ no. rw same (
                      IsFound-IsFree service product_id f g w v c o s.id s.product (λ current.
                        marked_before update.current update.default f.current no
                          (sym s.current ∙ current)))))
                  (λ h x (kept', same_id, same_product, free).
                    let updated = record h { updated_at = service.env.clock x.calls } in
                    Ends-continue (λ _ y. Kept y) (λ _ y. Kept y) Kept
                      (saved service updated (called x)) (λ _. pure updated)
                      (saved-Kept service updated (called x) kept' free) (λ _ y k. k)))))

  removed-Kept :
      (id : Bytes) (w : World)
      → Kept w
      → Ends (λ _ v. Kept v) Kept (delete service.env firmwares id w)
  removed-Kept id w c =
      delete-Ends service.env firmwares (λ _ v. Kept v) Kept id w c c
        (remove-IsCatalog id w.firmwares c)

  lifted-Kept :
      {A : Type 0} (w : World) (r : Result Effects.Failure A × Effects.World)
      → Kept w
      → Ends (λ _ v. Kept v) Kept (lifted w r)
  lifted-Kept w (ok a, flash) c = c
  lifted-Kept w (err e, flash) c = c

  delete-KeepsCatalog :
      (product_id id : Bytes) → KeepsCatalog (delete_product_firmware service product_id id)
  unfolding delete_product_firmware
  delete-KeepsCatalog product_id id w c =
      let none_stored = not service.has_firmwares in
      Ends-continue (λ _ v. Kept v) (λ _ v. Kept v) Kept
        (refuse_when none_stored (not_found firmware) w) _
        (Ends-refuse service.env (λ _ v. Kept v) Kept none_stored (not_found firmware) w c c)
        (λ _ v kept. found-Kept service product_id id v _ kept (λ f u o kept'.
          Ends-continue (λ _ x. Kept x) (λ _ x. Kept x) Kept
            (on_flash (has_active_flash_job_for_firmware service.flash_env f.id) u) _
            (lifted-Kept u (has_active_flash_job_for_firmware service.flash_env f.id u.flash) kept')
            (λ active x kept''.
              Ends-continue (λ _ y. Kept y) (λ _ y. Kept y) Kept
                (refuse_when active (conflict firmware) x) _
                (Ends-refuse service.env (λ _ y. Kept y) Kept active (conflict firmware) x kept''
                  kept'')
                (λ _ y k.
                  Ends-continue (λ _ z. Kept z) (λ _ z. Kept z) Kept
                    (delete service.env firmwares f.id y) (λ _. remove_binary service f.binary_path)
                    (removed-Kept f.id y k)
                    (λ _ z k'.
                      Ends-if service.env (λ _ a. Kept a) Kept (same_bytes f.binary_path [])
                        (pure tt) (remove_file service f.binary_path) z (λ _. k')
                        (λ _.
                          Ends-weaken (λ _ a. SameFiles z a) (λ _ a. Kept a) (SameFiles z) Kept _
                            (λ _ a same. rw same k') (λ a same. rw same k')
                            (remove_file-IsQuiet service z f.binary_path z refl)))))))

  -- Whatever upload, release, choice of the default, update or deletion is done, and whatever calls
  -- fail: if at most one firmware of each product was current and the records stood under their own
  -- IDs in the order of the file names, that is so afterwards.
  pub operations-IsCatalog :
      (upload : Upload) (product_id id : Bytes) (update : Update) (w : World)
      → IsCatalog w.firmwares
      → Ends (λ _ v. Kept v) Kept (upload_product_firmware service upload w)
        × Ends (λ _ v. Kept v) Kept (release_product_firmware service product_id id w)
        × Ends (λ _ v. Kept v) Kept (set_default_product_firmware service product_id id w)
        × Ends (λ _ v. Kept v) Kept (update_product_firmware service product_id id update w)
        × Ends (λ _ v. Kept v) Kept (delete_product_firmware service product_id id w)
  operations-IsCatalog upload product_id id update w c = (
    upload-KeepsCatalog upload w c,
    release-KeepsCatalog service product_id id w c,
    set_default-KeepsCatalog service product_id id w c,
    update-KeepsCatalog product_id id update w c,
    delete-KeepsCatalog product_id id w c,
  )
