-- ===== src/Firmware/Catalog/Written.antt =====
-- Writing a binary leaves the firmware records as they are.
use spark_server.Base.{
  ◌≡◌, refl, not, ◌&&◌, [], Bytes, codes, same_bytes, Option, none, some, Result, ok, err, length,
  ◌==◌, if◌then◌else◌,
}
use spark_server.Firmware.Models.{ProductFirmware}
use spark_server.Firmware.Catalog.Uploads.{Update, or_text}
use spark_server.Firmware.Catalog.Found.{SameFiles}
use spark_server.Firmware.Catalog.{Service, write_binary, read, remove_file, with_binary}
use spark_server.Products.Service.{given}
use spark_server.Records.Effects.{
  World, M, Error, empty_binary, called, ignoring, dropped, ◌>>=◌, pure,
}
use spark_server.Records.{firmwares, begin, disk}
use spark_server.Records.Calls.{Ends, Ends-continue, Ends-guard, Ends-if, Ends-raise_io}

-- A call that leaves the firmware records.
abbrev pub IsQuiet : {A : Type 0} → World → M A → Type 0
IsQuiet w m = (v : World) → SameFiles w v → Ends (λ _ u. SameFiles w u) (SameFiles w) (m v)

-- The fields that decide which firmware is current.
pub record SameFirmware (f g : ProductFirmware) : Type 0 where
  pub id : g.id ≡ f.id
  pub product : g.product_id ≡ f.product_id
  pub current : g.current ≡ f.current

module _ (service : Service) (w : World) where
  step-IsQuiet :
      {A B : Type 0} (m : M A) (f : A → M B)
      → IsQuiet w m
      → ((a : A) → IsQuiet w (f a))
      → IsQuiet w (m >>= f)
  step-IsQuiet m f h next v same =
      Ends-continue (λ _ u. SameFiles w u) (λ _ u. SameFiles w u) (SameFiles w) (m v) f (h v same)
        (λ a u kept. next a u kept)

  disk-IsQuiet : IsQuiet w (disk service.env firmwares)
  disk-IsQuiet v same =
      Ends-raise_io service.env (λ _ u. SameFiles w u) (SameFiles w) (service.env.fault v.calls)
        (called v) same same

  pub begin-IsQuiet : IsQuiet w (begin service.env firmwares)
  begin-IsQuiet v same =
      Ends-raise_io service.env (λ _ u. SameFiles w u) (SameFiles w) (service.env.cancelled v.calls)
        (called v) same same

  read-IsQuiet : (reader : Result Error Bytes) → IsQuiet w (read service reader)
  read-IsQuiet (ok content) v same = same
  read-IsQuiet (err e) v same = same

  dropped-Same :
      {A : Type 0} (r : Result Error A × World)
      → Ends (λ _ u. SameFiles w u) (SameFiles w) r
      → Ends (λ _ u. SameFiles w u) (SameFiles w) (dropped r)
  dropped-Same (ok a, v) h = h
  dropped-Same (err e, v) h = h

  pub write_binary-IsQuiet :
      (id filename : Bytes) (reader : Result Error Bytes)
      → IsQuiet w (write_binary service id filename reader)
  unfolding write_binary
  write_binary-IsQuiet id filename reader = step-IsQuiet _ _ begin-IsQuiet (λ _.
      step-IsQuiet _ _ disk-IsQuiet (λ _. step-IsQuiet _ _ disk-IsQuiet (λ _.
        step-IsQuiet _ _ (read-IsQuiet reader) (λ content.
          step-IsQuiet _ _ disk-IsQuiet (λ _ v same.
            Ends-guard service.env (λ _ u. SameFiles w u) (SameFiles w) (length content == 0)
              empty_binary _ v same
              (λ _. step-IsQuiet _ _ disk-IsQuiet (λ _ u kept. kept) v same))))))

  pub remove_file-IsQuiet : (path : Bytes) → IsQuiet w (remove_file service path)
  remove_file-IsQuiet path = step-IsQuiet _ _ disk-IsQuiet (λ _ v same. same)

  -- A new binary leaves the ID, the product and the mark of a record.
  pub with_binary-SameFirmware :
      (update : Update) (reader : Option (Result Error Bytes)) (f : ProductFirmware) (v : World)
      → SameFiles w v
      → Ends
          (λ g u. SameFirmware f g × SameFiles w u)
          (SameFiles w)
          (with_binary service update reader f v)
  with_binary-SameFirmware update none f v same =
      (record { id = refl; product = refl; current = refl }, same)
  with_binary-SameFirmware update (some reader) f v same =
      let filename =
        or_text (or_text (given update.filename []) f.filename) (codes "firmware.bin") in
      Ends-continue (λ _ u. SameFiles w u) (λ g u. SameFirmware f g × SameFiles w u) (SameFiles w) _
        _ (write_binary-IsQuiet f.id filename reader v same)
        (λ (path, size, checksum) u kept.
          let obsolete = not (same_bytes f.binary_path []) && not (same_bytes f.binary_path path) in
          Ends-continue (λ _ x. SameFiles w x) (λ g x. SameFirmware f g × SameFiles w x)
            (SameFiles w)
            (ignoring (if obsolete then remove_file service f.binary_path else pure tt) u) _
            (dropped-Same _ (
              Ends-if service.env (λ _ x. SameFiles w x) (SameFiles w) obsolete
                (remove_file service f.binary_path) (pure tt) u
                (λ _. remove_file-IsQuiet f.binary_path u kept) (λ _. kept)))
            (λ _ x still. (record { id = refl; product = refl; current = refl }, still)))
