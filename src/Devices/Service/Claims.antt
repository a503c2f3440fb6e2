-- ===== src/Devices/Service/Claims.antt =====
-- What a claim does, and what a claim code can do.
use spark_server.Base.{
  ℕ, false, ◌≡◌, refl, sym, ap, ◌∙◌, true, not, [], Bytes, same_bytes, same_bytes_iff, Option, none,
  some, arith,
}
use spark_server.Base.Maps.{lookup, is_some}
use spark_server.Devices.Models.{Device, DeviceClaim}
use spark_server.Records.Files.{write_file}
use spark_server.Records.Files.Directory.{IsDirectory, lookup-write_file}
use spark_server.Records.Matches.{lookup-id}
use spark_server.Records.Effects.{
  device, not_found, Env, World, pure, refuse_when, called, now, optional,
}
use spark_server.Records.{devices, claims, get_by_id, save, create}
use spark_server.Records.Calls.{
  Ends, Ends-continue, Ends-weaken, Ends-refuse, optional_get-Ends, get_by_id-Ends, save-Ends,
  create-Ends, SameRecords, SameRecords-called, same_records,
}
use spark_server.Devices.Service.{Service, claim, claim_found, provision, is_spent, blank_device}
use spark_server.Devices.Service.Ownership.{HasDevices}

abbrev pub HasClaims : World → Type 0
HasClaims w = IsDirectory (λ (c : DeviceClaim). c.code) w.claims

-- The device that a claim makes of the one that is stored: its owner and its time of change are new,
-- and where there was none, it has an ID, an owner and times, and nothing else.
abbrev pub claimed_as : Bytes → Bytes → ℕ → Option Device → Device
claimed_as owner id time (some old) = record old { owner_id = owner; updated_at = time }
claimed_as owner id time none = record {
  id = id;
  name = [];
  owner_id = owner;
  product_id = [];
  connected = false;
  variables = [];
  functions = [];
  attributes = [];
  last_heard_at = none;
  created_at = time;
  updated_at = time;
}

-- The device belongs to the owner, and nothing else has changed.
pub record IsClaimed (env : Env) (owner id : Bytes) (w : World) (d : Device) (v : World)
    : Type 0 where
  pub id_is : d.id ≡ id
  pub device_is : d ≡ claimed_as owner id (env.clock w.calls) (lookup id w.devices)
  pub stored : v.devices ≡ write_file id d w.devices
  pub claims_kept : v.claims ≡ w.claims

-- A code that has been used.
pub record IsUsed (code : Bytes) (w : World) (c : DeviceClaim) : Type 0 where
  pub there : lookup code w.claims ≡ some c
  pub used : is_some c.used_at ≡ true

module _ (service : Service) where
  claim_found-IsClaimed :
      (owner id : Bytes) (w v : World) (o : Option Device)
      → SameRecords w v
      → HasDevices w
      → lookup id w.devices ≡ o
      → Ends
          (IsClaimed service.env owner id w)
          (SameRecords w)
          (claim_found service owner id (service.env.clock w.calls) o v)
  claim_found-IsClaimed owner id w v none same dir there =
      let once = SameRecords-called w v same in
      let new = record (blank_device id (service.env.clock w.calls)) { owner_id = owner } in
      Ends-continue (λ _ u. IsClaimed service.env owner id w new u)
        (IsClaimed service.env owner id w) (SameRecords w) (create service.env devices new v)
        (λ _. pure new)
        (create-Ends service.env devices (λ _ u. IsClaimed service.env owner id w new u)
          (SameRecords w) new v once (SameRecords-called w (called v) once)
          (λ _. record {
            id_is = refl;
            device_is = rw there refl;
            stored = ap (write_file id new) same.devices;
            claims_kept = same.claims;
          }))
        (λ _ u h. h)
  claim_found-IsClaimed owner id w v (some d) same dir there =
      let once = SameRecords-called w v same in
      let named = lookup-id (λ (a : Device). a.id) id w.devices d dir there in
      let owned = record d { owner_id = owner; updated_at = service.env.clock w.calls } in
      Ends-continue (λ _ u. IsClaimed service.env owner id w owned u)
        (IsClaimed service.env owner id w) (SameRecords w) (save service.env devices owned v)
        (λ _. pure owned)
        (save-Ends service.env devices (λ _ u. IsClaimed service.env owner id w owned u)
          (SameRecords w) owned v once (SameRecords-called w (called v) once)
          (record {
            id_is = named;
            device_is = rw there refl;
            stored =
                ap (λ i. write_file i owned v.devices) named
                ∙ ap (write_file id owned) same.devices;
            claims_kept = same.claims;
          }))
        (λ _ u h. h)

  -- A claim gives the device with that ID to the user, whoever had it before: the stored device with
  -- another owner and the time of the claim as its time of change, each other field as it was, or where
  -- there was none, one that has only the ID, the owner and the times. The other devices and the claim
  -- codes are as they were. A claim that fails changes no record.
  pub claim-IsClaimed :
      (owner id : Bytes) (w : World)
      → HasDevices w
      → Ends (IsClaimed service.env owner id w) (SameRecords w) (claim service owner id w)
  unfolding claim now
  claim-IsClaimed owner id w dir =
      let once = SameRecords-called w w (same_records w) in
      let twice = SameRecords-called w (called w) once in
      let thrice = SameRecords-called w (called (called w)) twice in
      let P = λ (o : Option Device) (v : World). SameRecords w v × (lookup id w.devices ≡ o) in
      Ends-continue (λ _ v. v ≡ w) (IsClaimed service.env owner id w) (SameRecords w)
        (refuse_when (same_bytes id []) (not_found device) w) _
        (Ends-refuse service.env (λ _ v. v ≡ w) (SameRecords w) (same_bytes id [])
          (not_found device) w refl (same_records w))
        (λ _ v is. rw is (
          Ends-continue P (IsClaimed service.env owner id w) (SameRecords w)
            (optional device (get_by_id service.env devices id) (called w)) _
            (optional_get-Ends service.env devices P (SameRecords w) id (called w) twice thrice
              (λ o e. (thrice, e)))
            (λ o u (same, there). claim_found-IsClaimed owner id w u o same dir there)))

  -- A code that has been used is refused for every device, and no record changes.
  used_refused :
      (id code : Bytes) (w : World) (c : DeviceClaim)
      → IsUsed code w c
      → Ends (λ _ _. ⊥) (SameRecords w) (provision service id code w)
  unfolding provision now
  used_refused id code w c used =
      let once = SameRecords-called w w (same_records w) in
      let twice = SameRecords-called w (called w) once in
      let no_claims = not service.has_claims in
      let P = λ (a : DeviceClaim) (v : World). (is_some a.used_at ≡ true) × SameRecords w v in
      Ends-continue (λ _ v. v ≡ w) (λ _ _. ⊥) (SameRecords w)
        (refuse_when no_claims (not_found device) w) _
        (Ends-refuse service.env (λ _ v. v ≡ w) (SameRecords w) no_claims (not_found device) w refl
          (same_records w))
        (λ _ v is. rw is (
          Ends-continue P (λ _ _. ⊥) (SameRecords w) (get_by_id service.env claims code w) _
            (get_by_id-Ends service.env claims P (SameRecords w) code w once twice (λ a e.
              let both : ◌≡◌ {A = Option DeviceClaim} (some c) (some a) = sym used.there ∙ e in
              let is_c : c ≡ a = ground arith in
              (ap (λ (b : DeviceClaim). is_some b.used_at) (sym is_c) ∙ used.used, twice)))
            (λ a u (spent, same). rw spent (SameRecords-called w u same))))

  -- A code that was accepted is used.
  provision-IsUsed :
      (id code : Bytes) (w : World)
      → HasDevices w
      → HasClaims w
      → Ends (λ _ v. (c : DeviceClaim) × IsUsed code v c) (λ _. Unit) (provision service id code w)
  unfolding provision now
  provision-IsUsed id code w dir codes_dir =
      let R = λ (_ : Device) (v : World). (c : DeviceClaim) × IsUsed code v c in
      let E = λ (_ : World). Unit {0} in
      let once = SameRecords-called w w (same_records w) in
      let twice = SameRecords-called w (called w) once in
      let no_claims = not service.has_claims in
      let P = λ (a : DeviceClaim) (v : World). (a.code ≡ code) × SameRecords w v in
      Ends-continue (λ _ v. v ≡ w) R E (refuse_when no_claims (not_found device) w) _
        (Ends-refuse service.env (λ _ v. v ≡ w) E no_claims (not_found device) w refl tt)
        (λ _ v is. rw is (
          Ends-continue P R E (get_by_id service.env claims code w) _
            (get_by_id-Ends service.env claims P E code w tt tt
              (λ a e. (lookup-id (λ (b : DeviceClaim). b.code) code w.claims a codes_dir e, twice)))
            (λ a u (named, same).
              let time = service.env.clock u.calls in
              let used = record a { used_at = some time; device_id = id } in
              Ends-continue (λ _ x. SameRecords u x) R E
                (refuse_when (is_spent time a) (not_found device) (called u)) _
                (Ends-refuse service.env (λ _ x. SameRecords u x) E (is_spent time a)
                  (not_found device) (called u) (SameRecords-called u u (same_records u)) tt)
                (λ _ x same'.
                  let dir_x : HasDevices x = rw (same'.devices, same.devices) dir in
                  Ends-continue (IsClaimed service.env a.owner_id id x) R E
                    (claim service a.owner_id id x) _
                    (Ends-weaken (IsClaimed service.env a.owner_id id x)
                      (IsClaimed service.env a.owner_id id x) (SameRecords x) E
                      (claim service a.owner_id id x) (λ _ _ h. h) (λ _ _. tt)
                      (claim-IsClaimed a.owner_id id x dir_x))
                    (λ d y claimed.
                      Ends-continue (λ _ z. R d z) R E (save service.env claims used y)
                        (λ _. pure d)
                        (save-Ends service.env claims (λ _ z. R d z) E used y tt tt
                          (
                            used,
                            record {
                              there =
                                  lookup-write_file code a.code used y.claims
                                  ∙ rw ((same_bytes_iff a.code code).1 named) refl;
                              used = refl;
                            },
                          ))
                        (λ _ z h. h))))))

  -- A claim code works once: after a provision by a code has ended well, each further provision by that
  -- code, of any device, ends with an error and changes no record.
  pub provision_once :
      (id other code : Bytes) (w : World)
      → HasDevices w
      → HasClaims w
      → Ends
          (λ _ v. Ends (λ _ _. ⊥) (SameRecords v) (provision service other code v))
          (λ _. Unit)
          (provision service id code w)
  provision_once id other code w dir codes_dir =
      Ends-weaken (λ _ v. (c : DeviceClaim) × IsUsed code v c)
        (λ _ v. Ends (λ _ _. ⊥) (SameRecords v) (provision service other code v)) (λ _. Unit)
        (λ _. Unit) (provision service id code w)
        (λ _ v (c, used). used_refused other code v c used) (λ _ h. h)
        (provision-IsUsed id code w dir codes_dir)
