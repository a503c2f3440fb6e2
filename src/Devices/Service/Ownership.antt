-- ===== src/Devices/Service/Ownership.antt =====
-- What a user can do to the devices of others.
use spark_server.Base.{
  ◌≡◌, ◌≢◌, refl, sym, ap, ◌∙◌, Bool, true, ◌&&◌, [], Bytes, same_bytes, same_bytes_iff, Option,
  none, some, arith, Bool-cases, inl, inr, subst,
}
use spark_server.Base.Maps.{lookup}
use spark_server.Devices.Models.{Device}
use spark_server.Records.Files.{write_file}
use spark_server.Records.Files.Directory.{IsDirectory, lookup-write_file}
use spark_server.Records.Matches.{lookup-id, first_match-lookup}
use spark_server.Records.Effects.{◌>>◌, pure, device, World, ◌>>=◌, called, now, optional}
use spark_server.Records.{devices, get_by_id, save}
use spark_server.Records.Calls.{
  Ends-weaken, optional-Ends, SameRecords-called, Ends, Ends-continue, save-Ends, get_first-Ends,
  SameRecords, same_records,
}
use spark_server.Devices.Service.{Service, get, get_found, update, unclaim}

abbrev pub HasDevices : World → Type 0
HasDevices w = IsDirectory (λ (d : Device). d.id) w.devices

-- A device of the owner, as it is stored, and no record has changed.
pub record Owns (owner : Bytes) (w : World) (d : Device) (v : World) : Type 0 where
  pub owned : d.owner_id ≡ owner
  pub there : lookup d.id v.devices ≡ some d
  pub same : SameRecords w v

and_left : (a b : Bool) → (a && b) ≡ true → a ≡ true
and_left a b h = ground arith

-- The devices of others are as they were.
abbrev pub KeepsOthers : Bytes → World → World → Type 0
KeepsOthers owner w v =
    (k : Bytes) (d : Device)
    → lookup k w.devices ≡ some d
    → d.owner_id ≢ owner
    → lookup k v.devices ≡ some d

SameRecords-KeepsOthers : (owner : Bytes) (w v : World) → SameRecords w v → KeepsOthers owner w v
SameRecords-KeepsOthers owner w v same k d there other = ap (lookup k) same.devices ∙ there

module _ (service : Service) (owner : Bytes) where
  get_found-Owns :
      (name : Bytes) (o : Option Device) (w v : World)
      → SameRecords w v
      → HasDevices w
      → ((d : Device) → o ≡ some d → lookup d.id v.devices ≡ some d)
      → Ends (Owns owner w) (SameRecords w) (get_found service owner name o v)
  get_found-Owns name none w v same dir there =
      let once = SameRecords-called w v same in
      let twice = SameRecords-called w (called v) once in
      let test = λ (d : Device). same_bytes d.owner_id owner && same_bytes d.name name in
      let dir_v : HasDevices v =
        subst (IsDirectory (λ (d : Device). d.id)) (sym same.devices) dir in
      get_first-Ends service.env devices (Owns owner w) (SameRecords w) test v once twice (λ d e.
        let (there, passes) = first_match-lookup (λ (a : Device). a.id) test v.devices d dir_v e in
        record {
          owned =
              (same_bytes_iff d.owner_id owner).0
                (and_left (same_bytes d.owner_id owner) (same_bytes d.name name) passes);
          there = there;
          same = twice;
        })
  get_found-Owns name (some d) w v same dir there =
      elim (Bool-cases (same_bytes d.owner_id owner)) [
        | inl mine ↦ rw mine (record {
          owned = (same_bytes_iff d.owner_id owner).0 mine;
          there = there d refl;
          same = same;
        })
        | inr other ↦ rw other same
      ]

  stored :
      (id : Bytes) (w : World)
      → HasDevices w
      → (d c : Device) → lookup id w.devices ≡ some d
      → ◌≡◌ {A = Option Device} (some d) (some c)
      → lookup c.id w.devices ≡ some c
  stored id w dir d c e f =
      let named = lookup-id (λ (a : Device). a.id) id w.devices c dir (e ∙ f) in
      ap (λ i. lookup i w.devices) named ∙ e ∙ f

  -- A device that Get returns is one of the user's, as it is stored; no record changes.
  pub get-Owns :
      (id_or_name : Bytes) (w : World)
      → HasDevices w
      → Ends (Owns owner w) (SameRecords w) (get service owner id_or_name w)
  unfolding get
  get-Owns id_or_name w dir =
      let once = SameRecords-called w w (same_records w) in
      let twice = SameRecords-called w (called w) once in
      let P = λ (o : Option Device) (v : World).
        SameRecords w v × ((d : Device) → o ≡ some d → lookup d.id v.devices ≡ some d) in
      Ends-continue P (Owns owner w) (SameRecords w)
        (optional device (get_by_id service.env devices id_or_name) w)
        (get_found service owner id_or_name)
        (optional-Ends service.env devices P (SameRecords w) id_or_name w ((once, λ d e. cc), once)
          ((twice, λ d e. cc), twice) (λ d e. (twice, λ c f. stored id_or_name w dir d c e f)))
        (λ o v h. get_found-Owns id_or_name o w v h.0 dir h.1)

  -- What is written over a device of the owner leaves those of others.
  write-KeepsOthers :
      (w : World) (old new : Device)
      → old.owner_id ≡ owner
      → lookup old.id w.devices ≡ some old
      → new.id ≡ old.id
      → KeepsOthers owner w (record w { devices = write_file new.id new w.devices })
  write-KeepsOthers w old new mine there same k d e other =
      elim (Bool-cases (same_bytes new.id k)) [
        | inl hit ↦
            let at_k : lookup k w.devices ≡ some old =
              ap (λ i. lookup i w.devices) (sym ((same_bytes_iff new.id k).0 hit) ∙ same) ∙ there in
            let both : ◌≡◌ {A = Option Device} (some old) (some d) = sym at_k ∙ e in
            let is : old ≡ d = ground arith in
            absurd (other (ap (λ (a : Device). a.owner_id) (sym is) ∙ mine))
        | inr miss ↦ lookup-write_file k new.id new w.devices ∙ rw miss e
      ]

  saved-KeepsOthers :
      (w v : World) (d new : Device)
      → Owns owner w d v
      → new.id ≡ d.id
      → Ends
          (λ _ u. KeepsOthers owner w u)
          (KeepsOthers owner w)
          (save service.env devices new (called v))
  saved-KeepsOthers w v d new o same =
      let kept : KeepsOthers owner w v = SameRecords-KeepsOthers owner w v o.same in
      save-Ends service.env devices (λ _ u. KeepsOthers owner w u) (KeepsOthers owner w) new
        (called v) kept kept
        (λ k a there other.
          write-KeepsOthers v d new o.owned o.there same k a (kept k a there other) other)

  update-KeepsOthers :
      (id_or_name name : Bytes) (w : World)
      → HasDevices w
      → Ends
          (λ _ v. KeepsOthers owner w v)
          (KeepsOthers owner w)
          (update service owner id_or_name name w)
        × Ends
            (λ _ v. KeepsOthers owner w v)
            (KeepsOthers owner w)
            (unclaim service owner id_or_name w)
  unfolding update unclaim now
  update-KeepsOthers id_or_name name w dir =
      let Q = KeepsOthers owner w in
      let got =
        Ends-weaken (Owns owner w) (Owns owner w) (SameRecords w) Q (get service owner id_or_name w)
          (λ d v h. h) (λ v h. SameRecords-KeepsOthers owner w v h) (get-Owns id_or_name w dir) in
      (
        Ends-continue (Owns owner w) (λ _ v. Q v) Q (get service owner id_or_name w)
            (λ d. do
              time ← now service.env
              let renamed = record d { name = name; updated_at = time }
              save service.env devices renamed
              pure renamed)
            got
            (λ d v o.
              let renamed = record d { name = name; updated_at = service.env.clock v.calls } in
              Ends-continue (λ _ u. Q u) (λ _ u. Q u) Q
                (save service.env devices renamed (called v)) (λ _. pure renamed)
                (saved-KeepsOthers w v d renamed o refl) (λ _ u h. h)),
        Ends-continue (Owns owner w) (λ _ v. Q v) Q (get service owner id_or_name w)
            (λ d. do
              time ← now service.env
              save service.env devices (record d { owner_id = []; updated_at = time }))
            got
            (λ d v o.
              saved-KeepsOthers w v d
                (record d { owner_id = []; updated_at = service.env.clock v.calls }) o refl),
      )

  -- Renaming a device and giving one up leave every device of another user as it was, whatever name
  -- or ID the user gives and whatever calls fail.
  pub devices_of_others_kept :
      (id_or_name name : Bytes) (w : World) (k : Bytes) (d : Device)
      → HasDevices w
      → lookup k w.devices ≡ some d
      → d.owner_id ≢ owner
      → Ends
          (λ _ v. lookup k v.devices ≡ some d)
          (λ v. lookup k v.devices ≡ some d)
          (update service owner id_or_name name w)
        × Ends
            (λ _ v. lookup k v.devices ≡ some d)
            (λ v. lookup k v.devices ≡ some d)
            (unclaim service owner id_or_name w)
  devices_of_others_kept id_or_name name w k d dir there other =
      let (renamed, given_up) = update-KeepsOthers id_or_name name w dir in
      let K = KeepsOthers owner w in
      let T = λ (v : World). lookup k v.devices ≡ some d in
      (
        Ends-weaken (λ _ v. K v) (λ _ v. T v) K T (update service owner id_or_name name w)
            (λ _ v h. h k d there other) (λ v h. h k d there other) renamed,
        Ends-weaken (λ _ v. K v) (λ _ v. T v) K T (unclaim service owner id_or_name w)
            (λ _ v h. h k d there other) (λ v h. h k d there other) given_up,
      )
