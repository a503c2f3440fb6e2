-- ===== src/Records/Calls.antt =====
-- What the calls of a store leave behind, whatever fails: from a world, a call ends well with a value
-- and a world of which one condition holds, or with an error and a world of which another does.
use spark_server.Base.{
  suc, ◌≡◌, refl, ◌∙◌, Bool, true, false, List, Bytes, Option, none, some, Result, ok, err,
  if◌then◌else◌, Bool-cases, Option-cases, inl, inr,
}
use spark_server.Base.Maps.{lookup, remove, is_some}
use spark_server.Records.Files.{bad_id, write_file, records}
use spark_server.Records.Effects.{
  pure, same_kind, is_not_found, invalid_id, Kind, Error, World, Env, M, continue, ◌>>◌, caught,
  called, raise_io, refuse_when, optional, device, product, firmware, event, webhook, auth,
  conflict,
}
use spark_server.Records.{
  found, write, removed, begin, disk, Table, create, get_by_id, save, delete, list, get_first,
  get_all, first_match, matches,
}

abbrev pub Ends :
    {A : Type 0} → (A → World → Type 0) → (World → Type 0) → Result Error A × World → Type 0
Ends P Q (ok a, w) = P a w
Ends P Q (err e, w) = Q w

pub Ends-continue :
    {A B : Type 0} (P : A → World → Type 0) (R : B → World → Type 0) (Q : World → Type 0)
    (r : Result Error A × World) (f : A → M B)
    → Ends P Q r
    → ((a : A) (w : World) → P a w → Ends R Q (f a w))
    → Ends R Q (continue r f)
Ends-continue P R Q (ok a, w) f h next = next a w h
Ends-continue P R Q (err e, w) f h next = h

pub Ends-weaken :
    {A : Type 0} (P R : A → World → Type 0) (Q S : World → Type 0) (r : Result Error A × World)
    → ((a : A) (w : World) → P a w → R a w)
    → ((w : World) → Q w → S w)
    → Ends P Q r
    → Ends R S r
Ends-weaken P R Q S (ok a, w) f g h = f a w h
Ends-weaken P R Q S (err e, w) f g h = g w h

pub Ends-caught :
    {A : Type 0} (P : Option A → World → Type 0) (Q : World → Type 0) (kind : Kind)
    (r : Result Error A × World)
    → Ends (λ a w. P (some a) w) (λ w. P none w × Q w) r
    → Ends P Q (caught kind r)
Ends-caught P Q kind (ok a, w) h = h
Ends-caught P Q kind (err e, w) h = elim (Bool-cases (is_not_found kind e)) [
  | inl absent ↦ rw absent h.0
  | inr other ↦ rw other h.1
]

same_kind_refl : (k : Kind) → same_kind k k ≡ true
same_kind_refl device = refl
same_kind_refl product = refl
same_kind_refl firmware = refl
same_kind_refl event = refl
same_kind_refl webhook = refl
same_kind_refl auth = refl

module _ (env : Env) where
  pub Ends-raise_io :
      (P : Unit {0} → World → Type 0) (Q : World → Type 0) (text : Option Bytes) (w : World)
      → P tt w
      → Q w
      → Ends P Q (raise_io text w)
  Ends-raise_io P Q none w p q = p
  Ends-raise_io P Q (some text) w p q = q

  pub Ends-refuse :
      (P : Unit {0} → World → Type 0) (Q : World → Type 0) (test : Bool) (e : Error) (w : World)
      → P tt w
      → Q w
      → Ends P Q (refuse_when test e w)
  Ends-refuse P Q true e w p q = q
  Ends-refuse P Q false e w p q = p

  pub Ends-guard :
      {A : Type 0} (P : A → World → Type 0) (Q : World → Type 0) (test : Bool) (e : Error) (m : M A)
      (w : World)
      → Q w
      → (test ≡ false → Ends P Q (m w))
      → Ends P Q ((refuse_when test e >> m) w)
  Ends-guard P Q true e m w q h = q
  Ends-guard P Q false e m w q h = h refl

  pub Ends-if :
      {A : Type 0} (P : A → World → Type 0) (Q : World → Type 0) (test : Bool) (m n : M A)
      (w : World)
      → (test ≡ true → Ends P Q (m w))
      → (test ≡ false → Ends P Q (n w))
      → Ends P Q ((if test then m else n) w)
  Ends-if P Q true m n w h k = h refl
  Ends-if P Q false m n w h k = k refl

  module _ {A : Type 0} (table : Table A) where
    Ends-found :
        (P : A → World → Type 0) (Q : World → Type 0) (w : World) (o : Option A)
        → Q w
        → ((a : A) → o ≡ some a → P a w)
        → Ends P Q (found env table o w)
    Ends-found P Q w none q p = q
    Ends-found P Q w (some a) q p = p a refl

    -- What stands behind the tests of an operation that names an ID.
    guarded :
        {B : Type 0} (P : B → World → Type 0) (Q : World → Type 0) (id : Bytes) (m : M B)
        (w : World)
        → Q (called w)
        → Q (called (called w))
        → Ends P Q (m (called (called w)))
        → Ends P Q ((do begin env table; refuse_when (bad_id id) invalid_id; disk env table; m) w)
    guarded P Q id m w q q' h = elim (Option-cases (env.cancelled w.calls)) [
      | inr (t, stopped) ↦ rw stopped q
      | inl running ↦ elim (Bool-cases (bad_id id)) [
        | inl bad ↦ rw (running, bad) q
        | inr good ↦ elim (Option-cases (env.fault (suc w.calls))) [
          | inr (t, broken) ↦ rw (running, good, broken) q'
          | inl works ↦ rw (running, good, works) h
        ]
      ]
    ]

    -- A read leaves the records as they are, and gives what stands under the ID.
    pub get_by_id-Ends :
        (P : A → World → Type 0) (Q : World → Type 0) (id : Bytes) (w : World)
        → Q (called w)
        → Q (called (called w))
        → ((a : A) → lookup id (table.files (called (called w))) ≡ some a → P a (called (called w)))
        → Ends P Q (get_by_id env table id w)
    unfolding get_by_id
    get_by_id-Ends P Q id w q q' p =
        guarded P Q id (λ v. found env table (lookup id (table.files v)) v) w q q'
          (Ends-found P Q (called (called w)) (lookup id (table.files (called (called w)))) q' p)

    -- So does one whose result is none where there is no record.
    pub optional-Ends :
        (P : Option A → World → Type 0) (Q : World → Type 0) (id : Bytes) (w : World)
        → P none (called w) × Q (called w)
        → P none (called (called w)) × Q (called (called w))
        → ((a : A)
            → lookup id (table.files (called (called w))) ≡ some a
            → P (some a) (called (called w)))
        → Ends P Q (optional table.kind (get_by_id env table id) w)
    optional-Ends P Q id w q q' p =
        Ends-caught P Q table.kind (get_by_id env table id w)
          (get_by_id-Ends (λ a v. P (some a) v) (λ v. P none v × Q v) id w q q' p)

    -- The record under the ID, or none where there is no record; any other error is passed on.
    pub optional_get-Ends :
        (P : Option A → World → Type 0) (Q : World → Type 0) (id : Bytes) (w : World)
        → Q (called w)
        → Q (called (called w))
        → ((o : Option A)
            → lookup id (table.files (called (called w))) ≡ o
            → P o (called (called w)))
        → Ends P Q (optional table.kind (get_by_id env table id) w)
    unfolding get_by_id
    optional_get-Ends P Q id w q q' p = elim (Option-cases (env.cancelled w.calls)) [
      | inr (t, stopped) ↦ rw stopped q
      | inl running ↦ elim (Bool-cases (bad_id id)) [
        | inl bad ↦ rw (running, bad) q
        | inr good ↦ elim (Option-cases (env.fault (suc w.calls))) [
          | inr (t, broken) ↦ rw (running, good, broken) q'
          | inl works ↦ elim (Option-cases (lookup id (table.files (called (called w))))) [
            | inl absent ↦
                rw (running, good, works, absent, same_kind_refl table.kind) (p none absent)
            | inr (a, there) ↦ rw (running, good, works, there) (p (some a) there)
          ]
        ]
      ]
    ]

    -- A record that is saved is written under its ID, or the call fails and writes nothing.
    pub save-Ends :
        (P : Unit {0} → World → Type 0) (Q : World → Type 0) (a : A) (w : World)
        → Q (called w)
        → Q (called (called w))
        → P tt (
            table.put
              (write_file (table.id_of a) a (table.files (called (called w))))
              (called (called w)))
        → Ends P Q (save env table a w)
    unfolding save
    save-Ends P Q a w q q' p = guarded P Q (table.id_of a) (write env table a) w q q' p

    -- So is one that is created, where its ID is new.
    pub create-Ends :
        (P : Unit {0} → World → Type 0) (Q : World → Type 0) (a : A) (w : World)
        → Q (called w)
        → Q (called (called w))
        → (lookup (table.id_of a) (table.files (called (called w))) ≡ none
            → P tt (
                table.put
                  (write_file (table.id_of a) a (table.files (called (called w))))
                  (called (called w))))
        → Ends P Q (create env table a w)
    unfolding create
    create-Ends P Q a w q q' p =
        let v = called (called w) in
        guarded P Q (table.id_of a)
          (λ u.
            continue
              (refuse_when (is_some (lookup (table.id_of a) (table.files u))) (conflict table.kind)
                u)
              (λ _. write env table a))
          w q q'
          (elim (Option-cases (lookup (table.id_of a) (table.files v))) [
            | inl new ↦ rw new (p new)
            | inr (b, taken) ↦ rw taken q'
          ])

    pub delete-Ends :
        (P : Unit {0} → World → Type 0) (Q : World → Type 0) (id : Bytes) (w : World)
        → Q (called w)
        → Q (called (called w))
        → P tt (table.put (remove id (table.files (called (called w)))) (called (called w)))
        → Ends P Q (delete env table id w)
    unfolding delete
    delete-Ends P Q id w q q' p =
        let v = called (called w) in
        guarded P Q id (λ u. removed env table id (lookup id (table.files u)) u) w q q'
          (elim (Option-cases (lookup id (table.files v))) [
            | inl absent ↦ rw absent q'
            | inr (b, there) ↦ rw there p
          ])

    pub list-Ends :
        (P : List A → World → Type 0) (Q : World → Type 0) (w : World)
        → Q (called w)
        → Q (called (called w))
        → P (records (table.files (called (called w)))) (called (called w))
        → Ends P Q (list env table w)
    unfolding list
    list-Ends P Q w q q' p = elim (Option-cases (env.cancelled w.calls)) [
      | inr (t, stopped) ↦ rw stopped q
      | inl running ↦ elim (Option-cases (env.fault (suc w.calls))) [
        | inr (t, broken) ↦ rw (running, broken) q'
        | inl works ↦ rw (running, works) p
      ]
    ]

    pub get_first-Ends :
        (P : A → World → Type 0) (Q : World → Type 0) (test : A → Bool) (w : World)
        → Q (called w)
        → Q (called (called w))
        → ((a : A)
            → first_match test (records (table.files (called (called w)))) ≡ some a
            → P a (called (called w)))
        → Ends P Q (get_first env table test w)
    unfolding get_first
    get_first-Ends P Q test w q q' p =
        let v = called (called w) in
        Ends-continue (λ all u. (all ≡ records (table.files v)) × (u ≡ v)) P Q (list env table w)
          (λ all. found env table (first_match test all))
          (list-Ends (λ all u. (all ≡ records (table.files v)) × (u ≡ v)) Q w q q' (refl, refl))
          (λ all u h.
            rw (h.0, h.1) (Ends-found P Q v (first_match test (records (table.files v))) q' p))

    -- The first match, or none where nothing matches.
    pub optional_first-Ends :
        (P : Option A → World → Type 0) (Q : World → Type 0) (test : A → Bool) (w : World)
        → Q (called w)
        → Q (called (called w))
        → ((o : Option A)
            → first_match test (records (table.files (called (called w)))) ≡ o
            → P o (called (called w)))
        → Ends P Q (optional table.kind (get_first env table test) w)
    unfolding get_first list
    optional_first-Ends P Q test w q q' p = elim (Option-cases (env.cancelled w.calls)) [
      | inr (t, stopped) ↦ rw stopped q
      | inl running ↦ elim (Option-cases (env.fault (suc w.calls))) [
        | inr (t, broken) ↦ rw (running, broken) q'
        | inl works ↦
            elim (Option-cases (first_match test (records (table.files (called (called w)))))) [
              | inl absent ↦ rw (running, works, absent, same_kind_refl table.kind) (p none absent)
              | inr (a, there) ↦ rw (running, works, there) (p (some a) there)
            ]
      ]
    ]

    pub get_all-Ends :
        (P : List A → World → Type 0) (Q : World → Type 0) (test : A → Bool) (w : World)
        → Q (called w)
        → Q (called (called w))
        → P (matches test (records (table.files (called (called w))))) (called (called w))
        → Ends P Q (get_all env table test w)
    unfolding get_all
    get_all-Ends P Q test w q q' p =
        let v = called (called w) in
        Ends-continue (λ all u. (all ≡ records (table.files v)) × (u ≡ v)) P Q (list env table w)
          (λ all. pure (matches test all))
          (list-Ends (λ all u. (all ≡ records (table.files v)) × (u ≡ v)) Q w q q' (refl, refl))
          (λ all u h. rw (h.0, h.1) p)

-- The records are as they were.
pub record SameRecords (w v : World) : Type 0 where
  pub devices : v.devices ≡ w.devices
  pub claims : v.claims ≡ w.claims
  pub products : v.products ≡ w.products
  pub links : v.links ≡ w.links
  pub firmwares : v.firmwares ≡ w.firmwares

pub same_records : (w : World) → SameRecords w w
same_records w = record {
  devices = refl;
  claims = refl;
  products = refl;
  links = refl;
  firmwares = refl;
}

pub SameRecords-trans : (u v w : World) → SameRecords u v → SameRecords v w → SameRecords u w
SameRecords-trans u v w h k = record {
  devices = k.devices ∙ h.devices;
  claims = k.claims ∙ h.claims;
  products = k.products ∙ h.products;
  links = k.links ∙ h.links;
  firmwares = k.firmwares ∙ h.firmwares;
}

pub SameRecords-called : (w v : World) → SameRecords w v → SameRecords w (called v)
SameRecords-called w v h = record {
  devices = h.devices;
  claims = h.claims;
  products = h.products;
  links = h.links;
  firmwares = h.firmwares;
}
