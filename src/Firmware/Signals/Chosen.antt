-- ===== src/Firmware/Signals/Chosen.antt =====
-- The job that `activeFlashJobForDevice` takes a device to mean.
use mathlib.Core.List.{Permᴰ}
use mathlib.Core.List.Permᴰ
use spark_server.Base.{
  suc, ◌≤◌, ◌≡◌, ◌≢◌, subst, ◌⊎◌, inl, inr, refl, sym, ap, ◌∙◌, Bool, true, false, List, [], ◌∷◌,
  Bytes, same_bytes, same_bytes_iff, Option, none, some, ok, err, All, All-map, Bool-cases, arith,
}
use spark_server.Base.Sort.{Sorting, IsSorted, All-Perm}
use spark_server.Firmware.Models.{FlashJob, FlashStatus, not_found}
use spark_server.Firmware.Effects.{Env, World, of_device, store_of_device}
use spark_server.Firmware.Job.{is_active, is_completed}
use spark_server.Firmware.Reliable.{IsReliable}
use spark_server.Firmware.Ota.{newest_first}
use spark_server.Firmware.Signals.{
  or_completed, first_with, active_or_completed, active_flash_job_for_device,
}

-- Where a job passes the test, it was not updated after `job`.
abbrev pub IsNewest : (FlashStatus → Bool) → FlashJob → List FlashJob → Type 0
IsNewest test job jobs =
    (test job.status ≡ true)
    × All (λ j. (test j.status ≡ false) ⊎ (j.updated_at ≤ job.updated_at)) jobs

abbrev pub HasNone : (FlashStatus → Bool) → List FlashJob → Type 0
HasNone test jobs = All (λ j. test j.status ≡ false) jobs

-- A newest one of the active jobs, or where none is active, of the completed ones.
abbrev pub IsChosen : FlashJob → List FlashJob → Type 0
IsChosen job jobs =
    IsNewest is_active job jobs ⊎ (HasNone is_active jobs × IsNewest is_completed job jobs)

first_with-none :
    (test : FlashStatus → Bool) (jobs : List FlashJob)
    → first_with test jobs ≡ none
    → HasNone test jobs
first_with-none test [] e = tt
first_with-none test (j ∷ jobs) e = elim (Bool-cases (test j.status)) [
  | inl holds ↦ absurd (ground arith)
  | inr fails ↦ (fails, first_with-none test jobs (ground arith))
]

first_with-IsNewest :
    (test : FlashStatus → Bool) (jobs : List FlashJob) (job : FlashJob)
    → IsSorted newest_first jobs
    → first_with test jobs ≡ some job
    → IsNewest test job jobs
first_with-IsNewest test [] job s e = cc
first_with-IsNewest test (j ∷ jobs) job s e = elim (Bool-cases (test j.status)) [
  | inl holds ↦
      let is : j ≡ job = ground arith in
      subst (λ k. IsNewest test k (j ∷ jobs)) is
        (
          holds,
          (
            inr (omega arith),
            All-map (λ k. newest_first k j ≡ false)
                (λ k. (test k.status ≡ false) ⊎ (k.updated_at ≤ j.updated_at))
                (λ k h. inr (ground arith)) jobs s.0,
          ),
        )
  | inr fails ↦
      let (passes, newest) = first_with-IsNewest test jobs job s.1 (ground arith) in
      (passes, (inl fails, newest))
]

first_with-All :
    (P : FlashJob → Type 0) (test : FlashStatus → Bool) (jobs : List FlashJob) (job : FlashJob)
    → All P jobs
    → first_with test jobs ≡ some job
    → P job
first_with-All P test [] job h e = cc
first_with-All P test (j ∷ jobs) job h e = elim (Bool-cases (test j.status)) [
  | inl holds ↦ let is : j ≡ job = ground arith in subst P is h.0
  | inr fails ↦ first_with-All P test jobs job h.1 (ground arith)
]

abbrev pub IsIn : FlashJob → List FlashJob → Type 0
IsIn job [] = ⊥
IsIn job (j ∷ jobs) = (job ≡ j) ⊎ IsIn job jobs

-- One of the stored jobs, and of the device.
abbrev pub IsOf : Bytes → List FlashJob → FlashJob → Type 0
IsOf id stored job = (job.device_id ≡ id) × IsIn job stored

of_device-All : (id : Bytes) (jobs : List FlashJob) → All (IsOf id jobs) (of_device id jobs)
of_device-All id [] = tt
of_device-All id (j ∷ jobs) =
    let rest =
      All-map (IsOf id jobs) (IsOf id (j ∷ jobs)) (λ k (owned, there). (owned, inr there))
        (of_device id jobs) (of_device-All id jobs) in
    elim (Bool-cases (same_bytes j.device_id id)) [
      | inl holds ↦ rw holds (((same_bytes_iff j.device_id id).0 holds, inl refl), rest)
      | inr fails ↦ rw fails rest
    ]

-- The result of the two loops over sorted jobs.
abbrev Choice : Option FlashJob → List FlashJob → Type 0
Choice none jobs = HasNone is_active jobs × HasNone is_completed jobs
Choice (some job) jobs = IsChosen job jobs

completed-Choice :
    (jobs : List FlashJob) (o : Option FlashJob)
    → IsSorted newest_first jobs
    → HasNone is_active jobs
    → first_with is_completed jobs ≡ o
    → Choice o jobs
completed-Choice jobs none s h e = (h, first_with-none is_completed jobs e)
completed-Choice jobs (some job) s h e = inr (h, first_with-IsNewest is_completed jobs job s e)

active-Choice :
    (jobs : List FlashJob) (o : Option FlashJob)
    → IsSorted newest_first jobs
    → first_with is_active jobs ≡ o
    → Choice (active_or_completed jobs) jobs
active-Choice jobs none s e =
    subst (λ o. Choice o jobs) (sym (ap (λ o. or_completed o jobs) e))
      (completed-Choice jobs (first_with is_completed jobs) s (first_with-none is_active jobs e)
        refl)
active-Choice jobs (some job) s e =
    subst (λ o. Choice o jobs) (sym (ap (λ o. or_completed o jobs) e))
      (inl (first_with-IsNewest is_active jobs job s e))

IsNewest-Perm :
    (test : FlashStatus → Bool) (job : FlashJob) {jobs sorted : List FlashJob}
    → Permᴰ sorted jobs
    → IsNewest test job sorted
    → IsNewest test job jobs
IsNewest-Perm test job d (passes, newest) =
    (passes, All-Perm (λ j. (test j.status ≡ false) ⊎ (j.updated_at ≤ job.updated_at)) d newest)

HasNone-Perm :
    (test : FlashStatus → Bool) {jobs sorted : List FlashJob}
    → Permᴰ sorted jobs
    → HasNone test sorted
    → HasNone test jobs
HasNone-Perm test d h = All-Perm (λ j. test j.status ≡ false) d h

IsChosen-Perm :
    (job : FlashJob) {jobs sorted : List FlashJob}
    → Permᴰ sorted jobs
    → IsChosen job sorted
    → IsChosen job jobs
IsChosen-Perm job d (inl newest) = inl (IsNewest-Perm is_active job d newest)
IsChosen-Perm job d (inr (active, newest)) =
    inr (HasNone-Perm is_active d active, IsNewest-Perm is_completed job d newest)

-- What the choice is to be for the jobs of a device.
abbrev Outcome : Bytes → List FlashJob → List FlashJob → Option FlashJob → Type 0
Outcome id stored jobs none = HasNone is_active jobs × HasNone is_completed jobs
Outcome id stored jobs (some job) = IsOf id stored job × IsChosen job jobs

or_completed-All :
    (P : FlashJob → Type 0) (jobs : List FlashJob) (o : Option FlashJob) (job : FlashJob)
    → All P jobs
    → first_with is_active jobs ≡ o
    → or_completed o jobs ≡ some job
    → P job
or_completed-All P jobs none job h e f = first_with-All P is_completed jobs job h f
or_completed-All P jobs (some a) job h e f = first_with-All P is_active jobs job h (e ∙ f)

reordered :
    (id : Bytes) (stored jobs sorted : List FlashJob) (o : Option FlashJob)
    → Permᴰ jobs sorted
    → All (IsOf id stored) jobs
    → active_or_completed sorted ≡ o
    → Choice o sorted
    → Outcome id stored jobs o
reordered id stored jobs sorted none d h e (active, done) =
    (HasNone-Perm is_active (Permᴰ.symm d) active, HasNone-Perm is_completed (Permᴰ.symm d) done)
reordered id stored jobs sorted (some job) d h e choice = (
  or_completed-All (IsOf id stored) sorted (first_with is_active sorted) job
      (All-Perm (IsOf id stored) d h) refl e,
  IsChosen-Perm job (Permᴰ.symm d) choice,
)

-- A chosen job, or a refusal where no job is active or completed.
abbrev pub Answers : (env : Env) → Sorting newest_first → Bytes → World → Type 0
Answers env slice id w =
    let jobs = of_device id w.jobs in
    let v = record w { calls = suc w.calls } in
    ((job : FlashJob) × (active_flash_job_for_device env slice id w ≡ (ok job, v))
      × IsIn job w.jobs
      × (job.device_id ≡ id)
      × IsChosen job jobs)
    ⊎ ((active_flash_job_for_device env slice id w
          ≡ (err (record { cause = not_found; job = none }), v))
        × HasNone is_active jobs
        × HasNone is_completed jobs)

answer :
    (env : Env) (slice : Sorting newest_first) (id : Bytes) (w : World)
    → IsReliable env
    → same_bytes id [] ≡ false
    → (o : Option FlashJob) → active_or_completed (slice.sort (of_device id w.jobs)) ≡ o
    → Outcome id w.jobs (of_device id w.jobs) o
    → Answers env slice id w
unfolding active_flash_job_for_device store_of_device
answer env slice id w r named none e (active, done) =
    inr (simp (named, r.has_store, r.no_fault w.calls, e) refl, active, done)
answer env slice id w r named (some job) e ((owned, there), choice) =
    inl (job, simp (named, r.has_store, r.no_fault w.calls, e) refl, there, owned, choice)

-- The job that a device is taken to mean, over a store that answers: it is one of the stored jobs, of
-- that device, and a newest one of its active jobs, or where none is active, of its completed ones; where there is none
-- of either, the call is refused as not found. The jobs and the wire stay as they are.
pub active_flash_job_for_device-IsChosen :
    (env : Env) (slice : Sorting newest_first) (id : Bytes) (w : World)
    → IsReliable env
    → id ≢ []
    → Answers env slice id w
active_flash_job_for_device-IsChosen env slice id w r some_id =
    let named : same_bytes id [] ≡ false = ground (arith, (same_bytes_iff id []).0) in
    let jobs = of_device id w.jobs in
    answer env slice id w r named (active_or_completed (slice.sort jobs)) refl (
      reordered id w.jobs jobs (slice.sort jobs) (active_or_completed (slice.sort jobs))
        (slice.permutes jobs) (of_device-All id w.jobs) refl
        (active-Choice (slice.sort jobs) (first_with is_active (slice.sort jobs))
          (slice.is_sorted jobs) refl))
