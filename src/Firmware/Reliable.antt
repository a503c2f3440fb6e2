-- ===== src/Firmware/Reliable.antt =====
-- Calls to a store that answers, as triples: from a world, an operation returns a value and a world
-- of which a condition holds.
use spark_server.Base.{
  ℕ, suc, ◌≡◌, refl, ap, ◌∙◌, true, List, [], ◌∷◌, ◌++◌, Bytes, same_bytes, same_bytes_iff, none,
  some, ok, if◌then◌else◌, arith,
}
use spark_server.Firmware.Models.{FlashJob}
use spark_server.Firmware.Effects.{
  Env, World, M, continue, ◌>>=◌, pure, now, save, store_save, publish, find_job, replace_job,
  check_context,
}

-- The store is there and does not fail, and no call is cancelled.
pub record IsReliable (env : Env) : Type 0 where
  pub has_store : env.has_store ≡ true
  pub no_fault : (n : ℕ) → env.store_fault n ≡ none
  pub not_cancelled : (n : ℕ) → env.cancelled n ≡ none

abbrev pub Returns : {A : Type 0} → M A → World → (A → World → Type 0) → Type 0
Returns {A} m w P = (a : A) × (v : World) × (m w ≡ (ok a, v)) × P a v

pub Returns-pure :
    {A : Type 0} (a : A) (w : World) (P : A → World → Type 0) → P a w → Returns (pure a) w P
Returns-pure a w P p = (a, w, refl, p)

pub Returns-bind :
    {A B : Type 0} (m : M A) (f : A → M B) (w : World) (P : A → World → Type 0)
    (Q : B → World → Type 0)
    → Returns m w P
    → ((a : A) (v : World) → P a v → Returns (f a) v Q)
    → Returns (m >>= f) w Q
Returns-bind m f w P Q (a, v, e, p) next =
    let (b, u, e', q) = next a v p in (b, u, ap (λ r. continue r f) e ∙ e', q)

-- The jobs and the wire are as they were.
pub record Untouched (w v : World) : Type 0 where
  pub jobs : v.jobs ≡ w.jobs
  pub wire : v.wire ≡ w.wire

-- The store holds a job under its ID, and the wire is as it was.
pub record Stored (job : FlashJob) (w v : World) : Type 0 where
  pub found : find_job job.id v.jobs ≡ some job
  pub wire : v.wire ≡ w.wire

pub find_job-replace_job :
    (id : Bytes) (job : FlashJob) (jobs : List FlashJob)
    → find_job id (replace_job job jobs)
      ≡ (if same_bytes job.id id then some job else find_job id jobs)
find_job-replace_job id job [] = refl
find_job-replace_job id job (j ∷ jobs) = ground (
  arith,
  find_job-replace_job id job jobs,
  same_bytes_iff j.id job.id,
  same_bytes_iff j.id id,
  same_bytes_iff job.id id,
)

pub find_job-id :
    (id : Bytes) (jobs : List FlashJob) (job : FlashJob) → find_job id jobs ≡ some job → job.id ≡ id
find_job-id id [] job e = cc
find_job-id id (j ∷ jobs) job e = ground (arith, same_bytes_iff j.id id, find_job-id id jobs job)

module _ (env : Env) (r : IsReliable env) where
  pub now_returns : (w : World) → Returns (now env) w (λ _ v. Untouched w v)
  unfolding now
  now_returns w = (
    env.clock w.calls,
    record w { calls = suc w.calls },
    refl,
    record { jobs = refl; wire = refl },
  )

  pub publish_returns :
      (phase : Bytes) (job : FlashJob) (w : World)
      → Returns (publish env phase job) w (λ _ v. Untouched w v)
  unfolding publish
  publish_returns phase job w = (
    tt,
    record w { events = w.events ++ (phase, job) ∷ [] },
    refl,
    record { jobs = refl; wire = refl },
  )

  pub save_returns : (job : FlashJob) (w : World) → Returns (save env job) w (λ _ v. Stored job w v)
  unfolding save store_save
  save_returns job w = (
    tt,
    record w { calls = suc w.calls; jobs = replace_job job w.jobs },
    rw (r.has_store, r.no_fault w.calls),
    record {
      found = find_job-replace_job job.id job w.jobs ∙ rw ((same_bytes_iff job.id job.id).1 refl);
      wire = refl;
    },
  )

  pub check_returns : (w : World) → Returns (check_context env) w (λ _ v. Untouched w v)
  unfolding check_context
  check_returns w = (
    tt,
    record w { calls = suc w.calls },
    rw (r.not_cancelled w.calls) refl,
    record { jobs = refl; wire = refl },
  )
