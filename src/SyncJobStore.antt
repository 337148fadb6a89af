-- ===== src/SyncJobStore.antt =====
-- `MemorySyncJobStore` of internal/user/memory_store.go: one map under a lock.
use auth_imp.Base.{ℕ, String, ◌≡◌, none, some, List, arith, eq_iff, eq_refl, ◌==◌, if◌then◌else◌}
use auth_imp.Base.Int.{ℤ}
use auth_imp.Errors.{Error, Result, ok, err}
use auth_imp.Dict
use auth_imp.Dict.{Dict, get-put}
use auth_imp.Dict.Order.{Order}
use auth_imp.Model.{Time, SyncJob}
use auth_imp.Page.{page}

pub record MemorySyncJobStore : Type 0 where
  pub jobs : Dict SyncJob

-- `NewMemorySyncJobStore`
abbrev pub new : MemorySyncJobStore
new = record { jobs = Dict.empty }

abbrev pub stamped : Time → SyncJob → SyncJob
stamped now job = record job { created_at = now; updated_at = now }

-- `Create` looks at nothing: a job under the same id is replaced.
unfoldable pub create : Time → SyncJob → MemorySyncJobStore → Result SyncJob × MemorySyncJobStore
create now job s =
    (ok (stamped now job), record { jobs = Dict.put s.jobs job.id (stamped now job) })

unfoldable pub get_by_id : String → MemorySyncJobStore → Result SyncJob
get_by_id id s = elim (Dict.get s.jobs id) [
  | none ↦ err Error.sync_job_not_found
  | some job ↦ ok job
]

unfoldable pub update : Time → SyncJob → MemorySyncJobStore → Result (Unit {0}) × MemorySyncJobStore
update now job s = elim (Dict.get s.jobs job.id) [
  | none ↦ (err Error.sync_job_not_found, s)
  | some _ ↦ (ok tt, record { jobs = Dict.put s.jobs job.id (record job { updated_at = now }) })
]

unfoldable pub list : Order SyncJob → ℤ → ℤ → MemorySyncJobStore → Result (List SyncJob × ℕ)
list order offset limit s = page (order (Dict.values s.jobs)) offset limit

-- A created job is found under its id as it was stored, an update of a job that is there replaces
-- it under its id, and neither touches another id.
pub create-update_effect :
    (now later : Time) (job next : SyncJob) (s : MemorySyncJobStore) (id : String)
    → next.id ≡ job.id
    → let t = (create now job s).1 in
      (get_by_id id t ≡ (if job.id == id then ok (stamped now job) else get_by_id id s))
      × (get_by_id id (update later next t).1
          ≡ (if job.id == id then ok (record next { updated_at = later }) else get_by_id id s))
unfolding create update get_by_id
create-update_effect now later job next s id same =
    let created = stamped now job in
    let t = Dict.put s.jobs job.id created in
    ground (
      arith,
      get-put s.jobs job.id created id,
      get-put s.jobs job.id created next.id,
      same,
      get-put t next.id (record next { updated_at = later }) id,
      eq_iff job.id next.id,
      eq_refl job.id,
    )
