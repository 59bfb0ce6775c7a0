-- ===== src/Integration/Health.antt =====
-- What the health of a group of jobs says.
use backup_maker_controller.Prelude.{
  String, ◌<>◌, ◌≡◌, refl, arith, Bool, true, false, not, ◌||◌, ◌&&◌, List, [], ◌∷◌, any,
  if◌then◌else◌, Fallible, gives,
}
use backup_maker_controller.Kube.{Job}
use backup_maker_controller.Libs.{Libs}
use backup_maker_controller.Api.ChildReference.{JobHealthStatus, label_tracking_id}
use backup_maker_controller.Integration.{
  job_failed, job_active, scan_jobs, failed_status, summary_status, job_health_status,
}

-- The three flags of the status, in terms of all the jobs, whatever their order.
pub record Reports (jobs : List Job) (before : Bool) (s : JobHealthStatus) : Type 0 where
  pub failing : s.failed ≡ any job_failed jobs
  pub active : s.running ≡ (not (any job_failed jobs) && (before || any job_active jobs))
  pub finished : s.succeeded ≡ (not (any job_failed jobs) && not (before || any job_active jobs))

scan_jobs-Reports :
    (id ns : String) (before : Bool) (jobs : List Job)
    → Reports jobs before (scan_jobs id ns before jobs)
unfolding scan_jobs failed_status summary_status
scan_jobs-Reports id ns before [] = ground arith
scan_jobs-Reports id ns before (job ∷ jobs) =
    ground (arith, scan_jobs-Reports id ns (if job_active job then true else before) jobs)

-- A group of jobs, of at least one, has a status, and its flags go by all the jobs in any order: it has
-- failed exactly if some job has failed pods, it is running exactly if none has and some job is active,
-- and it has succeeded exactly if neither is so.
pub job_health_status-Reports :
    (L : Libs) (list : String → String → Fallible (List Job)) (id ns : String) (job : Job)
    (jobs : List Job)
    → list ns (label_tracking_id <> ("=" <> id)) ≡ gives (job ∷ jobs)
    → (s : JobHealthStatus) × (job_health_status L list id ns ≡ gives s)
      × Reports (job ∷ jobs) false s
unfolding job_health_status
job_health_status-Reports L list id ns job jobs h =
    (scan_jobs id ns false (job ∷ jobs), rw h refl, scan_jobs-Reports id ns false (job ∷ jobs))

-- Jobs that have no active and no failed pods count as succeeded, also those that wait for their
-- first pod.
pub pending_counts_as_succeeded :
    (L : Libs) (list : String → String → Fallible (List Job)) (id ns : String) (job : Job)
    (jobs : List Job)
    → list ns (label_tracking_id <> ("=" <> id)) ≡ gives (job ∷ jobs)
    → any job_failed (job ∷ jobs) ≡ false
    → any job_active (job ∷ jobs) ≡ false
    → (s : JobHealthStatus) × (job_health_status L list id ns ≡ gives s)
      × (s.succeeded ≡ true)
      × (s.running ≡ false)
pending_counts_as_succeeded L list id ns job jobs h f a =
    let (s, e, r) = job_health_status-Reports L list id ns job jobs h in
    (s, e, ground (arith, r.finished, f, a), ground (arith, r.active, f, a))
