-- ===== src/Tests/Resting.antt =====
-- Rounds that have nothing left to do.
use backup_maker_controller.Prelude.{String, ◌≡◌, refl, ap, true, Option, none, List, [], ◌∷◌, Err}
use backup_maker_controller.Cluster.{Cluster}
use backup_maker_controller.Api.ScheduledBackup.{ScheduledBackup, calculate_hash}
use backup_maker_controller.Controllers.{World}
use backup_maker_controller.Controllers.Observers.Backups
use backup_maker_controller.Controllers.Observers.Backups.{
  BackupRound, reconciles_at, observes_jobs, SaysApplied, applied_for_good,
}
use backup_maker_controller.Factory.Hydrate.{fetch_scheduled_backup, fetch_requested_backup_action}
use backup_maker_controller.Factory.Hydrate.Frame.{IsSecretFree}
use backup_maker_controller.Api.RequestedBackupAction.{RequestedBackupAction}
use backup_maker_controller.Domain.Aggregate.{was_already_processed}
use backup_maker_controller.Controllers.RequestedBackupAction.{reconcile_aggregate}
use backup_maker_controller.Locking.InMemory.{in_memory_locker}
use backup_maker_controller.Controllers.Observers.Lifecycle.{
  reconciles, observes, play_all, SaysProcessed, processed_for_good,
}
use backup_maker_controller.Controllers.RequestedBackupAction.Rest.{
  Stands, rounds, action_is_performed_once,
}
use backup_maker_controller.Tests.Samples.{
  libs, crypto, cluster, cluster-RetryStops, Server, server, workspace, disk, req, sample_backup,
}
use backup_maker_controller.Tests.Rendering.{action_aggregate}
use backup_maker_controller.Tests.Controlling.{
  world, after, applied_one, applied_to, written, done_server, done_world,
}

-- The sample server answers with the action that it holds, whatever Secrets are written.
Stands-cluster :
    (action : RequestedBackupAction) → IsSecretFree cluster (Stands libs crypto cluster req action)
unfolding fetch_requested_backup_action
Stands-cluster action = record { keeps_create = λ secret s h. h; keeps_update = λ secret s h. h }

-- No object was applied, beside those that stand already.
abbrev HasObjectsOf : Server → Server → Type 0
HasObjectsOf before s = s.objects ≡ before.objects

HasObjectsOf-cluster : (before : Server) → IsSecretFree cluster (HasObjectsOf before)
HasObjectsOf-cluster before = record {
  keeps_create = λ secret s h. h;
  keeps_update = λ secret s h. h;
}

abbrev stored : Server
stored = record after.cluster { requested = written }

action_is_performed_once_example :
    let first = (reconcile_aggregate libs cluster {W = workspace} action_aggregate world).1 in
    let w = rounds libs crypto cluster req 2 first in
    (w.disk ≡ first.disk) × HasObjectsOf stored w.cluster
unfolding was_already_processed fetch_requested_backup_action
action_is_performed_once_example =
    action_is_performed_once libs crypto cluster workspace action_aggregate applied_one refl world
      after applied_to.1 req after.cluster.requested cluster-RetryStops stored (HasObjectsOf stored)
      2 applied_to.0 refl refl refl (Stands-cluster written) (HasObjectsOf-cluster stored) refl

-- The sample server holds a processed action, and the objects that it held.
abbrev HasProcessed : Server → Server → Type 0
HasProcessed before s = (s.requested.status.processed ≡ true) × HasObjectsOf before s

HasProcessed-cluster :
    (before : Server) → SaysProcessed libs crypto cluster req (HasProcessed before)
unfolding fetch_requested_backup_action
HasProcessed-cluster before = record {
  secrets = record { keeps_create = λ secret s h. h; keeps_update = λ secret s h. h };
  reads = λ s action h got. rw (← ap (λ (r : RequestedBackupAction × Option Err). r.0) got) h.0;
  writes = λ namespace action s processed h. (processed, h.1);
  retries = λ attempt s f h. f s h;
}

processed_for_good_example :
    let w =
      (play_all libs crypto cluster
        (in_memory_locker libs)
        req
        (observes ∷ reconciles ∷ observes ∷ [])
        (done_world, [])).0 in
    (w.disk ≡ done_world.disk) × HasProcessed done_server w.cluster
processed_for_good_example =
    processed_for_good libs crypto cluster req (HasProcessed done_server)
      (HasProcessed-cluster done_server) (in_memory_locker libs)
      (observes ∷ reconciles ∷ observes ∷ []) done_world [] (refl, refl)

-- A server that writes only the status of a backup, as the subresource does.
abbrev by_status : Cluster
by_status = record cluster {
  update_status_scheduled_backup = λ namespace backup s.
      (none, record s { scheduled = record s.scheduled { status = backup.status } });
}

abbrev hash_of : String
hash_of = calculate_hash libs sample_backup.spec

-- The server holds a backup whose specification is applied.
abbrev HasApplied : Server → Type 0
HasApplied s =
    (s.scheduled.status.last_applied_spec_hash ≡ hash_of)
    × (calculate_hash libs s.scheduled.spec ≡ hash_of)

HasApplied-by_status : SaysApplied libs crypto by_status req hash_of HasApplied
unfolding fetch_scheduled_backup
HasApplied-by_status = record {
  secrets = record { keeps_create = λ secret s h. h; keeps_update = λ secret s h. h };
  reads = λ s backup h got. rw (← ap (λ (r : ScheduledBackup × Option Err). r.0) got) h;
  writes = λ namespace backup s recorded h. (recorded, h.1);
  retries = λ attempt s f h. f s h;
}

abbrev applied_sample : ScheduledBackup
applied_sample = record sample_backup {
  status = record sample_backup.status { last_applied_spec_hash = hash_of };
}

abbrev settled_world : World by_status workspace
settled_world = record {
  cluster = record server { scheduled = applied_sample };
  disk = disk;
  events = [];
}

abbrev backup_rounds : List BackupRound
backup_rounds = observes_jobs ∷ reconciles_at 7 ∷ observes_jobs ∷ []

applied_for_good_example :
    let w =
      (Backups.play_all libs crypto by_status
        (in_memory_locker libs)
        req
        backup_rounds
        (settled_world, [])).0 in
    (w.disk ≡ settled_world.disk) × (w.events ≡ settled_world.events) × HasApplied w.cluster
applied_for_good_example =
    applied_for_good libs crypto by_status req hash_of HasApplied HasApplied-by_status
      (in_memory_locker libs) backup_rounds settled_world [] (refl, refl)
