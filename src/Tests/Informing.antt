-- ===== src/Tests/Informing.antt =====
-- A factory of informers that are numbers.
use backup_maker_controller.Prelude.{ℕ, String, ◌≡◌, count, if◌then◌else◌}
use backup_maker_controller.Client.Informers.{
  Parts, SharedInformerFactory, is_set, start, informer_for, new_shared_informer_factory,
}
use backup_maker_controller.Client.Informers.Runs.{here, asked, started, Later-RunsOnce}

abbrev parts : Parts
parts = record { Client = Unit {0}; Informer = ℕ; Tweak = Unit {0} }

abbrev backups : String
backups = "*v1alpha1.ScheduledBackup"

abbrev empty_factory : SharedInformerFactory parts
empty_factory = new_shared_informer_factory tt 30

abbrev first : SharedInformerFactory parts
first = (informer_for backups (λ client resync. resync) empty_factory).1

Later-RunsOnce_example :
    count backups (start (start first)).running
    ≡ (if is_set backups (start (start first)).started_informers then 1 else 0)
Later-RunsOnce_example =
    Later-RunsOnce {T = parts} tt 30 (started (started (asked backups _ here))) backups
