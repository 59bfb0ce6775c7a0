-- ===== src/Domain/ResourceTypes.antt =====
-- resourcetypes.go: which kinds of rendered objects each custom resource applies.
use backup_maker_controller.Prelude.{
  String, ◌≡◌, ◌↔◌, ◌==◌, ◌&&◌, Bool, true, false, List, [], ◌∷◌, ◌++◌, arith, eq_iff, any,
  if◌then◌else◌,
}
use backup_maker_controller.Kube.{GroupVersionKind}
use backup_maker_controller.Domain.Aggregate.{
  Operation, Renderable, get_operation, should_create_cron_job,
}

abbrev pub ResourceTypes : Type 0
ResourceTypes = List GroupVersionKind

abbrev pub gvk : String → String → String → GroupVersionKind
gvk group version kind = record { group = group; version = version; kind = kind }

abbrev pub cron_job : GroupVersionKind
cron_job = gvk "batch" "v1" "CronJob"

abbrev pub job : GroupVersionKind
job = gvk "batch" "v1" "Job"

-- The helper kinds of every backup.
abbrev pub helper_kinds : ResourceTypes
helper_kinds =
    gvk "" "v1" "Secret"
    ∷ gvk "" "v1" "ConfigMap"
    ∷ gvk "bitnami.com" "v1alpha1" "SealedSecret"
    ∷ gvk "kubernetes-client.io" "v1" "ExternalSecret"
    ∷ []

unfoldable pub new_resource_types_filter_for_scheduled_backup :
    Renderable → Operation → ResourceTypes
new_resource_types_filter_for_scheduled_backup resource op =
    if (get_operation resource == op) && should_create_cron_job resource
    then helper_kinds ++ cron_job ∷ []
    else helper_kinds

unfoldable pub new_resource_types_filter_for_requested_backup_action : ResourceTypes
new_resource_types_filter_for_requested_backup_action = job ∷ []

-- The filter lists a kind by its name.
abbrev pub lists_kind : String → ResourceTypes → Bool
lists_kind k types = any (λ g. g.kind == k) types

-- For every resource and operation: the filter of a `ScheduledBackup` never lists `Job`, it lists
-- `CronJob` exactly for the operation of the resource and only where a cron job is wanted, and it
-- always lists the secrets and config maps.
pub filter_for_scheduled_backup_kinds :
    (r : Renderable) (op : Operation)
    → let types = new_resource_types_filter_for_scheduled_backup r op in
      (lists_kind "Job" types ≡ false)
      × ((lists_kind "CronJob" types ≡ true)
          ↔ ((get_operation r ≡ op) × (should_create_cron_job r ≡ true)))
      × (lists_kind "Secret" types ≡ true)
      × (lists_kind "ConfigMap" types ≡ true)
unfolding new_resource_types_filter_for_scheduled_backup
filter_for_scheduled_backup_kinds r op = ground (arith, eq_iff (get_operation r) op)
