-- ===== src/Tests/Requesting.antt =====
-- A connection to the sample server, and an index that holds one template.
use backup_maker_controller.Prelude.{
  ◌==◌, ◌≡◌, refl, arith, Bool, true, false, none, some, Option, [], Err, new, gives, fails, eq_iff,
  lacks, String, List, ◌∷◌, sym, subst,
}
use backup_maker_controller.Kube.{empty_meta}
use backup_maker_controller.Api.RequestedBackupAction.{RequestedBackupAction}
use backup_maker_controller.Api.Template.{ClusterBackupProcedureTemplate, empty_template}
use backup_maker_controller.Client.Rest.{RestTypes, RestRequest, put}
use backup_maker_controller.Client.Updates.{Connection, connected, attempts_keep_all_but_status}
use backup_maker_controller.Client.Listers.{Indexer, cluster_backup_procedure_template_lister}
use backup_maker_controller.Client.Listers.Scope.{IsKeyed, cluster_template_is_missed}
use backup_maker_controller.Controllers.Health.Report.{nothing_seen}
use backup_maker_controller.Controllers.Observers.{action_attempt, backup_attempt}
use backup_maker_controller.Controllers.ScheduledBackup.{update_attempt as update_backup_attempt}
use backup_maker_controller.Controllers.RequestedBackupAction.{update_attempt}
use backup_maker_controller.Controllers.RequestedBackupAction.Once.{applied}
use backup_maker_controller.Tests.Samples.{
  libs, cluster, Server, server, sample_action, sample_backup,
}

abbrev plain : RestTypes
plain = record {
  GetOptions = Unit {0};
  CreateOptions = Unit {0};
  UpdateOptions = Unit {0};
  DeleteOptions = Unit {0};
  PatchOptions = Unit {0};
  PatchType = Unit {0};
  Watch = Unit {0};
}

-- The server stores the whole object, or its status alone for a request with a subresource.
abbrev put_action : List String → RequestedBackupAction → Server → Server
put_action [] action s = record s { requested = action }
put_action (sub ∷ subs) action s = record s {
  requested = record s.requested { status = action.status };
}

abbrev connection : Connection cluster
connection = record {
  T = plain;
  get_options = tt;
  update_options = tt;
  actions = record {
    read = λ r o s. (s.requested, none);
    read_list = λ r os s. ([], none);
    start_watch = λ r s. gives tt;
    write = λ r o s. ((o, none), put_action r.subresources o s);
    error = λ r s. (none, s);
  };
  backups = record {
    read = λ r o s. (s.scheduled, none);
    read_list = λ r os s. ([], none);
    start_watch = λ r s. gives tt;
    write = λ r o s. ((o, none), s);
    error = λ r s. (none, s);
  };
}

-- A PUT to a subresource keeps all of the stored action but its status.
actions-keep_spec :
    (r : RestRequest plain RequestedBackupAction) (o : RequestedBackupAction) (s : Server)
    → r.verb ≡ put
    → r.subresources ≡ "status" ∷ []
    → s.requested.spec ≡ sample_action.spec
    → (put_action r.subresources o s).requested.spec ≡ sample_action.spec
actions-keep_spec r o s verb sub h =
    subst (λ xs. (put_action xs o s).requested.spec ≡ sample_action.spec) (sym sub) h

attempts_keep_all_but_status_example :
    let C = connected cluster connection in
    ((update_attempt libs C sample_action applied server).1.requested.spec ≡ sample_action.spec)
    × ((update_backup_attempt libs C sample_backup applied server).1.requested.spec
        ≡ sample_action.spec)
    × ((action_attempt C sample_action nothing_seen server).1.requested.spec ≡ sample_action.spec)
    × ((backup_attempt C sample_backup nothing_seen server).1.requested.spec ≡ sample_action.spec)
attempts_keep_all_but_status_example =
    attempts_keep_all_but_status libs cluster connection
      (λ (s : Server). s.requested.spec ≡ sample_action.spec) actions-keep_spec
      (λ r o s verb sub h. h) sample_action sample_backup applied nothing_seen server refl

abbrev postgres : ClusterBackupProcedureTemplate
postgres = record empty_template { meta = record empty_meta { name = "pg" } }

abbrev entry : Bool → Option ClusterBackupProcedureTemplate
entry true = some postgres
entry false = none

abbrev index : Indexer ClusterBackupProcedureTemplate
index = record {
  Selector = Unit {0};
  get_by_key = λ k. gives (entry (k == "pg"));
  list_all = λ selector. ([], none);
  list_all_by_namespace = λ ns selector. ([], none);
}

entry_meta :
    (b : Bool) (t : ClusterBackupProcedureTemplate)
    → gives (entry b) ≡ gives (some t)
    → (b ≡ true) × (t.meta ≡ postgres.meta)
entry_meta true t h = (refl, ground (arith, h))
entry_meta false t h = ground arith

index-IsKeyed : IsKeyed index
index-IsKeyed = record {
  under_key = λ k t h.
      let (here, same) = entry_meta (k == "pg") t h in
      rw same (ground (arith, here, eq_iff k "pg"));
}

cluster_template_is_missed_example :
    (e : Err) × (((cluster_backup_procedure_template_lister index
            (λ resource name. new "not found")).in_namespace
          "ns").get
        "pg"
      ≡ fails e)
unfolding lacks
cluster_template_is_missed_example =
    cluster_template_is_missed index index-IsKeyed (λ resource name. new "not found")
      (λ k t h. let (_, same) = entry_meta (k == "pg") t h in rw same (refl, refl)) "ns" "pg"
