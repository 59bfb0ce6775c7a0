-- ===== src/Client/Fake/Clientset.antt =====
-- fake/clientset_generated.go and fake/fake_riotkit_client.go: the client set that stands in for the real one
-- in tests. It joins the tracker of objects of client-go with the fake clients.
pub mod Held
use backup_maker_controller.Prelude.{
  String, ◌≡◌, refl, List, [], ◌∷◌, All, Bool, true, false, Option, none, some, Err, Fallible,
  gives, fails, Res, ok, err, panic, Go, bind_res, arith,
}
use backup_maker_controller.Api.ScheduledBackup.{ScheduledBackup}
use backup_maker_controller.Api.RequestedBackupAction.{RequestedBackupAction}
use backup_maker_controller.Api.Template.{ClusterBackupProcedureTemplate}
use backup_maker_controller.Client.Rest.{RestTypes}
use backup_maker_controller.Client.Fake.{
  GroupVersionResource, Fake, FakeInterface, fake_scheduled_backups, fake_requested_backup_actions,
  fake_cluster_backup_procedure_templates,
}

-- The answer of a reaction to a watch: whether it handled the action, the watch, and the error.
pub record Reaction (Watch : Type 0) : Type 0 where
  pub handled : Bool
  pub ret : Option Watch
  pub error : Option Err

-- client-go's testing package. A tracker is the state behind the pointer that the reactions share.
pub record Testing : Type 1 where
  pub Object : Type 0
  pub Scheme : Type 0
  pub Tracker : Type 0
  pub Watch : Type 0
  pub WatchAction : Type 0
  pub ObjectReaction : Type 0
  pub Fakes : Type 0
  pub new_object_tracker : Scheme → Tracker
  pub add : Object → Tracker → Option Err × Tracker
  pub watch : GroupVersionResource → String → Tracker → Fallible Watch × Tracker
  pub get_resource : WatchAction → GroupVersionResource
  pub get_namespace : WatchAction → String
  -- `testing.ObjectReaction` of the tracker.
  pub object_reaction : ObjectReaction
  -- `testing.Fake`, and what it becomes with one more reactor.
  pub no_reactors : Fakes
  pub add_reactor : String → String → ObjectReaction → Fakes → Fakes
  pub add_watch_reactor :
      String → (WatchAction → Tracker → Reaction Watch × Tracker) → Fakes → Fakes

-- The client set: the reactors, which the discovery shares, and the tracker.
pub record FakeClientset (K : Testing) : Type 0 where
  pub fake : K.Fakes
  pub tracker : K.Tracker

module _ (K : Testing) where
  -- The loop over the objects: an error panics.
  add_all : List K.Object → Go K.Tracker (Unit {0})
  add_all [] o = (ok tt, o)
  add_all (obj ∷ objects) o =
      let (e, o') = K.add obj o in
      let rest = add_all objects o' in elim e [ some error ↦ (panic, o') | none ↦ rest ]

  answer : Fallible K.Watch → Reaction K.Watch
  answer (fails e) = record { handled = false; ret = none; error = some e }
  answer (gives w) = record { handled = true; ret = some w; error = none }

  -- The function that is given to `AddWatchReactor`.
  unfoldable pub watch_reaction : K.WatchAction → K.Tracker → Reaction K.Watch × K.Tracker
  unfolding answer
  watch_reaction action o =
      let (r, o') = K.watch (K.get_resource action) (K.get_namespace action) o in (answer r, o')

  with_reactors : K.Fakes
  unfolding watch_reaction
  with_reactors =
      K.add_watch_reactor "*" watch_reaction (K.add_reactor "*" "*" K.object_reaction K.no_reactors)

  clientset_of : Res (Unit {0}) × K.Tracker → Res (FakeClientset K)
  unfolding with_reactors
  clientset_of (ok _, o) = ok (record { fake = with_reactors; tracker = o })
  clientset_of (err e, o) = err e
  clientset_of (panic, o) = panic

  unfoldable pub new_simple_clientset : K.Scheme → List K.Object → Res (FakeClientset K)
  unfolding add_all clientset_of
  new_simple_clientset scheme objects = clientset_of (add_all objects (K.new_object_tracker scheme))

module _ {K : Testing} where
  -- `Discovery` has a pointer to the reactors of the client set.
  unfoldable pub fake_discovery : FakeClientset K → K.Fakes
  fake_discovery c = c.fake

  unfoldable pub tracker_of : FakeClientset K → K.Tracker
  tracker_of c = c.tracker

  -- `RiotkitV1alpha1`, whose clients invoke the same reactors.
  unfoldable pub fake_riotkit_v1alpha1 : FakeClientset K → K.Fakes
  fake_riotkit_v1alpha1 c = c.fake

-- The three clients of `FakeRiotkitV1alpha1`.
module _ {T : RestTypes} {S : Type 0} where
  unfoldable pub scheduled_backups :
      (F : Fake T S ScheduledBackup) → String → FakeInterface T S ScheduledBackup F.ListMeta
  scheduled_backups F namespace = fake_scheduled_backups F namespace

  unfoldable pub requested_backup_actions :
      (F : Fake T S RequestedBackupAction)
      → String
      → FakeInterface T S RequestedBackupAction F.ListMeta
  requested_backup_actions F namespace = fake_requested_backup_actions F namespace

  unfoldable pub cluster_backup_procedure_templates :
      (F : Fake T S ClusterBackupProcedureTemplate)
      → String
      → FakeInterface T S ClusterBackupProcedureTemplate F.ListMeta
  cluster_backup_procedure_templates F namespace =
      fake_cluster_backup_procedure_templates F namespace
