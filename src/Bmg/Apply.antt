-- ===== src/Bmg/Apply.antt =====
-- applying.go and utils.go: the rendered objects get their owner, namespace and tracking label, and are
-- created or updated in the cluster.
pub mod Owners
pub mod Tracking
pub mod Trail
pub mod Whole
pub mod Mark
pub mod Single
use backup_maker_controller.Prelude.{
  String, ◌==◌, ◌<>◌, Bool, true, false, not, ◌&&◌, Option, none, some, List, [], ◌∷◌, Err, Res, ok,
  err, panic, Go, pure, fail, ◌>>=◌, ◌>>◌, or_wrap, if◌then◌else◌,
}
use backup_maker_controller.Kube.{
  GroupVersionKind, TypeMeta, ObjectMeta, Metadata, missing, mapping, not_a_mapping, Unstructured,
  meta_of, empty_meta,
}
use backup_maker_controller.Libs.{Libs}
use backup_maker_controller.Cluster.{Cluster}
use backup_maker_controller.Workspace.{Workspace}
use backup_maker_controller.Api.ChildReference.{append_job_id_to}
use backup_maker_controller.Domain.Aggregate.{
  Renderable, get_object_for_owner_reference, get_scheduled_backup, accepted_resource_types,
  add_owned,
}
use backup_maker_controller.Bmg.State.{
  Context, Event, on_cluster, gets, deref, change_backup, record_event,
}
use backup_maker_controller.Bmg.Render.{render_kubernetes_resources_for}

unfoldable pub add_namespace : String → Unstructured → Unstructured
unfolding meta_of
add_namespace namespace doc = record doc {
  metadata = mapping (record (meta_of doc.metadata) { namespace = namespace });
}

owned_by : TypeMeta → ObjectMeta → ObjectMeta → ObjectMeta
owned_by t owner m = record m {
  owner_references =
      record { api_version = t.api_version; kind = t.kind; name = owner.name; uid = owner.uid }
      ∷ [];
}

set_owner : TypeMeta × ObjectMeta → Metadata → Res Metadata
unfolding owned_by
set_owner (t, owner) missing = ok (mapping (owned_by t owner empty_meta))
set_owner (t, owner) (mapping m) = ok (mapping (owned_by t owner m))
set_owner (t, owner) not_a_mapping = panic

-- Metadata that is no mapping makes the type assertion panic.
unfoldable pub add_owner_references : Renderable → Unstructured → Res Unstructured
unfolding set_owner
add_owner_references backup doc =
    elim (set_owner (get_object_for_owner_reference backup) doc.metadata) [
      | ok m ↦ ok (record doc { metadata = m })
      | err e ↦ err e
      | panic ↦ panic
    ]

prepare : Renderable → Unstructured → Res Unstructured
unfolding add_owner_references add_namespace
prepare backup doc = elim (add_owner_references backup doc) [
  | ok d ↦ ok (add_namespace (get_scheduled_backup backup).meta.namespace d)
  | err e ↦ err e
  | panic ↦ panic
]

cons_res : Unstructured → Res (List Unstructured) → Res (List Unstructured)
cons_res d (ok ds) = ok (d ∷ ds)
cons_res d (err e) = err e
cons_res d panic = panic

prepared_then : Res Unstructured → Res (List Unstructured) → Res (List Unstructured)
unfolding cons_res
prepared_then (ok d) rest = cons_res d rest
prepared_then (err e) rest = err e
prepared_then panic rest = panic

-- The first loop. The documents share their maps with the list, so what it writes stays.
unfoldable pub prepare_all : Renderable → List Unstructured → Res (List Unstructured)
unfolding prepare prepared_then
prepare_all backup [] = ok []
prepare_all backup (doc ∷ docs) = prepared_then (prepare backup doc) (prepare_all backup docs)

module _ (L : Libs) (C : Cluster) {W : Workspace} where
  event_for : Unstructured → String → String → Go (Context C W) (Unit {0})
  event_for obj reason verb = do
    b ← gets (λ s. get_scheduled_backup s.backup)
    let t = L.type_meta_of (L.group_version_kind obj.type_meta)
    let m = meta_of obj.metadata
    record_event (record {
      object = b.meta;
      event_type = "Normal";
      reason = reason;
      message =
          verb
          <> (t.api_version
              <> ("/" <> (t.kind <> (", named " <> (m.namespace <> ("/" <> m.name))))));
    })

  create : C.Resource → Unstructured → Go (Context C W) (Unit {0})
  create resource obj =
      or_wrap (on_cluster (C.create_object resource (meta_of obj.metadata).namespace obj))
        "cannot create object in API"

  -- What follows `Get`: its error says whether the object is there.
  create_or_update_found : C.Resource → Unstructured → Option Err → Go (Context C W) (Unit {0})
  unfolding create event_for
  create_or_update_found resource obj none =
      or_wrap (on_cluster (C.update_object resource (meta_of obj.metadata).namespace obj))
        "cannot update object in API"
      >> event_for obj "Updated" "Updating "
  create_or_update_found resource obj (some e) =
      if not (L.is_not_found e)
      then fail (Err.wrap e "cannot fetch object information from API server to check if it exists")
      else create resource obj >> event_for obj "Created" "Creating "

  create_or_update_as : C.Resource → Unstructured → Go (Context C W) (Unit {0})
  unfolding create_or_update_found meta_of
  create_or_update_as resource obj s =
      let m = meta_of obj.metadata in
      if m.name == "" && not (m.generate_name == "")
      then (create resource obj >> event_for obj "Updated" "Creating ") s
      else create_or_update_found resource obj (C.get_object resource m.namespace m.name s.cluster)
          s

  discovered : Option Err → Unstructured → Go (Context C W) (Unit {0})
  unfolding create_or_update_as
  discovered (some e) obj =
      fail (Err.wrap e "cannot create Discovery Client for checking installed api resources")
  discovered none obj = do
    mapped ← gets (λ s. C.rest_mapping (L.group_version_kind obj.type_meta) s.cluster)
    resource ← deref mapped
    create_or_update_as resource obj

  -- The error of the mapping is not read: a kind that the cluster does not know panics.
  unfoldable pub create_or_update : Unstructured → Go (Context C W) (Unit {0})
  unfolding discovered
  create_or_update obj s = discovered (C.new_discovery_client s.cluster) obj s

module _ (L : Libs) (C : Cluster) (W : Workspace) where
  new_id : Go (Context C W) String
  new_id s = let (id, d) = W.new_uuid s.disk in (ok id, record s { disk = d })

  -- One round of the second loop.
  apply_one : Unstructured → Go (Context C W) (Unit {0})
  unfolding new_id
  apply_one doc = do
    id ← new_id
    or_wrap (create_or_update L C (append_job_id_to id doc)) "cannot apply manifest to the cluster"
    change_backup (λ b. add_owned L b (append_job_id_to id doc))

  unfoldable pub apply_each : List Unstructured → Go (Context C W) (Unit {0})
  unfolding apply_one
  apply_each [] = pure tt
  apply_each (doc ∷ docs) = apply_one doc >> apply_each docs

  apply_rendered : List Unstructured → Go (Context C W) (Unit {0})
  apply_rendered [] s = (
    err (
        Err.new (
          "no objects rendered, no objects to apply. Please check your template - it did not render any of those objects: "
          <> L.kinds_text (accepted_resource_types s.backup))),
    s,
  )
  apply_rendered (doc ∷ docs) s = apply_each (doc ∷ docs) s

  unfoldable pub apply_objects : Go (Context C W) (Unit {0})
  unfolding apply_rendered
  apply_objects = do
    rendered ←
        or_wrap (render_kubernetes_resources_for L W) "cannot apply rendered objects to the cluster"
    prepared ← λ s. (prepare_all s.backup rendered, s)
    apply_rendered prepared
