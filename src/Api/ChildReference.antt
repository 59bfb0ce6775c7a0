-- ===== src/Api/ChildReference.antt =====
-- childreference.go and jobhealth.go: references from a resource to the objects that it owns, kept by
-- a tracking label, and the health of one owned object.
pub mod RoundTrip
use backup_maker_controller.Prelude.{String, ◌<>◌, Bool, Option, none, some, List, [], ◌∷◌, ◌++◌}
use backup_maker_controller.Prelude.{Dict, lookup, assign, split, Res, ok, panic}
use backup_maker_controller.Libs.{Libs}
use backup_maker_controller.Kube.{
  GroupVersionKind, Unstructured, Metadata, mapping, meta_of, ObjectMeta,
}

abbrev pub label_tracking_id : String
label_tracking_id = "riotkit.org/job-tracking-id"

pub record ChildReference : Type 0 where
  pub api_version : String
  pub kind : String
  pub tracking_id : String

abbrev pub ChildrenReferences : Type 0
ChildrenReferences = List ChildReference

-- The parts that `GetGVK` indexes. `split[0]` of no parts and `split[1]` of one part panic.
group_and_version : List String → String → Res GroupVersionKind
group_and_version [] kind = panic
group_and_version (group ∷ []) kind = panic
group_and_version (group ∷ version ∷ _) kind =
    ok (record { group = group; version = version; kind = kind })

unfoldable pub get_gvk : ChildReference → Res GroupVersionKind
unfolding group_and_version
get_gvk cr = group_and_version (split cr.api_version "/") cr.kind

-- An object without the tracking label is left out.
unfoldable pub add_owned_object : Libs → ChildrenReferences → Unstructured → ChildrenReferences
add_owned_object L ref doc = elim (lookup label_tracking_id (meta_of doc.metadata).labels) [
  | none ↦ ref
  | some id ↦
      let gvk = L.group_version_kind doc.type_meta in
      ref
      ++ record {
        api_version = gvk.group <> ("/" <> gvk.version);
        kind = gvk.kind;
        tracking_id = id;
      }
        ∷ []
]

-- `id` is the text of the fresh `uuid.New()`.
unfoldable pub append_job_id_to : String → Unstructured → Unstructured
append_job_id_to id doc =
    let m = meta_of doc.metadata in
    record doc { metadata = mapping (record m { labels = assign label_tracking_id id m.labels }) }

pub record JobHealthStatus : Type 0 where
  pub child : ChildReference
  pub message : String
  pub succeeded : Bool
  pub running : Bool
  pub failed : Bool
