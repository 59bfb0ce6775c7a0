-- ===== src/Api/ChildReference/RoundTrip.antt =====
-- What `GetGVK` reads of a reference that `AddOwnedObject` wrote.
use backup_maker_controller.Prelude.{◌≡◌, refl, [], ◌∷◌, ◌++◌, String, ◌<>◌, true, ok, panic}
use backup_maker_controller.Prelude.{arith, some, lookup, lookup-assign, lacks}
use backup_maker_controller.Prelude.{split-append, split_of_lacks}
use backup_maker_controller.Kube.{Unstructured, meta_of}
use backup_maker_controller.Libs.{Libs}
use backup_maker_controller.Api.ChildReference.{
  ChildReference, ChildrenReferences, label_tracking_id, get_gvk, add_owned_object,
  append_job_id_to,
}

-- What stands under the tracking label of a marked object.
pub label-append_job_id_to :
    (id : String) (doc : Unstructured)
    → lookup label_tracking_id (meta_of (append_job_id_to id doc).metadata).labels ≡ some id
unfolding append_job_id_to meta_of
label-append_job_id_to id doc = rw lookup-assign refl

-- Marking an object and recording it adds one reference, at the end of the list, with the fresh id.
-- If neither the group nor the version of the object holds a slash, reading the reference back gives
-- the object's own group, version and kind.
pub get_gvk-add_owned_object :
    (L : Libs) (ref : ChildrenReferences) (id : String) (doc : Unstructured)
    → lacks b'/' (L.group_version_kind doc.type_meta).group ≡ true
    → lacks b'/' (L.group_version_kind doc.type_meta).version ≡ true
    → (cr : ChildReference) × (add_owned_object L ref (append_job_id_to id doc) ≡ ref ++ cr ∷ [])
      × (cr.tracking_id ≡ id)
      × (get_gvk cr ≡ ok (L.group_version_kind doc.type_meta))
unfolding add_owned_object append_job_id_to get_gvk
get_gvk-add_owned_object L ref id doc g v =
    let gvk = L.group_version_kind doc.type_meta in
    let cr : ChildReference = record {
      api_version = gvk.group <> ("/" <> gvk.version);
      kind = gvk.kind;
      tracking_id = id;
    } in
    (
      cr,
      ground (arith, label-append_job_id_to id doc),
      refl,
      rw (split-append gvk.group gvk.version g, split_of_lacks gvk.version v) refl,
    )

-- A reference whose version names no group (`v1`) makes the reading panic.
pub get_gvk_panics : (cr : ChildReference) → lacks b'/' cr.api_version ≡ true → get_gvk cr ≡ panic
unfolding get_gvk
get_gvk_panics cr h = rw (split_of_lacks cr.api_version h) refl
