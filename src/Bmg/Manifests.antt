-- ===== src/Bmg/Manifests.antt =====
-- templating.go's `parseRenderedManifests`: the objects of a rendered text, less the kinds that are not
-- wanted.
pub mod Pipeline
use backup_maker_controller.Prelude.{
  String, ◌==◌, Bool, true, false, List, [], ◌∷◌, ◌++◌, any, split, trim, remove_first, Err,
  Fallible, gives, fails, if◌then◌else◌,
}
use backup_maker_controller.Kube.{GroupVersionKind, Unstructured}
use backup_maker_controller.Libs.{Libs}
use backup_maker_controller.Domain.ResourceTypes.{ResourceTypes}

-- The text of one document, as it is decoded.
pub clean : String → String
clean doc = trim (remove_first doc "---\n") " \n"

module _ (L : Libs) (decode : String → Fallible Unstructured) where
  -- The loop over the allowed kinds.
  found_in : ResourceTypes → GroupVersionKind → Bool
  found_in [] gvk = false
  found_in (search ∷ types) gvk =
      let rest = found_in types gvk in
      if L.gvk_string gvk == L.gvk_string search then true else rest

  -- Without any allowed kinds there is no filter.
  unfoldable pub wanted : ResourceTypes → Unstructured → Bool
  unfolding found_in
  wanted [] obj = true
  wanted (t ∷ types) obj = found_in (t ∷ types) (L.group_version_kind obj.type_meta)

  add_object :
      ResourceTypes → Fallible Unstructured → List Unstructured → Fallible (List Unstructured)
  unfolding wanted found_in
  add_object types (fails e) objects = fails (Err.wrap e "cannot parse rendered YAML")
  add_object types (gives obj) objects =
      if wanted types obj then gives (objects ++ obj ∷ []) else gives objects

  -- One round of the loop; an empty document is passed over.
  add_document : ResourceTypes → String → List Unstructured → Fallible (List Unstructured)
  unfolding clean add_object
  add_document types doc objects =
      if clean doc == "" then gives objects else add_object types (decode (clean doc)) objects

  parse_documents : ResourceTypes → List String → List Unstructured → Fallible (List Unstructured)
  unfolding add_document
  parse_documents types [] objects = gives objects
  parse_documents types (doc ∷ docs) objects = elim (add_document types doc objects) [
    | gives objects' ↦ parse_documents types docs objects'
    | fails e ↦ fails e
  ]

  unfoldable pub parse_rendered_manifests : String → ResourceTypes → Fallible (List Unstructured)
  unfolding parse_documents
  parse_rendered_manifests content types = parse_documents types (split content "---\n") []
