-- ===== src/Client/Listers/Scope.antt =====
-- What the lister of a resource without a namespace finds.
use backup_maker_controller.Prelude.{
  String, ◌<>◌, ◌==◌, ◌≡◌, refl, arith, true, Option, none, some, Fallible, gives, fails, Err,
  lacks, lacks-joined, eq_iff, if◌then◌else◌,
}
use backup_maker_controller.Kube.{ObjectMeta}
use backup_maker_controller.Api.Template.{ClusterBackupProcedureTemplate}
use backup_maker_controller.Client.Listers.{
  Indexer, NotFound, found_or_missing, namespace_lister, lister,
  cluster_backup_procedure_template_lister,
}

-- `cache.MetaNamespaceKeyFunc`: the key under which the index holds an object.
abbrev pub key_of : ObjectMeta → String
key_of m = if m.namespace == "" then m.name else m.namespace <> ("/" <> m.name)

-- What client-go documents of the index: an object is found under its own key only.
pub record IsKeyed (I : Indexer ClusterBackupProcedureTemplate) : Type 0 where
  pub under_key :
      (k : String) (t : ClusterBackupProcedureTemplate)
      → I.get_by_key k ≡ gives (some t)
      → key_of t.meta ≡ k

module _ (I : Indexer ClusterBackupProcedureTemplate) (keyed : IsKeyed I) (not_found : NotFound)
    (scoped : (k : String) (t : ClusterBackupProcedureTemplate)
      → I.get_by_key k ≡ gives (some t)
      → (t.meta.namespace ≡ "") × (lacks b'/' t.meta.name ≡ true)) where
  no_entry :
      (ns name : String) (t : ClusterBackupProcedureTemplate)
      → I.get_by_key (ns <> ("/" <> name)) ≡ gives (some t)
      → ⊥
  no_entry ns name t h =
      let (free, bare) = scoped (ns <> ("/" <> name)) t h in
      ground (
        arith,
        free,
        bare,
        keyed.under_key (ns <> ("/" <> name)) t h,
        lacks-joined ns name,
        eq_iff t.meta.namespace "",
      )

  missed :
      (ns name resource : String) (r : Fallible (Option ClusterBackupProcedureTemplate))
      → I.get_by_key (ns <> ("/" <> name)) ≡ r
      → (e : Err) × (found_or_missing I not_found resource name r ≡ fails e)
  unfolding found_or_missing
  missed ns name resource (fails e) h = (e, refl)
  missed ns name resource (gives none) h = (not_found resource name, refl)
  missed ns name resource (gives (some t)) h = absurd (no_entry ns name t h)

  -- The lister of templates finds none: where the index holds its objects under their own keys, and the
  -- templates have no namespace, as the resource is one of the whole cluster, and no slash in their names,
  -- `Get` of every namespace and every name returns an error, also for a template that is there.
  pub cluster_template_is_missed :
      (ns name : String)
      → (e : Err) × (((cluster_backup_procedure_template_lister I not_found).in_namespace ns).get
            name
          ≡ fails e)
  unfolding cluster_backup_procedure_template_lister lister namespace_lister
  cluster_template_is_missed ns name = missed ns name _ (I.get_by_key (ns <> ("/" <> name))) refl
