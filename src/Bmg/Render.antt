-- ===== src/Bmg/Render.antt =====
-- templating.go's rendering: a temporary directory, the inputs of the generator, its run, and the
-- parsed manifests.
pub mod Cleanup
pub mod Kinds
pub mod Frame
use backup_maker_controller.Prelude.{
  String, ◌==◌, ◌<>◌, Bool, true, false, not, Option, none, some, List, [], ◌∷◌, ◌++◌, read, Err,
  Fallible, gives, fails, wrap_error, Res, ok, err, panic, Go, pure, ◌>>=◌, ◌>>◌, or_wrap, deferred,
  if◌then◌else◌,
}
use backup_maker_controller.Kube.{Unstructured, Secret}
use backup_maker_controller.Libs.{Libs}
use backup_maker_controller.Cluster.{Cluster}
use backup_maker_controller.Workspace.{Workspace}
use backup_maker_controller.Api.Template.{
  Template, get_name, get_image, get_backup_script, get_restore_script, provides_script,
}
use backup_maker_controller.Gpg.{or_made}
use backup_maker_controller.Domain.Aggregate.{
  Operation, backup, restore, Renderable, get_template, get_backup_aggregate, get_scheduled_backup,
  get_operation, should_render_dependent_objects_for_all_operation_types, set_var,
}
use backup_maker_controller.Domain.ResourceTypes.{
  ResourceTypes, new_resource_types_filter_for_scheduled_backup,
  new_resource_types_filter_for_requested_backup_action,
}
use backup_maker_controller.Bmg.State.{Context, on_disk, on_disk_, gets, lift, deref, change_backup}
use backup_maker_controller.Bmg.Manifests.{parse_rendered_manifests}
use backup_maker_controller.Bmg.Definition.{write_definition}

-- The script of the operation.
unfoldable pub script_for : Template → Operation → String
script_for template operation =
    if operation == backup then get_backup_script template else get_restore_script template

module _ (L : Libs) {C : Cluster} (W : Workspace) where
  write_script : Template → Operation → String → Go (Context C W) (Unit {0})
  unfolding script_for
  write_script template operation path = do
    let definition_dir = W.dir path <> "/../definition"
    json ← lift (
        wrap_error
          (W.marshal_template (record {
            default_image = "this-should-be-overridden";
            restore_template = get_name template <> ".tmpl";
            backup_template = get_name template <> ".tmpl";
          }))
          "cannot marshal TemplateDefinition{} to JSON")
    or_wrap (on_disk (W.mkdir_all definition_dir))
        ("cannot create definition dir - " <> definition_dir)
    let definition_path = definition_dir <> ("/" <> (get_name template <> ".json"))
    or_wrap (on_disk (W.write_file definition_path json))
        ("cannot write a file - " <> definition_path)
    on_disk (W.write_file path (script_for template operation))

  unfoldable pub write_template : Template → Operation → String → Go (Context C W) (Unit {0})
  unfolding write_script
  write_template template operation path =
      if not (provides_script template) then pure tt else write_script template operation path

  -- `backup.GPGSecret.Data[index]`
  gpg_value : String → Go (Context C W) String
  unfolding or_made read
  gpg_value index = do
    b ← gets (λ s. get_backup_aggregate s.backup)
    secret ← deref b.gpg_secret
    pure (read index (or_made secret.contents))

  write_key : String → String → String → Bool → Go (Context C W) (Unit {0})
  write_key path private public true =
      change_backup (set_var "HelmValues.gpgKeyContent" public)
      >> on_disk (W.write_file path public)
  write_key path private public false = on_disk (W.write_file path private)

  -- The private key, or the public key for a backup, goes to the variables and to the file.
  unfoldable pub write_gpg_key : String → Operation → Go (Context C W) (Unit {0})
  unfolding gpg_value write_key
  write_gpg_key write_to_path operation = do
    spec ← gets (λ s. (get_scheduled_backup s.backup).spec.gpg_key_secret_ref)
    private ← gpg_value spec.private_key
    public ← gpg_value spec.public_key
    change_backup (set_var "HelmValues.gpgKeyContent" private)
    write_key write_to_path private public (operation == backup)

  -- `backup.GetTemplate()`, whose methods are called.
  template_of : Go (Context C W) Template
  template_of = do t ← gets (λ s. get_template s.backup); deref t

  read_output : String → Go (Context C W) String
  read_output path s =
      lift
        (wrap_error (W.read_file path s.disk)
          ("cannot read rendered manifest file at path '" <> (path <> "'")))
        s

  generate : String → Operation → Template → Go (Context C W) (Unit {0})
  generate dir operation template = do
    sb ← gets (λ s. get_scheduled_backup s.backup)
    or_wrap
        (on_disk (
          W.run (record {
            template_name = get_name template;
            user_config_file = dir <> "/definition.yaml";
            is_kubernetes = true;
            key_path = dir <> "/gpg.key";
            output_dir = dir <> "/output";
            schedule = sb.spec.cron_job.schedule_every;
            job_name = sb.meta.name;
            image = get_image template;
            operation = operation;
            namespace = sb.meta.namespace;
          })))
        "error while generating manifests"

  -- The inputs of the generator, its run, and the text that it wrote.
  manifests_text : String → Operation → Go (Context C W) String
  unfolding template_of generate read_output
  manifests_text dir operation = do
    on_disk_ (W.mkdir_all ("./templates/" <> operation))
    template ← template_of
    let path = "./templates/" <> (operation <> ("/" <> (get_name template <> ".tmpl")))
    or_wrap (write_template template operation path)
        ("cannot write template at path '" <> (path <> "'"))
    or_wrap (write_gpg_key (dir <> "/gpg.key") operation) "cannot write GPG key to temporary file"
    aggregate ← gets (λ s. get_backup_aggregate s.backup)
    or_wrap (write_definition W aggregate (dir <> "/definition.yaml"))
        "cannot write definition.yaml to temporary file"
    or_wrap (on_disk W.extract_required_resources) "cannot populate ~/.bm with templates"
    generate dir operation template
    read_output (dir <> ("/output/" <> (operation <> ".yaml")))

  -- What runs while the temporary directory is there.
  render_in : String → Operation → ResourceTypes → Go (Context C W) (List Unstructured)
  unfolding manifests_text
  render_in dir operation types = do
    on_disk_ (W.mkdir_all (dir <> "/output"))
    content ← manifests_text dir operation
    lift (parse_rendered_manifests L W.decode content types)

  -- The working directory is restored and the temporary directory removed on every way out.
  with_dir : Fallible String → Operation → ResourceTypes → Go (Context C W) (List Unstructured)
  unfolding render_in
  with_dir (fails e) operation types s = (
    err (Err.wrap e "cannot create a temporary directory to run Backup Maker Generator (BMG)"),
    s,
  )
  with_dir (gives dir) operation types s =
      deferred (λ t. record t { disk = W.remove_all dir t.disk }) (render_in dir operation types) s

  unfoldable pub render_kubernetes_resources_for_operation :
      Operation → ResourceTypes → Go (Context C W) (List Unstructured)
  unfolding with_dir
  render_kubernetes_resources_for_operation operation types s =
      let pwd = W.getwd s.disk in
      deferred (λ t. record t { disk = W.chdir pwd t.disk })
        (λ t.
          let (dir, d) = W.mkdir_temp "/tmp" "bmg" t.disk in
          with_dir dir operation types (record t { disk = d }))
        s

  unfoldable pub render_kubernetes_resources_for : Go (Context C W) (List Unstructured)
  render_kubernetes_resources_for s =
      if should_render_dependent_objects_for_all_operation_types s.backup
      then (do
        b ← gets (λ t. t.backup)
        first ←
            render_kubernetes_resources_for_operation backup
              (new_resource_types_filter_for_scheduled_backup b backup)
        b' ← gets (λ t. t.backup)
        second ←
            render_kubernetes_resources_for_operation restore
              (new_resource_types_filter_for_scheduled_backup b' restore)
        pure (first ++ second))
          s
      else render_kubernetes_resources_for_operation (get_operation s.backup)
          new_resource_types_filter_for_requested_backup_action s
