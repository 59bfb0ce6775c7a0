-- ===== src/Bmg/Render/Frame.antt =====
-- Rendering keeps what the resource owns: it changes only the variables of the backup.
use backup_maker_controller.Prelude.{String, ◌<>◌, ◌≡◌, refl, arith, Fallible, gives, fails, Res}
use backup_maker_controller.Libs.{Libs}
use backup_maker_controller.Cluster.{Cluster}
use backup_maker_controller.Workspace.{Workspace}
use backup_maker_controller.Api.Template.{Template}
use backup_maker_controller.Domain.Aggregate.{
  Operation, Renderable, scheduled_one, requested_one, get_references_of_owned_objects, set_var,
}
use backup_maker_controller.Domain.ResourceTypes.{ResourceTypes}
use backup_maker_controller.Bmg.State.{Context}
use backup_maker_controller.Bmg.Definition.{write_definition}
use backup_maker_controller.Bmg.Render.{
  write_script, write_template, gpg_value, write_key, write_gpg_key, template_of, read_output,
  generate, manifests_text, render_in, with_dir, render_kubernetes_resources_for_operation,
  render_kubernetes_resources_for,
}

-- A part of the backup is what it was.
abbrev pub Keeps :
    {C : Cluster} {W : Workspace} {X A : Type 0}
    → (Renderable → X)
    → Renderable
    → Res A × Context C W
    → Type 0
Keeps f b (r, t) = f t.backup ≡ f b

-- What the backup owns is what it was.
abbrev pub Owns :
    {C : Cluster} {W : Workspace} {A : Type 0} → Renderable → Res A × Context C W → Type 0
Owns b (r, t) = get_references_of_owned_objects t.backup ≡ get_references_of_owned_objects b

set_var-Owns :
    (name value : String) (b : Renderable)
    → get_references_of_owned_objects (set_var name value b) ≡ get_references_of_owned_objects b
unfolding get_references_of_owned_objects set_var
set_var-Owns name value (scheduled_one sb) = refl
set_var-Owns name value (requested_one a) = refl

module _ (L : Libs) {C : Cluster} (W : Workspace) where
  write_template-Keeps :
      (t : Template) (op : Operation) (path : String) (s : Context C W)
      → (write_template L W t op path s).1.backup ≡ s.backup
  unfolding write_template write_script
  write_template-Keeps t op path s = ground arith

  generate-Keeps :
      (dir : String) (op : Operation) (t : Template) (s : Context C W)
      → (generate L W dir op t s).1.backup ≡ s.backup
  unfolding generate
  generate-Keeps dir op t s = ground arith

  read_output-Keeps :
      (path : String) (s : Context C W) → (read_output L W path s).1.backup ≡ s.backup
  unfolding read_output
  read_output-Keeps path s = ground arith

module _ {X : Type 0} (f : Renderable → X)
    (set_var-Keeps : (name value : String) (b : Renderable) → f (set_var name value b) ≡ f b)
    (L : Libs) {C : Cluster} (W : Workspace) where
  write_gpg_key-Keeps :
      (path : String) (op : Operation) (s : Context C W)
      → Keeps f s.backup (write_gpg_key L W path op s)
  unfolding write_gpg_key gpg_value write_key
  write_gpg_key-Keeps path op s = grind (arith, set_var-Keeps)

  manifests_text-Keeps :
      (dir : String) (op : Operation) (s : Context C W)
      → Keeps f s.backup (manifests_text L W dir op s)
  unfolding manifests_text template_of write_definition
  manifests_text-Keeps dir op s = grind (
    arith,
    write_template-Keeps L W,
    write_gpg_key-Keeps,
    generate-Keeps L W,
    read_output-Keeps L W,
  )

  render_in-Keeps :
      (dir : String) (op : Operation) (types : ResourceTypes) (s : Context C W)
      → Keeps f s.backup (render_in L W dir op types s)
  unfolding render_in
  render_in-Keeps dir op types s = ground (
    arith,
    manifests_text-Keeps dir op (record s { disk = (W.mkdir_all (dir <> "/output") s.disk).1 }),
  )

  with_dir-Keeps :
      (dir : Fallible String) (op : Operation) (types : ResourceTypes) (s : Context C W)
      → Keeps f s.backup (with_dir L W dir op types s)
  unfolding with_dir
  with_dir-Keeps (fails e) op types s = refl
  with_dir-Keeps (gives dir) op types s = grind (arith, render_in-Keeps)

  render_for_operation-Keeps :
      (op : Operation) (types : ResourceTypes) (s : Context C W)
      → Keeps f s.backup (render_kubernetes_resources_for_operation L W op types s)
  unfolding render_kubernetes_resources_for_operation
  render_for_operation-Keeps op types s = grind (arith, with_dir-Keeps)

  -- Whatever rendering returns, a part of the backup is what it was if no variable is of that part.
  pub render_kubernetes_resources_for-Keeps :
      (s : Context C W) → Keeps f s.backup (render_kubernetes_resources_for L W s)
  unfolding render_kubernetes_resources_for
  render_kubernetes_resources_for-Keeps s = grind (arith, render_for_operation-Keeps)

-- Whatever rendering returns, the resource owns what it owned before.
pub render_kubernetes_resources_for-Owns :
    (L : Libs) {C : Cluster} (W : Workspace) (s : Context C W)
    → Owns s.backup (render_kubernetes_resources_for L W s)
render_kubernetes_resources_for-Owns L W s =
    render_kubernetes_resources_for-Keeps get_references_of_owned_objects set_var-Owns L W s
