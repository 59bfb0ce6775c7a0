-- ===== src/Bmg/Apply/Mark.antt =====
-- Rendering and applying leave the mark of an action as it is.
use backup_maker_controller.Prelude.{
  String, ◌≡◌, refl, ◌∙◌, Bool, Option, none, some, List, [], ◌∷◌, bind_res, wrap_res, Res, ok, err,
  panic, ap,
}
use backup_maker_controller.Kube.{Unstructured}
use backup_maker_controller.Libs.{Libs}
use backup_maker_controller.Cluster.{Cluster}
use backup_maker_controller.Workspace.{Workspace}
use backup_maker_controller.Domain.Aggregate.{
  Renderable, scheduled_one, requested_one, set_var, add_owned, was_already_processed,
}
use backup_maker_controller.Api.ChildReference.{append_job_id_to}
use backup_maker_controller.Bmg.State.{Context, change_backup}
use backup_maker_controller.Bmg.Render.{render_kubernetes_resources_for}
use backup_maker_controller.Bmg.Render.Frame.{Keeps, render_kubernetes_resources_for-Keeps}
use backup_maker_controller.Bmg.Apply.{
  prepare_all, apply_one, apply_each, apply_rendered, apply_objects, create_or_update,
}
use backup_maker_controller.Bmg.Apply.Single.{create_or_update_frame}

-- The mark of an action; a backup has none.
abbrev pub mark : Renderable → Option Bool
mark (scheduled_one sb) = none
mark (requested_one a) = some (was_already_processed a)

set_var-mark : (name value : String) (b : Renderable) → mark (set_var name value b) ≡ mark b
unfolding set_var was_already_processed
set_var-mark name value (scheduled_one sb) = refl
set_var-mark name value (requested_one a) = refl

module _ (L : Libs) where
  add_owned-mark : (b : Renderable) (doc : Unstructured) → mark (add_owned L b doc) ≡ mark b
  unfolding add_owned was_already_processed
  add_owned-mark (scheduled_one sb) doc = refl
  add_owned-mark (requested_one a) doc = refl

  module _ (C : Cluster) (W : Workspace) where
    applied_one-mark :
        (id : String) (doc : Unstructured) (b : Renderable) (r : Res (Unit {0})) (t : Context C W)
        → t.backup ≡ b
        → Keeps mark b (
            bind_res
              (wrap_res r "cannot apply manifest to the cluster", t)
              (λ _. change_backup (λ b. add_owned L b (append_job_id_to id doc))))
    applied_one-mark id doc b (ok _) t same =
        add_owned-mark t.backup (append_job_id_to id doc) ∙ ap mark same
    applied_one-mark id doc b (err e) t same = ap mark same
    applied_one-mark id doc b panic t same = ap mark same

    apply_one-mark :
        (doc : Unstructured) (s : Context C W) → Keeps mark s.backup (apply_one L C W doc s)
    unfolding apply_one
    apply_one-mark doc s =
        let (id, d) = W.new_uuid s.disk in
        let s' = record s { disk = d } in
        let (r, t) = create_or_update L C (append_job_id_to id doc) s' in
        applied_one-mark id doc s.backup r t
          (create_or_update_frame L C (append_job_id_to id doc) s').0

    then_each :
        (docs : List Unstructured) (b : Renderable) (r : Res (Unit {0})) (t : Context C W)
        → mark t.backup ≡ mark b
        → Keeps mark t.backup (apply_each L C W docs t)
        → Keeps mark b (bind_res (r, t) (λ _. apply_each L C W docs))
    then_each docs b (ok _) t one others = others ∙ one
    then_each docs b (err e) t one others = one
    then_each docs b panic t one others = one

    apply_each-mark :
        (docs : List Unstructured) (s : Context C W) → Keeps mark s.backup (apply_each L C W docs s)
    unfolding apply_each
    apply_each-mark [] s = refl
    apply_each-mark (doc ∷ docs) s =
        let (r, t) = apply_one L C W doc s in
        then_each docs s.backup r t (apply_one-mark doc s) (apply_each-mark docs t)

    prepared-mark :
        (p : Res (List Unstructured)) (s : Context C W)
        → Keeps mark s.backup (bind_res (p, s) (apply_rendered L C W))
    unfolding apply_rendered
    prepared-mark (ok []) s = refl
    prepared-mark (ok (doc ∷ docs)) s = apply_each-mark (doc ∷ docs) s
    prepared-mark (err e) s = refl
    prepared-mark panic s = refl

    rendered-mark :
        (r : Res (List Unstructured)) (s : Context C W)
        → Keeps mark s.backup (
            bind_res
              (wrap_res r "cannot apply rendered objects to the cluster", s)
              (λ rendered t. bind_res (prepare_all t.backup rendered, t) (apply_rendered L C W)))
    rendered-mark (ok docs) s = prepared-mark (prepare_all s.backup docs) s
    rendered-mark (err e) s = refl
    rendered-mark panic s = refl

    -- Whatever the application of an action returns, the action is marked as processed if it was before.
    pub apply_objects-mark : (s : Context C W) → Keeps mark s.backup (apply_objects L C W s)
    unfolding apply_objects
    apply_objects-mark s =
        let (r, t) = render_kubernetes_resources_for L {C = C} W s in
        rendered-mark r t ∙ render_kubernetes_resources_for-Keeps mark set_var-mark L W s
