-- ===== src/Bmg/Apply/Whole.antt =====
-- What an application that ends without an error has done.
use backup_maker_controller.Prelude.{
  ◌≡◌, ◌<◌, refl, arith, List, [], ◌∷◌, length, bind_res, wrap_res, Res, ok, err, panic, All,
}
use backup_maker_controller.Kube.{TypeMeta, Unstructured}
use backup_maker_controller.Libs.{Libs}
use backup_maker_controller.Cluster.{Cluster}
use backup_maker_controller.Workspace.{Workspace}
use backup_maker_controller.Domain.Aggregate.{get_references_of_owned_objects}
use backup_maker_controller.Bmg.State.{Context}
use backup_maker_controller.Bmg.Render.{render_kubernetes_resources_for}
use backup_maker_controller.Bmg.Render.Frame.{Owns, render_kubernetes_resources_for-Owns}
use backup_maker_controller.Bmg.Apply.{prepare_all, apply_rendered, apply_each, apply_objects}
use backup_maker_controller.Bmg.Apply.Owners.{prepare_all-types}

module _ (L : Libs) (C : Cluster) (W : Workspace) (P : TypeMeta → Type 0) where
  abbrev HaveTypes : List Unstructured → Type 0
  HaveTypes = All (λ (doc : Unstructured). P doc.type_meta)

  -- These objects, one at least, were applied in turn, for a resource that owned what it owned before.
  abbrev pub HasApplied : Context C W → Context C W → Type 0
  HasApplied s t =
      (docs : List Unstructured) × (s' : Context C W) × HaveTypes docs
      × (0 < length docs)
      × (get_references_of_owned_objects s'.backup ≡ get_references_of_owned_objects s.backup)
      × (apply_each L C W docs s' ≡ (ok tt, t))

  module _ (s t : Context C W) where
    prepared-HasApplied :
        (s' : Context C W) (p : Res (List Unstructured))
        → Owns {C = C} {W = W} s.backup (p, s')
        → ((docs : List Unstructured) → p ≡ ok docs → HaveTypes docs)
        → bind_res (p, s') (apply_rendered L C W) ≡ (ok tt, t)
        → HasApplied s t
    unfolding apply_rendered
    prepared-HasApplied s' (ok []) same are done = absurd (ground (arith, done))
    prepared-HasApplied s' (ok (doc ∷ docs)) same are done =
        (doc ∷ docs, s', are (doc ∷ docs) refl, omega arith, same, done)
    prepared-HasApplied s' (err e) same are done = absurd (ground (arith, done))
    prepared-HasApplied s' panic same are done = absurd (ground (arith, done))

    rendered-HasApplied :
        (r : Res (List Unstructured)) (s' : Context C W)
        → Owns {C = C} {W = W} s.backup (r, s')
        → ((docs : List Unstructured) → r ≡ ok docs → HaveTypes docs)
        → bind_res
            (wrap_res r "cannot apply rendered objects to the cluster", s')
            (λ rendered u. bind_res (prepare_all u.backup rendered, u) (apply_rendered L C W))
          ≡ (ok tt, t)
        → HasApplied s t
    rendered-HasApplied (ok docs) s' same are done =
        prepared-HasApplied s' (prepare_all s'.backup docs) same
          (λ ds e. prepare_all-types P s'.backup docs ds (are docs refl) e) done
    rendered-HasApplied (err e) s' same are done = absurd (ground (arith, done))
    rendered-HasApplied panic s' same are done = absurd (ground (arith, done))

    -- An application without an error has applied objects whose types are among those that were rendered.
    pub apply_objects-HasApplied :
        ((docs : List Unstructured)
          → (render_kubernetes_resources_for L W s).0 ≡ ok docs
          → HaveTypes docs)
        → apply_objects L C W s ≡ (ok tt, t)
        → HasApplied s t
    unfolding apply_objects
    apply_objects-HasApplied are done =
        let (r, s') = render_kubernetes_resources_for L {C = C} W s in
        rendered-HasApplied r s' (render_kubernetes_resources_for-Owns L W s) are done
