-- ===== src/Bmg/Render/Kinds.antt =====
-- Which kinds of objects come out of rendering.
use backup_maker_controller.Prelude.{
  String, ◌<>◌, ◌==◌, ◌≡◌, refl, arith, true, List, [], ◌∷◌, all, Fallible, gives, fails, Res, ok,
  err, panic, Go, bind_res, ◌>>=◌, ◌>>◌,
}
use backup_maker_controller.Kube.{Unstructured}
use backup_maker_controller.Libs.{Libs}
use backup_maker_controller.Cluster.{Cluster}
use backup_maker_controller.Workspace.{Workspace}
use backup_maker_controller.Domain.Aggregate.{
  Operation, RequestedBackupActionAggregate, requested_one, get_operation,
  should_render_dependent_objects_for_all_operation_types,
}
use backup_maker_controller.Domain.ResourceTypes.{
  ResourceTypes, job, new_resource_types_filter_for_requested_backup_action,
}
use backup_maker_controller.Bmg.State.{Context, lift, fallible_res, on_disk_}
use backup_maker_controller.Bmg.Manifests.{wanted, parse_rendered_manifests}
use backup_maker_controller.Bmg.Manifests.Pipeline.{parse_rendered_manifests-wanted}
use backup_maker_controller.Bmg.Render.{
  with_dir, manifests_text, render_in, render_kubernetes_resources_for_operation,
  render_kubernetes_resources_for,
}

-- Every value that the function returns satisfies the predicate.
record Ensures {S A : Type 0} (P : A → Type 0) (m : Go S A) : Type 0 where
  at : (s : S) (a : A) → (m s).0 ≡ ok a → P a

Ensures-bind_res :
    {S A B : Type 0} (P : B → Type 0) (r : Res A × S) (f : A → Go S B)
    → ((a : A) → Ensures P (f a))
    → (b : B) → (bind_res r f).0 ≡ ok b
    → P b
Ensures-bind_res P (ok a, s) f h b e = (h a).at s b e
Ensures-bind_res P (err x, s) f h b e = cc
Ensures-bind_res P (panic, s) f h b e = cc

Ensures-bind :
    {S A B : Type 0} (P : B → Type 0) (m : Go S A) (f : A → Go S B)
    → ((a : A) → Ensures P (f a))
    → Ensures P (m >>= f)
Ensures-bind P m f h = record { at = λ s b e. Ensures-bind_res P (m s) f h b e }

Ensures-then :
    {S A B : Type 0} (P : B → Type 0) (m : Go S A) (n : Go S B) → Ensures P n → Ensures P (m >> n)
Ensures-then P m n h = record { at = λ s b e. Ensures-bind_res P (m s) (λ _. n) (λ _. h) b e }

fallible_res-eq-ok : {A : Type 0} (r : Fallible A) (a : A) → fallible_res r ≡ ok a → r ≡ gives a
fallible_res-eq-ok (gives x) a e = cc
fallible_res-eq-ok (fails x) a e = cc

module _ (L : Libs) (W : Workspace) where
  -- All objects pass the filter of kinds.
  abbrev pub AreWanted : ResourceTypes → List Unstructured → Type 0
  AreWanted types objects = all (wanted L W.decode types) objects ≡ true

  AreWanted-jobs :
      (objects : List Unstructured)
      → AreWanted new_resource_types_filter_for_requested_backup_action objects
      → all (λ obj. L.gvk_string (L.group_version_kind obj.type_meta) == L.gvk_string job) objects
        ≡ true
  unfolding wanted new_resource_types_filter_for_requested_backup_action
  AreWanted-jobs [] h = refl
  AreWanted-jobs (obj ∷ objects) h = ground (arith, h, AreWanted-jobs objects)

module _ (L : Libs) {C : Cluster} (W : Workspace) where
  Ensures-parse :
      (content : String) (types : ResourceTypes)
      → Ensures {S = Context C W}
          (AreWanted L W types)
          (lift (parse_rendered_manifests L W.decode content types))
  Ensures-parse content types = record {
    at = λ s objects e.
        parse_rendered_manifests-wanted L W.decode content types objects (fallible_res-eq-ok _ _ e);
  }

  Ensures-render_in :
      (dir : String) (operation : Operation) (types : ResourceTypes)
      → Ensures (AreWanted L W types) (render_in L {C = C} W dir operation types)
  unfolding render_in
  Ensures-render_in dir operation types =
      Ensures-then (AreWanted L W types) (on_disk_ (W.mkdir_all (dir <> "/output")))
        (manifests_text L W dir operation >>= parse)
        (Ensures-bind (AreWanted L W types) (manifests_text L W dir operation) parse
          (λ content. Ensures-parse content types))
    where
      parse : String → Go (Context C W) (List Unstructured)
      parse content = lift (parse_rendered_manifests L W.decode content types)

  with_dir-AreWanted :
      (dir : Fallible String) (operation : Operation) (types : ResourceTypes) (s : Context C W)
      (objects : List Unstructured)
      → (with_dir L W dir operation types s).0 ≡ ok objects
      → AreWanted L W types objects
  unfolding with_dir
  with_dir-AreWanted (fails x) operation types s objects e = cc
  with_dir-AreWanted (gives dir) operation types s objects e =
      (Ensures-render_in dir operation types).at s objects e

  -- Where rendering for an operation returns objects, each of them passes the filter of kinds.
  pub render_for_operation-AreWanted :
      (operation : Operation) (types : ResourceTypes) (s : Context C W)
      (objects : List Unstructured)
      → (render_kubernetes_resources_for_operation L W operation types s).0 ≡ ok objects
      → AreWanted L W types objects
  unfolding render_kubernetes_resources_for_operation
  render_for_operation-AreWanted operation types s objects e =
      with_dir-AreWanted (W.mkdir_temp "/tmp" "bmg" s.disk).0 operation types _ objects e

  -- Every object that is rendered for a requested action has the group, version and kind of a `Job`,
  -- as the texts of these are compared.
  pub render_for_action-jobs :
      (a : RequestedBackupActionAggregate) (s : Context C W) (objects : List Unstructured)
      → s.backup ≡ requested_one a
      → (render_kubernetes_resources_for L W s).0 ≡ ok objects
      → all (λ obj. L.gvk_string (L.group_version_kind obj.type_meta) == L.gvk_string job) objects
        ≡ true
  unfolding render_kubernetes_resources_for should_render_dependent_objects_for_all_operation_types
  render_for_action-jobs a s objects is_action h = AreWanted-jobs L W objects (
      render_for_operation-AreWanted (get_operation s.backup)
        new_resource_types_filter_for_requested_backup_action s objects
        (ground (arith, h, is_action)))
