-- ===== src/Bmg/Apply/Tracking.antt =====
-- The references from a backup to the objects that were applied for it.
use backup_maker_controller.Prelude.{
  ℕ, suc, ◌+◌, ◌<◌, ap, bind_res, wrap_res, String, ◌≡◌, refl, arith, List, [], ◌∷◌, length,
  length-append, Res, ok, err, panic,
}
use backup_maker_controller.Kube.{Unstructured}
use backup_maker_controller.Libs.{Libs}
use backup_maker_controller.Cluster.{Cluster}
use backup_maker_controller.Workspace.{Workspace}
use backup_maker_controller.Api.ChildReference.{
  append_job_id_to, add_owned_object, ChildrenReferences,
}
use backup_maker_controller.Api.ChildReference.RoundTrip.{label-append_job_id_to}
use backup_maker_controller.Domain.Aggregate.{
  Renderable, scheduled_one, requested_one, add_owned, get_references_of_owned_objects,
}
use backup_maker_controller.Bmg.State.{Context, change_backup}
use backup_maker_controller.Bmg.Apply.{apply_one, apply_each, create_or_update}
use backup_maker_controller.Bmg.Apply.Single.{create_or_update_frame, ok_count}

abbrev pub owned : Renderable → ℕ
owned b = length (get_references_of_owned_objects b)

length-add_owned_object :
    (L : Libs) (ref : ChildrenReferences) (id : String) (doc : Unstructured)
    → length (add_owned_object L ref (append_job_id_to id doc)) ≡ suc (length ref)
unfolding add_owned_object
length-add_owned_object L ref id doc = grind (arith, label-append_job_id_to id doc, length-append)

owned-add_owned :
    (L : Libs) (b : Renderable) (id : String) (doc : Unstructured)
    → owned (add_owned L b (append_job_id_to id doc)) ≡ suc (owned b)
unfolding add_owned get_references_of_owned_objects
owned-add_owned L (scheduled_one sb) id doc =
    length-add_owned_object L sb.scheduled_backup.status.owned_references id doc
owned-add_owned L (requested_one a) id doc =
    length-add_owned_object L a.action.status.owned_references id doc

-- A call that was given so many objects has recorded this many: all of them unless it failed.
abbrev pub Recorded : ℕ → ℕ → Res (Unit {0}) → Type 0
Recorded given n (ok _) = n ≡ given
Recorded given n (err e) = n < given
Recorded given n panic = n < given

Recorded-suc : (g n : ℕ) (r : Res (Unit {0})) → Recorded g n r → Recorded (suc g) (suc n) r
Recorded-suc g n (ok _) h = omega (arith, h)
Recorded-suc g n (err e) h = omega (arith, h)
Recorded-suc g n panic h = omega (arith, h)

module _ (L : Libs) (C : Cluster) (W : Workspace) where
  recorded_after :
      (id : String) (doc : Unstructured) (r : Res (Unit {0})) (t : Context C W)
      → let (r', t') =
          bind_res
            (wrap_res r "cannot apply manifest to the cluster", t)
            (λ _. change_backup (λ b. add_owned L b (append_job_id_to id doc))) in
        owned t'.backup ≡ ok_count r' + owned t.backup
  recorded_after id doc (ok _) t = omega (arith, owned-add_owned L t.backup id doc)
  recorded_after id doc (err e) t = omega arith
  recorded_after id doc panic t = omega arith

  owned-apply_one :
      (doc : Unstructured) (s : Context C W)
      → let (r, t) = apply_one L C W doc s in owned t.backup ≡ ok_count r + owned s.backup
  unfolding apply_one
  owned-apply_one doc s =
      let (id, d) = W.new_uuid s.disk in
      let s' = record s { disk = d } in
      let (r, t) = create_or_update L C (append_job_id_to id doc) s' in
      let frame = create_or_update_frame L C (append_job_id_to id doc) s' in
      omega (arith, recorded_after id doc r t, ap owned frame.0)

  pub owned-apply_each :
      (docs : List Unstructured) (s : Context C W)
      → let (r, t) = apply_each L C W docs s in
        (n : ℕ) × (owned t.backup ≡ n + owned s.backup) × Recorded (length docs) n r
  unfolding apply_each
  owned-apply_each [] s = (0, omega arith, refl)
  owned-apply_each (doc ∷ docs) s =
      rest (apply_one L C W doc s).0 (apply_one L C W doc s).1 (owned-apply_one doc s)
        (owned-apply_each docs (apply_one L C W doc s).1)
    where
      rest :
          (r : Res (Unit {0})) (t : Context C W)
          → owned t.backup ≡ ok_count r + owned s.backup
          → (let (r', t') = apply_each L C W docs t in
              (n : ℕ) × (owned t'.backup ≡ n + owned t.backup) × Recorded (length docs) n r')
          → let (r', t') = bind_res (r, t) (λ _. apply_each L C W docs) in
            (n : ℕ) × (owned t'.backup ≡ n + owned s.backup) × Recorded (length (doc ∷ docs)) n r'
      rest (ok _) t one ih =
          let (n, e, h) = ih in
          (suc n, omega (arith, e, one), Recorded-suc _ n (apply_each L C W docs t).0 h)
      rest (err e) t one ih = (0, omega arith, omega arith)
      rest panic t one ih = (0, omega arith, omega arith)
