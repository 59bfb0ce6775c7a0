-- ===== src/Bmg/Apply/Single.antt =====
-- What applying one object does.
use backup_maker_controller.Prelude.{
  ℕ, ◌+◌, ◌≡◌, refl, arith, Option, none, some, length, length-append, Err, Res, ok, err, panic,
}
use backup_maker_controller.Kube.{Unstructured}
use backup_maker_controller.Libs.{Libs}
use backup_maker_controller.Cluster.{Cluster}
use backup_maker_controller.Workspace.{Workspace}
use backup_maker_controller.Bmg.State.{Context}
use backup_maker_controller.Bmg.Apply.{
  create_or_update_found, create_or_update_as, discovered, create_or_update,
}

-- How many events a call adds.
abbrev pub ok_count : Res (Unit {0}) → ℕ
ok_count (ok a) = 1
ok_count (err e) = 0
ok_count panic = 0

module _ (L : Libs) (C : Cluster) {W : Workspace} where
  length-found :
      (resource : C.Resource) (obj : Unstructured) (e : Option Err) (s : Context C W)
      → let (r, t) = create_or_update_found L C resource obj e s in
        length t.events ≡ length s.events + ok_count r
  unfolding create_or_update_found
  length-found resource obj e s = grind (arith, length-append)

  length-create_or_update_as :
      (resource : C.Resource) (obj : Unstructured) (s : Context C W)
      → let (r, t) = create_or_update_as L C resource obj s in
        length t.events ≡ length s.events + ok_count r
  unfolding create_or_update_as
  length-create_or_update_as resource obj s = grind (arith, length-append, length-found)

  length-discovered :
      (e : Option Err) (mapped : Option C.Resource) (obj : Unstructured) (s : Context C W)
      → C.rest_mapping (L.group_version_kind obj.type_meta) s.cluster ≡ mapped
      → let (r, t) = discovered L C e obj s in length t.events ≡ length s.events + ok_count r
  unfolding discovered
  length-discovered (some x) mapped obj s h = omega arith
  length-discovered none none obj s h = rw h (omega arith)
  length-discovered none (some resource) obj s h = rw h (length-create_or_update_as resource obj s)

module _ (L : Libs) (C : Cluster) {W : Workspace} (obj : Unstructured) (s : Context C W) where
  -- Applying an object changes neither the disk nor the aggregate.
  pub create_or_update_frame :
      let t = (create_or_update L C obj s).1 in (t.backup ≡ s.backup) × (t.disk ≡ s.disk)
  unfolding create_or_update
  create_or_update_frame = ground arith

  -- An event is recorded exactly when the object was applied without an error or a panic.
  pub length-create_or_update :
      let (r, t) = create_or_update L C obj s in length t.events ≡ length s.events + ok_count r
  unfolding create_or_update
  length-create_or_update = length-discovered L C (C.new_discovery_client s.cluster) _ obj s refl

  -- An object of a kind that the cluster cannot map makes the call panic; nothing is changed.
  pub unknown_kind_panics :
      C.new_discovery_client s.cluster ≡ none
      → C.rest_mapping (L.group_version_kind obj.type_meta) s.cluster ≡ none
      → create_or_update L C obj s ≡ (panic, s)
  unfolding create_or_update
  unknown_kind_panics d m = ground arith
