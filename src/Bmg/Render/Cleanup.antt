-- ===== src/Bmg/Render/Cleanup.antt =====
-- What rendering leaves on the disk.
use backup_maker_controller.Prelude.{String, ◌≡◌, false, gives}
use backup_maker_controller.Libs.{Libs}
use backup_maker_controller.Cluster.{Cluster}
use backup_maker_controller.Workspace.{Workspace, IsTidy}
use backup_maker_controller.Domain.Aggregate.{Operation}
use backup_maker_controller.Domain.ResourceTypes.{ResourceTypes}
use backup_maker_controller.Bmg.State.{Context}
use backup_maker_controller.Bmg.Render.{with_dir, render_kubernetes_resources_for_operation}

module _ (L : Libs) {C : Cluster} (W : Workspace) (T : IsTidy W) (operation : Operation)
    (types : ResourceTypes) (s : Context C W) where
  -- Rendering restores the working directory, whether it returns, fails or panics.
  pub render_restores_directory :
      W.getwd (render_kubernetes_resources_for_operation L W operation types s).1.disk
      ≡ W.getwd s.disk
  unfolding render_kubernetes_resources_for_operation
  render_restores_directory = T.getwd-chdir _ _

  -- On a disk where a removed directory is gone and changing the working directory does just that:
  -- where a temporary directory is made, rendering has removed it at its end, and restored the
  -- working directory, whether it returns, fails or panics.
  pub render_cleans_up :
      (dir : String) (d : W.State)
      → W.mkdir_temp "/tmp" "bmg" s.disk ≡ (gives dir, d)
      → let after = (render_kubernetes_resources_for_operation L W operation types s).1.disk in
        (T.present dir after ≡ false) × (W.getwd after ≡ W.getwd s.disk)
  unfolding render_kubernetes_resources_for_operation with_dir
  render_cleans_up dir d made =
      (rw made (rw T.present-chdir (T.present-remove_all dir _)), T.getwd-chdir _ _)
