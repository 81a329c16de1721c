-- ===== src/PyStager/Main/Whole.antt =====
-- The whole program of wfppdl/PyStager/mpi_stager_v2.py, for the directories of a source.
use mathlib.Core.List.{Perm}
use mathlib.Core.List.Perm
use container_hackathon.Prelude.{ℕ, suc, ◌<◌, ◌≡◌, refl, subst, inl, Option, List, map, length, ok}
use container_hackathon.Prelude.Int.{pos}
use container_hackathon.Prelude.Text.{Text}
use container_hackathon.Files.{World, list_dir}
use container_hackathon.PyStager.System.{System}
use container_hackathon.PyStager.Parameters.{Settings}
use container_hackathon.PyStager.Distributor.Assignment.{IsClean}
use container_hackathon.PyStager.Worker.{slave}
use container_hackathon.PyStager.Worker.Replies.{command}
use container_hackathon.PyStager.Protocol.{done, Net, Reach}
use container_hackathon.PyStager.Master.{Plan, prepare, run_of}
use container_hackathon.PyStager.Master.Directories.{prepare-directories}
use container_hackathon.PyStager.Master.Staging.{AllEnd, staged, commands}
use container_hackathon.PyStager.Main.{
  start_up, open_log, master_process, slave_settings, slave_process, network,
}

module _ (sys : System) (current_path : Text) (settings : Settings) where
  -- A slave that has read the parameters works with them.
  slave_process-started :
      (w : ℕ) (begun arrived : World) (text : Option Text)
      → slave_settings sys current_path begun ≡ ok settings
      → slave_process sys current_path w begun arrived text
        ≡ slave sys settings current_path w text arrived
  unfolding slave_process
  slave_process-started w begun arrived text h = rw (h, slave_process) refl

  module _ (k : ℕ) (begun arrived : ℕ → World) (plan : Plan)
      (started : (w : ℕ) → slave_settings sys current_path (begun w) ≡ ok settings) where
    pub network-run_of :
        network sys current_path (suc k) begun arrived plan
        ≡ run_of sys settings (suc k) current_path arrived plan
    network-run_of = λ i. record {
      p = suc k;
      transfer_dict = plan.transfer_dict;
      items = length plan.scan.list_items_to_process;
      reply = λ w text. (slave_process-started w (begun w) (arrived w) text (started w) i).0;
    }

    -- At load level 0 and with a slave, where the master reads the parameters, opens its log, and can prepare a
    -- plan for the entries of the source, every slave reads the same parameters and finds the source, no
    -- item has a semicolon in its name, and the slaves end all their jobs: the master comes to its messages
    -- with this plan, and in whatever order the processes then work, when the master is done it has logged the
    -- command of each entry of the source, each one once.
    pub program-staged :
        (w here logging : World) (names : List Text)
        → 0 < k
        → settings.load_level ≡ pos 0
        → start_up current_path w ≡ ok (settings, here)
        → open_log here ≡ ok logging
        → list_dir logging settings.source_dir ≡ ok names
        → prepare sys settings (suc k) logging ≡ ok plan
        → IsClean plan.scan.list_items_to_process
        → AllEnd sys settings current_path arrived k plan.scan.list_items_to_process
        → {s : Net} → Reach (network sys current_path (suc k) begun arrived plan) s
        → s.phase ≡ done
        → (master_process sys current_path (suc k) w ≡ ok (settings, plan))
          × Perm (commands s.log) (map (command sys settings current_path) names)
    unfolding master_process
    program-staged w here logging names many level up opened listed prepared clean ends {s} reach
          at =
        let directories =
          prepare-directories sys settings k logging names plan many level listed prepared in
        (
          rw (up, opened, prepared) refl,
          Perm.trans
              (staged sys settings current_path arrived k plan many (inl level) directories.given
                clean ends (subst (λ r. Reach r s) network-run_of reach) at)
              (Perm.map (command sys settings current_path) directories.perm),
        )
