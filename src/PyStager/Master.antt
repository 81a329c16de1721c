-- ===== src/PyStager/Master.antt =====
-- The master's branch of wfppdl/PyStager/mpi_stager_v2.py up to its first message, and the network
-- that it starts.
pub mod Built
pub mod Directories
pub mod Staging
use container_hackathon.Prelude.{
  ℕ, Bool, Option, List, length, system_exit, Result, ok, ◌>>=◌, ◌>>◌, guard,
}
use container_hackathon.Prelude.Text.{Text}
use container_hackathon.Prelude.Dict.{Dict}
use container_hackathon.Files.{World, exists}
use container_hackathon.PyStager.System.{System}
use container_hackathon.PyStager.Parameters.{Settings}
use container_hackathon.PyStager.Scanner.{Scan, directory_scanner}
use container_hackathon.PyStager.Structure.{data_structure_builder}
use container_hackathon.PyStager.Distributor.{load_distributor}
use container_hackathon.PyStager.Worker.{Message, slave}
use container_hackathon.PyStager.Protocol.{Run}

-- What the master has when it begins to send.
pub record Plan : Type 0 where
  pub scan : Scan
  pub world : World
  pub transfer_dict : Dict (Option Text)

module _ (sys : System) (settings : Settings) where
  open settings use {source_dir, destination_dir, load_level}

  -- The check of the source, the scan, the directories at the destination, and the job lists.
  unfoldable pub prepare : (p : ℕ) → World → Result Plan
  prepare p w = do
    guard (exists w source_dir) system_exit
    scan ← directory_scanner sys w source_dir load_level
    world ← data_structure_builder sys destination_dir scan.list_items_to_process load_level w
    transfer_dict ←
        load_distributor scan.list_items_to_process scan.total_num_files scan.total_num_directories
          load_level p
    ok (record { scan = scan; world = world; transfer_dict = transfer_dict })

  -- The network of `p` processes. `worlds w` is what slave `w` finds when its job list arrives.
  abbrev pub run_of : (p : ℕ) (current_path : Text) (worlds : ℕ → World) → Plan → Run
  run_of p current_path worlds plan = record {
    p = p;
    transfer_dict = plan.transfer_dict;
    items = length plan.scan.list_items_to_process;
    reply = λ w text. (slave sys settings current_path w text (worlds w)).0;
  }
