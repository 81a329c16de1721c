-- ===== src/PyStager/Main.antt =====
-- The processes of wfppdl/PyStager/mpi_stager_v2.py, each from its beginning.
pub mod Whole
use container_hackathon.Prelude.{
  ℕ, Option, List, [], ◌∷◌, length, if◌then◌else◌, os_error, system_exit, Result, ok, raise, ◌>>=◌,
  ◌>>◌, guard,
}
use container_hackathon.Prelude.Text.{Text, codes, split_on}
use container_hackathon.Files.{World, exists, is_file, chdir, read_file}
use container_hackathon.Files.Edit.{write_file}
use container_hackathon.PyStager.System.{System}
use container_hackathon.PyStager.Parameters.{Settings, read_settings}
use container_hackathon.PyStager.Worker.{Message, Turn, slave}
use container_hackathon.PyStager.Protocol.{Run}
use container_hackathon.PyStager.Master.{Plan, prepare}

abbrev pub file_name : Text
file_name = codes "parameters.dat"

-- What every process does first: it goes to the directory of the program and reads the parameters. A line
-- break at the end of the file makes an empty line here, which sets nothing.
unfoldable pub start_up : (current_path : Text) → World → Result (Settings × World)
start_up current_path w = do
  here ← chdir current_path w
  text ← read_file here file_name
  settings ← read_settings (split_on b'\n' text)
  ok (settings, here)

abbrev pub log_name : Text
log_name = codes "pystager.log"

-- `logging.basicConfig(filename='pystager.log', ...)`, which opens the file at its end.
unfoldable pub open_log : World → Result World
open_log w =
    if is_file w log_name
    then ok w
    else if exists w log_name
    then raise os_error
    else write_file log_name [] w

module _ (sys : System) (current_path : Text) where
  -- The master, up to its first message.
  unfoldable pub master_process : (p : ℕ) → World → Result (Settings × Plan)
  master_process p w = do
    started ← start_up current_path w
    logging ← open_log started.1
    plan ← prepare sys started.0 p logging
    ok (started.0, plan)

  -- The parameters of a slave, which looks for the source too.
  unfoldable pub slave_settings : World → Result Settings
  slave_settings w = do
    started ← start_up current_path w
    guard (exists started.1 started.0.source_dir) system_exit
    ok started.0

  -- A slave that begins in one world, and whose job list arrives in another.
  unfoldable pub slave_process :
      (my_rank : ℕ) → (begun arrived : World) → Option Text → List Message × Result Turn
  slave_process my_rank begun arrived text = elim (slave_settings begun) [
    | raise e ↦ ([], raise e)
    | ok settings ↦ slave sys settings current_path my_rank text arrived
  ]

  -- The network of the whole program.
  abbrev pub network : (p : ℕ) (begun arrived : ℕ → World) → Plan → Run
  network p begun arrived plan = record {
    p = p;
    transfer_dict = plan.transfer_dict;
    items = length plan.scan.list_items_to_process;
    reply = λ w text. (slave_process w (begun w) (arrived w) text).0;
  }
