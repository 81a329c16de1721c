-- ===== src/PyStager/Samples.antt =====
-- Small runs of PyStager, and its theorems at concrete data.
mod Network
mod Built
mod Parts
mod Program
use container_hackathon.Prelude.{ℕ, zero, suc, ◌+◌, ◌-◌, ◌<◌, ◌≤◌, ◌≡◌, ◌≢◌, refl, inl, arith}
use container_hackathon.Prelude.{
  ℕ_discrete, os_error, Option, some, [], ◌∷◌, map, length, ok, raise, index_error, name_error,
}
use container_hackathon.Prelude.Keyed.{get_key, set_key}
use container_hackathon.Prelude.Int.{pos}
use container_hackathon.Prelude.Text.{Text, codes}
use container_hackathon.Prelude.Dict.{Dict}
use container_hackathon.Files.{Node, file, dir, end, entry, World}
use container_hackathon.PyStager.System.{System}
use container_hackathon.PyStager.Parameters.{Settings, read_settings}
use mathlib.Core.List.{Perm}
use container_hackathon.PyStager.Scanner.{
  Scan, name, size, num_files, directory_scanner, scan_directory, scan_directories, count_files,
  sort, insert_sorted,
}
use container_hackathon.PyStager.Scanner.Order.{IsSorted}
use container_hackathon.PyStager.Scanner.Directories.{subdirectories, directory_scanner-directories}
use container_hackathon.PyStager.Structure.{data_structure_builder, build_dirs, build_dir}
use container_hackathon.PyStager.Distributor.{load_distributor, assign_all}
use container_hackathon.PyStager.Distributor.Sharing.{every_from}
use container_hackathon.PyStager.Distributor.Jobs.{IsDistribution}
use container_hackathon.PyStager.Worker.{slave, run_jobs, run_job, directory_job, file_job}
use container_hackathon.PyStager.Protocol.{
  Net, Run, Reach, here, next, send, sent_all, idle_over, hear_job, finish, receive, emit, done,
}
use container_hackathon.PyStager.Protocol.{start, Step}
use container_hackathon.PyStager.Protocol.Sums.{total}
use container_hackathon.PyStager.Protocol.Invariant.{IsBalanced, owed, expected}
use container_hackathon.PyStager.Protocol.Progress.{no_deadlock, steps, steps-bounded, done_lem}
use container_hackathon.PyStager.Protocol.Log.{gather, due, done-logged}
use container_hackathon.PyStager.Distributor.Jobs.{load_distributor_lem}
use container_hackathon.PyStager.Distributor.Assignment.{jobs_at, IsClean, all_jobs, all_jobs-perm}
use container_hackathon.PyStager.Distributor.Failures.{load_distributor-overrun}
use container_hackathon.PyStager.Worker.{sync_file}
use container_hackathon.PyStager.Worker.{finished, Turn}
use container_hackathon.PyStager.Worker.Replies.{command, slave-replies, slave-stopped}
use container_hackathon.PyStager.Hashing.{new_hasher, hash_files, hash_directory}
use container_hackathon.PyStager.Hashing.Digests.{hash_files_lem, hash_files-empty, prefix_digests}
use container_hackathon.PyStager.Master.{Plan, prepare, run_of}
use container_hackathon.PyStager.Master.Directories.{IsDirectoryPlan, prepare-directories}
use container_hackathon.PyStager.Master.Staging.{AllEnd, staging-IsBalanced, staged, commands}

-- No program changes anything; `du` prints 4; the digest of some bytes is their number.
abbrev quiet : System
quiet = record {
  du = λ w path. codes "4 path";
  directory_size = λ es. 4096;
  shell = λ command w. w;
  md5_hex = λ bytes. (length bytes) ∷ [];
}

abbrev tree : Node
tree = dir (
    entry (codes "src")
      (dir (
        entry (codes "b") (dir (entry (codes "f") (file (codes "xy")) end))
          (entry (codes "a") (dir end) end)))
      (entry (codes "rec") (dir end) end))

abbrev disk : World
disk = record { root = tree; cwd = [] }

abbrev settings : Settings
settings = record {
  source_dir = codes "/src/";
  destination_dir = codes "/rec";
  log_dir = codes "/log";
  rsync_status = pos 1;
  checksum_status = pos 0;
  load_level = pos 0;
}

-- The parameters are read from lines such as those of parameters.dat.
read_settings_example :
    read_settings (
      codes "# Load Level =  = 0: sub-directory level"
      ∷ codes "Source_Directory = /src/\n"
      ∷ codes "Destination_Directory = /rec\n"
      ∷ codes "Log_Directory = /log\n"
      ∷ codes "Rsync_Status = 1\n"
      ∷ codes "Checksum_Status = 0\n"
      ∷ codes "Load_Level = 0\n"
      ∷ [])
    ≡ ok settings
unfolding read_settings get_key set_key
read_settings_example = refl

abbrev scan : Scan
scan = record {
  dir_detail_list =
      name (codes "b")
      ∷ size (codes "4")
      ∷ num_files 1
      ∷ name (codes "a")
      ∷ size (codes "4")
      ∷ num_files 0
      ∷ [];
  list_items_to_process = codes "a" ∷ codes "b" ∷ [];
  total_size_source = pos 8;
  total_num_files = 1;
  total_num_directories = 2;
}

abbrev plan : Plan
plan = record {
  scan = scan;
  world = record disk { cwd = codes "rec" ∷ [] };
  transfer_dict = (1, some (codes "a")) ∷ (2, some (codes "b")) ∷ [];
}

prepared : prepare quiet settings 3 disk ≡ ok plan
unfolding prepare directory_scanner scan_directory scan_directories count_files sort insert_sorted
    data_structure_builder build_dirs build_dir load_distributor assign_all
prepared = refl

directory_scanner-directories_example :
    Perm scan.list_items_to_process
      (subdirectories quiet disk (codes "/src/") (codes "b" ∷ codes "a" ∷ []))
    × IsSorted scan.list_items_to_process
    × (length scan.list_items_to_process
        ≡ length (subdirectories quiet disk (codes "/src/") (codes "b" ∷ codes "a" ∷ [])))
    × (scan.total_num_directories ≡ 2)
unfolding directory_scanner scan_directories sort
directory_scanner-directories_example =
    directory_scanner-directories quiet disk (codes "/src/") (codes "b" ∷ codes "a" ∷ []) scan refl
      refl

prepare-directories_example :
    IsDirectoryPlan quiet settings 2 disk (codes "b" ∷ codes "a" ∷ []) plan
prepare-directories_example =
    prepare-directories quiet settings 2 disk (codes "b" ∷ codes "a" ∷ []) plan (omega arith) refl
      refl prepared

given : IsDistribution 2 scan.list_items_to_process plan.transfer_dict
given = prepare-directories_example.given

clean : IsClean scan.list_items_to_process
clean = (refl, (refl, tt))

ends : AllEnd quiet settings (codes "/") (λ w. disk) 2 scan.list_items_to_process
unfolding every_from slave run_jobs run_job directory_job file_job
ends zero lt le = absurd (omega arith)
ends (suc zero) lt le = (_, refl)
ends (suc (suc zero)) lt le = (_, refl)
ends (suc (suc (suc w))) lt le = absurd (omega arith)
