-- ===== src/PyStager/Samples/Program.antt =====
-- The theorem on the whole of PyStager at a small run.
use mathlib.Core.List.{Perm}
use container_hackathon.Prelude.{
  ℕ, zero, suc, ◌≡◌, refl, sym, subst, arith, ℕ_discrete, some, [], ◌∷◌, ◌++◌, map, ok,
}
use container_hackathon.Prelude.Keyed.{get_key, set_key}
use container_hackathon.Prelude.Text.{Text, codes}
use container_hackathon.Files.{Node, file, dir, end, entry, Entries, World}
use container_hackathon.PyStager.Parameters.{read_settings}
use container_hackathon.PyStager.Scanner.{
  directory_scanner, scan_directory, scan_directories, count_files, sort, insert_sorted,
}
use container_hackathon.PyStager.Structure.{data_structure_builder, build_dirs, build_dir}
use container_hackathon.PyStager.Distributor.{load_distributor, assign_all}
use container_hackathon.PyStager.Distributor.Sharing.{every_from}
use container_hackathon.PyStager.Worker.{slave, run_jobs, run_job, directory_job, file_job}
use container_hackathon.PyStager.Worker.Replies.{command}
use container_hackathon.PyStager.Protocol.{
  Net, Run, Reach, here, next, send, sent_all, idle_over, hear_job, finish, receive, emit, done,
}
use container_hackathon.PyStager.Master.{Plan, prepare, run_of}
use container_hackathon.PyStager.Master.Staging.{AllEnd, commands}
use container_hackathon.PyStager.Main.{start_up, open_log, master_process, slave_settings, network}
use container_hackathon.PyStager.Main.Whole.{network-run_of, program-staged}
use container_hackathon.PyStager.Samples.{quiet, settings, scan, clean}

abbrev parameters : Text
parameters =
    codes "# Load Level =  = 0: sub-directory level\nSource_Directory = /src/\n"
    ++ codes "Destination_Directory = /rec\nLog_Directory = /log\nRsync_Status = 1\n"
    ++ codes "Checksum_Status = 0\nLoad_Level = 0\n"

-- A source, a destination, and the directory of the program with these files.
abbrev tree_with : Entries → Node
tree_with files = dir (
    entry (codes "src")
      (dir (
        entry (codes "b") (dir (entry (codes "f") (file (codes "xy")) end))
          (entry (codes "a") (dir end) end)))
      (entry (codes "rec") (dir end) (entry (codes "app") (dir files) end)))

abbrev first_files : Entries
first_files = entry (codes "parameters.dat") (file parameters) end

abbrev before : World
before = record { root = tree_with first_files; cwd = [] }

abbrev at_home : World
at_home = record { root = tree_with first_files; cwd = codes "app" ∷ [] }

abbrev logging : World
logging = record {
  root = tree_with (
      entry (codes "parameters.dat") (file parameters)
        (entry (codes "pystager.log") (file []) end));
  cwd = codes "app" ∷ [];
}

abbrev plan : Plan
plan = record {
  scan = scan;
  world = record logging { cwd = codes "rec" ∷ [] };
  transfer_dict = (1, some (codes "a")) ∷ (2, some (codes "b")) ∷ [];
}

up : start_up (codes "/app") before ≡ ok (settings, at_home)
unfolding start_up read_settings get_key set_key
up = refl

opened : open_log at_home ≡ ok logging
unfolding open_log
opened = refl

prepared : prepare quiet settings 3 logging ≡ ok plan
unfolding prepare directory_scanner scan_directory scan_directories count_files sort insert_sorted
    data_structure_builder build_dirs build_dir load_distributor assign_all
prepared = refl

started : (w : ℕ) → slave_settings quiet (codes "/app") logging ≡ ok settings
unfolding slave_settings start_up read_settings get_key set_key
started w = refl

ends : AllEnd quiet settings (codes "/app") (λ w. logging) 2 scan.list_items_to_process
unfolding every_from slave run_jobs run_job directory_job file_job
ends zero lt le = absurd (omega arith)
ends (suc zero) lt le = (_, refl)
ends (suc (suc zero)) lt le = (_, refl)
ends (suc (suc (suc w))) lt le = absurd (omega arith)

abbrev net : Run
net = network quiet (codes "/app") 3 (λ w. logging) (λ w. logging) plan

-- The run of the network with the slaves' replies worked out.
worked_out :
    (s : Net) × Reach (run_of quiet settings 3 (codes "/app") (λ w. logging) plan) s
    × (s.phase ≡ done)
unfolding slave run_jobs run_job directory_job file_job ℕ_discrete
worked_out = (
  _,
  next
      (next
        (next
          (next
            (next
              (next
                (next
                  (next
                    (next
                      (next (next here (send refl (omega arith) refl))
                        (send refl (omega arith) refl))
                      (receive {w = 1} (omega arith) (omega arith) refl))
                    (sent_all refl (omega arith)))
                  (emit {w = 1} (omega arith) (omega arith) refl))
                (idle_over refl (omega arith)))
              (hear_job [] [] _ refl (omega arith) refl))
            (receive {w = 2} (omega arith) (omega arith) refl))
          (emit {w = 2} (omega arith) (omega arith) refl))
        (hear_job [] [] _ refl (omega arith) refl))
      (finish refl (omega arith)),
  refl,
)

same_run : net ≡ run_of quiet settings 3 (codes "/app") (λ w. logging) plan
same_run = network-run_of quiet (codes "/app") settings 2 (λ w. logging) (λ w. logging) plan started

program-staged_example :
    (master_process quiet (codes "/app") 3 before ≡ ok (settings, plan))
    × Perm
        (commands worked_out.0.log)
        (map (command quiet settings (codes "/app")) (codes "b" ∷ codes "a" ∷ []))
program-staged_example =
    program-staged quiet (codes "/app") settings 2 (λ w. logging) (λ w. logging) plan started before
      at_home logging (codes "b" ∷ codes "a" ∷ []) (omega arith) refl up opened refl prepared clean
      ends (subst (λ r. Reach r worked_out.0) (sym same_run) worked_out.1) worked_out.2
