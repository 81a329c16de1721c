-- ===== src/PyStager/Worker.antt =====
-- The slave's branch of wfppdl/PyStager/mpi_stager_v2.py: one job list, one message for each job.
pub mod Replies
use container_hackathon.Prelude.{ℕ, Bool, true, false, Option, none, some, List, [], ◌∷◌, ◌++◌}
use container_hackathon.Prelude.{
  if◌then◌else◌, name_error, Error, Result, ok, raise, ◌>>=◌, or_raise,
}
use container_hackathon.Prelude.Int.{ℤ, int_eq}
use container_hackathon.Prelude.Text.{Text, codes, text_eq, split_on}
use container_hackathon.Files.{World, chdir}
use container_hackathon.Files.Edit.{remove}
use container_hackathon.PyStager.System.{System}
use container_hackathon.PyStager.Parameters.{Settings}
use container_hackathon.PyStager.Distributor.{semicolon}
use container_hackathon.PyStager.Hashing.{hash_directory, hash_text_name, md5}

-- What a slave sends to the master: its rank, and the command of the job that it finished.
pub data Message : Type 0 where
  idle : ℕ → Message
  finished : ℕ → Text → Message

-- The variables of a slave that a job changes: what it sees, `rsync_str`, and what it has printed.
pub record Turn : Type 0 where
  pub world : World
  pub rsync_str : Option Text
  pub printed : List Text

-- `message_in.split(';')`, or nothing where `message_in` is None
abbrev pub job_list : Option Text → List Text
job_list none = []
job_list (some text) = split_on semicolon text

module _ (sys : System) (settings : Settings) (current_path : Text) where
  open settings use {source_dir, destination_dir, rsync_status, checksum_status, load_level}

  -- `destination_dir + "/" + job`
  abbrev pub target : Text → Text
  target job = destination_dir ++ (codes "/" ++ job)

  abbrev pub rsync_directory : Text → Text
  rsync_directory job =
      codes "rsync -r " ++ (source_dir ++ (job ++ (codes "/" ++ (codes " " ++ target job))))

  abbrev pub rsync_file : Text → Text
  rsync_file job =
      codes "rsync  " ++ (source_dir ++ (codes "/" ++ (job ++ (codes " " ++ target job))))

  abbrev pub requested : Text → Text
  requested job = codes " Opereation requested on the " ++ (source_dir ++ job)

  -- The comparison of the two hash files, which go if they are the same.
  unfoldable pub compare_hashes : Text → Turn → Result Turn
  compare_hashes job t = do
    let source_hash_text = hash_text_name (codes "source") job
    let destination_hash_text = hash_text_name (codes "destination") job
    of_source ← md5 sys source_hash_text t.world
    of_destination ← md5 sys destination_hash_text t.world
    if text_eq of_source of_destination
        then (do
          w ← remove source_hash_text t.world
          w' ← remove destination_hash_text w
          ok (record t {
            world = w';
            printed =
                t.printed
                ++ ((codes "source: "
                      ++ (job
                          ++ (codes " and destination: " ++ (job ++ codes " files are identical"))))
                    ∷ []);
          }))
        else ok (record t {
          printed =
              t.printed
              ++ ((codes "integrity of source: "
                    ++ (job
                        ++ (codes " and destination: "
                            ++ (job ++ codes " files could not be verified"))))
                  ∷ []);
        })

  -- The checks after the copy of a directory.
  unfoldable pub verify_copy : Text → Turn → Result Turn
  verify_copy job t = do
    w ← hash_directory sys destination_dir job current_path (codes "destination") t.world
    w' ← chdir current_path w
    compare_hashes job (record t { world = w' })

  -- The part of a round for load level 0.
  unfoldable pub directory_job : Text → Turn → Result Turn
  directory_job job t = do
    w ←
        (if int_eq checksum_status 1
          then hash_directory sys source_dir job current_path (codes "source") t.world
          else ok t.world)
    if int_eq rsync_status 1
        then (let copied = record t {
          world = sys.shell (rsync_directory job) w;
          rsync_str = some (rsync_directory job);
        } in
            if int_eq checksum_status 1 then verify_copy job copied else ok copied)
        else ok (record t { world = w; rsync_str = some (requested job) })

  -- The part of a round for load level 1.
  unfoldable pub file_job : Text → Turn → Turn
  file_job job t =
      if int_eq rsync_status 1
      then record t {
        world = sys.shell (rsync_file job) t.world;
        rsync_str = some (rsync_file job);
      }
      else record t { rsync_str = some (requested job) }

  -- One round: the parts of both load levels, and the text of the message.
  unfoldable pub run_job : Text → Turn → Result (Turn × Text)
  run_job job t = do
    t' ← (if int_eq load_level 0 then directory_job job t else ok t)
    let t2 = if int_eq load_level 1 then file_job job t' else t'
    rsync_str ← or_raise t2.rsync_str name_error
    ok (t2, rsync_str)

  module _ (my_rank : ℕ) where
    -- The messages that are sent before the jobs end or raise an error, and how they end.
    unfoldable pub run_jobs : List Text → Turn → List Message × Result Turn
    run_jobs [] t = ([], ok t)
    run_jobs (job ∷ jobs) t = elim (run_job job t) [
      | raise e ↦ ([], raise e)
      | ok (t', rsync_str) ↦
          let rest = run_jobs jobs t' in (finished my_rank rsync_str ∷ rest.0, rest.1)
    ]

    unfoldable pub slave : Option Text → World → List Message × Result Turn
    slave none w = (idle my_rank ∷ [], ok (record { world = w; rsync_str = none; printed = [] }))
    slave (some text) w =
        run_jobs (job_list (some text)) (record { world = w; rsync_str = none; printed = [] })

-- `sync_file` of wfppdl/PyStager/external_function.py, which no part of the program calls.
unfoldable pub sync_file :
    System → (source_path destination_dir job_name : Text) → ℤ → World → World
sync_file sys source_path destination_dir job_name rsync_status w =
    if int_eq rsync_status 1
    then sys.shell
        (codes "rsync -r "
          ++ (source_path
              ++ (job_name
                  ++ (codes "/" ++ (codes " " ++ (destination_dir ++ (codes "/" ++ job_name)))))))
        w
    else w
