-- ===== src/PyStager/Samples/Parts.antt =====
-- The theorems on the parts of PyStager at concrete data.
use container_hackathon.Prelude.{ℕ, ◌+◌, ◌<◌, ◌≤◌, ◌≡◌, refl, inl, arith}
use container_hackathon.Prelude.{
  os_error, Option, some, [], ◌∷◌, length, ok, raise, index_error, name_error,
}
use container_hackathon.Prelude.Int.{pos}
use container_hackathon.Prelude.Text.{Text, codes}
use container_hackathon.Prelude.Dict.{Dict}
use container_hackathon.Files.{file, dir, end, entry, World}
use mathlib.Core.List.{Perm}
use container_hackathon.PyStager.Distributor.{load_distributor, assign_all}
use container_hackathon.PyStager.Distributor.Jobs.{IsDistribution}
use container_hackathon.PyStager.Worker.{slave, run_jobs, run_job, directory_job, file_job}
use container_hackathon.PyStager.Distributor.Jobs.{load_distributor_lem}
use container_hackathon.PyStager.Distributor.Assignment.{
  jobs_at, load_distributor-balanced, all_jobs, all_jobs-perm,
}
use container_hackathon.PyStager.Distributor.Failures.{load_distributor-overrun}
use container_hackathon.PyStager.Worker.{finished, Turn}
use container_hackathon.PyStager.Worker.Replies.{slave-replies, slave-stopped}
use container_hackathon.PyStager.Hashing.{new_hasher, hash_files, hash_directory}
use container_hackathon.PyStager.Hashing.Digests.{hash_files_lem, hash_files-empty, prefix_digests}
use container_hackathon.PyStager.Samples.{quiet, disk, settings, scan, plan, given, clean}

load_distributor_lem_example :
    (d : Dict (Option Text)) × (load_distributor
        (codes "a" ∷ codes "b" ∷ codes "c" ∷ [])
        0
        3
        (pos 0)
        3
      ≡ ok d)
    × IsDistribution 2 (codes "a" ∷ codes "b" ∷ codes "c" ∷ []) d
load_distributor_lem_example =
    load_distributor_lem (codes "a" ∷ codes "b" ∷ codes "c" ∷ []) 0 3 (pos 0) 2 (omega arith)
      (inl (refl, refl))

-- Three items for two slaves.
three_items :
    load_distributor (codes "a" ∷ codes "b" ∷ codes "c" ∷ []) 0 3 (pos 0) 3
    ≡ ok ((1, some (codes "a;c")) ∷ (2, some (codes "b")) ∷ [])
unfolding load_distributor assign_all
three_items = refl

all_jobs-perm_example : Perm (all_jobs 2 plan.transfer_dict) (codes "a" ∷ codes "b" ∷ [])
all_jobs-perm_example =
    all_jobs-perm 2 scan.list_items_to_process plan.transfer_dict (omega arith) given clean

load_distributor-balanced_example :
    (d : Dict (Option Text)) × (load_distributor
        (codes "a" ∷ codes "b" ∷ codes "c" ∷ [])
        0
        3
        (pos 0)
        3
      ≡ ok d)
    × Perm (all_jobs 2 d) (codes "a" ∷ codes "b" ∷ codes "c" ∷ [])
    × ((v w : ℕ) → 0 < v → v ≤ 2 → 0 < w → w ≤ 2 → length (jobs_at d v) ≤ length (jobs_at d w) + 1)
load_distributor-balanced_example =
    load_distributor-balanced (codes "a" ∷ codes "b" ∷ codes "c" ∷ []) 0 3 (pos 0) 2 (omega arith)
      (inl (refl, refl)) (refl, (refl, (refl, tt)))

-- A file beside the directory `a`: two entries, one item.
load_distributor-overrun_example :
    load_distributor (codes "a" ∷ []) 0 2 (pos 0) 3 ≡ raise index_error
load_distributor-overrun_example =
    load_distributor-overrun (codes "a" ∷ []) 0 2 (pos 0) 2 (omega arith) (inl (refl, omega arith))

abbrev ended : Turn
ended = record { world = disk; rsync_str = some (codes "rsync -r /src/b/ /rec/b"); printed = [] }

slave-replies_example :
    (slave quiet settings (codes "/") 1 (some (codes "a;b")) disk).0
    ≡ finished 1 (codes "rsync -r /src/a/ /rec/a")
      ∷ finished 1 (codes "rsync -r /src/b/ /rec/b")
      ∷ []
unfolding slave run_jobs run_job directory_job file_job
slave-replies_example =
    slave-replies quiet settings (codes "/") 1 (codes "a;b") disk ended (inl refl) refl

-- With checksums on, and no such directory at the source, nothing is sent.
os_error_run :
    (slave quiet
      (record settings { checksum_status = pos 1 })
      (codes "/")
      1
      (some (codes "zz"))
      disk).1
    ≡ raise os_error
unfolding slave run_jobs run_job directory_job file_job hash_directory
os_error_run = refl

slave-stopped_example :
    length
      (slave quiet
        (record settings { checksum_status = pos 1 })
        (codes "/")
        1
        (some (codes "zz"))
        disk).0
    < 1
slave-stopped_example =
    slave-stopped quiet (record settings { checksum_status = pos 1 }) (codes "/") 1 (codes "zz")
      disk os_error (inl refl) os_error_run

hash_files_lem_example :
    hash_files quiet
      (record disk { cwd = codes "src" ∷ codes "b" ∷ [] })
      (codes "f" ∷ [])
      new_hasher
      []
    ≡ ok (2 ∷ [])
unfolding prefix_digests
hash_files_lem_example =
    hash_files_lem quiet (record disk { cwd = codes "src" ∷ codes "b" ∷ [] }) (codes "f") [] b'x'
      (codes "y") [] refl tt

abbrev hollow : World
hollow = record { root = dir (entry (codes "e") (file []) end); cwd = [] }

hollow_stops : hash_files quiet hollow (codes "e" ∷ []) new_hasher [] ≡ raise name_error
hollow_stops = hash_files-empty quiet hollow (codes "e") [] refl
