-- ===== src/PyStager/Worker/Replies.antt =====
-- Which messages a slave sends, and how its job list ends.
use container_hackathon.Prelude.{ℕ, ◌<◌, ◌≡◌, refl, ◌⊎◌, inl, inr}
use container_hackathon.Prelude.{none, some, List, [], ◌∷◌, map, arith, length, if◌then◌else◌}
use container_hackathon.Prelude.{Result, ok, raise, Error, >>=-eq-ok}
use container_hackathon.Prelude.Int.{pos, int_eq}
use container_hackathon.Prelude.Text.{Text, codes}
use container_hackathon.PyStager.Hashing.{hash_directory}
use container_hackathon.Files.{World, chdir}
use container_hackathon.PyStager.System.{System}
use container_hackathon.PyStager.Parameters.{Settings}
use container_hackathon.PyStager.Worker.{
  Message, finished, Turn, job_list, rsync_directory, rsync_file, requested, directory_job,
  file_job, compare_hashes, verify_copy, run_job, run_jobs, slave,
}

pub Result-cases {ℓ} :
    {A : Type ℓ} (r : Result A) → ((e : Error) × (r ≡ raise e)) ⊎ ((a : A) × (r ≡ ok a))
Result-cases (ok a) = inr (a, refl)
Result-cases (raise e) = inl (e, refl)

module _ (sys : System) (settings : Settings) (current_path : Text) where
  open settings use {rsync_status, load_level}

  -- The command of a job, at load level 0 or 1.
  abbrev pub command : Text → Text
  command job =
      if int_eq rsync_status 1
      then (if int_eq load_level 0
          then rsync_directory sys settings current_path job
          else rsync_file sys settings current_path job)
      else requested sys settings current_path job

  -- The load level is one that the program knows.
  abbrev pub IsLevel : Type 0
  IsLevel = (load_level ≡ pos 0) ⊎ (load_level ≡ pos 1)

  compare_hashes-rsync_str :
      (job : Text) (t t' : Turn)
      → compare_hashes sys settings current_path job t ≡ ok t'
      → t'.rsync_str ≡ t.rsync_str
  unfolding compare_hashes
  compare_hashes-rsync_str job t t' h = ground arith

  verify_copy-rsync_str :
      (job : Text) (t t' : Turn)
      → verify_copy sys settings current_path job t ≡ ok t'
      → t'.rsync_str ≡ t.rsync_str
  unfolding verify_copy
  verify_copy-rsync_str job t t' h =
      let (w, _, h1) =
        >>=-eq-ok
          (hash_directory sys settings.destination_dir job current_path (codes "destination")
            t.world)
          _ h in
      let (w', _, h2) = >>=-eq-ok (chdir current_path w) _ h1 in
      compare_hashes-rsync_str job (record t { world = w' }) t' h2

  directory_job-rsync_str :
      (job : Text) (t t' : Turn)
      → directory_job sys settings current_path job t ≡ ok t'
      → t'.rsync_str
        ≡ some (
            if int_eq rsync_status 1
            then rsync_directory sys settings current_path job
            else requested sys settings current_path job)
  unfolding directory_job
  directory_job-rsync_str job t t' h =
      let (w, _, h1) =
        >>=-eq-ok
          (if int_eq settings.checksum_status 1
            then hash_directory sys settings.source_dir job current_path (codes "source") t.world
            else ok t.world)
          _ h in
      ground (
        arith,
        verify_copy-rsync_str job
            (record t {
              world = sys.shell (rsync_directory sys settings current_path job) w;
              rsync_str = some (rsync_directory sys settings current_path job);
            })
            t',
      )

  -- A round that raises nothing sends the command of its job.
  run_job-command :
      (job : Text) (t : Turn) (r : Turn × Text)
      → IsLevel
      → run_job sys settings current_path job t ≡ ok r
      → r.1 ≡ command job
  unfolding run_job file_job
  run_job-command job t r level h =
      let (t', e, h1) =
        >>=-eq-ok
          (if int_eq load_level 0 then directory_job sys settings current_path job t else ok t) _
          h in
      ground (arith, directory_job-rsync_str job t t')

  -- If all jobs end, the command of each job was sent, in order; if one raises an error, there are
  -- fewer messages than jobs.
  Answers : ℕ → List Text → List Message × Result Turn → Type 0
  Answers my_rank jobs (sent, ok t) = sent ≡ map (λ job. finished my_rank (command job)) jobs
  Answers my_rank jobs (sent, raise e) = length sent < length jobs

  Answers-cons :
      (my_rank : ℕ) (job rsync_str : Text) (jobs : List Text) (rest : List Message × Result Turn)
      → rsync_str ≡ command job
      → Answers my_rank jobs rest
      → Answers my_rank (job ∷ jobs) (finished my_rank rsync_str ∷ rest.0, rest.1)
  unfolding Answers
  Answers-cons my_rank job rsync_str jobs (sent, ok t) e a = rw (e, a)
  Answers-cons my_rank job rsync_str jobs (sent, raise x) e a = omega arith

  run_jobs-stop :
      (my_rank : ℕ) (job : Text) (jobs : List Text) (t : Turn) (e : Error)
      → run_job sys settings current_path job t ≡ raise e
      → run_jobs sys settings current_path my_rank (job ∷ jobs) t ≡ ([], raise e)
  unfolding run_jobs
  run_jobs-stop my_rank job jobs t e stops = rw (stops, run_jobs)

  run_jobs-go :
      (my_rank : ℕ) (job : Text) (jobs : List Text) (t : Turn) (r : Turn × Text)
      → run_job sys settings current_path job t ≡ ok r
      → run_jobs sys settings current_path my_rank (job ∷ jobs) t ≡ (
        finished my_rank r.1 ∷ (run_jobs sys settings current_path my_rank jobs r.0).0,
        (run_jobs sys settings current_path my_rank jobs r.0).1,
      )
  unfolding run_jobs
  run_jobs-go my_rank job jobs t r goes = rw (goes, run_jobs)

  run_jobs-Answers :
      (my_rank : ℕ) (jobs : List Text) (t : Turn)
      → IsLevel
      → Answers my_rank jobs (run_jobs sys settings current_path my_rank jobs t)
  unfolding run_jobs Answers
  run_jobs-Answers my_rank [] t level = refl
  run_jobs-Answers my_rank (job ∷ jobs) t level =
      elim (Result-cases (run_job sys settings current_path job t)) [
        | inl (e, stops) ↦ rw (run_jobs-stop my_rank job jobs t e stops) (omega arith)
        | inr (r, goes) ↦ rw (run_jobs-go my_rank job jobs t r goes) (
            Answers-cons my_rank job r.1 jobs (run_jobs sys settings current_path my_rank jobs r.0)
              (run_job-command job t r level goes) (run_jobs-Answers my_rank jobs r.0 level))
      ]

  Answers-ok :
      (my_rank : ℕ) (jobs : List Text) (res : List Message × Result Turn) (t : Turn)
      → Answers my_rank jobs res
      → res.1 ≡ ok t
      → res.0 ≡ map (λ job. finished my_rank (command job)) jobs
  unfolding Answers
  Answers-ok my_rank jobs (sent, ok t') t a e = a
  Answers-ok my_rank jobs (sent, raise x) t a e = cc

  Answers-err :
      (my_rank : ℕ) (jobs : List Text) (res : List Message × Result Turn) (e : Error)
      → Answers my_rank jobs res
      → res.1 ≡ raise e
      → length res.0 < length jobs
  unfolding Answers
  Answers-err my_rank jobs (sent, ok t') x a e = cc
  Answers-err my_rank jobs (sent, raise x') x a e = a

  -- A slave with a job list, at load level 0 or 1: if all its jobs end, it has sent one message for
  -- each job, with its rank and the command of the job, in the order of the list.
  pub slave-replies :
      (my_rank : ℕ) (text : Text) (w : World) (t : Turn)
      → IsLevel
      → (slave sys settings current_path my_rank (some text) w).1 ≡ ok t
      → (slave sys settings current_path my_rank (some text) w).0
        ≡ map (λ job. finished my_rank (command job)) (job_list (some text))
  unfolding slave
  slave-replies my_rank text w t level h =
      Answers-ok my_rank jobs (run_jobs sys settings current_path my_rank jobs start) t
        (run_jobs-Answers my_rank jobs start level) h
    where
      jobs : List Text
      jobs = job_list (some text)

      start : Turn
      start = record { world = w; rsync_str = none; printed = [] }

  -- A slave with a job list, at load level 0 or 1: if an error stops it, it has sent fewer messages than
  -- it has jobs.
  pub slave-stopped :
      (my_rank : ℕ) (text : Text) (w : World) (e : Error)
      → IsLevel
      → (slave sys settings current_path my_rank (some text) w).1 ≡ raise e
      → length (slave sys settings current_path my_rank (some text) w).0
        < length (job_list (some text))
  unfolding slave
  slave-stopped my_rank text w e level h =
      Answers-err my_rank jobs (run_jobs sys settings current_path my_rank jobs start) e
        (run_jobs-Answers my_rank jobs start level) h
    where
      jobs : List Text
      jobs = job_list (some text)

      start : Turn
      start = record { world = w; rsync_str = none; printed = [] }
