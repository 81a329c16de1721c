-- ===== src/PyStager/Master/Staging.antt =====
-- A whole run: the network that the plan starts, with slaves whose jobs all end.
use mathlib.Core.List.{Perm, filter_map, filter_map-append, map-append}
use mathlib.Core.List.Perm
use mathlib.Core.Path.{ap₂}
use container_hackathon.Prelude.{ℕ, zero, suc, ◌+◌, ◌-◌, ◌<◌, ◌≤◌, ◌≡◌, refl, ap, sym, ◌∙◌, arith}
use container_hackathon.Prelude.{
  Option, none, some, List, [], ◌∷◌, ◌++◌, map, length, length-map, ok,
}
use container_hackathon.Prelude.Text.{Text, join}
use container_hackathon.PyStager.Distributor.{semicolon}
use container_hackathon.Prelude.Dict.{lookup}
use container_hackathon.Files.{World}
use container_hackathon.PyStager.System.{System}
use container_hackathon.PyStager.Parameters.{Settings}
use container_hackathon.PyStager.Distributor.Jobs.{IsDistribution, job_text, share, pred_suc}
use container_hackathon.PyStager.Distributor.Assignment.{
  IsClean, jobs_at, read_jobs, all_jobs, jobs_at-share, all_jobs-perm, vacant, total-messages,
}
use container_hackathon.PyStager.Worker.{Message, idle, finished, Turn, job_list, slave}
use container_hackathon.PyStager.Worker.Replies.{IsLevel, command, slave-replies}
use container_hackathon.PyStager.Protocol.{done, Net, Run, Reach}
use container_hackathon.PyStager.Protocol.Sums.{total}
use container_hackathon.PyStager.Protocol.Invariant.{expected, IsBalanced}
use container_hackathon.PyStager.Protocol.Log.{gather, due, due_for, length-due, done-logged}
use container_hackathon.PyStager.Master.{Plan, run_of}

total-cong : (k : ℕ) (f g : ℕ → ℕ) → ((w : ℕ) → 0 < w → w ≤ k → f w ≡ g w) → total k f ≡ total k g
unfolding total
total-cong zero f g h = refl
total-cong (suc k) f g h =
    rw (total-cong k f g (λ w pos le. h w pos (omega arith)), h (suc k) (omega arith) (omega arith))

-- The commands that messages report.
command_of : Message → Option Text
command_of (idle rank) = none
command_of (finished rank rsync_str) = some rsync_str

pub commands : List Message → List Text
commands = filter_map command_of

commands-perm : {xs ys : List Message} → Perm xs ys → Perm (commands xs) (commands ys)
unfolding commands
commands-perm p = Perm.filter_map command_of p

commands-append : (xs ys : List Message) → commands (xs ++ ys) ≡ commands xs ++ commands ys
unfolding commands
commands-append xs ys = filter_map-append command_of xs ys

commands-finished :
    (w : ℕ) (f : Text → Text) (jobs : List Text)
    → commands (map (λ job. finished w (f job)) jobs) ≡ map f jobs
unfolding commands command_of filter_map
commands-finished w f [] = refl
commands-finished w f (job ∷ jobs) = ap (λ rest. f job ∷ rest) (commands-finished w f jobs)

module _ (sys : System) (settings : Settings) (current_path : Text) (worlds : ℕ → World) where
  -- Every slave ends all the jobs of its share.
  abbrev pub AllEnd : ℕ → List Text → Type 0
  AllEnd k items =
      (w : ℕ)
      → 0 < w
      → w ≤ k
      → (t : Turn) × ((slave sys settings current_path w (job_text (share k w items)) (worlds w)).1
          ≡ ok t)

  -- The messages of slave `w` with the jobs `xs`.
  pub replies : ℕ → List Text → List Message
  replies w [] = idle w ∷ []
  replies w (x ∷ xs) = map (λ job. finished w (command sys settings current_path job)) (x ∷ xs)

  length-replies : (w : ℕ) (xs : List Text) → length (replies w xs) ≡ length xs + vacant (length xs)
  unfolding replies
  length-replies w [] = refl
  length-replies w (x ∷ xs) =
      ground (arith, length-map xs (λ job. finished w (command sys settings current_path job)))

  commands-replies :
      (w : ℕ) (xs : List Text)
      → commands (replies w xs) ≡ map (command sys settings current_path) xs
  unfolding replies commands command_of filter_map
  commands-replies w [] = refl
  commands-replies w (x ∷ xs) = commands-finished w (command sys settings current_path) (x ∷ xs)

  module _ (k : ℕ) (plan : Plan) (many : 0 < k) (level : IsLevel sys settings current_path)
      (given : IsDistribution k plan.scan.list_items_to_process plan.transfer_dict)
      (clean : IsClean plan.scan.list_items_to_process)
      (ends : AllEnd k plan.scan.list_items_to_process) where
    abbrev r : Run
    r = run_of sys settings (suc k) current_path worlds plan

    items : List Text
    items = plan.scan.list_items_to_process

    -- A slave sends one message for each job, or one that it is idle.
    reply-share :
        (w : ℕ) (xs : List Text) (t : Turn)
        → job_list (job_text xs) ≡ xs
        → (slave sys settings current_path w (job_text xs) (worlds w)).1 ≡ ok t
        → (slave sys settings current_path w (job_text xs) (worlds w)).0 ≡ replies w xs
    unfolding replies
    reply-share w [] t read ended = unfold slave in refl
    reply-share w (x ∷ xs) t read ended =
        slave-replies sys settings current_path w (join semicolon (x ∷ xs)) (worlds w) t level ended
        ∙ ap (map (λ job. finished w (command sys settings current_path job))) read

    read_share : (w : ℕ) → 0 < w → w ≤ k → job_list (job_text (share k w items)) ≡ share k w items
    unfolding items
    read_share w pos le =
        ap read_jobs (sym (given w pos le))
        ∙ jobs_at-share k w items plan.transfer_dict given clean pos le

    due-replies : (w : ℕ) → 0 < w → w ≤ k → due r w ≡ replies w (share k w items)
    unfolding items
    due-replies w pos le =
        ap (due_for r w) (given w pos le)
        ∙ reply-share w (share k w items) (ends w pos le).0 (read_share w pos le) (ends w pos le).1

    staging-balanced : total k (expected r) ≡ length items + (k - length items)
    unfolding items
    staging-balanced =
        total-cong k (expected r)
          (λ w. length (share k w items) + vacant (length (share k w items)))
          (λ w pos le.
            sym (length-due r w (lookup w plan.transfer_dict))
            ∙ ap length (due-replies w pos le)
            ∙ length-replies w (share k w items))
        ∙ total-messages k items many

    -- With a slave, load level 0 or 1, the share of the items for each slave in the dictionary, no
    -- semicolon in an item, and slaves that end all their jobs: in the network of the
    -- plan every slave is sent something, and the slaves have as many messages as the master waits for.
    pub staging-IsBalanced : IsBalanced r
    unfolding items
    staging-IsBalanced = record {
      keyed = λ w pos lt. (_, given w pos (omega arith));
      balanced = rw pred_suc (omega (arith, staging-balanced));
    }

    commands-gather :
        (m : ℕ)
        → m ≤ k
        → commands (gather m (due r))
          ≡ map (command sys settings current_path) (all_jobs m plan.transfer_dict)
    unfolding items gather all_jobs
    commands-gather zero le = unfold commands filter_map in refl
    commands-gather (suc m) le =
        commands-append (gather m (due r)) (due r (suc m))
        ∙ ap₂ ◌++◌ (commands-gather m (omega arith)) (
            ap commands (due-replies (suc m) (omega arith) le)
            ∙ commands-replies (suc m) (share k (suc m) items)
            ∙ ap (map (command sys settings current_path)) (
                sym
                  (jobs_at-share k (suc m) items plan.transfer_dict given clean (omega arith) le)))
        ∙ sym (
            map-append (command sys settings current_path) (all_jobs m plan.transfer_dict)
              (jobs_at plan.transfer_dict (suc m)))

    -- With a slave, load level 0 or 1, the share of the items for each slave in the dictionary, no
    -- semicolon in an item, and slaves that end all their jobs: in whatever order the
    -- slaves work, when the master is done it has logged the command of each item, each one once.
    pub staged :
        {s : Net}
        → Reach r s
        → s.phase ≡ done
        → Perm
            (commands s.log)
            (map (command sys settings current_path) plan.scan.list_items_to_process)
    unfolding items
    staged {s} reach at =
        Perm.trans (commands-perm (rw pred_suc at (done-logged r staging-IsBalanced reach at))) (
          rw (commands-gather k (omega arith)) (
            Perm.map (command sys settings current_path)
              (all_jobs-perm k items plan.transfer_dict many given clean)))
