-- ===== src/PyStager/Samples/Network.antt =====
-- The theorems on the network of PyStager at a small run.
use container_hackathon.Prelude.{◌+◌, ◌-◌, ◌≤◌, ◌≡◌, ◌≢◌, refl, inl, arith}
use container_hackathon.Prelude.{ℕ_discrete, [], ◌∷◌, map}
use container_hackathon.Prelude.Text.{codes}
use mathlib.Core.List.{Perm}
use container_hackathon.PyStager.Worker.{slave, run_jobs, run_job, directory_job, file_job}
use container_hackathon.PyStager.Protocol.{
  Net, Run, Reach, here, next, send, sent_all, idle_over, hear_job, finish, receive, emit, done,
}
use container_hackathon.PyStager.Protocol.{start, Step}
use container_hackathon.PyStager.Protocol.Sums.{total}
use container_hackathon.PyStager.Protocol.Invariant.{IsBalanced, expected}
use container_hackathon.PyStager.Protocol.Progress.{no_deadlock, steps, steps-bounded}
use container_hackathon.PyStager.Protocol.Log.{gather, due, done-logged}
use container_hackathon.PyStager.Worker.Replies.{command}
use container_hackathon.PyStager.Master.{run_of}
use container_hackathon.PyStager.Master.Staging.{staging-IsBalanced, staged, commands}
use container_hackathon.PyStager.Protocol.Log.Delivery.{of_list, Deliveries, view, delivers}
use container_hackathon.PyStager.Samples.{quiet, disk, settings, plan, given, clean, ends}

abbrev net : Run
net = run_of quiet settings 3 (codes "/") (λ w. disk) plan

net-IsBalanced : IsBalanced net
net-IsBalanced =
    staging-IsBalanced quiet settings (codes "/") (λ w. disk) 2 plan (omega arith) (inl refl) given
      clean ends

-- A run in which slave 2 works while the master still sends, and slave 1 answers last.
finished_run : (s : Net) × Reach net s × (s.phase ≡ done)
unfolding slave run_jobs run_job directory_job file_job ℕ_discrete
finished_run = (
  _,
  next
      (next
        (next
          (next
            (next
              (next
                (next
                  (next
                    (next
                      (next (next here (send refl (omega arith) refl))
                        (send refl (omega arith) refl))
                      (receive {w = 2} (omega arith) (omega arith) refl))
                    (emit {w = 2} (omega arith) (omega arith) refl))
                  (sent_all refl (omega arith)))
                (idle_over refl (omega arith)))
              (hear_job [] [] _ refl (omega arith) refl))
            (receive {w = 1} (omega arith) (omega arith) refl))
          (emit {w = 1} (omega arith) (omega arith) refl))
        (hear_job [] [] _ refl (omega arith) refl))
      (finish refl (omega arith)),
  refl,
)

staged_example :
    Perm
      (commands finished_run.0.log)
      (map (command quiet settings (codes "/")) (codes "a" ∷ codes "b" ∷ []))
staged_example =
    staged quiet settings (codes "/") (λ w. disk) 2 plan (omega arith) (inl refl) given clean ends
      finished_run.1 finished_run.2

done-logged_example : Perm finished_run.0.log (gather 2 (due net))
done-logged_example = done-logged net net-IsBalanced finished_run.1 finished_run.2

not_done : start.phase ≢ done
not_done e = cc

no_deadlock_example : (t : Net) × Step net start t
no_deadlock_example = no_deadlock net net-IsBalanced here not_done

steps-bounded_example :
    steps net finished_run.1 ≤ total 2 (λ w. expected net w + 1) + 2 + (3 - 2) + 2 + 4
steps-bounded_example = steps-bounded net finished_run.1 net-IsBalanced

delivers_example :
    Deliveries
      (record { outstanding = of_list (gather 2 (due net)); logged = of_list [] })
      (view net finished_run.0)
    × (finished_run.0.phase ≡ done
        → view net finished_run.0
          ≡ record { outstanding = of_list []; logged = of_list (gather 2 (due net)) })
delivers_example = delivers net net-IsBalanced finished_run.1
