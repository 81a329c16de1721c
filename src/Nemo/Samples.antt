-- ===== src/Nemo/Samples.antt =====
-- The charts of NEMO/report: all of them are made, with these columns and numbers of rows.
use container_hackathon.Prelude.{
  ◌≡◌, refl, ℕ, List, [], ◌∷◌, length, map, ok, Result, for_each, ◌>>=◌,
}
use container_hackathon.Prelude.Text.{codes}
use container_hackathon.Nemo.{Figure, bar}
use container_hackathon.Nemo.Strong.{strong_scaling, orca2_memory}
use container_hackathon.Nemo.Weak.{weak_scaling}

abbrev sizes : Result (List Figure) → Result (List ℕ)
sizes charts = charts >>= λ figures. ok (map (λ figure. length figure.frame.rows) figures)

strong_sizes : sizes strong_scaling ≡ ok (11 ∷ 6 ∷ 8 ∷ 8 ∷ 8 ∷ [])
unfolding bar for_each
strong_sizes = refl

weak_sizes : sizes weak_scaling ≡ ok (10 ∷ [])
unfolding bar for_each
weak_sizes = refl

memory_columns :
    orca2_memory.columns ≡ codes "mpi" ∷ codes "container" ∷ codes "steps" ∷ codes "memory" ∷ []
memory_columns = refl
