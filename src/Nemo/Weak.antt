-- ===== src/Nemo/Weak.antt =====
-- NEMO/report/weak_scaling.ipynb.
use container_hackathon.Prelude.{List, [], ◌∷◌, Result, for_each}
use container_hackathon.Prelude.Text.{codes}
use container_hackathon.Nemo.{timed, data_frame, Frame, Figure, bar}

abbrev pub gyre_growing : Frame
gyre_growing = data_frame (
    timed "0006c" "36.5163" "native" 10 50
    ∷ timed "0024c" "58.5121" "native" 20 50
    ∷ timed "0096c" "58.6638" "native" 40 50
    ∷ timed "0384c" "59.1005" "native" 80 50
    ∷ timed "1536c" "59.1541" "native" 160 50
    ∷ timed "0006c" "38.896" "sarus" 10 50
    ∷ timed "0024c" "58.357" "sarus" 20 50
    ∷ timed "0096c" "62.745" "sarus" 40 50
    ∷ timed "0384c" "59.120" "sarus" 80 50
    ∷ timed "1536c" "60.749" "sarus" 160 50
    ∷ [])

abbrev pub gyre_growing_chart : Result Figure
gyre_growing_chart =
    bar gyre_growing (codes "elapsed")
      (codes "NEMO/PizDaint: Weak scaling (GYRE=10-160 i/o: 50 steps, seconds)")

-- The notebook: its charts.
abbrev pub weak_scaling : Result (List Figure)
weak_scaling = for_each (λ chart. chart) (gyre_growing_chart ∷ [])
