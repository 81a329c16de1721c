-- ===== src/Nemo/Strong.antt =====
-- NEMO/report/strong_scaling.ipynb.
use container_hackathon.Prelude.{List, [], ◌∷◌, Result, for_each}
use container_hackathon.Prelude.Text.{codes}
use container_hackathon.Nemo.{timed, measured, sized, data_frame, Frame, Figure, bar}

abbrev pub gyre_40 : Frame
gyre_40 = data_frame (
    timed "0006c" "662.75" "native" 40 50
    ∷ timed "0012c" "553.798" "native" 40 50
    ∷ timed "0024c" "268.994" "native" 40 50
    ∷ timed "0096c" "58.9833" "native" 40 50
    ∷ timed "0384c" "14.918" "native" 40 50
    ∷ timed "1536c" "3.30672" "native" 40 50
    ∷ timed "0012c" "563.710" "sarus" 40 50
    ∷ timed "0024c" "272.303" "sarus" 40 50
    ∷ timed "0096c" "58.749" "sarus" 40 50
    ∷ timed "0384c" "14.811" "sarus" 40 50
    ∷ timed "1536c" "3.192" "sarus" 40 50
    ∷ [])

abbrev pub gyre_40_chart : Result Figure
gyre_40_chart =
    bar gyre_40 (codes "elapsed")
      (codes "NEMO/PizDaint: Strong scaling (G=40, no i/o: 50 steps, seconds)")

abbrev pub gyre_80 : Frame
gyre_80 = data_frame (
    timed "0096c" "268.643" "native" 80 50
    ∷ timed "0384c" "59.5919" "native" 80 50
    ∷ timed "1536c" "15.5517" "native" 80 50
    ∷ timed "0096c" "269.392" "sarus" 80 50
    ∷ timed "0384c" "58.857" "sarus" 80 50
    ∷ timed "1536c" "15.050" "sarus" 80 50
    ∷ [])

abbrev pub gyre_80_chart : Result Figure
gyre_80_chart =
    bar gyre_80 (codes "elapsed")
      (codes "NEMO/PizDaint: Strong scaling (G=80, no I/O: 50 steps, seconds)")

abbrev pub orca2 : Frame
orca2 = data_frame (
    measured "elapsed" "0006c" "223.852" "native" 80
    ∷ measured "elapsed" "0012c" "146.570" "native" 80
    ∷ measured "elapsed" "0024c" "88.355" "native" 80
    ∷ measured "elapsed" "0036c" "70.301" "native" 80
    ∷ measured "elapsed" "0006c" "194.198" "sarus" 80
    ∷ measured "elapsed" "0012c" "129.084" "sarus" 80
    ∷ measured "elapsed" "0024c" "73.292" "sarus" 80
    ∷ measured "elapsed" "0036c" "56.571" "sarus" 80
    ∷ [])

abbrev pub orca2_chart : Result Figure
orca2_chart =
    bar orca2 (codes "elapsed")
      (codes "NEMO/PizDaint: Strong scaling (ORCA2: w/ IO, 80 steps, seconds)")

abbrev pub orca2_mpi : Frame
orca2_mpi = data_frame (
    measured "percentage" "0006c" "8.2" "native" 80
    ∷ measured "percentage" "0012c" "10.5" "native" 80
    ∷ measured "percentage" "0024c" "18.4" "native" 80
    ∷ measured "percentage" "0036c" "19.2" "native" 80
    ∷ measured "percentage" "0006c" "7.8" "sarus" 80
    ∷ measured "percentage" "0012c" "10.1" "sarus" 80
    ∷ measured "percentage" "0024c" "15.7" "sarus" 80
    ∷ measured "percentage" "0036c" "18.8" "sarus" 80
    ∷ [])

abbrev pub orca2_mpi_chart : Result Figure
orca2_mpi_chart =
    bar orca2_mpi (codes "percentage")
      (codes "NEMO/PizDaint: MPI ratio (ORCA2: w/ IO, 80 steps, percentage)")

abbrev pub orca2_memory : Frame
orca2_memory = data_frame (
    sized "0006c" "native" 80 787228672
    ∷ sized "0012c" "native" 80 464989184
    ∷ sized "0024c" "native" 80 320162816
    ∷ sized "0036c" "native" 80 263636992
    ∷ sized "0006c" "sarus" 80 871025664
    ∷ sized "0012c" "sarus" 80 530171904
    ∷ sized "0024c" "sarus" 80 364604416
    ∷ sized "0036c" "sarus" 80 332132352
    ∷ [])

abbrev pub orca2_memory_chart : Result Figure
orca2_memory_chart =
    bar orca2_memory (codes "memory")
      (codes "NEMO/PizDaint: Memory footprint (ORCA2: w/ IO, 80 steps, MB)")

-- The notebook: its charts.
abbrev pub strong_scaling : Result (List Figure)
strong_scaling =
    for_each (λ chart. chart)
      (gyre_40_chart ∷ gyre_80_chart ∷ orca2_chart ∷ orca2_mpi_chart ∷ orca2_memory_chart ∷ [])
