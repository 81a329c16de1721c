-- ===== src/PyStager/Samples/Built.antt =====
-- The directories of two items at a destination.
use container_hackathon.Prelude.{◌≡◌, refl, ap, ◌||◌, [], ◌∷◌, drop, ok, raise, some}
use native.Mathlib.Omega.{arith}
use container_hackathon.Prelude.Int.{pos}
use container_hackathon.Prelude.Text.{Text, codes}
use container_hackathon.Files.{Node, file, dir, Entries, end, entry, World, find}
use container_hackathon.Files.Edit.{make_directory}
use container_hackathon.PyStager.System.{System}
use container_hackathon.PyStager.Parameters.{Settings}
use container_hackathon.PyStager.Scanner.{
  directory_scanner, scan_directory, scan_directories, count_files, sort, insert_sorted,
}
use container_hackathon.PyStager.Distributor.{load_distributor, assign_all}
use container_hackathon.PyStager.Master.{Plan, prepare}
use container_hackathon.PyStager.Master.Built.{prepare-built}
use container_hackathon.PyStager.Samples.{settings, plan}
use container_hackathon.PyStager.Structure.{data_structure_builder, build_dirs, build_dir}
use container_hackathon.Files.Entry.{has_entry}
use container_hackathon.PyStager.Structure.Built.{IsItem, is_among, data_structure_builder_lem}

-- A system whose shell runs `mkdir` on whatever follows the first six characters of a command.
abbrev run_mkdir : Text → World → World
run_mkdir command w = elim (make_directory (drop 6 command) w) [ ok made ↦ made | raise e ↦ w ]

abbrev making : System
making = record {
  du = λ w path. codes "4 path";
  directory_size = λ es. 4096;
  shell = run_mkdir;
  md5_hex = λ bytes. bytes;
}

abbrev held : Entries
held = entry (codes "a") (dir end) end

abbrev before : World
before = record { root = dir (entry (codes "rec") (dir held) end); cwd = [] }

a-IsItem : IsItem making (codes "/rec/") (codes "a")
a-IsItem = record {
  below = λ w. refl;
  seen = λ w. refl;
  tested = λ w. refl;
  makes = λ w made h. ap (λ r. elim r as (λ x. World) [ ok v ↦ v | raise e ↦ w ]) h;
}

b-IsItem : IsItem making (codes "/rec/") (codes "b")
b-IsItem = record {
  below = λ w. refl;
  seen = λ w. refl;
  tested = λ w. refl;
  makes = λ w made h. ap (λ r. elim r as (λ x. World) [ ok v ↦ v | raise e ↦ w ]) h;
}

data_structure_builder_lem_example :
    (w' : World) × (es' : Entries) × (data_structure_builder making
        (codes "/rec/")
        (codes "a" ∷ codes "b" ∷ [])
        (pos 0)
        before
      ≡ ok w')
    × (w'.cwd ≡ codes "rec" ∷ [])
    × (find (codes "rec" ∷ []) w'.root ≡ some (dir es'))
    × ((n : Text) → has_entry n es' ≡ (is_among n (codes "a" ∷ codes "b" ∷ []) || has_entry n held))
data_structure_builder_lem_example =
    data_structure_builder_lem making (codes "/rec/") (codes "rec" ∷ []) (λ w. refl)
      (codes "a" ∷ codes "b" ∷ []) held before (a-IsItem, (b-IsItem, tt)) refl

abbrev with_slash : Settings
with_slash = record settings { destination_dir = codes "/rec/" }

-- The source of two directories, and one of them at the destination.
abbrev source : Node
source = dir (
    entry (codes "b") (dir (entry (codes "f") (file (codes "xy")) end))
      (entry (codes "a") (dir end) end))

abbrev begun : World
begun = record {
  root = dir (entry (codes "src") source (entry (codes "rec") (dir held) end));
  cwd = [];
}

abbrev built : World
built = record {
  root = dir (
      entry (codes "src") source (
        entry (codes "rec") (dir (entry (codes "a") (dir end) (entry (codes "b") (dir end) end)))
          end));
  cwd = codes "rec" ∷ [];
}

abbrev plan_built : Plan
plan_built = record plan { world = built }

prepared_built : prepare making with_slash 3 begun ≡ ok plan_built
unfolding prepare directory_scanner scan_directory scan_directories count_files sort insert_sorted
    data_structure_builder build_dirs build_dir load_distributor assign_all
prepared_built = refl

prepare-built_example :
    (es' : Entries) × (built.cwd ≡ codes "rec" ∷ [])
    × (find (codes "rec" ∷ []) built.root ≡ some (dir es'))
    × ((n : Text) → has_entry n es' ≡ (is_among n (codes "b" ∷ codes "a" ∷ []) || has_entry n held))
prepare-built_example =
    prepare-built making with_slash 2 begun (codes "b" ∷ codes "a" ∷ []) plan_built
      (codes "rec" ∷ []) held (omega arith) refl refl prepared_built (λ v. refl) refl
      (a-IsItem, (b-IsItem, tt))
