-- ===== src/PyStager/Structure.antt =====
-- `data_structure_builder` of wfppdl/PyStager/external_function.py.
pub mod Built
use container_hackathon.Prelude.{List, [], ◌∷◌, ◌++◌, if◌then◌else◌}
use container_hackathon.Prelude.{Result, ok, ◌>>=◌}
use container_hackathon.Prelude.Int.{ℤ, int_eq}
use container_hackathon.Prelude.Text.{Text, codes}
use container_hackathon.Files.{World, exists, chdir}
use container_hackathon.PyStager.System.{System}

module _ (sys : System) (destination_dir : Text) where
  -- `os.system("mkdir " + name)`
  abbrev pub make_dir : Text → World → World
  make_dir name = sys.shell (codes "mkdir " ++ name)

  -- One round of the loop; the test reads the item's path without a slash in between.
  unfoldable pub build_dir : Text → World → World
  build_dir dir_name w = if exists w (destination_dir ++ dir_name) then w else make_dir dir_name w

  unfoldable pub build_dirs : List Text → World → World
  unfolding build_dir
  build_dirs [] w = w
  build_dirs (d ∷ ds) w = build_dirs ds (build_dir d w)

  unfoldable pub data_structure_builder : List Text → ℤ → World → Result World
  unfolding build_dirs
  data_structure_builder list_items_to_process load_level w = do
    let w1 = if exists w destination_dir then w else make_dir destination_dir w
    w2 ← chdir destination_dir w1
    ok (if int_eq load_level 0 then build_dirs list_items_to_process w2 else w2)
