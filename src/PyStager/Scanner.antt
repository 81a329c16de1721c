-- ===== src/PyStager/Scanner.antt =====
-- `directory_scanner` of wfppdl/PyStager/external_function.py: what there is to stage.
pub mod Order
pub mod Directories
use container_hackathon.Prelude.{ℕ, zero, suc, ◌+◌, Bool, true, false, Option, none, some}
use container_hackathon.Prelude.{
  List, [], ◌∷◌, ◌++◌, ◌==◌, ltb, ◌||◌, ◌&&◌, if◌then◌else◌, length, get_elem?,
}
use container_hackathon.Prelude.{os_error, index_error, value_error, name_error}
use container_hackathon.Prelude.{Result, ok, raise, ◌>>=◌, or_raise}
use container_hackathon.Prelude.Int.{ℤ, pos, ◌+ℤ◌, int_eq}
use container_hackathon.Prelude.Text.{Text, words, parse_int}
use mathlib.Core.List.{head?}
use container_hackathon.Files.{
  World, Node, file, dir, Visit, walk, list_dir, is_dir, is_file, node_at, join_path,
}
use container_hackathon.PyStager.System.{System}

-- An item of `dir_detail_list`: the name of a directory, the size that `du` prints, the number of
-- its files.
pub data Detail : Type 0 where
  name : Text → Detail
  size : Text → Detail
  num_files : ℕ → Detail

-- The five values that `directory_scanner` returns. `total_size_source` is the sum of the sizes,
-- before it is divided by 1000000 and made a float.
pub record Scan : Type 0 where
  pub dir_detail_list : List Detail
  pub list_items_to_process : List Text
  pub total_size_source : ℤ
  pub total_num_files : ℕ
  pub total_num_directories : ℕ

-- `s <= t`, by code points
abbrev pub text_leb : Text → Text → Bool
text_leb [] t = true
text_leb (c ∷ s) [] = false
text_leb (c ∷ s) (d ∷ t) = ltb c d || (c == d && text_leb s t)

unfoldable pub insert_sorted : Text → List Text → List Text
insert_sorted x [] = x ∷ []
insert_sorted x (y ∷ ys) =
    let rest = insert_sorted x ys in if text_leb x y then x ∷ y ∷ ys else y ∷ rest

-- `list.sort()`
unfoldable pub sort : List Text → List Text
unfolding insert_sorted
sort [] = []
sort (x ∷ xs) = insert_sorted x (sort xs)

-- `len([f for f in os.listdir(path) if os.path.isfile(os.path.join(path, f))])`
unfoldable pub count_files : World → Text → List Text → ℕ
count_files w path [] = 0
count_files w path (f ∷ fs) =
    (if is_file w (join_path path f) then 1 else 0) + count_files w path fs

module _ (sys : System) (w : World) (source_path : Text) where
  -- One round of the loop over the entries of the source, at load level 0.
  unfoldable pub scan_directory : Text → Scan → Result Scan
  unfolding sort count_files
  scan_directory d s =
      let path = source_path ++ d in
      if is_dir w path
      then (do
        printed ← or_raise (head? (words (sys.du w path))) index_error
        listed ← list_dir w path
        bytes ← or_raise (parse_int printed) value_error
        ok (record s {
          list_items_to_process = sort (s.list_items_to_process ++ (d ∷ []));
          dir_detail_list =
              s.dir_detail_list
              ++ (name d ∷ size printed ∷ num_files (count_files w path listed) ∷ []);
          total_num_files = s.total_num_files + count_files w path listed;
          total_size_source = s.total_size_source +ℤ bytes;
        }))
      else ok s

  unfoldable pub scan_directories : List Text → Scan → Result Scan
  unfolding scan_directory
  scan_directories [] s = ok s
  scan_directories (d ∷ ds) s = do s' ← scan_directory d s; scan_directories ds s'

  -- `os.stat(path).st_size`
  abbrev pub stat_size : Text → Result ℕ
  stat_size path = elim (node_at w path) [
    | none ↦ raise os_error
    | some node ↦ elim node [ file bytes ↦ ok (length bytes) | dir es ↦ ok (sys.directory_size es) ]
  ]

  -- The loop over the files, at load level 1.
  unfoldable pub sum_sizes : List Text → ℕ → Result ℕ
  sum_sizes [] total = ok total
  sum_sizes (f ∷ fs) total = do bytes ← stat_size (source_path ++ f); sum_sizes fs (total + bytes)

  -- The file names of every directory that the walk visits.
  unfoldable pub walked_files : List Visit → List Text
  walked_files [] = []
  walked_files (v ∷ vs) = v.filenames ++ walked_files vs

  abbrev pub nothing_scanned : ℕ → Scan
  nothing_scanned directories = record {
    dir_detail_list = [];
    list_items_to_process = [];
    total_size_source = pos 0;
    total_num_files = 0;
    total_num_directories = directories;
  }

  -- At another load level the number of directories is never set, and its use raises an error.
  unfoldable pub directory_scanner : ℤ → Result Scan
  unfolding scan_directories sum_sizes walked_files
  directory_scanner load_level =
      if int_eq load_level 1
      then (do
        let items = walked_files (walk w source_path)
        bytes ← sum_sizes items 0
        ok (record (nothing_scanned 0) {
          list_items_to_process = items;
          total_size_source = pos bytes;
          total_num_files = length items;
        }))
      else if int_eq load_level 0
      then (do
        list_directories ← list_dir w source_path
        scan_directories list_directories (nothing_scanned (length list_directories)))
      else raise name_error
