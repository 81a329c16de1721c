-- ===== src/Files.antt =====
-- The directory tree under the programs, and the calls of Python's `os` and `open` on it.
-- There are no links, no permissions and no `..`: a path is read component by component.
pub mod Edit
pub mod Written
pub mod Entry
use container_hackathon.Prelude.{ℕ, zero, suc, ◌≡◌, Bool, true, false, Option, none, some, not}
use container_hackathon.Prelude.{List, [], ◌∷◌, ◌++◌, ◌==◌, if◌then◌else◌}
use container_hackathon.Prelude.{Error, os_error, Result, ok, raise, ◌>>=◌, or_raise}
use container_hackathon.Prelude.Text.{Text, codes, text_eq, split_on}

-- A file holds its bytes. The entries of a directory stand in the order in which the system lists
-- them.
mutual
  pub data Node : Type 0 where
    file : Text → Node
    dir : Entries → Node

  pub data Entries : Type 0 where
    end : Entries
    entry : Text → Node → Entries → Entries

-- What one process sees: the tree, and its own working directory.
pub record World : Type 0 where
  pub root : Node
  pub cwd : List Text

abbrev pub slash : ℕ
slash = b'/'

abbrev pub find_entry : Text → Entries → Option Node
find_entry name end = none
find_entry name (entry n node es) = if text_eq name n then some node else find_entry name es

abbrev pub enter : Text → Node → Option Node
enter name (file bytes) = none
enter name (dir es) = find_entry name es

abbrev pub find : List Text → Node → Option Node
find [] node = some node
find (name ∷ names) node = elim (enter name node) [ none ↦ none | some child ↦ find names child ]

-- The parts of a path that name something: the empty one and `.` lead nowhere else.
abbrev pub drop_empty : List Text → List Text
drop_empty [] = []
drop_empty ([] ∷ ws) = drop_empty ws
drop_empty ((c ∷ w) ∷ ws) =
    let rest = drop_empty ws in if text_eq (c ∷ w) (codes ".") then rest else (c ∷ w) ∷ rest

abbrev pub components : Text → List Text
components path = drop_empty (split_on slash path)

-- Where a path leads: from the root if it begins with a slash, else from the working directory.
abbrev pub locate : World → Text → List Text
locate w [] = w.cwd
locate w (c ∷ s) = if c == slash then components (c ∷ s) else w.cwd ++ components (c ∷ s)

abbrev pub node_at : World → Text → Option Node
node_at w [] = none
node_at w (c ∷ s) = find (locate w (c ∷ s)) w.root

-- `os.path.exists`
abbrev pub exists : World → Text → Bool
exists w path = elim (node_at w path) [ none ↦ false | some node ↦ true ]

abbrev pub is_dir_node : Node → Bool
is_dir_node (file bytes) = false
is_dir_node (dir es) = true

-- `os.path.isdir`
abbrev pub is_dir : World → Text → Bool
is_dir w path = elim (node_at w path) [ none ↦ false | some node ↦ is_dir_node node ]

abbrev pub entry_names : Entries → List Text
entry_names end = []
entry_names (entry n node es) = n ∷ entry_names es

-- `os.path.isfile`
abbrev pub is_file : World → Text → Bool
is_file w path = elim (node_at w path) [ none ↦ false | some node ↦ not (is_dir_node node) ]

-- `os.listdir`
abbrev pub list_dir : World → Text → Result (List Text)
list_dir w path = elim (node_at w path) [
  | none ↦ raise os_error
  | some node ↦ elim node [ file bytes ↦ raise os_error | dir es ↦ ok (entry_names es) ]
]

abbrev pub dir_names : Entries → List Text
dir_names end = []
dir_names (entry n node es) = if is_dir_node node then n ∷ dir_names es else dir_names es

abbrev pub file_names : Entries → List Text
file_names end = []
file_names (entry n node es) = if is_dir_node node then file_names es else n ∷ file_names es

-- What `os.walk` yields at a directory, without its path.
pub record Visit : Type 0 where
  pub dirnames : List Text
  pub filenames : List Text

-- `os.walk`, top down; of what is no directory it yields nothing.
unfoldable mutual
  pub walk_node : Node → List Visit
  walk_node (file bytes) = []
  walk_node (dir es) =
      record { dirnames = dir_names es; filenames = file_names es } ∷ walk_entries es

  pub walk_entries : Entries → List Visit
  walk_entries end = []
  walk_entries (entry n node es) = walk_node node ++ walk_entries es

abbrev pub walk : World → Text → List Visit
walk w path = elim (node_at w path) [ none ↦ [] | some node ↦ walk_node node ]

-- `os.walk` with `topdown=False`: a directory comes after all that is below it.
unfoldable mutual
  pub walk_up_node : Node → List Visit
  walk_up_node (file bytes) = []
  walk_up_node (dir es) =
      walk_up_entries es ++ (record { dirnames = dir_names es; filenames = file_names es } ∷ [])

  pub walk_up_entries : Entries → List Visit
  walk_up_entries end = []
  walk_up_entries (entry n node es) = walk_up_node node ++ walk_up_entries es

abbrev pub walk_up : World → Text → List Visit
walk_up w path = elim (node_at w path) [ none ↦ [] | some node ↦ walk_up_node node ]

abbrev pub ends_with_slash : Text → Bool
ends_with_slash [] = false
ends_with_slash (c ∷ []) = c == slash
ends_with_slash (c ∷ d ∷ s) = ends_with_slash (d ∷ s)

-- `os.path.join(path, name)`
abbrev pub join_path : Text → Text → Text
join_path path [] = if ends_with_slash path then path else path ++ (slash ∷ [])
join_path [] (c ∷ name) = c ∷ name
join_path (d ∷ path) (c ∷ name) =
    if c == slash
    then c ∷ name
    else if ends_with_slash (d ∷ path)
    then (d ∷ path) ++ (c ∷ name)
    else (d ∷ path) ++ (slash ∷ c ∷ name)

-- `open(path, "rb")` and reading to the end
abbrev pub read_file : World → Text → Result Text
read_file w path = elim (node_at w path) [
  | none ↦ raise os_error
  | some node ↦ elim node [ file bytes ↦ ok bytes | dir es ↦ raise os_error ]
]

-- `os.chdir`
abbrev pub chdir : Text → World → Result World
chdir path w = if is_dir w path then ok (record w { cwd = locate w path }) else raise os_error
