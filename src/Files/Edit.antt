-- ===== src/Files/Edit.antt =====
-- Writing and removing files.
use container_hackathon.Prelude.{true, false, Option, none, some, List, [], ◌∷◌}
use container_hackathon.Prelude.{if◌then◌else◌, os_error, Result, ok, raise}
use container_hackathon.Prelude.Text.{Text, text_eq}
use container_hackathon.Files.{
  Node, file, dir, Entries, end, entry, World, find_entry, locate, is_file, exists,
}

abbrev pub set_entry : Text → Node → Entries → Entries
set_entry name node end = entry name node end
set_entry name node (entry n old es) =
    if text_eq name n then entry n node es else entry n old (set_entry name node es)

abbrev pub drop_entry : Text → Entries → Entries
drop_entry name end = end
drop_entry name (entry n old es) = if text_eq name n then es else entry n old (drop_entry name es)

-- The change of the entry `name`, which is a file or not there, by `f`.
abbrev pub edit_here : (Text → Entries → Entries) → Text → Node → Option Node
edit_here f name (file bytes) = none
edit_here f name (dir es) = elim (find_entry name es) [
  | none ↦ some (dir (f name es))
  | some old ↦ elim old [ file bytes ↦ some (dir (f name es)) | dir sub ↦ none ]
]

abbrev pub put_back : Text → Node → Option Node → Option Node
put_back name (file bytes) child = none
put_back name (dir es) child = elim child [
  | none ↦ none
  | some node ↦ some (dir (set_entry name node es))
]

abbrev pub child_of : Text → Node → Option Node
child_of name (file bytes) = none
child_of name (dir es) = find_entry name es

abbrev pub edit : (Text → Entries → Entries) → List Text → Node → Option Node
edit f [] node = none
edit f (name ∷ []) node = edit_here f name node
edit f (name ∷ next ∷ names) node = elim (child_of name node) [
  | none ↦ none
  | some child ↦ put_back name node (edit f (next ∷ names) child)
]

abbrev pub edited : (Text → Entries → Entries) → Text → World → Result World
edited f path w = elim (edit f (locate w path) w.root) [
  | none ↦ raise os_error
  | some node ↦ ok (record w { root = node })
]

abbrev pub writing : Text → Text → Entries → Entries
writing bytes name es = set_entry name (file bytes) es

-- `open(path, "w")` and writing `bytes`: the file is created, or its old bytes are gone.
abbrev pub write_file : Text → Text → World → Result World
write_file path bytes = edited (writing bytes) path

-- `os.mkdir`
abbrev pub make_directory : Text → World → Result World
make_directory path w =
    if exists w path then raise os_error else edited (λ name es. set_entry name (dir end) es) path w

-- `if not os.path.exists(path): os.mkdir(path)`
unfoldable pub ensure_directory : Text → World → Result World
ensure_directory path w = if exists w path then ok w else make_directory path w

-- `os.remove`
abbrev pub remove : Text → World → Result World
remove path w = elim (is_file w path) [
  | true ↦ edited (λ name es. drop_entry name es) path w
  | false ↦ raise os_error
]
