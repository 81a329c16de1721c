-- ===== src/PyStager/Hashing.antt =====
-- `hash_directory` and `md5` of wfppdl/PyStager/external_function.py.
pub mod Digests
use container_hackathon.Prelude.{
  ℕ, zero, suc, ◌+◌, Option, none, some, List, [], ◌∷◌, ◌++◌, take, drop, length,
}
use container_hackathon.Prelude.{if◌then◌else◌, name_error, Result, ok, ◌>>=◌, or_raise}
use container_hackathon.Prelude.Text.{Text, codes}
use container_hackathon.Files.{World, Visit, walk, chdir, read_file}
use container_hackathon.Files.Edit.{write_file}
use container_hackathon.PyStager.System.{System}

abbrev pub block_size : ℕ
block_size = 4096

-- `iter(lambda: f.read(4096), b"")`: what each read yields, up to the first that yields nothing.
unfoldable pub read_blocks : (rounds : ℕ) → Text → List Text
read_blocks zero bytes = []
read_blocks (suc rounds) [] = []
read_blocks (suc rounds) (c ∷ bytes) =
    take block_size (c ∷ bytes) ∷ read_blocks rounds (drop block_size (c ∷ bytes))

-- Every read but the last takes a byte, so there are enough rounds.
abbrev pub blocks : Text → List Text
blocks bytes = read_blocks (length bytes) bytes

-- A name such as `source_job_hashed.txt`.
abbrev pub hash_text_name : Text → Text → Text
hash_text_name input_status job_name =
    input_status ++ (codes "_" ++ (job_name ++ codes "_hashed.txt"))

-- The file names of the last directory of a walk: what the variable holds after the loop.
abbrev pub last_filenames : List Visit → List Text
last_filenames [] = []
last_filenames (v ∷ []) = v.filenames
last_filenames (v ∷ u ∷ vs) = last_filenames (u ∷ vs)

-- The bytes that the hash object has taken in, and `hashed_file`, unset before the first block.
pub record Hasher : Type 0 where
  pub taken : Text
  pub hashed_file : Option Text

abbrev pub new_hasher : Hasher
new_hasher = record { taken = []; hashed_file = none }

module _ (sys : System) where
  -- `md5_hash.update(byte_block)` and `hashed_file = md5_hash.hexdigest()`, for each block
  unfoldable pub update_all : List Text → Hasher → Hasher
  update_all [] h = h
  update_all (b ∷ bs) h =
      update_all bs
        (record { taken = h.taken ++ b; hashed_file = some (sys.md5_hex (h.taken ++ b)) })

  -- The loop over the files; `written` is what stands in the hash file by now.
  unfoldable pub hash_files : World → List Text → Hasher → Text → Result Text
  unfolding update_all read_blocks
  hash_files w [] h written = ok written
  hash_files w (f ∷ fs) h written = do
    bytes ← read_file w f
    let h' = update_all (blocks bytes) h
    hashed ← or_raise h'.hashed_file name_error
    hash_files w fs h' (written ++ hashed)

  -- The hash file is written when the function returns, where it was opened.
  unfoldable pub hash_directory :
      (source_path job_name hash_rep_file input_status : Text) → World → Result World
  unfolding hash_files
  hash_directory source_path job_name hash_rep_file input_status w = do
    at_repository ← chdir hash_rep_file w
    opened ← write_file (hash_text_name input_status job_name) [] at_repository
    let directory_to_process = source_path ++ job_name
    inside ← chdir directory_to_process opened
    let filenames = last_filenames (walk opened directory_to_process)
    written ← hash_files inside filenames new_hasher []
    closed ←
        write_file (hash_text_name input_status job_name) written
          (record inside { cwd = opened.cwd })
    ok (record closed { cwd = inside.cwd })

  -- The digest of a file.
  unfoldable pub md5 : Text → World → Result Text
  unfolding update_all read_blocks
  md5 fname w = do
    bytes ← read_file w fname
    ok (sys.md5_hex (update_all (blocks bytes) new_hasher).taken)
