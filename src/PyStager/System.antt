-- ===== src/PyStager/System.antt =====
-- The programs and library calls that PyStager uses and that are not in the repository.
use container_hackathon.Prelude.{ℕ}
use container_hackathon.Prelude.Text.{Text}
use container_hackathon.Files.{World, Entries}

pub record System : Type 0 where
  -- What `du -sc path` prints.
  pub du : World → Text → Text
  -- `st_size` of a directory, which the file system chooses.
  pub directory_size : Entries → ℕ
  -- `os.system(command)`; the programs run are `mkdir` and `rsync`.
  pub shell : Text → World → World
  -- The hexadecimal MD5 digest of some bytes.
  pub md5_hex : Text → Text
