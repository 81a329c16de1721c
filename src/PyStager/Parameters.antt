-- ===== src/PyStager/Parameters.antt =====
-- The parameters file, as wfppdl/PyStager/mpi_stager_v2.py reads it.
pub mod Lines
use container_hackathon.Prelude.{ℕ, Option, none, some, List, [], ◌∷◌}
use container_hackathon.Prelude.{if◌then◌else◌, key_error, value_error, Result, ok, ◌>>=◌, or_raise}
use container_hackathon.Prelude.Keyed.{Keyed, get_key, set_key}
use container_hackathon.Prelude.Int.{ℤ}
use container_hackathon.Prelude.Text.{Text, codes, text_eq, split_on, strip, parse_int}

-- `params`, with a text for each key
abbrev pub Params : Type 0
Params = Keyed Text

abbrev pub get_param : Text → Params → Option Text
get_param = get_key

-- `params[k] = v`
abbrev pub set_param : Text → Text → Params → Params
set_param = set_key

abbrev pub equals : ℕ
equals = b'='

-- What one line changes, from its parts between equals signs: only two parts are read.
abbrev pub set_parts : List Text → Params → Params
set_parts (k ∷ v ∷ []) params = set_param (strip k) (strip v) params
set_parts _ params = params

unfoldable pub read_line : Text → Params → Params
read_line line params = set_parts (split_on equals (strip line)) params

-- `for line in fileObj`
unfoldable pub read_lines : List Text → Params → Params
unfolding read_line
read_lines [] params = params
read_lines (line ∷ lines) params = read_lines lines (read_line line params)

-- The parameters of a run.
pub record Settings : Type 0 where
  pub source_dir : Text
  pub destination_dir : Text
  pub log_dir : Text
  pub rsync_status : ℤ
  pub checksum_status : ℤ
  pub load_level : ℤ

-- `str(params[key])` and `int(params[key])`
abbrev pub text_param : Text → Params → Result Text
text_param k params = or_raise (get_param k params) key_error

abbrev pub int_param : Text → Params → Result ℤ
int_param k params = do v ← text_param k params; or_raise (parse_int v) value_error

-- The lines of the file are given as `for line in fileObj` yields them.
unfoldable pub read_settings : List Text → Result Settings
unfolding read_lines
read_settings lines = do
  let params = read_lines lines []
  source ← text_param (codes "Source_Directory") params
  destination ← text_param (codes "Destination_Directory") params
  log ← text_param (codes "Log_Directory") params
  rsync ← int_param (codes "Rsync_Status") params
  checksum ← int_param (codes "Checksum_Status") params
  level ← int_param (codes "Load_Level") params
  ok (record {
    source_dir = source;
    destination_dir = destination;
    log_dir = log;
    rsync_status = rsync;
    checksum_status = checksum;
    load_level = level;
  })
