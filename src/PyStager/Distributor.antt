-- ===== src/PyStager/Distributor.antt =====
-- `load_distributor` of wfppdl/PyStager/external_function.py: the job lists of the workers.
pub mod Sharing
pub mod Jobs
pub mod Balance
pub mod Failures
pub mod Assignment
use container_hackathon.Prelude.{
  ℕ, zero, suc, ◌+◌, ◌-◌, ◌≡◌, refl, Bool, true, false, Option, none, some,
}
use container_hackathon.Prelude.{List, [], ◌∷◌, ◌++◌, arith, ◌==◌, ltb, if◌then◌else◌, get_elem?}
use container_hackathon.Prelude.{Error, index_error, key_error, Result, ok, raise, ◌>>=◌, or_raise}
use container_hackathon.Prelude.Int.{ℤ, int_eq}
use container_hackathon.Prelude.Text.{Text, codes}
use container_hackathon.Prelude.Dict.{Dict, lookup, insert}

-- The separator of job lists.
abbrev pub semicolon : ℕ
semicolon = b';'

-- `dict.fromkeys(list(range(1, processor_num)))`, for `k` keys from `first` on
abbrev pub from_keys : ℕ → ℕ → Dict (Option Text)
from_keys first zero = []
from_keys first (suc k) = (first, none) ∷ from_keys (first + 1) k

-- A worker's text after one more item: `None` becomes the item, any other text is joined to it.
abbrev pub add_job : Option Text → Text → Text
add_job none item = item
add_job (some old) item = old ++ (semicolon ∷ item)

-- `counter = counter + 1`, and back to 1 after the last worker
abbrev pub next_counter : ℕ → ℕ → ℕ
next_counter processor_num counter = if (counter + 1) == processor_num then 1 else counter + 1

-- The `for` loop of either load level: `rounds` rounds are left, `i` is `Directory_counter`.
unfoldable pub assign_all :
    List Text → ℕ → (rounds : ℕ) → ℕ → ℕ → Dict (Option Text) → Result (Dict (Option Text))
assign_all items processor_num zero i counter transfer_dict = ok transfer_dict
assign_all items processor_num (suc rounds) i counter transfer_dict = do
  old ← or_raise (lookup counter transfer_dict) key_error
  item ← or_raise (get_elem? items i) index_error
  assign_all items processor_num rounds (suc i) (next_counter processor_num counter)
      (insert counter (some (add_job old item)) transfer_dict)

-- `load_level` is 0 for directories, 1 for files; any other level leaves every worker idle.
unfoldable pub load_distributor :
    List Text
    → (total_num_files total_num_directories : ℕ) (load_level : ℤ) (processor_num : ℕ)
    → Result (Dict (Option Text))
unfolding assign_all
load_distributor items total_num_files total_num_directories load_level processor_num =
    let transfer_dict = from_keys 1 (processor_num - 1) in
    if int_eq load_level 0
    then assign_all items processor_num total_num_directories 0 1 transfer_dict
    else if int_eq load_level 1
    then assign_all items processor_num total_num_files 0 1 transfer_dict
    else ok transfer_dict
