-- ===== src/PyStager/Parameters/Lines.antt =====
-- What a line of the parameters file sets.
use container_hackathon.Prelude.{◌≡◌, ◌∙◌, ap, false, some, if◌then◌else◌}
use container_hackathon.Prelude.{[], ◌∷◌, ◌++◌}
use container_hackathon.Prelude.Text.{Text, text_eq, has_char, split_on, split_on-join, strip}
use container_hackathon.Prelude.Keyed.{get_key-set_key}
use container_hackathon.PyStager.Parameters.{Params, get_param, equals, read_line}

-- A line that is, without the white space around it, a key and a value with one equals sign between
-- them: the key, without white space around it, then has the value, without white space around it,
-- whatever it had before, and all other keys keep what they had.
pub get_param-read_line :
    (j line k v : Text) (params : Params)
    → strip line ≡ k ++ (equals ∷ v)
    → has_char equals k ≡ false
    → has_char equals v ≡ false
    → get_param j (read_line line params)
      ≡ (if text_eq j (strip k) then some (strip v) else get_param j params)
unfolding read_line
get_param-read_line j line k v params h clean_k clean_v =
    let parts : split_on equals (strip line) ≡ k ∷ v ∷ [] =
      ap (split_on equals) h ∙ split_on-join equals k (v ∷ []) (clean_k, (clean_v, tt)) in
    rw parts (get_key-set_key j (strip k) (strip v) params)
