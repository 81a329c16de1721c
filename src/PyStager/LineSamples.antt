-- ===== src/PyStager/LineSamples.antt =====
-- The theorem on the lines of the parameters file at concrete data.
use container_hackathon.Prelude.{◌≡◌, refl, some, [], ◌∷◌}
use container_hackathon.Prelude.Keyed.{get_key, set_key}
use container_hackathon.Prelude.Text.{codes}
use container_hackathon.PyStager.Parameters.{get_param, read_line, read_lines}
use container_hackathon.PyStager.Parameters.Lines.{get_param-read_line}

-- The last of two lines counts, and a line with two equals signs does not.
lines_sample :
    read_lines (codes "a=1" ∷ codes " a = 2 " ∷ codes "a=3=4" ∷ []) [] ≡ (codes "a", codes "2") ∷ []
unfolding read_lines read_line get_key set_key
lines_sample = refl

get_param-read_line_example :
    get_param (codes "a") (read_line (codes " a = 2 ") ((codes "a", codes "1") ∷ []))
    ≡ some (codes "2")
get_param-read_line_example =
    get_param-read_line (codes "a") (codes " a = 2 ") (codes "a ") (codes " 2")
      ((codes "a", codes "1") ∷ []) refl refl refl
