-- ===== src/Prelude/Text.antt =====
-- Python's `str` as the list of its code points, with the methods that the source calls.
use Prim.Native.Nat.{ℕ, zero, suc, ◌+◌, ◌*◌, ◌-◌}
use Prim.Native.Char.{code}
use Prim.Native.String.{String}
use mathlib.Core.Path.{◌≡◌, refl, ap, ◌∙◌}
use mathlib.Core.Logic.{◌↔◌}
use mathlib.Core.Bool.{Bool, true, false, ◌&&◌, ◌||◌}
use mathlib.Core.Option
use mathlib.Core.Option.{Option, none, some}
use mathlib.Core.List.{List, [], ◌∷◌, ◌++◌, reverse}
use native.Mathlib.Omega.{arith}
use container_hackathon.Prelude.Tests.{◌==◌, leb, if◌then◌else◌}
use container_hackathon.Prelude.Lists.{All}
use container_hackathon.Prelude.Int.{ℤ, pos, negsuc}

abbrev pub Text : Type 0
Text = List ℕ

abbrev pub codes : String → Text
codes String.[] = []
codes (String.◌∷◌ c s) = code c ∷ codes s

-- `s == t`
abbrev pub text_eq : Text → Text → Bool
text_eq [] [] = true
text_eq [] (d ∷ t) = false
text_eq (c ∷ s) [] = false
text_eq (c ∷ s) (d ∷ t) = c == d && text_eq s t

pub text_eq_iff : (s t : Text) → (text_eq s t ≡ true) ↔ (s ≡ t)
text_eq_iff [] [] = (λ h. refl, λ h. refl)
text_eq_iff [] (d ∷ t) = (λ h. cc, λ h. cc)
text_eq_iff (c ∷ s) [] = (λ h. cc, λ h. cc)
text_eq_iff (c ∷ s) (d ∷ t) = ground (arith, text_eq_iff s t)

-- `c in s`, for one character
abbrev pub has_char : ℕ → Text → Bool
has_char c [] = false
has_char c (d ∷ s) = d == c || has_char c s

abbrev pub cons_head : ℕ → List Text → List Text
cons_head c [] = (c ∷ []) ∷ []
cons_head c (w ∷ ws) = (c ∷ w) ∷ ws

-- `s.split(sep)` for a separator of one character: never the empty list.
abbrev pub split_on : ℕ → Text → List Text
split_on sep [] = [] ∷ []
split_on sep (c ∷ s) = let rest = split_on sep s in if c == sep then [] ∷ rest else cons_head c rest

-- `sep.join(ws)`
abbrev pub join : ℕ → List Text → Text
join sep [] = []
join sep (w ∷ []) = w
join sep (w ∷ v ∷ ws) = w ++ (sep ∷ join sep (v ∷ ws))

split_on-of_clean : (sep : ℕ) (w : Text) → has_char sep w ≡ false → split_on sep w ≡ w ∷ []
split_on-of_clean sep [] h = refl
split_on-of_clean sep (c ∷ w) h = ground (arith, split_on-of_clean sep w)

split_on-append :
    (sep : ℕ) (w s : Text)
    → has_char sep w ≡ false
    → split_on sep (w ++ (sep ∷ s)) ≡ w ∷ split_on sep s
split_on-append sep [] s h = ground arith
split_on-append sep (c ∷ w) s h = ground (arith, split_on-append sep w s)

-- What is joined comes apart again, where no part holds the separator.
pub split_on-join :
    (sep : ℕ) (w : Text) (ws : List Text)
    → All (λ v. has_char sep v ≡ false) (w ∷ ws)
    → split_on sep (join sep (w ∷ ws)) ≡ w ∷ ws
split_on-join sep w [] h = split_on-of_clean sep w h.0
split_on-join sep w (v ∷ ws) h =
    split_on-append sep w (join sep (v ∷ ws)) h.0 ∙ ap (λ r. w ∷ r) (split_on-join sep v ws h.1)

-- The ASCII characters that `str.strip` and `str.split` take for white space.
abbrev pub is_space : ℕ → Bool
is_space c = c == 32 || (leb 9 c && leb c 13) || (leb 28 c && leb c 31)

abbrev pub lstrip : Text → Text
lstrip [] = []
lstrip (c ∷ s) = let rest = lstrip s in if is_space c then rest else c ∷ s

abbrev pub strip : Text → Text
strip s = reverse (lstrip (reverse (lstrip s)))

abbrev flush : Text → List Text → List Text
flush [] ws = ws
flush (c ∷ w) ws = reverse (c ∷ w) ∷ ws

-- `s.split()`: the words between white space. `w` is the word that is being read.
abbrev words_from : Text → Text → List Text
words_from [] [] = []
words_from (c ∷ w) [] = reverse (c ∷ w) ∷ []
words_from w (c ∷ s) =
    let word = words_from (c ∷ w) s in
    let gap = words_from [] s in if is_space c then flush w gap else word

abbrev pub words : Text → List Text
words s = words_from [] s

abbrev pub is_digit : ℕ → Bool
is_digit c = leb b'0' c && leb c b'9'

-- The digits of `int(s)`: single underscores may stand between digits. `after` says that a digit
-- came just before.
abbrev digits_from : ℕ → Bool → Text → Option ℕ
digits_from n after [] = if after then some n else none
digits_from n after (c ∷ s) =
    let digit = digits_from (n * 10 + (c - b'0')) true s in
    let gap = digits_from n false s in
    if is_digit c then digit else if c == b'_' && after then gap else none

abbrev pub neg : ℕ → ℤ
neg zero = pos zero
neg (suc n) = negsuc n

abbrev pub signed : Text → Option ℤ
signed [] = none
signed (c ∷ s) =
    if c == b'-'
    then Option.map neg (digits_from 0 false s)
    else if c == b'+'
    then Option.map pos (digits_from 0 false s)
    else Option.map pos (digits_from 0 false (c ∷ s))

-- `int(s)`, for ASCII digits
abbrev pub parse_int : Text → Option ℤ
parse_int s = signed (strip s)
