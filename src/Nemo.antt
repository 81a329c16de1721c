-- ===== src/Nemo.antt =====
-- The tables and the bar charts of NEMO/report, which are made with pandas and plotly.
pub mod Strong
pub mod Weak
pub mod Columns
mod Samples
use Prim.Native.String.{String}
use container_hackathon.Prelude.{
  ℕ, Bool, false, true, ◌||◌, ◌&&◌, Option, none, some, List, [], ◌∷◌, ◌++◌,
}
use container_hackathon.Prelude.{if◌then◌else◌, value_error, Result, ok, ◌>>=◌, ◌>>◌, guard}
use container_hackathon.Prelude.Text.{Text, codes, text_eq}
use container_hackathon.Prelude.Keyed.{Keyed, get_key}

-- A value of a row.
pub data Cell : Type 0 where
  label : Text → Cell
  -- A number that is not an integer, as it is written.
  number : Text → Cell
  count : ℕ → Cell

abbrev pub Row : Type 0
Row = Keyed Cell

-- The rows of the notebooks, with their keys in the order in which they are written.
abbrev pub timed : (mpi elapsed container : String) → (gyre steps : ℕ) → Row
timed mpi elapsed container gyre steps =
    (codes "mpi", label (codes mpi))
    ∷ (codes "elapsed", number (codes elapsed))
    ∷ (codes "container", label (codes container))
    ∷ (codes "gyre", count gyre)
    ∷ (codes "steps", count steps)
    ∷ []

abbrev pub measured : (key mpi value container : String) → (steps : ℕ) → Row
measured key mpi value container steps =
    (codes "mpi", label (codes mpi))
    ∷ (codes key, number (codes value))
    ∷ (codes "container", label (codes container))
    ∷ (codes "steps", count steps)
    ∷ []

abbrev pub sized : (mpi container : String) → (steps memory : ℕ) → Row
sized mpi container steps memory =
    (codes "mpi", label (codes mpi))
    ∷ (codes "container", label (codes container))
    ∷ (codes "steps", count steps)
    ∷ (codes "memory", count memory)
    ∷ []

abbrev pub has_name : Text → List Text → Bool
has_name name [] = false
has_name name (n ∷ ns) = text_eq name n || has_name name ns

abbrev pub add_new : List Text → Row → List Text
add_new names [] = names
add_new names ((key, cell) ∷ row) =
    if has_name key names then add_new names row else add_new (names ++ (key ∷ [])) row

-- The columns of `pd.DataFrame(rows)`: every key of a row, in the order in which they come up.
abbrev pub columns_from : List Text → List Row → List Text
columns_from names [] = names
columns_from names (row ∷ rows) = columns_from (add_new names row) rows

-- A table. A row without a value in a column has none there.
pub record Frame : Type 0 where
  pub columns : List Text
  pub rows : List Row

abbrev pub data_frame : List Row → Frame
data_frame rows = record { columns = columns_from [] rows; rows = rows }

-- What `px.bar` and `update_layout` are given.
pub record Figure : Type 0 where
  pub frame : Frame
  pub x : Text
  pub y : Text
  pub color : Text
  pub barmode : Text
  pub title : Text
  pub text : Text
  pub legend_orientation : Text

-- A chart with the processes along one axis and a bar for each container; the columns have to be there.
unfoldable pub bar : Frame → (y title : Text) → Result Figure
bar frame y title = do
  guard
      (has_name (codes "mpi") frame.columns
        && has_name y frame.columns
        && has_name (codes "container") frame.columns)
      value_error
  ok (record {
    frame = frame;
    x = codes "mpi";
    y = y;
    color = codes "container";
    barmode = codes "group";
    title = title;
    text = y;
    legend_orientation = codes "h";
  })
