-- ===== src/Training/PredNet/Step/Sizes.antt =====
-- The sizes of the tensors in `PredNet.step` of wfppdl/training/source/prednet.py: the tensors of the step are
-- taken to be their sizes, and an operation on sizes that do not fit gives one that fits nothing.
use container_hackathon.Prelude.{
  ℕ, zero, suc, ◌+◌, ◌*◌, ◌/◌, ◌<◌, ◌≡◌, refl, arith, true, ◌&&◌, ◌==◌, ==_iff, if◌then◌else◌,
}
use container_hackathon.Prelude.{none, some, List, [], ◌∷◌, length, get_elem?, Result, ok, raise}
use container_hackathon.Training.PredNet.{PredNet}
use container_hackathon.Training.PredNet.Build.{Conv2d, new_conv, nb_channels}
use container_hackathon.Training.PredNet.Step.{Tensors}

-- The size of a tensor for one sample: channels, rows and columns, or the length of a flat one.
pub data Extent : Type 0 where
  area : (channels rows columns : ℕ) → Extent
  flat : ℕ → Extent
  unfit : Extent

-- Sizes side by side along the channels.
abbrev pub beside : Extent → Extent → Extent
beside (area a r k) (area b s l) = if r == s && k == l then area (a + b) r k else unfit
beside x y = unfit

abbrev pub beside_all : List Extent → Extent
beside_all [] = unfit
beside_all (x ∷ []) = x
beside_all (x ∷ y ∷ ys) = beside x (beside_all (y ∷ ys))

-- Two tensors are added, subtracted and multiplied entry by entry.
abbrev pub alike : Extent → Extent → Extent
alike (area a r k) (area b s l) = if a == b && (r == s && k == l) then area a r k else unfit
alike x y = unfit

-- A convolution with `padding='same'` that has been built for a number of channels.
abbrev pub convolved : (built_for filters : Result ℕ) → Extent → Extent
convolved (ok n) (ok m) (area a r k) = if a == n then area m r k else unfit
convolved n m x = unfit

abbrev pub filters_of : Result Conv2d → Result ℕ
filters_of (raise e) = raise e
filters_of (ok conv) = ok conv.filters

abbrev pub doubled : Extent → Extent
doubled (area a r k) = area a (2 * r) (2 * k)
doubled x = unfit

abbrev pub halved : Extent → Extent
halved (area a r k) = area a (r / 2) (k / 2)
halved x = unfit

abbrev pub flattened : Extent → Extent
flattened (area a r k) = flat (a * (r * k))
flattened x = unfit

abbrev pub joined : Extent → Extent → Extent
joined (flat n) (flat m) = flat (n + m)
joined x y = unfit

abbrev pub averaged : Extent → Extent
averaged (flat n) = flat 1
averaged x = unfit

-- The operations of a layer on sizes.
abbrev pub extents : PredNet → Tensors
extents net = record {
  Tensor = Extent;
  concatenate = beside_all;
  concatenate_last = joined;
  conv = λ c l x. convolved (nb_channels net c l) (filters_of (new_conv net c l)) x;
  add = alike;
  sub = alike;
  mul = alike;
  lstm_activation = λ x. x;
  error_activation = λ x. x;
  clip = λ x. x;
  upsample = doubled;
  pool = halved;
  batch_flatten = flattened;
  mean = averaged;
}

equal_self : (n : ℕ) → (n == n) ≡ true
equal_self n = (==_iff n n).1 refl

pub alike_self : (a r k : ℕ) → alike (area a r k) (area a r k) ≡ area a r k
alike_self a r k = rw (equal_self a, equal_self r, equal_self k) refl

pub beside_fit : (a b r k : ℕ) → beside (area a r k) (area b r k) ≡ area (a + b) r k
beside_fit a b r k = rw (equal_self r, equal_self k) refl

pub convolved_fit : (n m r k : ℕ) → convolved (ok n) (ok m) (area n r k) ≡ area m r k
convolved_fit n m r k = rw (equal_self n) refl

-- The number at a place of a list, where there is one.
abbrev pub entry_at : List ℕ → ℕ → ℕ
entry_at xs l = elim (get_elem? xs l) [ none ↦ 0 | some n ↦ n ]

pub get_elem?-entry_at :
    (xs : List ℕ) (l : ℕ) → l < length xs → get_elem? xs l ≡ some (entry_at xs l)
get_elem?-entry_at [] l h = absurd (omega arith)
get_elem?-entry_at (x ∷ xs) zero h = refl
get_elem?-entry_at (x ∷ xs) (suc l) h = get_elem?-entry_at xs l (omega arith)
