-- ===== src/PyStager/Distributor/Balance.antt =====
-- The shares of two workers differ by at most one item.
use native.Mathlib.Decide.{dec_le}
use native.Mathlib.Nat.{mod-lt}
use container_hackathon.Prelude.{ℕ, suc, ◌+◌, ◌-◌, ◌%◌, ◌<◌, ◌≤◌, ◌≡◌, List, [], ◌∷◌, arith}
use container_hackathon.Prelude.{◌==◌, leb, if◌then◌else◌, length}
use container_hackathon.PyStager.Distributor.Sharing.{every_from, counter-step}
use container_hackathon.PyStager.Distributor.Jobs.{share}

-- How many rounds after the one of `s` the turn comes to `r`.
abbrev pub wait : ℕ → ℕ → ℕ → ℕ
wait k s r = if leb s r then r - s else r + k - s

pub suc-mod_cases : (k i : ℕ) → 0 < k → suc i % k ≡ (if (i % k + 1) == k then 0 else i % k + 1)
suc-mod_cases k i pos = ground (arith, counter-step k i pos)

pub pos_of_lt : {r k : ℕ} → r < k → 0 < k
pos_of_lt h = omega arith

-- The one whose turn comes first has as many items as the other, or one more.
every_from-balanced {ℓ} :
    {A : Type ℓ} (k r t i : ℕ) (xs : List A)
    → r < k
    → t < k
    → wait k (i % k) r ≤ wait k (i % k) t
    → (length (every_from k t i xs) ≤ length (every_from k r i xs))
      × (length (every_from k r i xs) ≤ length (every_from k t i xs) + 1)
unfolding every_from
every_from-balanced k r t i [] rk tk le = omega arith
every_from-balanced k r t i (x ∷ xs) rk tk le = ground (
  arith,
  mod-lt i (pos_of_lt rk),
  suc-mod_cases k i (pos_of_lt rk),
  every_from-balanced k r t (suc i) xs rk tk,
  every_from-balanced k t r (suc i) xs tk rk,
)

-- No worker of `k` has more than one item more than another.
pub share-balanced :
    (k v w : ℕ) (items : List (List ℕ))
    → 0 < v
    → v ≤ k
    → 0 < w
    → w ≤ k
    → length (share k v items) ≤ length (share k w items) + 1
share-balanced k v w items vpos vk wpos wk = elim (dec_le (turn v) (turn w)) [
  | yes le ↦ (every_from-balanced k (v - 1) (w - 1) 0 items (omega arith) (omega arith) le).1
  | no gt ↦ omega (
    arith,
    every_from-balanced k (w - 1) (v - 1) 0 items (omega arith) (omega arith) (omega arith),
  )
]
  where
    turn : ℕ → ℕ
    turn u = wait k (0 % k) (u - 1)
