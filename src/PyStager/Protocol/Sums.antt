-- ===== src/PyStager/Protocol/Sums.antt =====
-- Sums over the slaves, and what one change does to them.
use container_hackathon.Prelude.{ℕ, zero, suc, ◌+◌, ◌<◌, ◌≤◌, ◌≡◌, refl, arith}
use container_hackathon.Prelude.{dec_lt}
use container_hackathon.PyStager.Protocol.{Node, update}

-- The sum of `f 1` to `f k`.
unfoldable pub total : ℕ → (ℕ → ℕ) → ℕ
total zero f = 0
total (suc k) f = total k f + f (suc k)

module _ (f : ℕ → Node → ℕ) (nodes : ℕ → Node) where
  abbrev weight : (ℕ → Node) → ℕ → ℕ
  weight ns w = f w (ns w)

  total-update_above :
      (k w : ℕ) (n : Node) → k < w → total k (weight (update nodes w n)) ≡ total k (weight nodes)
  unfolding total
  total-update_above zero w n h = refl
  total-update_above (suc k) w n h = ground (arith, total-update_above k w n)

  pub total-update :
      (k w : ℕ) (n : Node)
      → 0 < w
      → w ≤ k
      → total k (weight (update nodes w n)) + f w (nodes w) ≡ total k (weight nodes) + f w n
  unfolding total
  total-update zero w n pos le = absurd (omega arith)
  total-update (suc k) w n pos le = elim (dec_lt w (suc k)) [
    | yes below ↦ ground (arith, total-update k w n pos)
    | no last ↦ ground (arith, total-update_above k w n)
  ]

-- A positive sum has a positive term.
pub total-positive : (k : ℕ) (f : ℕ → ℕ) → 0 < total k f → (w : ℕ) × (0 < w) × (w ≤ k) × (0 < f w)
unfolding total
total-positive zero f h = absurd (omega arith)
total-positive (suc k) f h = elim (dec_lt 0 (f (suc k))) [
  | yes here ↦ (suc k, omega arith, omega arith, here)
  | no none_here ↦
      let (w, pos, le, more) = total-positive k f (omega arith) in (w, pos, omega arith, more)
]

pub total-zero : (k : ℕ) (f : ℕ → ℕ) (w : ℕ) → total k f ≡ 0 → 0 < w → w ≤ k → f w ≡ 0
unfolding total
total-zero zero f w h pos le = absurd (omega arith)
total-zero (suc k) f w h pos le = elim (dec_lt w (suc k)) [
  | yes below ↦ total-zero k f w (omega arith) pos (omega arith)
  | no last ↦ let e : w ≡ suc k = omega arith in rw e (omega arith)
]
