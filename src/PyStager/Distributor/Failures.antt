-- ===== src/PyStager/Distributor/Failures.antt =====
-- The exceptions of `load_distributor`.
use native.Mathlib.Nat.{mod-lt, zero-mod}
use container_hackathon.Prelude.{ℕ, zero, suc, ◌+◌, ◌%◌, ◌<◌, ◌≤◌, ◌≡◌, refl, ◌⊎◌, inl, inr}
use container_hackathon.Prelude.{Option, some, List, [], ◌∷◌, arith, length, drop}
use container_hackathon.Prelude.{get_elem?-of_le, get_elem?-of_drop}
use container_hackathon.Prelude.{raise, index_error, key_error}
use container_hackathon.Prelude.Int.{ℤ, pos}
use container_hackathon.Prelude.Text.{Text}
use container_hackathon.Prelude.Dict.{Dict, insert}
use container_hackathon.PyStager.Distributor.{add_job, from_keys, assign_all, load_distributor}
use container_hackathon.PyStager.Distributor.Sharing.{Keyed, Keyed-insert, counter-step}
use container_hackathon.PyStager.Distributor.Jobs.{from_keys-Keyed, pred_suc}

-- A loop over more rounds than there are items left.
assign_all_overrun :
    (items xs : List Text) (k n i : ℕ) (d : Dict (Option Text))
    → 0 < k
    → drop i items ≡ xs
    → length items ≤ i + length xs
    → length xs < n
    → Keyed k d
    → assign_all items (suc k) n i (i % k + 1) d ≡ raise index_error
unfolding assign_all
assign_all_overrun items xs k zero i d many at all more keyed = absurd (omega arith)
assign_all_overrun items [] k (suc n) i d many at all more keyed =
    let (old, here) = keyed (i % k + 1) (omega arith) (omega (arith, mod-lt i many)) in
    rw (here, get_elem?-of_le items i (omega arith))
assign_all_overrun items (x ∷ xs) k (suc n) i d many at all more keyed =
    let (old, here) = keyed (i % k + 1) (omega arith) (omega (arith, mod-lt i many)) in
    let (got, left) = get_elem?-of_drop items i at in
    rw (here, got, counter-step k i many)
      (assign_all_overrun items xs k n (suc i) (insert (i % k + 1) (some (add_job old x)) d) many
        left (omega arith) (omega arith)
        (Keyed-insert k (i % k + 1) (some (add_job old x)) d keyed))

assign_all_overrun_start :
    (items : List Text) (k n : ℕ)
    → 0 < k
    → length items < n
    → assign_all items (suc k) n 0 1 (from_keys 1 k) ≡ raise index_error
assign_all_overrun_start items k n many more = rw zero-mod at (
    assign_all_overrun items items k n 0 (from_keys 1 k) many refl (omega arith) more
      (from_keys-Keyed k))

-- With a worker, and a count of directories (level 0) or of files (level 1) above the number of
-- items, the call raises an IndexError.
pub load_distributor-overrun :
    (items : List Text) (files directories : ℕ) (level : ℤ) (k : ℕ)
    → 0 < k
    → ((level ≡ pos 0) × (length items < directories)) ⊎ ((level ≡ pos 1) × (length items < files))
    → load_distributor items files directories level (suc k) ≡ raise index_error
unfolding load_distributor
load_distributor-overrun items files directories level k many (inl (l, c)) =
    rw (l, pred_suc k) (assign_all_overrun_start items k directories many c)
load_distributor-overrun items files directories level k many (inr (l, c)) =
    rw (l, pred_suc k) (assign_all_overrun_start items k files many c)

-- With no worker and something to distribute the call raises a KeyError.
pub load_distributor-alone :
    (items : List Text) (files directories : ℕ) (level : ℤ)
    → ((level ≡ pos 0) × (0 < directories)) ⊎ ((level ≡ pos 1) × (0 < files))
    → load_distributor items files directories level 1 ≡ raise key_error
unfolding load_distributor
load_distributor-alone items files zero level (inl (l, c)) = absurd (omega arith)
load_distributor-alone items files (suc n) level (inl (l, c)) = rw l
load_distributor-alone items zero directories level (inr (l, c)) = absurd (omega arith)
load_distributor-alone items (suc n) directories level (inr (l, c)) = rw l
