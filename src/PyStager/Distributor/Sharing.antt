-- ===== src/PyStager/Distributor/Sharing.antt =====
-- Which items the loop of `load_distributor` gives to which worker.
use native.Mathlib.Nat.{mod-lt}
use container_hackathon.Prelude.{ℕ, zero, suc, ◌+◌, ◌-◌, ◌%◌, ◌<◌, ◌≤◌, ◌≡◌, refl}
use container_hackathon.Prelude.{Option, some, List, [], ◌∷◌, arith, ◌==◌}
use container_hackathon.Prelude.{if◌then◌else◌, length, get_elem?, take, drop, get_elem?-of_drop}
use container_hackathon.Prelude.{ok, Bool-cases, inl, inr}
use container_hackathon.Prelude.Text.{Text}
use container_hackathon.Prelude.Dict.{Dict, lookup, insert, lookup-insert}
use container_hackathon.PyStager.Distributor.{add_job, next_counter, assign_all}

-- The items at the positions that leave the remainder `r` modulo `k`; the first stands at `i`.
module _ {ℓ} {A : Type ℓ} (k r : ℕ) where
  unfoldable pub every_from : ℕ → List A → List A
  every_from i [] = []
  every_from i (x ∷ xs) =
      let rest = every_from (suc i) xs in if (i % k) == r then x ∷ rest else rest

-- A worker's text after some more items.
unfoldable pub add_jobs : Option Text → List Text → Option Text
add_jobs old [] = old
add_jobs old (x ∷ xs) = add_jobs (some (add_job old x)) xs

pub counter-step : (k i : ℕ) → 0 < k → next_counter (suc k) (i % k + 1) ≡ suc i % k + 1
counter-step k i h = grind arith

-- Every worker from 1 to `k` has a text.
abbrev pub Keyed : ℕ → Dict (Option Text) → Type 0
Keyed k d = (w : ℕ) → 0 < w → w ≤ k → (o : Option Text) × (lookup w d ≡ some o)

pub Keyed-insert :
    (k c : ℕ) (v : Option Text) (d : Dict (Option Text)) → Keyed k d → Keyed k (insert c v d)
Keyed-insert k c v d keyed w pos le = elim (Bool-cases (w == c)) [
  | inl same ↦ (v, rw (lookup-insert w c v d, same))
  | inr other ↦ ((keyed w pos le).0, rw (lookup-insert w c v d, other) (keyed w pos le).1)
]

-- What `d'` holds of the items that came after the item `x` holds of all of them.
shared-cons :
    (k i w : ℕ) (x : Text) (xs : List Text) (old o : Option Text) (d d' : Dict (Option Text))
    → 0 < w
    → lookup (i % k + 1) d ≡ some old
    → lookup w d ≡ some o
    → ((o' : Option Text)
        → lookup w (insert (i % k + 1) (some (add_job old x)) d) ≡ some o'
        → lookup w d' ≡ some (add_jobs o' (every_from k (w - 1) (suc i) xs)))
    → lookup w d' ≡ some (add_jobs o (every_from k (w - 1) i (x ∷ xs)))
unfolding every_from add_jobs
shared-cons k i w x xs old o d d' pos here e shared =
    let c = i % k + 1 in
    ground
      (arith, shared (some (add_job old x)), shared o, lookup-insert w c (some (add_job old x)) d)

-- What `rounds` rounds of the loop from position `i` on make of the texts `d`, where `xs` are the
-- items from there on.
pub record Shared (items xs : List Text) (k rounds i : ℕ) (d : Dict (Option Text)) : Type 0 where
  pub result : Dict (Option Text)
  pub done : assign_all items (suc k) rounds i (i % k + 1) d ≡ ok result
  pub shared :
      (w : ℕ)
      → 0 < w
      → (o : Option Text) → lookup w d ≡ some o
      → lookup w result ≡ some (add_jobs o (every_from k (w - 1) i (take rounds xs)))

Shared-cons :
    (items xs : List Text) (x : Text) (k n i : ℕ) (d : Dict (Option Text)) (old : Option Text)
    → 0 < k
    → lookup (i % k + 1) d ≡ some old
    → get_elem? items i ≡ some x
    → Shared items xs k n (suc i) (insert (i % k + 1) (some (add_job old x)) d)
    → Shared items (x ∷ xs) k (suc n) i d
unfolding assign_all
Shared-cons items xs x k n i d old pos here got s = record {
  result = s.result;
  done = rw (here, got, counter-step k i pos) s.done;
  shared =
      λ w wpos o e. shared-cons k i w x (take n xs) old o d s.result wpos here e (s.shared w wpos);
}

-- The loop raises nothing while items are left, and gives worker `w` the items at the positions
-- that leave `w - 1` modulo the number `k` of workers, in order.
pub assign_all_lem :
    (items xs : List Text) (k n i : ℕ) (d : Dict (Option Text))
    → 0 < k
    → drop i items ≡ xs
    → n ≤ length xs
    → Keyed k d
    → Shared items xs k n i d
unfolding assign_all every_from add_jobs
assign_all_lem items xs k zero i d pos at enough keyed = record {
  result = d;
  done = refl;
  shared = λ w wpos o e. e;
}
assign_all_lem items [] k (suc n) i d pos at enough keyed = absurd (omega arith)
assign_all_lem items (x ∷ xs) k (suc n) i d pos at enough keyed =
    let (old, here) = keyed (i % k + 1) (omega arith) (omega (arith, mod-lt i pos)) in
    let (got, left) = get_elem?-of_drop items i at in
    Shared-cons items xs x k n i d old pos here got (
      assign_all_lem items xs k n (suc i) (insert (i % k + 1) (some (add_job old x)) d) pos left
        (omega arith) (Keyed-insert k (i % k + 1) (some (add_job old x)) d keyed))
