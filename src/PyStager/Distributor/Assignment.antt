-- ===== src/PyStager/Distributor/Assignment.antt =====
-- What the slaves read from their job lists, all together, and how many messages that makes.
use mathlib.Core.List.{Perm}
use native.Mathlib.Nat.{zero-mod, mod-lt}
use container_hackathon.PyStager.Distributor.Balance.{share-balanced}
use container_hackathon.Prelude.{ℕ, zero, suc, ◌+◌, ◌-◌, ◌<◌, ◌≤◌, ◌≡◌, refl, ap, ◌∙◌, arith}
use container_hackathon.Prelude.{
  Option, none, some, List, [], ◌∷◌, ◌++◌, length, length-append, All,
}
use container_hackathon.Prelude.{◌==◌, false, if◌then◌else◌, ◌%◌, length-perm}
use container_hackathon.Prelude.{ok, ◌⊎◌}
use container_hackathon.Prelude.Int.{ℤ, pos}
use container_hackathon.Prelude.Text.{Text, has_char}
use container_hackathon.Prelude.Dict.{Dict, lookup}
use container_hackathon.PyStager.Distributor.{semicolon, load_distributor}
use container_hackathon.PyStager.Distributor.Sharing.{every_from}
use container_hackathon.PyStager.Distributor.Jobs.{
  job_text, share, shares, shares-perm, IsDistribution, split_on-job_text, every_from-All, pred_suc,
  load_distributor_lem,
}
use container_hackathon.PyStager.Distributor.Balance.{wait, suc-mod_cases, pos_of_lt}
use container_hackathon.PyStager.Protocol.Sums.{total}
use container_hackathon.PyStager.Worker.{job_list}

-- No item holds the separator of job lists.
abbrev pub IsClean : List Text → Type 0
IsClean = All (λ x. has_char semicolon x ≡ false)

-- What is read from the entry of a slave.
abbrev pub read_jobs : Option (Option Text) → List Text
read_jobs none = []
read_jobs (some text) = job_list text

-- The jobs that slave `w` reads from what it is sent.
abbrev pub jobs_at : Dict (Option Text) → ℕ → List Text
jobs_at d w = read_jobs (lookup w d)

-- The jobs that the slaves 1 to `k` read.
unfoldable pub all_jobs : ℕ → Dict (Option Text) → List Text
all_jobs zero d = []
all_jobs (suc k) d = all_jobs k d ++ jobs_at d (suc k)

job_list-job_text : (xs : List Text) → IsClean xs → job_list (job_text xs) ≡ xs
job_list-job_text [] clean = refl
job_list-job_text (x ∷ xs) clean = split_on-job_text (x ∷ xs) _ clean refl

-- A slave reads exactly its share.
pub jobs_at-share :
    (k w : ℕ) (items : List Text) (d : Dict (Option Text))
    → IsDistribution k items d
    → IsClean items
    → 0 < w
    → w ≤ k
    → jobs_at d w ≡ share k w items
jobs_at-share k w items d given clean positive le = rw (given w positive le) (
    job_list-job_text (share k w items)
      (every_from-All (λ x. has_char semicolon x ≡ false) k (w - 1) 0 items clean))

all_jobs-shares :
    (k m : ℕ) (items : List Text) (d : Dict (Option Text))
    → IsDistribution k items d
    → IsClean items
    → m ≤ k
    → all_jobs m d ≡ shares k m 0 items
unfolding all_jobs shares
all_jobs-shares k zero items d given clean le = refl
all_jobs-shares k (suc m) items d given clean le = rw (
  all_jobs-shares k m items d given clean (omega arith),
  jobs_at-share k (suc m) items d given clean (omega arith) le,
  pred_suc m,
)

-- With a slave, the share of the items for each slave in the dictionary, and no semicolon in an item:
-- the slaves read every item, each one once.
pub all_jobs-perm :
    (k : ℕ) (items : List Text) (d : Dict (Option Text))
    → 0 < k
    → IsDistribution k items d
    → IsClean items
    → Perm (all_jobs k d) items
all_jobs-perm k items d many given clean =
    rw (all_jobs-shares k k items d given clean (omega arith)) (shares-perm k 0 items many)

-- Where the count that the loop runs to is the number of items, there is a slave, and no item has a
-- semicolon: the call of `load_distributor` raises nothing, and from what is sent the slaves read every
-- item, each one once, and no slave reads more than one item more than another.
pub load_distributor-balanced :
    (items : List Text) (files directories : ℕ) (level : ℤ) (k : ℕ)
    → 0 < k
    → ((level ≡ pos 0) × (directories ≡ length items)) ⊎ ((level ≡ pos 1) × (files ≡ length items))
    → IsClean items
    → (d : Dict (Option Text)) × (load_distributor items files directories level (suc k) ≡ ok d)
      × Perm (all_jobs k d) items
      × ((v w : ℕ)
          → 0 < v
          → v ≤ k
          → 0 < w
          → w ≤ k
          → length (jobs_at d v) ≤ length (jobs_at d w) + 1)
load_distributor-balanced items files directories level k many counted clean =
    let (d, run, given) = load_distributor_lem items files directories level k many counted in
    (
      d,
      run,
      all_jobs-perm k items d many given clean,
      λ v w vpos vk wpos wk.
          rw
            (
              jobs_at-share k v items d given clean vpos vk,
              jobs_at-share k w items d given clean wpos wk,
            )
            (share-balanced k v w items vpos vk wpos wk),
    )

length-shares :
    (k m : ℕ) (items : List Text)
    → length (shares k m 0 items) ≡ total m (λ w. length (share k w items))
unfolding shares total
length-shares k zero items = refl
length-shares k (suc m) items = rw pred_suc (
    omega
      (arith, length-shares k m items, length-append (shares k m 0 items) (every_from k m 0 items)))

-- 1 for an idle slave, which sends one message all the same.
abbrev pub vacant : ℕ → ℕ
vacant n = if n == 0 then 1 else 0

-- A share is empty where its turn comes after the last item.
every_from-vacant :
    (k r i : ℕ) (xs : List Text)
    → r < k
    → vacant (length (every_from k r i xs)) ≡ vacant (length xs - wait k (i % k) r)
unfolding every_from
every_from-vacant k r i [] lt = ground arith
every_from-vacant k r i (x ∷ xs) lt = ground (
  arith,
  mod-lt i (pos_of_lt lt),
  suc-mod_cases k i (pos_of_lt lt),
  every_from-vacant k r (suc i) xs lt,
)

wait-zero : (k m : ℕ) → wait k (0 % k) m ≡ m
wait-zero k m = ground (arith, zero-mod k)

share-vacant :
    (k m : ℕ) (items : List Text)
    → m < k
    → vacant (length (every_from k m 0 items)) ≡ vacant (length items - m)
share-vacant k m items lt =
    every_from-vacant k m 0 items lt ∙ ap (λ t. vacant (length items - t)) (wait-zero k m)

total-vacant :
    (k m : ℕ) (items : List Text)
    → m ≤ k
    → total m (λ w. vacant (length (share k w items))) ≡ m - length items
unfolding total
total-vacant k zero items le = omega arith
total-vacant k (suc m) items le =
    rw pred_suc
      (ground (arith, total-vacant k m items (omega arith), share-vacant k m items (omega arith)))

total-add : (k : ℕ) (f g : ℕ → ℕ) → total k (λ w. f w + g w) ≡ total k f + total k g
unfolding total
total-add zero f g = omega arith
total-add (suc k) f g = omega (arith, total-add k f g)

-- One message for each item, and one for each slave without an item.
pub total-messages :
    (k : ℕ) (items : List Text)
    → 0 < k
    → total k (λ w. length (share k w items) + vacant (length (share k w items)))
      ≡ length items + (k - length items)
total-messages k items many = omega (
  arith,
  total-add k (λ w. length (share k w items)) (λ w. vacant (length (share k w items))),
  total-vacant k k items (omega arith),
  length-shares k k items,
  length-perm (shares-perm k 0 items many),
)
