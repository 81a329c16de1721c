-- ===== src/PyStager/Protocol/Progress.antt =====
-- No run of the network stops early, none goes on for ever, and none loses a message.
use native.Mathlib.Decide.{dec_le}
use container_hackathon.Prelude.{
  ℕ, ◌+◌, ◌-◌, ◌<◌, ◌≤◌, ◌≡◌, ◌≢◌, refl, Option, some, List, [], ◌∷◌, ◌++◌, arith,
}
use container_hackathon.Prelude.{ap, length, length-zero, dec_lt}
use container_hackathon.Prelude.Text.{Text}
use container_hackathon.Prelude.Dict.{lookup}
use container_hackathon.PyStager.Worker.{Message}
use container_hackathon.PyStager.Protocol.{
  Phase, sending, idling, collecting, done, Node, waiting, posted, working, Net, update, Run, Step,
  send, sent_all, hear_idle, idle_over, hear_job, finish, receive, emit, start, Reach, here, next,
}
use container_hackathon.PyStager.Protocol.Sums.{total, total-update, total-positive, total-zero}
use container_hackathon.PyStager.Protocol.Invariant.{
  owed, expected, need, IsBalanced, Inv, Reach-Inv, at_sending, served_at,
}

module _ (r : Run) where
  open r use {p, transfer_dict, items, reply}

  -- Some step is possible.
  abbrev pub CanStep : Net → Type 0
  CanStep s = (t : Net) × Step r s t

  -- A slave that owes a message, and was sent its text, can go on.
  slave_steps :
      (s : Net) (w : ℕ) (n : Node)
      → s.nodes w ≡ n
      → n ≢ waiting
      → 0 < w
      → w < p
      → 0 < owed r w n
      → CanStep s
  slave_steps s w waiting is moved pos lt more = absurd (moved refl)
  slave_steps s w (posted text) is moved pos lt more = (_, receive pos lt is)
  slave_steps s w (working []) is moved pos lt more = absurd (omega arith)
  slave_steps s w (working (m ∷ ms)) is moved pos lt more = (_, emit pos lt is)

  -- Where the master waits for a message, one is there, or a slave can go on.
  heard_or_slave :
      (s : Net) (inbox : List Message)
      → s.inbox ≡ inbox
      → Inv r s
      → 0 < need r s.phase
      → ((w : ℕ) → 0 < w → w < p → s.nodes w ≢ waiting)
      → ((m : Message) (ms : List Message) → s.inbox ≡ m ∷ ms → CanStep s)
      → CanStep s
  heard_or_slave s (m ∷ ms) e inv more served hears = hears m ms e
  heard_or_slave s [] e inv more served hears =
      let (w, pos, le, owes) =
        total-positive (p - 1) (λ w. owed r w (s.nodes w))
          (omega (arith, inv.conserved, ap length e)) in
      slave_steps s w (s.nodes w) refl (served w pos (omega arith)) pos (omega arith) owes

  can_step :
      (s : Net) (phase : Phase)
      → s.phase ≡ phase
      → phase ≢ done
      → IsBalanced r
      → Inv r s
      → CanStep s
  can_step s (sending node) at going b inv = elim (dec_lt node p) [
    | yes lt ↦
        let (text, found) = b.keyed node (at_sending r s inv node at).0 lt in (_, send at lt found)
    | no all ↦ (_, sent_all at (omega arith))
  ]
  can_step s (idling c) at going b inv = elim (dec_lt 1 c) [
    | yes more ↦
        heard_or_slave s s.inbox refl inv (rw at (omega arith))
          (λ w pos lt. served_at r s inv (idling c) at w pos lt tt)
          (λ m ms e. (_, hear_idle [] ms m at more e))
    | no over ↦ (_, idle_over at (omega arith))
  ]
  can_step s (collecting c) at going b inv = elim (dec_le c items) [
    | yes more ↦
        heard_or_slave s s.inbox refl inv (rw at (omega arith))
          (λ w pos lt. served_at r s inv (collecting c) at w pos lt tt)
          (λ m ms e. (_, hear_job [] ms m at more e))
    | no over ↦ (_, finish at (omega arith))
  ]
  can_step s done at going b inv = absurd (going refl)

  -- For a run in which every slave is sent something and the slaves have as many messages as the master
  -- waits for: in every state that the run can reach, until the master is done, the master or a slave
  -- can go on.
  pub no_deadlock : {s : Net} → IsBalanced r → Reach r s → s.phase ≢ done → CanStep s
  no_deadlock {s} b reach going = can_step s s.phase refl going b (Reach-Inv r b reach)

  phase_cost : Phase → ℕ
  phase_cost (sending node) = p - node + (p - items) + items + 4
  phase_cost (idling c) = c + items + 3
  phase_cost (collecting c) = items + 1 - c + 1
  phase_cost done = 0

  node_cost : ℕ → Node → ℕ
  node_cost w waiting = expected r w + 1
  node_cost w (posted text) = length (reply w text) + 1
  node_cost w (working ms) = length ms

  -- What every step uses up.
  pub cost : Net → ℕ
  cost s = phase_cost s.phase + total (p - 1) (λ w. node_cost w (s.nodes w))

  phase_falls :
      (s t : Net) (phase : Phase)
      → s.phase ≡ phase
      → phase_cost t.phase < phase_cost phase
      → total (p - 1) (λ w. node_cost w (t.nodes w)) ≡ total (p - 1) (λ w. node_cost w (s.nodes w))
      → cost t < cost s
  unfolding cost
  phase_falls s t phase at falls same = omega (arith, ap phase_cost at)

  node_falls :
      (s : Net) (w : ℕ) (old new : Node) (inbox : List Message)
      → s.nodes w ≡ old
      → 0 < w
      → w < p
      → node_cost w new < node_cost w old
      → cost (record s { nodes = update s.nodes w new; inbox = inbox }) < cost s
  unfolding cost
  node_falls s w old new inbox is pos lt falls =
      omega
        (arith, ap (node_cost w) is, total-update node_cost s.nodes (p - 1) w new pos (omega arith))

  send-falls :
      (s : Net) (node : ℕ) (text : Option Text)
      → Inv r s
      → s.phase ≡ sending node
      → node < p
      → lookup node transfer_dict ≡ some text
      → cost (record s { phase = sending (node + 1); nodes = update s.nodes node (posted text) })
        < cost s
  unfolding cost phase_cost node_cost
  send-falls s node text inv at lt found =
      let (pos, waits) = at_sending r s inv node at in
      omega (
        arith,
        ap phase_cost at,
        sent_cost,
        total-update node_cost s.nodes (p - 1) node (posted text) pos (omega arith),
      )
    where
      sent_cost : node_cost node (s.nodes node) ≡ length (reply node text) + 1
      sent_cost = rw ((at_sending r s inv node at).1 node (omega arith), found)

  Step-falls : {s t : Net} → Step r s t → Inv r s → cost t < cost s
  unfolding phase_cost node_cost
  Step-falls {s} (send {node} {text} at lt found) inv = send-falls s node text inv at lt found
  Step-falls {s} (sent_all {node} at all) inv = phase_falls s _ (sending node) at (omega arith) refl
  Step-falls {s} (hear_idle {c} before after m at more e) inv =
      phase_falls s _ (idling c) at (omega arith) refl
  Step-falls {s} (idle_over {c} at over) inv = phase_falls s _ (idling c) at (omega arith) refl
  Step-falls {s} (hear_job {c} before after m at more e) inv =
      phase_falls s _ (collecting c) at (omega arith) refl
  Step-falls {s} (finish {c} at over) inv = phase_falls s _ (collecting c) at (omega arith) refl
  Step-falls {s} (receive {w} {text} pos lt is) inv =
      node_falls s w (posted text) (working (reply w text)) s.inbox is pos lt (omega arith)
  Step-falls {s} (emit {w} {m} {ms} pos lt is) inv =
      node_falls s w (working (m ∷ ms)) (working ms) (s.inbox ++ (m ∷ [])) is pos lt (omega arith)

  -- The number of steps of a run.
  pub steps : {s : Net} → Reach r s → ℕ
  steps here = 0
  steps (next reach step) = steps reach + 1

  steps-cost : {s : Net} (reach : Reach r s) → IsBalanced r → steps reach + cost s ≤ cost start
  unfolding steps
  steps-cost here b = omega arith
  steps-cost (next reach step) b =
      omega (arith, steps-cost reach b, Step-falls step (Reach-Inv r b reach))

  -- For a run in which every slave is sent something and the slaves have as many messages as the master
  -- waits for: no sequence of steps is longer than twice the number p - 1 of slaves, the messages of
  -- all slaves, p - items, items and 4 together.
  pub steps-bounded :
      {s : Net} (reach : Reach r s)
      → IsBalanced r
      → steps reach ≤ total (p - 1) (λ w. expected r w + 1) + (p - 1) + (p - items) + items + 4
  unfolding cost phase_cost node_cost
  steps-bounded reach b = omega (arith, steps-cost reach b)

  -- For a run in which every slave is sent something and the slaves have as many messages as the master
  -- waits for: when the master is done no message is left, and no slave has one to send.
  pub done_lem :
      {s : Net}
      → IsBalanced r
      → Reach r s
      → s.phase ≡ done
      → (s.inbox ≡ []) × ((w : ℕ) → 0 < w → w < p → owed r w (s.nodes w) ≡ 0)
  done_lem {s} b reach at = (
    length-zero s.inbox (omega (arith, (Reach-Inv r b reach).conserved, ap (need r) at)),
    λ w pos lt.
        total-zero (p - 1) (λ v. owed r v (s.nodes v)) w
          (omega (arith, (Reach-Inv r b reach).conserved, ap (need r) at)) pos (omega arith),
  )
