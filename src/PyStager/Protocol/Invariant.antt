-- ===== src/PyStager/Protocol/Invariant.antt =====
-- Every message that a slave will send is awaited by the master, in every reachable state.
use container_hackathon.Prelude.{
  ℕ, ◌+◌, ◌-◌, ◌<◌, ◌≤◌, ◌≡◌, ◌≢◌, refl, Option, none, some, List, [], ◌∷◌, ◌++◌, arith,
}
use container_hackathon.Prelude.{sym, ap, ◌∙◌, subst, length, length-append}
use container_hackathon.Prelude.Text.{Text}
use container_hackathon.Prelude.Dict.{lookup}
use container_hackathon.PyStager.Worker.{Message}
use container_hackathon.PyStager.Protocol.{
  Phase, sending, idling, collecting, done, Node, waiting, posted, working, Net, update, Run, Step,
  send, sent_all, hear_idle, idle_over, hear_job, finish, receive, emit, start, Reach, here, next,
}
use container_hackathon.PyStager.Protocol.Sums.{total, total-update}

module _ (r : Run) where
  open r use {p, transfer_dict, items, reply}

  -- The messages of slave `w`, if it is sent a text at all.
  abbrev pub replies_to : ℕ → Option (Option Text) → ℕ
  replies_to w none = 0
  replies_to w (some text) = length (reply w text)

  abbrev pub expected : ℕ → ℕ
  expected w = replies_to w (lookup w transfer_dict)

  -- The messages that slave `w` has still to send.
  abbrev pub owed : ℕ → Node → ℕ
  owed w waiting = expected w
  owed w (posted text) = length (reply w text)
  owed w (working ms) = length ms

  -- The messages that the master has still to take.
  abbrev pub need : Phase → ℕ
  need (sending node) = p - items - 1 + items
  need (idling c) = c - 1 + items
  need (collecting c) = items + 1 - c
  need done = 0

  abbrev pub IsServed : Phase → ℕ → Type 0
  IsServed (sending node) w = w < node
  IsServed _ w = Unit

  abbrev Ahead : Phase → (ℕ → Node) → Type 0
  Ahead (sending node) nodes = (0 < node) × ((w : ℕ) → node ≤ w → nodes w ≡ waiting)
  Ahead _ nodes = Unit

  -- What the result of `load_distributor` has to provide: a text for every slave, and as many
  -- messages of all slaves together as the master waits for.
  pub record IsBalanced : Type 0 where
    pub keyed :
        (w : ℕ) → 0 < w → w < p → (text : Option Text) × (lookup w transfer_dict ≡ some text)
    pub balanced : total (p - 1) expected ≡ p - items - 1 + items

  pub record Inv (s : Net) : Type 0 where
    pub conserved : length s.inbox + total (p - 1) (λ w. owed w (s.nodes w)) ≡ need s.phase
    pub ahead : Ahead s.phase s.nodes
    pub served : (w : ℕ) → 0 < w → w < p → IsServed s.phase w → s.nodes w ≢ waiting

  Ahead-update :
      (phase : Phase) (nodes : ℕ → Node) (w : ℕ) (new : Node)
      → Ahead phase nodes
      → nodes w ≢ waiting
      → Ahead phase (update nodes w new)
  Ahead-update (sending node) nodes w new (pos, waits) moved =
      (pos, λ v h. ground (arith, waits v h))
  Ahead-update (idling c) nodes w new a moved = tt
  Ahead-update (collecting c) nodes w new a moved = tt
  Ahead-update done nodes w new a moved = tt

  start-Inv : IsBalanced → Inv start
  start-Inv b = record {
    conserved = omega (arith, b.balanced);
    ahead = (omega arith, λ w h. refl);
    served = λ w pos lt h. absurd (omega arith);
  }

  module _ (s : Net) (inv : Inv s) where
    pub at_sending :
        (node : ℕ)
        → s.phase ≡ sending node
        → (0 < node) × ((w : ℕ) → node ≤ w → s.nodes w ≡ waiting)
    at_sending node at = subst (λ phase. Ahead phase s.nodes) at inv.ahead

    need_at :
        (phase : Phase)
        → s.phase ≡ phase
        → length s.inbox + total (p - 1) (λ w. owed w (s.nodes w)) ≡ need phase
    need_at phase at =
        subst (λ q. length s.inbox + total (p - 1) (λ w. owed w (s.nodes w)) ≡ need q) at
          inv.conserved

    pub served_at :
        (phase : Phase)
        → s.phase ≡ phase
        → (w : ℕ) → 0 < w
        → w < p
        → IsServed phase w
        → s.nodes w ≢ waiting
    served_at phase at =
        subst (λ q. (w : ℕ) → 0 < w → w < p → IsServed q w → s.nodes w ≢ waiting) at inv.served

    owed_sent :
        (node : ℕ) (text : Option Text)
        → s.nodes node ≡ waiting
        → lookup node transfer_dict ≡ some text
        → owed node (s.nodes node) ≡ length (reply node text)
    owed_sent node text waits found = rw (waits, found)

    send-Inv :
        (node : ℕ) (text : Option Text)
        → s.phase ≡ sending node
        → node < p
        → lookup node transfer_dict ≡ some text
        → Inv (record s { phase = sending (node + 1); nodes = update s.nodes node (posted text) })
    send-Inv node text at lt found =
        let (pos, waits) = at_sending node at in
        record {
          conserved = omega (
            arith,
            need_at (sending node) at,
            owed_sent node text (waits node (omega arith)) found,
            total-update owed s.nodes (p - 1) node (posted text) pos (omega arith),
          );
          ahead = (omega arith, λ w h. ground (arith, waits w));
          served = λ w wpos wlt h. ground (arith, served_at (sending node) at w);
        }

    sent_all-Inv :
        (node : ℕ)
        → s.phase ≡ sending node
        → p ≤ node
        → Inv (record s { phase = idling (p - items) })
    sent_all-Inv node at all = record {
      conserved = omega (arith, need_at (sending node) at);
      ahead = tt;
      served = λ w wpos wlt h. served_at (sending node) at w wpos wlt (omega arith);
    }

    take_out :
        (before after : List Message) (m : Message)
        → s.inbox ≡ before ++ (m ∷ after)
        → length s.inbox ≡ length (before ++ after) + 1
    take_out before after m e =
        rw e (omega (arith, length-append before (m ∷ after), length-append before after))

    hear_idle-Inv :
        (c : ℕ) (before after : List Message) (m : Message)
        → s.phase ≡ idling c
        → 1 < c
        → s.inbox ≡ before ++ (m ∷ after)
        → Inv
            (record s { phase = idling (c - 1); inbox = before ++ after; log = s.log ++ (m ∷ []) })
    hear_idle-Inv c before after m at more e = record {
      conserved = omega (arith, need_at (idling c) at, take_out before after m e);
      ahead = tt;
      served = λ w wpos wlt h. served_at (idling c) at w wpos wlt tt;
    }

    idle_over-Inv : (c : ℕ) → s.phase ≡ idling c → c ≤ 1 → Inv (record s { phase = collecting 1 })
    idle_over-Inv c at over = record {
      conserved = omega (arith, need_at (idling c) at);
      ahead = tt;
      served = λ w wpos wlt h. served_at (idling c) at w wpos wlt tt;
    }

    hear_job-Inv :
        (c : ℕ) (before after : List Message) (m : Message)
        → s.phase ≡ collecting c
        → c ≤ items
        → s.inbox ≡ before ++ (m ∷ after)
        → Inv (record s {
          phase = collecting (c + 1);
          inbox = before ++ after;
          log = s.log ++ (m ∷ []);
        })
    hear_job-Inv c before after m at more e = record {
      conserved = omega (arith, need_at (collecting c) at, take_out before after m e);
      ahead = tt;
      served = λ w wpos wlt h. served_at (collecting c) at w wpos wlt tt;
    }

    finish-Inv : (c : ℕ) → s.phase ≡ collecting c → items < c → Inv (record s { phase = done })
    finish-Inv c at over = record {
      conserved = omega (arith, need_at (collecting c) at);
      ahead = tt;
      served = λ w wpos wlt h. served_at (collecting c) at w wpos wlt tt;
    }

    -- A slave that was sent its text is none of those that the master has not reached.
    slave-Inv :
        (w : ℕ) (old new : Node) (inbox : List Message)
        → 0 < w
        → w < p
        → s.nodes w ≡ old
        → old ≢ waiting
        → new ≢ waiting
        → length inbox + owed w new ≡ length s.inbox + owed w old
        → Inv (record s { nodes = update s.nodes w new; inbox = inbox })
    slave-Inv w old new inbox pos lt is moved moves kept = record {
      conserved = omega (
        arith,
        inv.conserved,
        kept,
        ap (owed w) is,
        total-update owed s.nodes (p - 1) w new pos (omega arith),
      );
      ahead = Ahead-update s.phase s.nodes w new inv.ahead (λ e. moved (sym is ∙ e));
      served = λ v vpos vlt h. ground (arith, inv.served v vpos vlt h);
    }

  Step-Inv : {s t : Net} → Step r s t → Inv s → Inv t
  Step-Inv {s} (send {node} {text} at lt found) inv = send-Inv s inv node text at lt found
  Step-Inv {s} (sent_all {node} at all) inv = sent_all-Inv s inv node at all
  Step-Inv {s} (hear_idle {c} before after m at more e) inv =
      hear_idle-Inv s inv c before after m at more e
  Step-Inv {s} (idle_over {c} at over) inv = idle_over-Inv s inv c at over
  Step-Inv {s} (hear_job {c} before after m at more e) inv =
      hear_job-Inv s inv c before after m at more e
  Step-Inv {s} (finish {c} at over) inv = finish-Inv s inv c at over
  Step-Inv {s} (receive {w} {text} pos lt is) inv =
      slave-Inv s inv w (posted text) (working (reply w text)) s.inbox pos lt is (λ e. cc) (λ e. cc)
        refl
  Step-Inv {s} (emit {w} {m} {ms} pos lt is) inv =
      slave-Inv s inv w (working (m ∷ ms)) (working ms) (s.inbox ++ (m ∷ [])) pos lt is (λ e. cc)
        (λ e. cc) (omega (arith, length-append s.inbox (m ∷ [])))

  -- The invariant holds in every reachable state.
  pub Reach-Inv : {s : Net} → IsBalanced → Reach r s → Inv s
  Reach-Inv b here = start-Inv b
  Reach-Inv b (next reach step) = Step-Inv step (Reach-Inv b reach)
