-- ===== src/PyStager/Protocol.antt =====
-- The messages between the master and the slaves of wfppdl/PyStager/mpi_stager_v2.py, as steps of
-- one network. The slaves run side by side, and `comm.recv()` takes any message that has arrived.
pub mod Sums
pub mod Invariant
pub mod Progress
pub mod Log
use mathlib.Core.Logic.{ite}
use container_hackathon.Prelude.{
  ℕ, zero, suc, ◌+◌, ◌-◌, ◌<◌, ◌≤◌, ◌≡◌, Option, none, some, List, [], ◌∷◌, ◌++◌,
}
use container_hackathon.Prelude.{ℕ_discrete}
use container_hackathon.Prelude.Text.{Text}
use container_hackathon.Prelude.Dict.{Dict, lookup}
use container_hackathon.PyStager.Worker.{Message}

-- Where the master stands: in the loop that sends, with the next node; in the loop that waits for
-- idle nodes, with its counter; in the loop that waits for jobs, with its counter; at its end.
pub data Phase : Type 0 where
  sending : (node : ℕ) → Phase
  idling : (idle_counter : ℕ) → Phase
  collecting : (message_counter : ℕ) → Phase
  done : Phase

-- Where a slave stands: its `comm.recv()` has nothing to take; its job list has arrived; it works
-- and has these messages still to send.
pub data Node : Type 0 where
  waiting : Node
  posted : Option Text → Node
  working : List Message → Node

pub record Net : Type 0 where
  pub phase : Phase
  pub nodes : ℕ → Node
  -- The messages to the master that it has not taken yet, and those that it has logged.
  pub inbox : List Message
  pub log : List Message

abbrev pub update : (ℕ → Node) → ℕ → Node → ℕ → Node
update nodes w n v = ite (ℕ_discrete w v) n (nodes v)

-- A run: the number `p` of processes, the result of `load_distributor`, the number of items, and
-- the messages of a slave, by its rank and what it is sent.
pub record Run : Type 0 where
  pub p : ℕ
  pub transfer_dict : Dict (Option Text)
  pub items : ℕ
  pub reply : ℕ → Option Text → List Message

-- One step of the master or of a slave. An idle counter below 1 is not told from 0: the loop ends
-- at either.
pub data Step (r : Run) (s : Net) : Net → Type 0 where
  send :
      {node : ℕ} {text : Option Text}
      → s.phase ≡ sending node
      → node < r.p
      → lookup node r.transfer_dict ≡ some text
      → Step r s
          (record s { phase = sending (node + 1); nodes = update s.nodes node (posted text) })
  sent_all :
      {node : ℕ}
      → s.phase ≡ sending node
      → r.p ≤ node
      → Step r s (record s { phase = idling (r.p - r.items) })
  hear_idle :
      {c : ℕ} (before after : List Message) (m : Message)
      → s.phase ≡ idling c
      → 1 < c
      → s.inbox ≡ before ++ (m ∷ after)
      → Step r s
          (record s { phase = idling (c - 1); inbox = before ++ after; log = s.log ++ (m ∷ []) })
  idle_over : {c : ℕ} → s.phase ≡ idling c → c ≤ 1 → Step r s (record s { phase = collecting 1 })
  hear_job :
      {c : ℕ} (before after : List Message) (m : Message)
      → s.phase ≡ collecting c
      → c ≤ r.items
      → s.inbox ≡ before ++ (m ∷ after)
      → Step r s (record s {
        phase = collecting (c + 1);
        inbox = before ++ after;
        log = s.log ++ (m ∷ []);
      })
  finish : {c : ℕ} → s.phase ≡ collecting c → r.items < c → Step r s (record s { phase = done })
  receive :
      {w : ℕ} {text : Option Text}
      → 0 < w
      → w < r.p
      → s.nodes w ≡ posted text
      → Step r s (record s { nodes = update s.nodes w (working (r.reply w text)) })
  emit :
      {w : ℕ} {m : Message} {ms : List Message}
      → 0 < w
      → w < r.p
      → s.nodes w ≡ working (m ∷ ms)
      → Step r s (record s { nodes = update s.nodes w (working ms); inbox = s.inbox ++ (m ∷ []) })

abbrev pub start : Net
start = record { phase = sending 1; nodes = λ w. waiting; inbox = []; log = [] }

pub data Reach (r : Run) : Net → Type 0 where
  here : Reach r start
  next : {s t : Net} → Reach r s → Step r s t → Reach r t
