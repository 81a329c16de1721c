-- ===== src/PyStager/Protocol/Log/Delivery.antt =====
-- An abstract view of the network of wfppdl/PyStager/mpi_stager_v2.py: messages that are outstanding, and
-- messages that are logged, without their order and without the place where they are.
use mathlib.Core.List.{Perm, append_assoc, append-nil, perm_middle}
use mathlib.Core.List.Perm
use mathlib.Core.Path.{ap₂}
use mathlib.Core.Quot
use mathlib.Core.Quot.{Quot, Quot-set}
use container_hackathon.Prelude.{
  ℕ, ◌-◌, arith, ◌≡◌, ◌+◌, refl, sym, ap, subst, ◌∙◌, ◌⊎◌, inl, inr, List, [], ◌∷◌, ◌++◌,
}
use container_hackathon.PyStager.Worker.{Message}
use container_hackathon.PyStager.Protocol.{
  Phase, Node, idling, collecting, done, working, posted, Net, update, Run, Step, send, sent_all,
  hear_idle, idle_over, hear_job, finish, receive, emit, Reach, here, next,
}
use container_hackathon.PyStager.Protocol.Invariant.{IsBalanced, Inv, Reach-Inv, at_sending}
use container_hackathon.PyStager.Protocol.Log.{
  gather, due, unsent, unsent_all, update-same, update-emit, emit-perm, done-empty, done-logged,
}

-- Messages, as often as they are there.
abbrev pub Bag : Type 0
Bag = Quot (Perm {A = Message})

abbrev pub of_list : List Message → Bag
of_list = Quot.mk

pub put : Message → Bag → Bag
put m =
    Quot.lift Quot-set (λ ms. of_list (m ∷ ms))
      (λ ms ns h. Quot.sound (Perm.append_left (m ∷ []) h))

-- What the staging does for one who sees neither the master nor the slaves.
pub record Delivery : Type 0 where
  pub outstanding : Bag
  pub logged : Bag

-- One message is delivered.
pub data Deliver (d e : Delivery) : Type 0 where
  deliver :
      (m : Message) → d.outstanding ≡ put m e.outstanding → e.logged ≡ put m d.logged → Deliver d e

-- Messages are delivered, one after the other.
pub data Deliveries (d : Delivery) : Delivery → Type 0 where
  none_yet : Deliveries d d
  one_more : {e f : Delivery} → Deliveries d e → Deliver e f → Deliveries d f

module _ (r : Run) where
  open r use {p}

  abbrev pub view : Net → Delivery
  view s = record {
    outstanding = of_list (s.inbox ++ unsent_all r s.nodes);
    logged = of_list s.log;
  }

  put-hear :
      (before after rest : List Message) (m : Message)
      → of_list ((before ++ (m ∷ after)) ++ rest) ≡ put m (of_list ((before ++ after) ++ rest))
  unfolding put
  put-hear before after rest m = Quot.sound (
      rw (append_assoc before (m ∷ after) rest, append_assoc before after rest)
        (perm_middle before (after ++ rest)))

  put-log : (log : List Message) (m : Message) → of_list (log ++ (m ∷ [])) ≡ put m (of_list log)
  unfolding put
  put-log log m =
      let moved : Perm (log ++ (m ∷ [])) (m ∷ (log ++ [])) = perm_middle log [] in
      Quot.sound (rw (append-nil log) at moved)

  moved :
      (s : Net) (nodes : ℕ → Node)
      → unsent_all r nodes ≡ unsent_all r s.nodes
      → view s ≡ view (record s { nodes = nodes })
  moved s nodes same =
      ap (λ ms. record { outstanding = of_list (s.inbox ++ ms); logged = of_list s.log }) (sym same)

  heard :
      (s : Net) (before after : List Message) (m : Message) (phase : Phase)
      → s.inbox ≡ before ++ (m ∷ after)
      → Deliver
          (view s)
          (view (record s { phase = phase; inbox = before ++ after; log = s.log ++ (m ∷ []) }))
  heard s before after m phase e =
      deliver m
        (ap (λ ms. of_list (ms ++ unsent_all r s.nodes)) e
          ∙ put-hear before after (unsent_all r s.nodes) m)
        (put-log s.log m)

  -- A step of the network is nothing to the view, or it delivers a message.
  view-Step : {s t : Net} → Inv r s → Step r s t → (view s ≡ view t) ⊎ Deliver (view s) (view t)
  view-Step {s} inv (send {node} {text} at lt found) =
      let sent : unsent r node (s.nodes node) ≡ r.reply node text =
        rw ((at_sending r s inv node at).1 node (omega arith), found) in
      inl (
        moved s (update s.nodes node (posted text)) (update-same r s.nodes node (posted text) sent))
  view-Step {s} inv (sent_all {node} at all) = inl refl
  view-Step {s} inv (hear_idle {c} before after m at more e) =
      inr (heard s before after m (idling (c - 1)) e)
  view-Step {s} inv (idle_over {c} at over) = inl refl
  view-Step {s} inv (hear_job {c} before after m at more e) =
      inr (heard s before after m (collecting (c + 1)) e)
  view-Step {s} inv (finish {c} at over) = inl refl
  view-Step {s} inv (receive {w} {text} pos lt is) = inl (
      moved s (update s.nodes w (working (r.reply w text)))
        (update-same r s.nodes w (working (r.reply w text)) (ap (unsent r w) is)))
  view-Step {s} inv (emit {w} {m} {ms} pos lt is) =
      let sent =
        emit-perm [] s.inbox (unsent_all r s.nodes) (unsent_all r (update s.nodes w (working ms))) m
          (update-emit r s.nodes w m ms pos lt is) in
      inl (
        ap (λ bag. record { outstanding = bag; logged = of_list s.log })
          (Quot.sound (Perm.symm sent)))

  follow : {d e f : Delivery} → Deliveries d e → (e ≡ f) ⊎ Deliver e f → Deliveries d f
  follow {d} so_far (inl same) = subst (Deliveries d) same so_far
  follow so_far (inr step) = one_more so_far step

  -- For a run in which every slave is sent something and the slaves have as many messages as the master
  -- waits for: whatever order the steps come in, the network does nothing but deliver, one after the other,
  -- messages of a bag that has those of all slaves. When the master is done, the bag is empty and all of
  -- them are logged.
  pub delivers :
      {s : Net}
      → IsBalanced r
      → Reach r s
      → Deliveries
          (record { outstanding = of_list (gather (p - 1) (due r)); logged = of_list [] })
          (view s)
        × (s.phase ≡ done
            → view s
              ≡ record { outstanding = of_list []; logged = of_list (gather (p - 1) (due r)) })
  delivers {s} b reach = (path reach, ended)
    where
      path :
          {t : Net}
          → Reach r t
          → Deliveries
              (record { outstanding = of_list (gather (p - 1) (due r)); logged = of_list [] })
              (view t)
      path here = none_yet
      path (next before step) = follow (path before) (view-Step (Reach-Inv r b before) step)

      ended :
          s.phase ≡ done
          → view s ≡ record { outstanding = of_list []; logged = of_list (gather (p - 1) (due r)) }
      ended at =
          let (empty, nothing) = done-empty r b reach at in
          let logged : of_list s.log ≡ of_list (gather (p - 1) (due r)) =
            Quot.sound (done-logged r b reach at) in
          let left : s.inbox ++ unsent_all r s.nodes ≡ [] = rw (empty, nothing) refl in
          ap₂ (λ ms bag. record { outstanding = of_list ms; logged = bag }) left logged
