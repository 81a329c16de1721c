-- ===== src/PyStager/Protocol/Log.antt =====
-- What the master has logged when it is done.
pub mod Delivery
use mathlib.Core.List.{Perm, append_assoc, append-nil, perm_middle}
use mathlib.Core.List.Perm
use mathlib.Core.Logic.{if_pos, if_neg}
use container_hackathon.Prelude.{
  ℕ, zero, suc, ◌-◌, ◌<◌, ◌≤◌, ◌≡◌, ◌≢◌, refl, Option, none, some, List, [], ◌∷◌, ◌++◌, arith,
}
use container_hackathon.Prelude.{sym, ap, ◌∙◌, subst, length, length-zero, ℕ_discrete, dec_lt}
use container_hackathon.Prelude.Text.{Text}
use container_hackathon.Prelude.Dict.{lookup}
use container_hackathon.PyStager.Worker.{Message}
use container_hackathon.PyStager.Protocol.{
  done, Node, waiting, posted, working, Net, update, Run, Step, send, sent_all, hear_idle,
  idle_over, hear_job, finish, receive, emit, Reach, here, next,
}
use container_hackathon.PyStager.Protocol.Invariant.{
  owed, replies_to, IsBalanced, Inv, Reach-Inv, at_sending,
}
use container_hackathon.PyStager.Protocol.Progress.{done_lem}

-- The lists `f 1` to `f k`, one after the other.
unfoldable pub gather : ℕ → (ℕ → List Message) → List Message
gather zero f = []
gather (suc k) f = gather k f ++ f (suc k)

gather-cong :
    (k : ℕ) (f g : ℕ → List Message)
    → ((w : ℕ) → 0 < w → w ≤ k → f w ≡ g w)
    → gather k f ≡ gather k g
unfolding gather
gather-cong zero f g h = refl
gather-cong (suc k) f g h =
    rw
      (gather-cong k f g (λ w pos le. h w pos (omega arith)), h (suc k) (omega arith) (omega arith))

gather-emit :
    (k w : ℕ) (f g : ℕ → List Message) (m : Message)
    → 0 < w
    → w ≤ k
    → f w ≡ m ∷ g w
    → ((v : ℕ) → v ≢ w → f v ≡ g v)
    → Perm (gather k f) (m ∷ gather k g)
unfolding gather
gather-emit zero w f g m pos le held same = absurd (omega arith)
gather-emit (suc k) w f g m pos le held same = elim (dec_lt w (suc k)) [
  | yes below ↦
      rw (same (suc k) (omega arith))
        (Perm.append_right (g (suc k)) (gather-emit k w f g m pos (omega arith) held same))
  | no last ↦
      let e : w ≡ suc k = omega arith in
      let now : f (suc k) ≡ m ∷ g (suc k) = subst (λ v. f v ≡ m ∷ g v) e held in
      rw (now, gather-cong k f g (λ v vpos vle. same v (omega arith)))
        (perm_middle (gather k g) (g (suc k)))
]

update_self : (nodes : ℕ → Node) (w : ℕ) (n : Node) → update nodes w n w ≡ n
update_self nodes w n = if_pos (ℕ_discrete w w) refl n (nodes w)

update_other : (nodes : ℕ → Node) (w v : ℕ) (n : Node) → v ≢ w → update nodes w n v ≡ nodes v
update_other nodes w v n ne = if_neg (ℕ_discrete w v) (λ e. ne (sym e)) n (nodes v)

hear-perm :
    (log before after rest : List Message) (m : Message)
    → Perm
        ((log ++ (m ∷ [])) ++ ((before ++ after) ++ rest))
        (log ++ ((before ++ (m ∷ after)) ++ rest))
hear-perm log before after rest m =
    rw (append_assoc log (m ∷ []) ((before ++ after) ++ rest))
      (Perm.append_left log (Perm.symm moved))
  where
    moved : Perm ((before ++ (m ∷ after)) ++ rest) (m ∷ ((before ++ after) ++ rest))
    moved =
        rw (append_assoc before (m ∷ after) rest, append_assoc before after rest)
          (perm_middle before (after ++ rest))

emit-perm :
    (log inbox old new : List Message) (m : Message)
    → Perm old (m ∷ new)
    → Perm (log ++ ((inbox ++ (m ∷ [])) ++ new)) (log ++ (inbox ++ old))
emit-perm log inbox old new m sent =
    rw (append_assoc inbox (m ∷ []) new)
      (Perm.append_left log (Perm.append_left inbox (Perm.symm sent)))

module _ (r : Run) where
  open r use {p, transfer_dict, items, reply}

  abbrev pub due_for : ℕ → Option (Option Text) → List Message
  due_for w none = []
  due_for w (some text) = reply w text

  -- The messages of slave `w`.
  abbrev pub due : ℕ → List Message
  due w = due_for w (lookup w transfer_dict)

  abbrev pub unsent : ℕ → Node → List Message
  unsent w waiting = due w
  unsent w (posted text) = reply w text
  unsent w (working ms) = ms

  -- The messages that slaves have still to send.
  abbrev pub unsent_all : (ℕ → Node) → List Message
  unsent_all nodes = gather (p - 1) (λ w. unsent w (nodes w))

  -- No message is lost or doubled: each is logged, in the inbox, or not sent yet.
  abbrev Logged : Net → Type 0
  Logged s = Perm (s.log ++ (s.inbox ++ unsent_all s.nodes)) (gather (p - 1) due)

  update-same :
      (nodes : ℕ → Node) (w : ℕ) (new : Node)
      → unsent w (nodes w) ≡ unsent w new
      → unsent_all (update nodes w new) ≡ unsent_all nodes
  update-same nodes w new same =
      gather-cong (p - 1) (λ v. unsent v (update nodes w new v)) (λ v. unsent v (nodes v))
        (λ v pos le. at v (ℕ_discrete w v))
    where
      at : (v : ℕ) → Dec (w ≡ v) → unsent v (update nodes w new v) ≡ unsent v (nodes v)
      at v (yes e) = rw (if_pos _ e) (subst (λ u. unsent u new ≡ unsent u (nodes u)) e (sym same))
      at v (no n) = rw (if_neg _ n)

  update-emit :
      (nodes : ℕ → Node) (w : ℕ) (m : Message) (ms : List Message)
      → 0 < w
      → w < p
      → nodes w ≡ working (m ∷ ms)
      → Perm (unsent_all nodes) (m ∷ unsent_all (update nodes w (working ms)))
  update-emit nodes w m ms pos lt is =
      gather-emit (p - 1) w (λ v. unsent v (nodes v))
        (λ v. unsent v (update nodes w (working ms) v)) m pos (omega arith)
        (ap (unsent w) is ∙ ap (λ n. m ∷ unsent w n) (sym (update_self nodes w (working ms))))
        (λ v ne. ap (unsent v) (sym (update_other nodes w v (working ms) ne)))

  Step-Logged : {s t : Net} → Step r s t → Inv r s → Logged s → Logged t
  Step-Logged {s} (send {node} {text} at lt found) inv logged =
      let sent : unsent node (s.nodes node) ≡ reply node text =
        rw ((at_sending r s inv node at).1 node (omega arith), found) in
      rw (update-same s.nodes node (posted text) sent) logged
  Step-Logged {s} (sent_all {node} at all) inv logged = logged
  Step-Logged {s} (hear_idle {c} before after m at more e) inv logged =
      Perm.trans (hear-perm s.log before after (unsent_all s.nodes) m) (rw e at logged)
  Step-Logged {s} (idle_over {c} at over) inv logged = logged
  Step-Logged {s} (hear_job {c} before after m at more e) inv logged =
      Perm.trans (hear-perm s.log before after (unsent_all s.nodes) m) (rw e at logged)
  Step-Logged {s} (finish {c} at over) inv logged = logged
  Step-Logged {s} (receive {w} {text} pos lt is) inv logged =
      rw (update-same s.nodes w (working (reply w text)) (ap (unsent w) is)) logged
  Step-Logged {s} (emit {w} {m} {ms} pos lt is) inv logged =
      Perm.trans
        (emit-perm s.log s.inbox (unsent_all s.nodes) (unsent_all (update s.nodes w (working ms))) m
          (update-emit s.nodes w m ms pos lt is))
        logged

  Reach-Logged : {s : Net} → IsBalanced r → Reach r s → Logged s
  Reach-Logged b here = Perm.refl (gather (p - 1) due)
  Reach-Logged b (next reach step) = Step-Logged step (Reach-Inv r b reach) (Reach-Logged b reach)

  gather-nil :
      (k : ℕ) (f : ℕ → List Message)
      → ((w : ℕ) → 0 < w → w ≤ k → length (f w) ≡ 0)
      → gather k f ≡ []
  unfolding gather
  gather-nil zero f h = refl
  gather-nil (suc k) f h = rw (
    gather-nil k f (λ w pos le. h w pos (omega arith)),
    length-zero (f (suc k)) (h (suc k) (omega arith) (omega arith)),
  )

  pub length-due :
      (w : ℕ) (text : Option (Option Text)) → length (due_for w text) ≡ replies_to r w text
  length-due w none = refl
  length-due w (some text) = refl

  length-unsent : (w : ℕ) (n : Node) → length (unsent w n) ≡ owed r w n
  length-unsent w waiting = length-due w (lookup w transfer_dict)
  length-unsent w (posted text) = refl
  length-unsent w (working ms) = refl

  -- When the master is done, no message is in the inbox, and none is left to send.
  done-empty :
      {s : Net}
      → IsBalanced r
      → Reach r s
      → s.phase ≡ done
      → (s.inbox ≡ []) × (unsent_all s.nodes ≡ [])
  done-empty {s} b reach at =
      let (empty, none_owed) = done_lem r b reach at in
      (
        empty,
        gather-nil (p - 1) (λ w. unsent w (s.nodes w))
            (λ w pos le. length-unsent w (s.nodes w) ∙ none_owed w pos (omega arith)),
      )

  -- For a run in which every slave is sent something and the slaves have as many messages as the master
  -- waits for: when the master is done, it has logged every message of every slave, each one once.
  pub done-logged :
      {s : Net} → IsBalanced r → Reach r s → s.phase ≡ done → Perm s.log (gather (p - 1) due)
  done-logged {s} b reach at =
      let (empty, nothing) = done-empty b reach at in
      rw (empty, nothing, append-nil) at (Reach-Logged b reach)
