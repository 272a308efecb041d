-- ===== src/Replica/Sending.antt =====
-- `send_to` for several members.
use raxos.Prelude.{
  ℕ, ◌<◌, ◌≡◌, sym, ap, ◌∙◌, true, not, some, List, [], ◌∷◌, ◌++◌, append-nil, append_assoc, get_or,
  range, All, All-range, All-select, All-map, get_elem?-get_or, ◌==◌,
}
use raxos.Types.{ReplicaId}
use raxos.Wire.{Message, Payload}
use raxos.Replica.{Replica, Action, send, message_of, size, send_to, push, others, send_all}

-- One message to each of some members.
abbrev pub to_each : List ReplicaId → Message → List ℕ → List Action
to_each replicas message [] = []
to_each replicas message (idx ∷ rest) =
    send (get_or replicas idx 0) message ∷ to_each replicas message rest

pub others-lt : (r : Replica) → All (λ (idx : ℕ). idx < size r) (others r)
others-lt r =
    let p = λ (idx : ℕ). not (idx == r.me_idx) in
    All-map (λ (idx : ℕ). (idx < size r) × (p idx ≡ true)) (λ (idx : ℕ). idx < size r)
      (λ idx (l, e). l) (others r)
      (All-select (λ idx. idx < size r) p (range (size r))
        (All-range (λ idx. idx < size r) (size r) (λ idx l. l)))

pub send_all-to_each :
    (payload : Payload) (cs : List ℕ) (r : Replica)
    → All (λ (idx : ℕ). idx < size r) cs
    → send_all payload cs r
      ≡ some
          (record r { actions = r.actions ++ to_each r.config.replicas (message_of payload r) cs })
unfolding send_to
send_all-to_each payload [] r h =
    ap (λ xs. some (record r { actions = xs })) (sym (append-nil r.actions))
send_all-to_each payload (idx ∷ rest) r h =
    let to = get_or r.config.replicas idx 0 in
    let action : Action = send to (message_of payload r) in
    let sent = push action r in
    rw (get_elem?-get_or r.config.replicas idx 0 h.0) (
      send_all-to_each payload rest sent h.1
      ∙ ap (λ xs. some (record r { actions = xs }))
          (append_assoc r.actions (action ∷ [])
            (to_each r.config.replicas (message_of payload r) rest)))
