-- ===== src/Replica/Driving/Rounds.antt =====
-- One round of the loop of `drive`, from the states that a loop goes through.
use raxos.Prelude.{
  ℕ, ◌<◌, ◌≡◌, refl, sym, ap, ◌∙◌, some, ◌>>=◌, List, [], ◌∷◌, ◌++◌, append-nil, append_assoc,
  length, get_or, get_elem?-get_or, All,
}
use raxos.Prelude.Map
use raxos.Prelude.Ordered.{nat_ord}
use raxos.Types.{ReplicaId, Slot, Proposal}
use raxos.Wire.{Message, Payload, record_call}
use raxos.Rng.{Rng}
use raxos.Proposer.{Run, running, proposal_for}
use raxos.Proposer.Beginning.{Sends, IsFresh, begin_step-IsFresh}
use raxos.Replica.{
  Replica, SlotState, Action, send, message_of, push, send_to, size, others, is_leader,
}
use raxos.Replica.Sending.{others-lt}
use raxos.Replica.Replying.{rest, drive, put_run, begin}
use raxos.Replica.Driving.{send_step, broadcast}

-- The replica with one slot, the generator and the queue changed.
abbrev pub touched : Slot → SlotState → Rng → List Action → Replica → Replica
touched slot state rng actions r = record r {
  slots = Map.insert slot state r.slots;
  rng = rng;
  actions = actions;
}

-- The messages of the broadcast of a step, each with the proposal for its recorder; `message`
-- puts a payload under the header of the replica.
abbrev pub Calls :
    Slot → ℕ → Run → List ReplicaId → (Payload → Message) → List ℕ → List Action → Type 0
Calls slot step run replicas message [] acts = acts ≡ []
Calls slot step run replicas message (idx ∷ idxs) [] = ⊥
Calls slot step run replicas message (idx ∷ idxs) (act ∷ acts) =
    ((p : Proposal) × (proposal_for run idx ≡ some p)
      × (act ≡ send (get_or replicas idx 0) (message (record_call slot step p))))
    × Calls slot step run replicas message idxs acts

send_step-Calls :
    (slot : Slot) (step : ℕ) (run : Run) (idxs : List ℕ) (r : Replica)
    → Sends run (size r)
    → All (λ (idx : ℕ). idx < size r) idxs
    → (acts : List Action) × Calls slot step run r.config.replicas
        (λ payload. message_of payload r)
        idxs
        acts
      × (send_step slot step run idxs r ≡ some (record r { actions = r.actions ++ acts }))
unfolding send_to
send_step-Calls slot step run [] r s h =
    ([], refl, ap (λ xs. some (record r { actions = xs })) (sym (append-nil r.actions)))
send_step-Calls slot step run (idx ∷ idxs) r s h =
    let (p, e) = s idx h.0 in
    let act : Action =
      send (get_or r.config.replicas idx 0) (message_of (record_call slot step p) r) in
    let (acts, sends, at) = send_step-Calls slot step run idxs (push act r) s h.1 in
    (
      act ∷ acts,
      ((p, e, refl), sends),
      rw (e, get_elem?-get_or r.config.replicas idx 0 h.0)
          (at
            ∙ ap (λ xs. some (record r { actions = xs })) (append_assoc r.actions (act ∷ []) acts)),
    )

pub broadcast-Calls :
    (slot : Slot) (step : ℕ) (state : SlotState) (run : Run) (r : Replica)
    → Sends run (size r)
    → (acts : List Action) × Calls slot step run r.config.replicas
        (λ payload. message_of payload r)
        (others r)
        acts
      × (broadcast slot step state run r
          ≡ some (
            rest,
            touched slot (record state { proposer = running run }) r.rng (r.actions ++ acts) r,
          ))
broadcast-Calls slot step state run r s =
    let (acts, sends, e) =
      send_step-Calls slot step run (others r) (put_run slot state run r) s (others-lt r) in
    (acts, sends, ap (λ o. o >>= λ sent. some (rest, sent)) e)

pub begin-IsFresh :
    (now : ℕ) (slot : Slot) (state : SlotState) (run : Run) (r : Replica)
    → r.me_idx < size r
    → length run.replied ≡ size r
    → (run' : Run) × (rng : Rng) × IsFresh (size r) run'
      × (run'.step ≡ run.step)
      × (begin now slot state run r
          ≡ some (drive, touched slot (record state { proposer = running run' }) rng r.actions r))
begin-IsFresh now slot state run r h l =
    let ((run', rng), e, fresh, at) =
      begin_step-IsFresh run r.config.me r.me_idx (size r) now (is_leader r) r.rng h l in
    (
      run',
      rng,
      fresh,
      at,
      ap
          (λ o.
            o >>= λ (begun, rng). some (drive, record (put_run slot state begun r) { rng = rng }))
          e,
    )
