-- ===== src/Replica/Opening/Pipeline.antt =====
-- What opening relies on and what it keeps: slots change only within the pipeline.
use raxos.Prelude.{
  Bytes, ℕ, ◌+◌, ◌≤◌, ◌<◌, ◌≡◌, ◌⊎◌, inl, inr, refl, sym, ap, subst, ◌∙◌, true, false, List, [],
  ◌∷◌, IsU32, IsU64, max, ◌++◌, arith,
}
use raxos.Prelude.Map
use raxos.Prelude.Map.{Map}
use raxos.Prelude.Map.Sorted.{IsSorted}
use raxos.Prelude.Ordered.{nat_ord}
use raxos.Types.{Slot, CommandId, id_ord}
use raxos.Rng.{Rng}
use raxos.Pool.{PoolEntry}
use raxos.Replica.{refresh_pool_pending, Replica, SlotState, Action, size}
use raxos.Replica.Recording.{slot_at}
use raxos.Replica.Recording.Answers.{IsOpen, IsRecording, put_slot-IsRecording}
use raxos.Replica.Batching.{claim}
use raxos.Replica.Batching.Keeping.{Keeps, Keeps-refl, Keeps-trans}
use raxos.Replica.Driving.Rounds.{touched}
use raxos.Replica.Opening.{last_from, last_known, next_open, has_room}
use raxos.Replica.Opening.Activating.{Activates, kept, begun}

-- What opening relies on, in a group of two or more.
pub record IsPipelined (r : Replica) : Type 0 where
  pub recording : IsRecording r
  pub inside : r.me_idx < size r
  pub quorum : (2 ≤ r.quorum) × IsU32 r.quorum
  pub pool : IsSorted r.pool.entries
  pub known : IsU64 (last_known r.slots + 1)
  pub highest : IsU64 (r.max_open + 1)
  pub word : IsU64 (r.decided_contig + r.config.pipeline + 1)

-- From `r` to `r'`, slots change only from `low` to the end of the pipeline, and neither the
-- frontier nor what the pool holds changes.
pub record Opens (low : Slot) (r r' : Replica) : Type 0 where
  pub config : r'.config ≡ r.config
  pub frontier : r'.decided_contig ≡ r.decided_contig
  pub dedup : r'.dedup ≡ r.dedup
  pub bytes : r'.pool.bytes ≡ r.pool.bytes
  pub keeps : Keeps r.pool.entries r'.pool.entries
  pub numbered : r'.next_seq ≡ r.next_seq
  pub below : (s : Slot) → s < low → Map.get r'.slots s ≡ Map.get r.slots s
  pub above :
      (s : Slot) → r.decided_contig + r.config.pipeline < s → Map.get r'.slots s ≡ Map.get r.slots s

pub Opens-refl : (low : Slot) (r : Replica) → Opens low r r
Opens-refl low r = record {
  config = refl;
  frontier = refl;
  dedup = refl;
  bytes = refl;
  keeps = Keeps-refl r.pool.entries;
  numbered = refl;
  below = λ s l. refl;
  above = λ s l. refl;
}

pub Opens-trans : (low : Slot) (a b c : Replica) → Opens low a b → Opens low b c → Opens low a c
Opens-trans low a b c ab bc = record {
  config = bc.config ∙ ab.config;
  frontier = bc.frontier ∙ ab.frontier;
  dedup = bc.dedup ∙ ab.dedup;
  bytes = bc.bytes ∙ ab.bytes;
  keeps = Keeps-trans a.pool.entries b.pool.entries c.pool.entries ab.keeps bc.keeps;
  numbered = bc.numbered ∙ ab.numbered;
  below = λ s l. bc.below s l ∙ ab.below s l;
  above = λ s l.
      bc.above s (
        let e : b.config.pipeline ≡ a.config.pipeline = ap (λ c. c.pipeline) ab.config in
        omega (arith, l, e, ab.frontier))
      ∙ ab.above s l;
}

last_from-insert :
    (found slot : Slot) (state : SlotState) (slots : Map Slot SlotState)
    → (last_from found (Map.insert slot state slots) ≡ slot)
      ⊎ (last_from found (Map.insert slot state slots) ≡ last_from found slots)
unfolding Map.insert
last_from-insert found slot state [] = inl refl
last_from-insert found slot state ((s, old) ∷ slots) =
    ground (arith, nat_ord.eq_of_cmp slot s, last_from-insert s slot state slots)

-- A slot within the pipeline may be touched.
pub touched-Opens :
    (low slot : Slot) (state : SlotState) (rng : Rng) (acts : List Action) (r : Replica)
    → low ≤ slot
    → slot ≤ r.decided_contig + r.config.pipeline
    → Opens low r (touched slot state rng acts r)
touched-Opens low slot state rng acts r le within = record {
  config = refl;
  frontier = refl;
  dedup = refl;
  bytes = refl;
  keeps = Keeps-refl r.pool.entries;
  numbered = refl;
  below = λ s l. ground (arith, Map.get-insert r.slots slot s state, l, le);
  above = λ s l. ground (arith, Map.get-insert r.slots slot s state, l, within);
}

pub touched-IsPipelined :
    (slot : Slot) (state : SlotState) (rng : Rng) (acts : List Action) (r : Replica)
    → IsPipelined r
    → IsOpen state.recorder
    → IsU64 (slot + 1)
    → IsPipelined (touched slot state rng acts r)
unfolding slot_at
touched-IsPipelined slot state rng acts r h o u = record {
  recording = put_slot-IsRecording slot state r h.recording o;
  inside = h.inside;
  quorum = h.quorum;
  pool = h.pool;
  known = elim (last_from-insert 0 slot state r.slots) [
    | inl e ↦ omega (arith, e, u)
    | inr e ↦ omega (arith, e, h.known)
  ];
  highest = h.highest;
  word = h.word;
}

pub Activates-Opens :
    (now : ℕ) (low slot : Slot) (value : Bytes) (r r' : Replica)
    → Activates now slot value r r'
    → IsPipelined r
    → low ≤ slot
    → slot ≤ r.decided_contig + r.config.pipeline
    → Opens low r r' × IsPipelined r' × (r'.max_open ≡ r.max_open)
Activates-Opens now low slot value r r' (kept _) h le within =
    let state = slot_at now slot r in
    (
      touched-Opens low slot state r.rng r.actions r le within,
      touched-IsPipelined slot state r.rng r.actions r h (h.recording now slot)
          (omega (arith, within, h.word)),
      refl,
    )
Activates-Opens now low slot value r r' (begun _ _ _ _ _ _ d) h le within =
    let acts = r.actions ++ d.acts in
    let opened : IsOpen d.state.recorder = subst IsOpen (sym d.sent.records) d.sent.opened in
    subst (λ (x : Replica). Opens low r x × IsPipelined x × (x.max_open ≡ r.max_open)) (sym d.is)
      (
        touched-Opens low slot d.state d.rng acts r le within,
        touched-IsPipelined slot d.state d.rng acts r h opened (omega (arith, within, h.word)),
        refl,
      )

-- The slot that a round opens: above all that is open or delivered, and within the pipeline.
pub next_open-bounds :
    (r : Replica)
    → IsPipelined r
    → (next_open r ≡ max (max r.max_open r.decided_contig) (last_known r.slots) + 1)
      × ((has_room r ≡ true) → next_open r ≤ r.decided_contig + r.config.pipeline)
unfolding has_room
next_open-bounds r h = (omega (arith, h.known, h.highest, h.word), λ e. ground (arith, e, h.word))

-- Nothing is left to open.
abbrev pub IsFull : Replica → Type 0
IsFull r =
    (has_room r ≡ false) ⊎ (claim r.config.max_batch_bytes r.dedup r.pool.entries true 0 ≡ [])

-- The replica once a batch has been taken for `slot`.
abbrev pub taken : Slot → Map CommandId PoolEntry → Replica → Replica
taken slot entries r = record r { pool = record r.pool { entries = entries }; max_open = slot }

pub taken-IsPipelined :
    (slot : Slot) (entries : Map CommandId PoolEntry) (r : Replica)
    → IsPipelined r
    → IsSorted entries
    → IsU64 (slot + 1)
    → IsPipelined (taken slot entries r)
unfolding slot_at
taken-IsPipelined slot entries r h s u = record {
  recording = h.recording;
  inside = h.inside;
  quorum = h.quorum;
  pool = s;
  known = h.known;
  highest = u;
  word = h.word;
}

pub taken-Opens :
    (low slot : Slot) (entries : Map CommandId PoolEntry) (r : Replica)
    → Keeps r.pool.entries entries
    → Opens low r (taken slot entries r)
taken-Opens low slot entries r k = record {
  config = refl;
  frontier = refl;
  dedup = refl;
  bytes = refl;
  keeps = k;
  numbered = refl;
  below = λ s l. refl;
  above = λ s l. refl;
}

pub refresh_pool_pending-IsPipelined :
    (now : ℕ) (r : Replica) → IsPipelined r → IsPipelined (refresh_pool_pending now r)
unfolding refresh_pool_pending slot_at
refresh_pool_pending-IsPipelined now r h = record {
  recording = h.recording;
  inside = h.inside;
  quorum = h.quorum;
  pool = h.pool;
  known = h.known;
  highest = h.highest;
  word = h.word;
}
