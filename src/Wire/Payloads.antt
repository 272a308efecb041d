-- ===== src/Wire/Payloads.antt =====
-- The readers of the payloads against their encodings.
use raxos.Prelude.{
  ℕ, ◌<◌, ◌≡◌, refl, Option, none, some, [], ◌∷◌, ◌++◌, Bytes, IsU32, IsU64, All, length, arith,
  ◌==◌, ◌||◌,
}
use raxos.Types.{Proposal}
use raxos.Codec.{encode_bytes, decode_bytes, encode_command, decode_command}
use raxos.Codec.Readers.{
  Reads, Reads-bind, Reads-last, Reads-pure, Reads-reject, Reads-u8, Reads-u32, Reads-u64,
}
use raxos.Codec.Parses.{
  Parses, Parses-bind, Parses-last, Parses-pure, Parses-reject, Parses-fail, Parses-if, Parses-u8,
  Parses-u32, Parses-u64, IsWord, IsOneByte,
}
use raxos.Codec.Batch.{
  IsData, IsCommand, Spells, Reads-data, Parses-IsData, Reads-command, Reads-counted,
}
use raxos.Wire.{
  ReplyFirst, echo, full, Payload, record_call, record_reply, decide, forward, learn, learn_reply,
  ping, kind, encode_proposal, decode_proposal, encode_first, decode_first, encode_agg, decode_agg,
  encode_payload, decode_payload, decode_record, decode_record_reply, decode_decide, decode_forward,
  decode_learn, decode_learn_reply,
}

-- Words in range, and neither the priority nor the proposer zero.
pub record IsProposal (p : Proposal) : Type 0 where
  pub priority : IsU32 p.priority
  pub priority_pos : 0 < p.priority
  pub proposer : IsU64 p.proposer
  pub proposer_pos : 0 < p.proposer
  pub value : IsData p.value

abbrev pub IsFirst : ReplyFirst → Type 0
IsFirst echo = Unit {0}
IsFirst (full p) = IsProposal p

abbrev pub IsAgg : Option Proposal → Type 0
IsAgg none = Unit {0}
IsAgg (some p) = IsProposal p

-- A payload that the wire format can carry.
abbrev pub IsPayload : Payload → Type 0
IsPayload (record_call slot step proposal) = IsU64 slot × IsU32 step × IsProposal proposal
IsPayload (record_reply slot req_step step first prior_agg) =
    IsU64 slot × IsU32 req_step × IsU32 step × IsFirst first × IsAgg prior_agg
IsPayload (decide slot value) = IsU64 slot × IsData value
IsPayload (forward commands) = IsU32 (length commands) × All IsCommand commands
IsPayload (learn from_slot) = IsU64 from_slot
IsPayload (learn_reply first_slot values) =
    IsU64 first_slot × IsU32 (length values) × All IsData values
IsPayload ping = Unit {0}

Reads-proposal : (p : Proposal) → IsProposal p → Reads decode_proposal (encode_proposal p) p
unfolding decode_proposal encode_proposal
Reads-proposal p h = Reads-bind _ _ _ (Reads-u32 p.priority h.priority) (
    Reads-bind _ _ _ (Reads-u64 p.proposer h.proposer) (
      Reads-reject (p.priority == 0 || p.proposer == 0) (ground arith) (
        Reads-last (λ value. record { priority = p.priority; proposer = p.proposer; value = value })
          (Reads-data p.value h.value))))

pub Parses-IsProposal : Parses decode_proposal (Spells encode_proposal IsProposal)
unfolding decode_proposal encode_proposal
Parses-IsProposal = Parses-bind _ (IsWord 4) _ Parses-u32 λ priority u pu.
    Parses-bind _ (IsWord 8) _ Parses-u64 λ proposer v pv.
      Parses-reject (priority == 0 || proposer == 0) _ λ nonzero.
        Parses-last (λ value. record { priority = priority; proposer = proposer; value = value })
          (Spells encode_bytes IsData) _ Parses-IsData
          λ value w pw. (
            rw (pu.0, pv.0, pw.0),
            record {
              priority = pu.1;
              priority_pos = ground arith;
              proposer = pv.1;
              proposer_pos = ground arith;
              value = pw.1;
            },
          )

Reads-first : (f : ReplyFirst) → IsFirst f → Reads decode_first (encode_first f) f
unfolding decode_first encode_first
Reads-first echo h = Reads-bind _ _ [] (Reads-u8 0) (Reads-pure echo)
Reads-first (full p) h = Reads-bind _ (1 ∷ []) _ (Reads-u8 1) (Reads-last full (Reads-proposal p h))

Reads-agg : (a : Option Proposal) → IsAgg a → Reads decode_agg (encode_agg a) a
unfolding decode_agg encode_agg
Reads-agg none h = Reads-bind _ _ [] (Reads-u8 0) (Reads-pure none)
Reads-agg (some p) h = Reads-bind _ (1 ∷ []) _ (Reads-u8 1) (Reads-last some (Reads-proposal p h))

-- A tag byte and what follows it.
tag_is : (tag t : ℕ) (u : Bytes) {v w : Bytes} → tag ≡ t → IsOneByte tag u → w ≡ v → t ∷ w ≡ u ++ v
tag_is tag t u e one s = rw (← one.0, e, s)

pub Parses-IsFirst : Parses decode_first (Spells encode_first IsFirst)
unfolding decode_first encode_first
Parses-IsFirst = Parses-bind _ IsOneByte _ Parses-u8 λ tag u w.
    Parses-if (tag == 0) _
      (λ zero_tag. Parses-pure echo _ (tag_is tag 0 u (ground arith) w refl, tt))
      (λ _.
        Parses-if (tag == 1) _
          (λ one_tag.
            Parses-last full (Spells encode_proposal IsProposal) _ Parses-IsProposal
              λ p v pv. (tag_is tag 1 u (ground arith) w pv.0, pv.1))
          (λ _. Parses-fail _))

pub Parses-IsAgg : Parses decode_agg (Spells encode_agg IsAgg)
unfolding decode_agg encode_agg
Parses-IsAgg = Parses-bind _ IsOneByte _ Parses-u8 λ tag u w.
    Parses-if (tag == 0) _
      (λ zero_tag. Parses-pure none _ (tag_is tag 0 u (ground arith) w refl, tt))
      (λ _.
        Parses-if (tag == 1) _
          (λ one_tag.
            Parses-last some (Spells encode_proposal IsProposal) _ Parses-IsProposal
              λ p v pv. (tag_is tag 1 u (ground arith) w pv.0, pv.1))
          (λ _. Parses-fail _))

-- With the kind that `encode` writes, the payload is read back.
pub Reads-payload :
    (p : Payload) → IsPayload p → Reads (decode_payload (kind p)) (encode_payload p) p
unfolding kind decode_payload encode_payload decode_record decode_record_reply decode_decide
    decode_forward decode_learn decode_learn_reply
Reads-payload (record_call slot step proposal) h = Reads-bind _ _ _ (Reads-u64 slot h.0) (
    Reads-bind _ _ _ (Reads-u32 step h.1)
      (Reads-last (λ p. record_call slot step p) (Reads-proposal proposal h.2)))
Reads-payload (record_reply slot req_step step first prior_agg) h =
    Reads-bind _ _ _ (Reads-u64 slot h.0) (
      Reads-bind _ _ _ (Reads-u32 req_step h.1) (
        Reads-bind _ _ _ (Reads-u32 step h.2) (
          Reads-bind _ _ _ (Reads-first first h.3)
            (Reads-last (λ a. record_reply slot req_step step first a) (Reads-agg prior_agg h.4)))))
Reads-payload (decide slot value) h =
    Reads-bind _ _ _ (Reads-u64 slot h.0) (Reads-last (λ v. decide slot v) (Reads-data value h.1))
Reads-payload (forward commands) h =
    Reads-last forward
      (Reads-counted encode_command IsCommand decode_command Reads-command commands h.0 h.1)
Reads-payload (learn from_slot) h = Reads-last learn (Reads-u64 from_slot h)
Reads-payload (learn_reply first_slot values) h = Reads-bind _ _ _ (Reads-u64 first_slot h.0) (
    Reads-last (λ vs. learn_reply first_slot vs)
      (Reads-counted encode_bytes IsData decode_bytes Reads-data values h.1 h.2))
Reads-payload ping h = Reads-pure ping
