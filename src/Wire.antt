-- ===== src/Wire.antt =====
-- src/wire.rs: the protocol messages, their encoding and their decoder. `Err(WireError)`, which
-- carries nothing, is `none`.
pub mod Payloads
pub mod Kinds
pub mod Messages
mod Tests
use raxos.Prelude.{
  ℕ, Bool, ◌||◌, Option, none, some, List, [], ◌∷◌, ◌++◌, Bytes, ◌==◌, not, if◌then◌else◌,
}
use raxos.Types.{ReplicaId, Slot, Proposal}
use raxos.Codec.{
  Command, Reader, ◌>>=◌, ◌>>◌, pure, fail, reject_if, read_u8, read_u32, read_u64, to_le_bytes,
  encode_bytes, decode_bytes, encode_command, decode_command, encode_counted, decode_counted,
  decode_whole,
}

abbrev pub version : ℕ
version = 1

abbrev pub kind_record : ℕ
kind_record = 1

abbrev pub kind_record_reply : ℕ
kind_record_reply = 2

abbrev pub kind_decide : ℕ
kind_decide = 3

abbrev pub kind_forward : ℕ
kind_forward = 4

abbrev pub kind_learn : ℕ
kind_learn = 5

abbrev pub kind_learn_reply : ℕ
kind_learn_reply = 6

abbrev pub kind_ping : ℕ
kind_ping = 7

pub data ReplyFirst : Type 0 where
  echo : ReplyFirst
  full : Proposal → ReplyFirst

-- `Payload`, its fields in the order of the source; `Record` is `record_call`.
pub data Payload : Type 0 where
  record_call : Slot → ℕ → Proposal → Payload
  record_reply : Slot → ℕ → ℕ → ReplyFirst → Option Proposal → Payload
  decide : Slot → Bytes → Payload
  forward : List Command → Payload
  learn : Slot → Payload
  learn_reply : Slot → List Bytes → Payload
  ping : Payload

pub record Message : Type 0 where
  pub from : ReplicaId
  pub decided : Slot
  pub payload : Payload

-- `Payload::kind`
unfoldable pub kind : Payload → ℕ
kind (record_call slot step proposal) = kind_record
kind (record_reply slot req_step step first prior_agg) = kind_record_reply
kind (decide slot value) = kind_decide
kind (forward commands) = kind_forward
kind (learn from_slot) = kind_learn
kind (learn_reply first_slot values) = kind_learn_reply
kind ping = kind_ping

unfoldable pub encode_proposal : Proposal → Bytes
encode_proposal p = to_le_bytes 4 p.priority ++ (to_le_bytes 8 p.proposer ++ encode_bytes p.value)

unfoldable pub decode_proposal : Reader Proposal
decode_proposal = do
  priority ← read_u32
  proposer ← read_u64
  reject_if (priority == 0 || proposer == 0)
  value ← decode_bytes
  pure (record { priority = priority; proposer = proposer; value = value })

unfoldable pub encode_first : ReplyFirst → Bytes
encode_first echo = 0 ∷ []
encode_first (full p) = 1 ∷ encode_proposal p

unfoldable pub decode_first : Reader ReplyFirst
decode_first = do
  tag ← read_u8
  if tag == 0
      then pure echo
      else (if tag == 1 then (do p ← decode_proposal; pure (full p)) else fail)

unfoldable pub encode_agg : Option Proposal → Bytes
encode_agg none = 0 ∷ []
encode_agg (some p) = 1 ∷ encode_proposal p

unfoldable pub decode_agg : Reader (Option Proposal)
decode_agg = do
  tag ← read_u8
  if tag == 0
      then pure none
      else (if tag == 1 then (do p ← decode_proposal; pure (some p)) else fail)

-- The arms of `encode`.
unfoldable pub encode_payload : Payload → Bytes
encode_payload (record_call slot step proposal) =
    to_le_bytes 8 slot ++ (to_le_bytes 4 step ++ encode_proposal proposal)
encode_payload (record_reply slot req_step step first prior_agg) =
    to_le_bytes 8 slot
    ++ (to_le_bytes 4 req_step
        ++ (to_le_bytes 4 step ++ (encode_first first ++ encode_agg prior_agg)))
encode_payload (decide slot value) = to_le_bytes 8 slot ++ encode_bytes value
encode_payload (forward commands) = encode_counted encode_command commands
encode_payload (learn from_slot) = to_le_bytes 8 from_slot
encode_payload (learn_reply first_slot values) =
    to_le_bytes 8 first_slot ++ encode_counted encode_bytes values
encode_payload ping = []

-- `Message::encode`
unfoldable pub encode : Message → Bytes
encode m =
    version
    ∷ (kind m.payload
        ∷ (to_le_bytes 8 m.from ++ (to_le_bytes 8 m.decided ++ encode_payload m.payload)))

unfoldable pub decode_record : Reader Payload
decode_record = do
  slot ← read_u64
  step ← read_u32
  proposal ← decode_proposal
  pure (record_call slot step proposal)

unfoldable pub decode_record_reply : Reader Payload
decode_record_reply = do
  slot ← read_u64
  req_step ← read_u32
  step ← read_u32
  first ← decode_first
  prior_agg ← decode_agg
  pure (record_reply slot req_step step first prior_agg)

unfoldable pub decode_decide : Reader Payload
decode_decide = do slot ← read_u64; value ← decode_bytes; pure (decide slot value)

unfoldable pub decode_forward : Reader Payload
decode_forward = do commands ← decode_counted decode_command; pure (forward commands)

unfoldable pub decode_learn : Reader Payload
decode_learn = do from_slot ← read_u64; pure (learn from_slot)

unfoldable pub decode_learn_reply : Reader Payload
decode_learn_reply = do
  first_slot ← read_u64
  values ← decode_counted decode_bytes
  pure (learn_reply first_slot values)

-- The `match kind` of `decode`.
unfoldable pub decode_payload : ℕ → Reader Payload
decode_payload k =
    if k == kind_record
    then decode_record
    else (if k == kind_record_reply
        then decode_record_reply
        else (if k == kind_decide
            then decode_decide
            else (if k == kind_forward
                then decode_forward
                else (if k == kind_learn
                    then decode_learn
                    else (if k == kind_learn_reply
                        then decode_learn_reply
                        else (if k == kind_ping then pure ping else fail))))))

-- `Message::decode` up to its check for trailing bytes.
unfoldable pub message_reader : Reader Message
message_reader = do
  v ← read_u8
  reject_if (not (v == version))
  k ← read_u8
  from ← read_u64
  reject_if (from == 0)
  decided ← read_u64
  payload ← decode_payload k
  pure (record { from = from; decided = decided; payload = payload })

unfoldable pub decode : Bytes → Option Message
decode bytes = decode_whole message_reader bytes
