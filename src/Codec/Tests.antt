-- ===== src/Codec/Tests.antt =====
-- The runs of types.rs's tests, and the theorems at concrete batches.
use raxos.Prelude.{◌≡◌, refl, none, some, List, [], ◌∷◌, Bytes, arith}
use raxos.Codec.{
  Command, ◌>>=◌, pure, reject_if, to_le_bytes, from_le_bytes, read_u8, read_bytes, read_u32,
  read_u64, read_many, finished, encode_bytes, decode_bytes, encode_command_id, decode_command_id,
  encode_command, decode_command, encode_all, encode_counted, decode_counted, encode_batch,
  batch_reader, decode_whole, decode_batch,
}
use raxos.Codec.Batch.{IsBatch, decode_batch-encode_batch, encode_batch-decode_batch}

abbrev commands : List Command
commands =
    (record { origin = 1; boot = 7; seq = 1 }, 104 ∷ 105 ∷ [])
    ∷ (record { origin = 2; boot = 9; seq = 44 }, [])
    ∷ []

abbrev one_command : List Command
one_command = (record { origin = 1; boot = 2; seq = 3 }, 120 ∷ []) ∷ []

abbrev encoded : Bytes
encoded =
    0 ∷ 1 ∷ 0 ∷ 0 ∷ 0 ∷ 1 ∷ 0 ∷ 0 ∷ 0 ∷ 0 ∷ 0 ∷ 0 ∷ 0 ∷ 2 ∷ 0 ∷ 0 ∷ 0 ∷ 0 ∷ 0 ∷ 0 ∷ 0 ∷ 3 ∷ 0 ∷ 0
    ∷ 0 ∷ 0 ∷ 0 ∷ 0 ∷ 0 ∷ 1 ∷ 0 ∷ 0 ∷ 0 ∷ 120 ∷ []

encodes : encode_batch one_command ≡ encoded
unfolding encode_batch encode_counted encode_all encode_command encode_command_id encode_bytes
    to_le_bytes
encodes = refl

decodes : decode_batch encoded ≡ some one_command
unfolding decode_batch decode_whole batch_reader decode_counted decode_command decode_command_id
    decode_bytes read_many read_u8 read_u32 read_u64 read_bytes from_le_bytes finished reject_if
    pure ◌>>=◌
decodes = refl

rejects_garbage :
    (decode_batch [] ≡ none)
    × (decode_batch (1 ∷ 0 ∷ 0 ∷ 0 ∷ 0 ∷ []) ≡ none)
    × (decode_batch (0 ∷ 1 ∷ 0 ∷ 0 ∷ 0 ∷ []) ≡ none)
unfolding decode_batch decode_whole batch_reader decode_counted decode_command decode_command_id
    decode_bytes read_many read_u8 read_u32 read_u64 read_bytes from_le_bytes finished reject_if
    pure ◌>>=◌
rejects_garbage = (refl, refl, refl)

decode_batch-encode_batch_example : decode_batch (encode_batch commands) ≡ some commands
unfolding encode_batch encode_counted encode_all encode_command encode_command_id encode_bytes
    to_le_bytes
decode_batch-encode_batch_example = decode_batch-encode_batch commands (omega arith) (omega arith)

encode_batch-decode_batch_example : (encode_batch one_command ≡ encoded) × IsBatch one_command
encode_batch-decode_batch_example =
    encode_batch-decode_batch encoded one_command (omega arith) (omega arith) decodes
