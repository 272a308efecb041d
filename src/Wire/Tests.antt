-- ===== src/Wire/Tests.antt =====
-- Messages of wire.rs's tests, and the theorems at concrete messages.
use raxos.Prelude.{◌≡◌, refl, none, some, [], ◌∷◌, Bytes, arith}
use raxos.Codec.{
  ◌>>=◌, pure, reject_if, to_le_bytes, from_le_bytes, read_u8, read_bytes, read_u32, read_u64,
  finished, encode_bytes, decode_whole,
}
use raxos.Wire.{
  Message, record_call, ping, kind, encode_proposal, encode_payload, decode_payload, encode,
  message_reader, decode,
}
use raxos.Wire.Messages.{IsMessage, decode-encode, encode-decode, decode_cut}

abbrev call : Message
call = record {
  from = 1;
  decided = 7;
  payload = record_call 8 4 (record { priority = 9; proposer = 1; value = 97 ∷ [] });
}

abbrev beat : Message
beat = record { from = 8; decided = 1; payload = ping }

abbrev beat_bytes : Bytes
beat_bytes = 1 ∷ 7 ∷ 8 ∷ 0 ∷ 0 ∷ 0 ∷ 0 ∷ 0 ∷ 0 ∷ 0 ∷ 1 ∷ 0 ∷ 0 ∷ 0 ∷ 0 ∷ 0 ∷ 0 ∷ 0 ∷ []

decodes : decode beat_bytes ≡ some beat
unfolding decode decode_whole message_reader decode_payload read_u8 read_u32 read_u64 read_bytes
    from_le_bytes finished reject_if pure ◌>>=◌
decodes = refl

rejects_bad_version : decode (2 ∷ 7 ∷ 8 ∷ []) ≡ none
unfolding decode decode_whole message_reader read_u8 reject_if ◌>>=◌
rejects_bad_version = refl

decode-encode_example : decode (encode call) ≡ some call
unfolding encode kind encode_payload encode_proposal encode_bytes to_le_bytes
decode-encode_example = decode-encode call (omega arith) (omega arith)

encode-decode_example : (encode beat ≡ beat_bytes) × IsMessage beat
encode-decode_example = encode-decode beat_bytes beat (omega arith) (omega arith) decodes

decode_cut_example : decode (1 ∷ 7 ∷ []) ≡ none
unfolding encode kind encode_payload to_le_bytes
decode_cut_example =
    decode_cut beat (1 ∷ 7 ∷ []) 8 (0 ∷ 0 ∷ 0 ∷ 0 ∷ 0 ∷ 0 ∷ 0 ∷ 1 ∷ 0 ∷ 0 ∷ 0 ∷ 0 ∷ 0 ∷ 0 ∷ 0 ∷ [])
      (omega arith) (omega arith) refl
