-- ===== src/Wire/Messages.antt =====
-- Whole messages: the decoder and the encoder are inverse to one another.
use raxos.Prelude.{
  ℕ, ◌<◌, ◌≡◌, refl, ap, ◌∙◌, false, not, none, some, [], ◌∷◌, ◌++◌, Bytes, IsByte, IsU64, u64_mod,
  All, All-append, length, arith, ◌==◌,
}
use raxos.Codec.{to_le_bytes}
use raxos.Codec.Words.{to_le_bytes-IsByte}
use raxos.Codec.Readers.{
  Reads, Reads-bind, Reads-last, Reads-reject, Reads-u8, Reads-u64, Reads-whole, Reads-trailing,
}
use raxos.Codec.Parses.{
  Parses, Parses-bind, Parses-last, Parses-reject, Parses-u8, Parses-u64, Parses-whole, IsWord,
  IsOneByte,
}
use raxos.Codec.Batch.{Spells, decode_whole_cut}
use raxos.Wire.{Message, version, kind, encode_payload, encode, message_reader, decode}
use raxos.Wire.Payloads.{IsPayload, Reads-payload}
use raxos.Wire.Kinds.{IsOfKind, Parses-payload, payload-IsByte, kind-IsByte}

-- A message that the wire format can carry: every word in its range, no zero id, and every
-- length within its prefix.
pub record IsMessage (m : Message) : Type 0 where
  pub from : IsU64 m.from
  pub from_pos : 0 < m.from
  pub decided : IsU64 m.decided
  pub payload : IsPayload m.payload

Reads-message : (m : Message) → IsMessage m → Reads message_reader (encode m) m
unfolding message_reader encode
Reads-message m h = Reads-bind _ (version ∷ []) _ (Reads-u8 version) (
    Reads-reject false refl (
      Reads-bind _ (kind m.payload ∷ []) _ (Reads-u8 (kind m.payload)) (
        Reads-bind _ _ _ (Reads-u64 m.from h.from) (
          Reads-reject (m.from == 0) (ground (arith, h.from_pos)) (
            Reads-bind _ _ _ (Reads-u64 m.decided h.decided) (
              Reads-last (λ p. record { from = m.from; decided = m.decided; payload = p })
                (Reads-payload m.payload h.payload)))))))

two_tags :
    (v k : ℕ) (u x : Bytes) {r s : Bytes}
    → v ≡ version
    → IsOneByte v u
    → IsOneByte k x
    → r ≡ s
    → version ∷ (k ∷ r) ≡ u ++ (x ++ s)
two_tags v k u x e ov ok s = rw (← ov.0, ← ok.0, e, s)

Parses-IsMessage : Parses message_reader (Spells encode IsMessage)
unfolding message_reader encode
Parses-IsMessage = Parses-bind _ IsOneByte _ Parses-u8 λ v u vu.
    Parses-reject (not (v == version)) _ λ same. Parses-bind _ IsOneByte _ Parses-u8 λ k x kx.
      Parses-bind _ (IsWord 8) _ Parses-u64 λ from w fw. Parses-reject (from == 0) _ λ nonzero.
        Parses-bind _ (IsWord 8) _ Parses-u64 λ decided y dy.
          Parses-last (λ p. record { from = from; decided = decided; payload = p }) (IsOfKind k) _
            (Parses-payload k)
            λ p z pz. (
              ap
                    (λ t.
                      version
                      ∷ (t ∷ (to_le_bytes 8 from ++ (to_le_bytes 8 decided ++ encode_payload p))))
                    pz.2
                  ∙ two_tags v k u x (ground arith) vu kx (rw (fw.0, dy.0, pz.0)),
              record { from = fw.1; from_pos = ground arith; decided = dy.1; payload = pz.1 },
            )

encode-IsByte : (m : Message) → IsMessage m → All IsByte (encode m)
unfolding encode
encode-IsByte m h = (
  omega arith,
  (
    kind-IsByte m.payload,
    All-append IsByte _ _ (to_le_bytes-IsByte 8 _)
        (All-append IsByte _ _ (to_le_bytes-IsByte 8 _) (payload-IsByte m.payload h.payload)),
  ),
)

-- Every message that the wire format can carry is decoded from its encoding.
pub decode-encode :
    (m : Message) → IsMessage m → length (encode m) < u64_mod → decode (encode m) ≡ some m
unfolding decode
decode-encode m h l = Reads-whole message_reader (encode m) m (Reads-message m h) l

-- Bytes that are accepted are the encoding of the message that comes out, and that message has
-- every word in range and no zero id: no two byte strings decode to one message.
pub encode-decode :
    (bytes : Bytes) (m : Message)
    → All IsByte bytes
    → length bytes < u64_mod
    → decode bytes ≡ some m
    → (encode m ≡ bytes) × IsMessage m
unfolding decode
encode-decode bytes m w l e = Parses-whole message_reader _ bytes m Parses-IsMessage w l e

-- A proper prefix of an encoded message is refused.
pub decode_cut :
    (m : Message) (front : Bytes) (x : ℕ) (back : Bytes)
    → IsMessage m
    → length (encode m) < u64_mod
    → encode m ≡ front ++ (x ∷ back)
    → decode front ≡ none
unfolding decode
decode_cut m front x back h l e =
    decode_whole_cut encode IsMessage message_reader Reads-message Parses-IsMessage m front x back h
      (encode-IsByte m h) l e

-- An encoded message with more bytes behind it is refused.
pub decode_trailing :
    (m : Message) (x : ℕ) (xs : Bytes)
    → IsMessage m
    → length (encode m ++ (x ∷ xs)) < u64_mod
    → decode (encode m ++ (x ∷ xs)) ≡ none
unfolding decode
decode_trailing m x xs h l = Reads-trailing message_reader (encode m) m x xs (Reads-message m h) l
