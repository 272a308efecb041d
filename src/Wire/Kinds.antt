-- ===== src/Wire/Kinds.antt =====
-- What each kind's reader says of the bytes that it took.
use raxos.Prelude.{
  ℕ, ◌≡◌, refl, ◌∙◌, true, Option, none, some, Bytes, IsByte, IsU32, All, All-append, length, arith,
  ◌==◌,
}
use raxos.Types.{Proposal}
use raxos.Codec.{
  Reader, pure, to_le_bytes, encode_bytes, decode_bytes, encode_command, decode_command,
  encode_counted,
}
use raxos.Codec.Words.{to_le_bytes-IsByte}
use raxos.Codec.Parses.{
  Parses, Parses-bind, Parses-weaken, Parses-last, Parses-pure, Parses-fail, Parses-if, Parses-u32,
  Parses-u64, IsWord,
}
use raxos.Codec.Batch.{
  IsData, IsCommand, Spells, Parses-IsData, Parses-IsCommand, Parses-counted, encode_counted-IsByte,
  encode_bytes-IsByte, encode_command-IsByte,
}
use raxos.Wire.{
  ReplyFirst, echo, full, Payload, record_call, record_reply, decide, forward, learn, learn_reply,
  ping, kind, encode_proposal, encode_first, encode_agg, encode_payload, decode_payload,
  decode_record, decode_record_reply, decode_decide, decode_forward, decode_learn,
  decode_learn_reply, kind_record, kind_record_reply, kind_decide, kind_forward, kind_learn,
  kind_learn_reply, kind_ping,
}
use raxos.Wire.Payloads.{
  IsProposal, IsFirst, IsAgg, IsPayload, Parses-IsProposal, Parses-IsFirst, Parses-IsAgg,
}

-- `p` is well formed, is encoded by `u`, and has the kind `k`.
abbrev pub IsOfKind : ℕ → Payload → Bytes → Type 0
IsOfKind k p u = (encode_payload p ≡ u) × IsPayload p × (kind p ≡ k)

Parses-record : Parses decode_record (IsOfKind kind_record)
unfolding decode_record encode_payload kind
Parses-record = Parses-bind _ (IsWord 8) _ Parses-u64 λ slot u su.
    Parses-bind _ (IsWord 4) _ Parses-u32 λ step v sv.
      Parses-last (λ p. record_call slot step p) (Spells encode_proposal IsProposal) _
        Parses-IsProposal λ p w pw. (rw (su.0, sv.0, pw.0), (su.1, sv.1, pw.1), refl)

Parses-record_reply : Parses decode_record_reply (IsOfKind kind_record_reply)
unfolding decode_record_reply encode_payload kind
Parses-record_reply = Parses-bind _ (IsWord 8) _ Parses-u64 λ slot u su.
    Parses-bind _ (IsWord 4) _ Parses-u32 λ req v rv.
      Parses-bind _ (IsWord 4) _ Parses-u32 λ step w sw.
        Parses-bind _ (Spells encode_first IsFirst) _ Parses-IsFirst λ first x fx.
          Parses-last (λ a. record_reply slot req step first a) (Spells encode_agg IsAgg) _
            Parses-IsAgg
            λ a y ay. (rw (su.0, rv.0, sw.0, fx.0, ay.0), (su.1, rv.1, sw.1, fx.1, ay.1), refl)

Parses-decide : Parses decode_decide (IsOfKind kind_decide)
unfolding decode_decide encode_payload kind
Parses-decide = Parses-bind _ (IsWord 8) _ Parses-u64 λ slot u su.
    Parses-last (λ v. decide slot v) (Spells encode_bytes IsData) _ Parses-IsData
      λ d v dv. (rw (su.0, dv.0), (su.1, dv.1), refl)

Parses-forward : Parses decode_forward (IsOfKind kind_forward)
unfolding decode_forward encode_payload kind
Parses-forward =
    Parses-last forward
      (λ cs u. (encode_counted encode_command cs ≡ u) × IsU32 (length cs) × All IsCommand cs) _
      (Parses-counted encode_command IsCommand decode_command Parses-IsCommand)
      λ cs u q. (q.0, (q.1, q.2), refl)

Parses-learn : Parses decode_learn (IsOfKind kind_learn)
unfolding decode_learn encode_payload kind
Parses-learn = Parses-last learn (IsWord 8) _ Parses-u64 λ slot u su. (su.0, su.1, refl)

Parses-learn_reply : Parses decode_learn_reply (IsOfKind kind_learn_reply)
unfolding decode_learn_reply encode_payload kind
Parses-learn_reply = Parses-bind _ (IsWord 8) _ Parses-u64 λ slot u su.
    Parses-last (λ vs. learn_reply slot vs)
      (λ vs v. (encode_counted encode_bytes vs ≡ v) × IsU32 (length vs) × All IsData vs) _
      (Parses-counted encode_bytes IsData decode_bytes Parses-IsData)
      λ vs v q. (rw (su.0, q.0), (su.1, q.1, q.2), refl)

Parses-ping : Parses (pure ping) (IsOfKind kind_ping)
unfolding encode_payload kind
Parses-ping = Parses-pure ping _ (refl, tt, refl)

-- A reader of one kind, where the kind read is that one.
at_kind :
    (k t : ℕ) {r : Reader Payload} → Parses r (IsOfKind t) → (k == t) ≡ true → Parses r (IsOfKind k)
at_kind k t p e =
    Parses-weaken (IsOfKind t) (IsOfKind k) p
      λ a u q. (q.0, q.1, q.2 ∙ (let s : t ≡ k = ground arith in s))

pub Parses-payload : (k : ℕ) → Parses (decode_payload k) (IsOfKind k)
unfolding decode_payload
Parses-payload k = Parses-if (k == kind_record) _ (at_kind k kind_record Parses-record) λ _.
    Parses-if (k == kind_record_reply) _ (at_kind k kind_record_reply Parses-record_reply) λ _.
      Parses-if (k == kind_decide) _ (at_kind k kind_decide Parses-decide) λ _.
        Parses-if (k == kind_forward) _ (at_kind k kind_forward Parses-forward) λ _.
          Parses-if (k == kind_learn) _ (at_kind k kind_learn Parses-learn) λ _.
            Parses-if (k == kind_learn_reply) _ (at_kind k kind_learn_reply Parses-learn_reply)
              λ _. Parses-if (k == kind_ping) _ (at_kind k kind_ping Parses-ping) λ _. Parses-fail _

word : (w n : ℕ) → All IsByte (to_le_bytes w n)
word = to_le_bytes-IsByte

proposal-IsByte : (p : Proposal) → IsProposal p → All IsByte (encode_proposal p)
unfolding encode_proposal
proposal-IsByte p h =
    All-append IsByte _ _ (word 4 _)
      (All-append IsByte _ _ (word 8 _) (encode_bytes-IsByte p.value h.value))

first-IsByte : (f : ReplyFirst) → IsFirst f → All IsByte (encode_first f)
unfolding encode_first
first-IsByte echo h = omega arith
first-IsByte (full p) h = (omega arith, proposal-IsByte p h)

agg-IsByte : (a : Option Proposal) → IsAgg a → All IsByte (encode_agg a)
unfolding encode_agg
agg-IsByte none h = omega arith
agg-IsByte (some p) h = (omega arith, proposal-IsByte p h)

pub payload-IsByte : (p : Payload) → IsPayload p → All IsByte (encode_payload p)
unfolding encode_payload
payload-IsByte (record_call slot step proposal) h =
    All-append IsByte _ _ (word 8 _)
      (All-append IsByte _ _ (word 4 _) (proposal-IsByte proposal h.2))
payload-IsByte (record_reply slot req_step step first prior_agg) h =
    All-append IsByte _ _ (word 8 _) (
      All-append IsByte _ _ (word 4 _) (
        All-append IsByte _ _ (word 4 _)
          (All-append IsByte _ _ (first-IsByte first h.3) (agg-IsByte prior_agg h.4))))
payload-IsByte (decide slot value) h =
    All-append IsByte _ _ (word 8 _) (encode_bytes-IsByte value h.1)
payload-IsByte (forward commands) h =
    encode_counted-IsByte encode_command IsCommand decode_command encode_command-IsByte commands h.1
payload-IsByte (learn from_slot) h = word 8 from_slot
payload-IsByte (learn_reply first_slot values) h =
    All-append IsByte _ _ (word 8 _)
      (encode_counted-IsByte encode_bytes IsData decode_bytes encode_bytes-IsByte values h.2)
payload-IsByte ping h = tt

pub kind-IsByte : (p : Payload) → IsByte (kind p)
unfolding kind
kind-IsByte (record_call slot step proposal) = omega arith
kind-IsByte (record_reply slot req_step step first prior_agg) = omega arith
kind-IsByte (decide slot value) = omega arith
kind-IsByte (forward commands) = omega arith
kind-IsByte (learn from_slot) = omega arith
kind-IsByte (learn_reply first_slot values) = omega arith
kind-IsByte ping = omega arith
