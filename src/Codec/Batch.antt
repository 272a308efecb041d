-- ===== src/Codec/Batch.antt =====
-- The batch encoding and its decoder are inverse to one another.
use raxos.Prelude.{
  ℕ, zero, suc, ◌%◌, ◌<◌, ◌≡◌, refl, sym, ap, ◌∙◌, subst, none, some, List, [], ◌∷◌, ◌++◌, Bytes,
  IsByte, IsU32, IsU64, All, All-append, All-append_front, Option-cases, inl, inr, ◌+◌, false,
  length, length-append, u32_mod, u64_mod, arith,
}
use raxos.Types.{CommandId}
use raxos.Codec.{
  Command, Reader, read_bytes, read_many, encode_bytes, decode_bytes, encode_command_id,
  decode_command_id, encode_command, decode_command, encode_all, encode_counted, decode_counted,
  value_tag_batch, encode_batch, batch_reader, decode_whole, decode_batch,
}
use raxos.Codec.Words.{to_le_bytes-IsByte}
use raxos.Codec.Readers.{
  Reads, Reads-bind, Reads-last, Reads-pure, Reads-reject, Reads-bytes, Reads-u8, Reads-u32,
  Reads-u64, Reads-whole, Reads-trailing,
}
use raxos.Codec.Parses.{
  Parses, Parses-bind, Parses-weaken, Parses-last, Parses-pure, Parses-reject, Parses-IsBytes,
  Parses-u8, Parses-u32, Parses-u64, Parses-whole, IsBytes, IsWord, IsOneByte,
}

-- Bytes whose number fits the length prefix.
abbrev pub IsData : Bytes → Type 0
IsData d = IsU32 (length d) × All IsByte d

pub record IsCommandId (id : CommandId) : Type 0 where
  pub origin : IsU64 id.origin
  pub boot : IsU64 id.boot
  pub seq : IsU64 id.seq

abbrev pub IsCommand : Command → Type 0
IsCommand c = IsCommandId c.0 × IsData c.1

-- `u` is the encoding of the well-formed `a`.
abbrev pub Spells : {A : Type 0} → (A → Bytes) → (A → Type 0) → A → Bytes → Type 0
Spells encode Ok a u = (encode a ≡ u) × Ok a

pub Reads-data : (d : Bytes) → IsData d → Reads decode_bytes (encode_bytes d) d
unfolding decode_bytes encode_bytes
Reads-data d h =
    Reads-bind read_bytes _ d (Reads-u32 (length d % u32_mod) (omega arith))
      (Reads-bytes (length d % u32_mod) d (omega arith))

pub Parses-IsData : Parses decode_bytes (Spells encode_bytes IsData)
unfolding decode_bytes encode_bytes
Parses-IsData = Parses-bind read_bytes (IsWord 4) _ Parses-u32 λ len u w.
    Parses-weaken (IsBytes len) _ (Parses-IsBytes len) λ d v q.
      let l : length d % u32_mod ≡ len = omega (arith, q.1, w.1) in
      (rw (l, w.0, q.0), (omega (arith, q.1, w.1), q.2))

pub Reads-command_id :
    (id : CommandId) → IsCommandId id → Reads decode_command_id (encode_command_id id) id
unfolding decode_command_id encode_command_id
Reads-command_id id h = Reads-bind _ _ _ (Reads-u64 id.origin h.origin) (
    Reads-bind _ _ _ (Reads-u64 id.boot h.boot) (
      Reads-last (λ seq. record { origin = id.origin; boot = id.boot; seq = seq })
        (Reads-u64 id.seq h.seq)))

pub Parses-IsCommandId : Parses decode_command_id (Spells encode_command_id IsCommandId)
unfolding decode_command_id encode_command_id
Parses-IsCommandId = Parses-bind _ (IsWord 8) _ Parses-u64 λ origin u ou.
    Parses-bind _ (IsWord 8) _ Parses-u64 λ boot v bv.
      Parses-last (λ seq. record { origin = origin; boot = boot; seq = seq }) (IsWord 8) _
        Parses-u64
        λ seq w sw. (rw (ou.0, bv.0, sw.0), record { origin = ou.1; boot = bv.1; seq = sw.1 })

pub Reads-command : (c : Command) → IsCommand c → Reads decode_command (encode_command c) c
unfolding decode_command encode_command
Reads-command c h =
    Reads-bind _ _ _ (Reads-command_id c.0 h.0) (Reads-last (λ d. (c.0, d)) (Reads-data c.1 h.1))

pub Parses-IsCommand : Parses decode_command (Spells encode_command IsCommand)
unfolding decode_command encode_command
Parses-IsCommand =
    Parses-bind _ (Spells encode_command_id IsCommandId) _ Parses-IsCommandId λ id u iu.
      Parses-last (λ d. (id, d)) (Spells encode_bytes IsData) _ Parses-IsData
        λ d v dv. (rw (iu.0, dv.0), (iu.1, dv.1))

pub encode_bytes-IsByte : (d : Bytes) → IsData d → All IsByte (encode_bytes d)
unfolding encode_bytes
encode_bytes-IsByte d h = All-append IsByte _ d (to_le_bytes-IsByte 4 _) h.1

pub encode_command-IsByte : (c : Command) → IsCommand c → All IsByte (encode_command c)
unfolding encode_command encode_command_id
encode_command-IsByte c h =
    All-append IsByte _ _
      (All-append IsByte _ _ (to_le_bytes-IsByte 8 _)
        (All-append IsByte _ _ (to_le_bytes-IsByte 8 _) (to_le_bytes-IsByte 8 _)))
      (encode_bytes-IsByte c.1 h.1)

module _ {A : Type 0} (encode : A → Bytes) (Ok : A → Type 0) (r : Reader A) where
  Reads-many :
      ((a : A) → Ok a → Reads r (encode a) a)
      → (xs : List A) → All Ok xs
      → Reads (read_many (length xs) r) (encode_all encode xs) xs
  unfolding read_many encode_all
  Reads-many one [] h = Reads-pure []
  Reads-many one (x ∷ xs) h =
      Reads-bind _ _ _ (one x h.0) (Reads-last (λ ys. x ∷ ys) (Reads-many one xs h.1))

  pub Reads-counted :
      ((a : A) → Ok a → Reads r (encode a) a)
      → (xs : List A) → IsU32 (length xs)
      → All Ok xs
      → Reads (decode_counted r) (encode_counted encode xs) xs
  unfolding decode_counted encode_counted
  Reads-counted one xs l h =
      let e : length xs % u32_mod ≡ length xs = omega arith in
      rw e (
        Reads-bind (λ count. read_many count r) _ _ (Reads-u32 (length xs) l) (Reads-many one xs h))

  Parses-many :
      Parses r (Spells encode Ok)
      → (n : ℕ)
      → Parses (read_many n r) (λ xs u. (encode_all encode xs ≡ u) × All Ok xs × (length xs ≡ n))
  unfolding read_many encode_all
  Parses-many one zero = Parses-pure [] _ (refl, tt, refl)
  Parses-many one (suc n) = Parses-bind _ (Spells encode Ok) _ one λ x u xu.
      Parses-last (λ xs. x ∷ xs) (λ xs v. (encode_all encode xs ≡ v) × All Ok xs × (length xs ≡ n))
        _ (Parses-many one n) λ xs v xv. (rw (xu.0, xv.0), (xu.1, xv.1), ap suc xv.2)

  pub Parses-counted :
      Parses r (Spells encode Ok)
      → Parses
          (decode_counted r)
          (λ xs u. (encode_counted encode xs ≡ u) × IsU32 (length xs) × All Ok xs)
  unfolding decode_counted encode_counted
  Parses-counted one = Parses-bind _ (IsWord 4) _ Parses-u32 λ count u w.
      Parses-weaken _ _ (Parses-many one count) λ xs v xv.
        let e : length xs % u32_mod ≡ count = omega (arith, xv.2, w.1) in
        (rw (e, w.0, xv.0), omega (arith, xv.2, w.1), xv.1)

  encode_all-IsByte :
      ((a : A) → Ok a → All IsByte (encode a))
      → (xs : List A) → All Ok xs
      → All IsByte (encode_all encode xs)
  unfolding encode_all
  encode_all-IsByte one [] h = tt
  encode_all-IsByte one (x ∷ xs) h =
      All-append IsByte _ _ (one x h.0) (encode_all-IsByte one xs h.1)

  pub encode_counted-IsByte :
      ((a : A) → Ok a → All IsByte (encode a))
      → (xs : List A) → All Ok xs
      → All IsByte (encode_counted encode xs)
  unfolding encode_counted
  encode_counted-IsByte one xs h =
      All-append IsByte _ _ (to_le_bytes-IsByte 4 _) (encode_all-IsByte one xs h)

  -- A proper prefix of an encoding does not decode, since its own encoding would be followed by
  -- more bytes.
  pub decode_whole_cut :
      ((a : A) → Ok a → Reads r (encode a) a)
      → Parses r (Spells encode Ok)
      → (a : A) (front : Bytes) (x : ℕ) (back : Bytes) → Ok a
      → All IsByte (encode a)
      → length (encode a) < u64_mod
      → encode a ≡ front ++ (x ∷ back)
      → decode_whole r front ≡ none
  decode_whole_cut reads parses a front x back h w l e =
      elim (Option-cases (decode_whole r front)) [
        | inl refused ↦ refused
        | inr (a', got) ↦
            let w' = All-append_front IsByte front (x ∷ back) (subst (λ u. All IsByte u) e w) in
            let l' : length front + length (x ∷ back) < u64_mod =
              omega (arith, ap length e, length-append front (x ∷ back)) in
            let (spelled, ok) =
              Parses-whole r (Spells encode Ok) front a' parses w' (omega arith) got in
            let whole : encode a' ++ (x ∷ back) ≡ encode a =
              ap (λ u. u ++ (x ∷ back)) spelled ∙ sym e in
            cc (
              ap (λ u. decode_whole r u) whole,
              Reads-trailing r (encode a') a' x back (reads a' ok) (omega (arith, ap length whole)),
              Reads-whole r (encode a) a (reads a h) l,
            )
      ]

-- A batch that the wire format can carry: fewer than 2^32 commands, each with fewer than
-- 2^32 bytes and an id of u64 values.
abbrev pub IsBatch : List Command → Type 0
IsBatch cs = IsU32 (length cs) × All IsCommand cs

Reads-batch : (cs : List Command) → IsBatch cs → Reads batch_reader (encode_batch cs) cs
unfolding batch_reader encode_batch
Reads-batch cs h = Reads-bind _ (value_tag_batch ∷ []) _ (Reads-u8 value_tag_batch) (
    Reads-reject false refl
      (Reads-counted encode_command IsCommand decode_command Reads-command cs h.0 h.1))

encode_batch-IsByte : (cs : List Command) → IsBatch cs → All IsByte (encode_batch cs)
unfolding encode_batch
encode_batch-IsByte cs h = (
  omega arith,
  encode_counted-IsByte encode_command IsCommand decode_command encode_command-IsByte cs h.1,
)

Parses-IsBatch : Parses batch_reader (Spells encode_batch IsBatch)
unfolding batch_reader encode_batch
Parses-IsBatch = Parses-bind _ IsOneByte _ Parses-u8 λ tag u w. Parses-reject _ _ λ same.
    Parses-weaken _ _ (Parses-counted encode_command IsCommand decode_command Parses-IsCommand)
      λ cs v q.
        let zero_tag : tag ≡ value_tag_batch = ground arith in
        (rw (← w.0, zero_tag, q.0), (q.1, q.2))

-- Decoding a batch that was encoded gives it back.
pub decode_batch-encode_batch :
    (cs : List Command)
    → IsBatch cs
    → length (encode_batch cs) < u64_mod
    → decode_batch (encode_batch cs) ≡ some cs
unfolding decode_batch
decode_batch-encode_batch cs h l =
    Reads-whole batch_reader (encode_batch cs) cs (Reads-batch cs h) l

-- Bytes that decode to a batch are the encoding of that batch, which is then one that the wire
-- format can carry: no other bytes decode to it.
pub encode_batch-decode_batch :
    (value : Bytes) (cs : List Command)
    → All IsByte value
    → length value < u64_mod
    → decode_batch value ≡ some cs
    → (encode_batch cs ≡ value) × IsBatch cs
unfolding decode_batch
encode_batch-decode_batch value cs w l e = Parses-whole batch_reader _ value cs Parses-IsBatch w l e

-- A proper prefix of an encoded batch does not decode.
pub decode_batch_cut :
    (cs : List Command) (front : Bytes) (x : ℕ) (back : Bytes)
    → IsBatch cs
    → length (encode_batch cs) < u64_mod
    → encode_batch cs ≡ front ++ (x ∷ back)
    → decode_batch front ≡ none
unfolding decode_batch
decode_batch_cut cs front x back h l e =
    decode_whole_cut encode_batch IsBatch batch_reader Reads-batch Parses-IsBatch cs front x back h
      (encode_batch-IsByte cs h) l e
