-- ===== src/Codec.antt =====
-- src/types.rs: the bounds-checked little-endian reader and the encoding of a batch of commands.
-- `u8`, `u32` and `u64` of the source are `read_u8`, `read_u32` and `read_u64`.
pub mod Words
pub mod Readers
pub mod Parses
pub mod Batch
mod Tests
use raxos.Prelude.{
  ℕ, zero, suc, ◌+◌, ◌*◌, ◌/◌, ◌%◌, ◌^◌, Bool, Option, none, some, List, [], ◌∷◌, ◌++◌, Bytes,
  length, get_elem?, take, drop, u32_mod, u64_mod, ltb, ◌==◌, not, if◌then◌else◌,
}
use raxos.Types.{CommandId}

-- `to_le_bytes` of a word of `w` bytes, and `from_le_bytes`.
unfoldable pub to_le_bytes : ℕ → ℕ → Bytes
to_le_bytes zero n = []
to_le_bytes (suc w) n = n % 256 ∷ to_le_bytes w (n / 256)

unfoldable pub from_le_bytes : Bytes → ℕ
from_le_bytes [] = 0
from_le_bytes (b ∷ bs) = b + from_le_bytes bs * 256

pub record Cursor : Type 0 where
  pub buf : Bytes
  pub pos : ℕ

-- A read that moves the cursor, or fails; where it fails the source drops the cursor.
abbrev pub Reader : Type 0 → Type 0
Reader A = Cursor → Option (A × Cursor)

infixl 5 ◌>>=◌ ◌>>◌
unfoldable pub ◌>>=◌ : {A B : Type 0} → Reader A → (A → Reader B) → Reader B
◌>>=◌ m f c = elim (m c) [ none ↦ none | some (a, c') ↦ f a c' ]

unfoldable pub pure : {A : Type 0} → A → Reader A
pure a c = some (a, c)

unfoldable pub fail : {A : Type 0} → Reader A
fail c = none

-- `if reject { return … }`
unfoldable pub reject_if : Bool → Reader Unit
reject_if b c = if b then none else some (tt, c)

abbrev pub ◌>>◌ : {B : Type 0} → Reader (Unit {0}) → Reader B → Reader B
m >> n = m >>= λ _. n

-- `Cursor::u8`
unfoldable pub read_u8 : Reader ℕ
read_u8 c = elim (get_elem? c.buf c.pos) [
  | none ↦ none
  | some b ↦ some (b, record c { pos = c.pos + 1 })
]

-- `Cursor::bytes`, with its `checked_add`.
unfoldable pub read_bytes : ℕ → Reader Bytes
read_bytes len c =
    let end = c.pos + len in
    if not (ltb end u64_mod)
    then none
    else (if ltb (length c.buf) end
        then none
        else some (take len (drop c.pos c.buf), record c { pos = end }))

-- `Cursor::u32` and `Cursor::u64`
unfoldable pub read_u32 : Reader ℕ
read_u32 = do bytes ← read_bytes 4; pure (from_le_bytes bytes)

unfoldable pub read_u64 : Reader ℕ
read_u64 = do bytes ← read_bytes 8; pure (from_le_bytes bytes)

unfoldable pub finished : Cursor → Bool
finished c = c.pos == length c.buf

-- `for _ in 0..count { commands.push(…) }`
unfoldable pub read_many : {A : Type 0} → ℕ → Reader A → Reader (List A)
read_many zero r = pure []
read_many (suc n) r = do x ← r; xs ← read_many n r; pure (x ∷ xs)

-- The little-endian length prefix, cast to u32, and the data: `encode_bytes` of wire.rs.
unfoldable pub encode_bytes : Bytes → Bytes
encode_bytes bytes = to_le_bytes 4 (length bytes % u32_mod) ++ bytes

-- `decode_bytes` of wire.rs
unfoldable pub decode_bytes : Reader Bytes
decode_bytes = do len ← read_u32; read_bytes len

-- `encode_command_id` and `decode_command_id` of wire.rs
unfoldable pub encode_command_id : CommandId → Bytes
encode_command_id id = to_le_bytes 8 id.origin ++ (to_le_bytes 8 id.boot ++ to_le_bytes 8 id.seq)

unfoldable pub decode_command_id : Reader CommandId
decode_command_id = do
  origin ← read_u64
  boot ← read_u64
  seq ← read_u64
  pure (record { origin = origin; boot = boot; seq = seq })

abbrev pub Command : Type 0
Command = CommandId × Bytes

-- One round of the loop of `encode_batch`, and of `Forward` in wire.rs.
unfoldable pub encode_command : Command → Bytes
encode_command c = encode_command_id c.0 ++ encode_bytes c.1

unfoldable pub decode_command : Reader Command
decode_command = do id ← decode_command_id; bytes ← decode_bytes; pure (id, bytes)

unfoldable pub encode_all : {A : Type 0} → (A → Bytes) → List A → Bytes
encode_all encode [] = []
encode_all encode (x ∷ xs) = encode x ++ encode_all encode xs

-- `(commands.len() as u32).to_le_bytes()`, then the commands.
unfoldable pub encode_counted : {A : Type 0} → (A → Bytes) → List A → Bytes
encode_counted encode xs = to_le_bytes 4 (length xs % u32_mod) ++ encode_all encode xs

unfoldable pub decode_counted : {A : Type 0} → Reader A → Reader (List A)
decode_counted r = do count ← read_u32; read_many count r

abbrev pub value_tag_batch : ℕ
value_tag_batch = 0

unfoldable pub encode_batch : List Command → Bytes
encode_batch commands = value_tag_batch ∷ encode_counted encode_command commands

-- The reads of `decode_batch`.
unfoldable pub batch_reader : Reader (List Command)
batch_reader = do
  tag ← read_u8
  reject_if (not (tag == value_tag_batch))
  decode_counted decode_command

-- A reader from the start of a buffer that must use all of it.
unfoldable pub decode_whole : {A : Type 0} → Reader A → Bytes → Option A
decode_whole r value = elim (r (record { buf = value; pos = 0 })) [
  | none ↦ none
  | some (a, c) ↦ if finished c then some a else none
]

unfoldable pub decode_batch : Bytes → Option (List Command)
decode_batch value = decode_whole batch_reader value
