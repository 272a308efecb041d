-- ===== src/Codec/Readers.antt =====
-- How readers meet encodings. `Reads r u a`: where the encoding `u` of `a` stands next, `r`
-- returns `a` and moves past `u`. `Parses r Q`: where `r` returns `a`, it has moved past bytes
-- `u` with `Q a u`. Both are proved reader by reader, along the `do` blocks.
use raxos.Prelude.{
  ℕ, ◌+◌, ◌^◌, ◌≤◌, ◌<◌, ◌≡◌, refl, sym, ap, ◌∙◌, subst, none, some, [], ◌∷◌, ◌++◌, append-nil,
  append_assoc, Bytes, IsU32, IsU64, length, length-append, length-drop, take, drop, drop-drop,
  take-append_self, drop-append_self, get_elem?-drop, u64_mod, arith, Bool, true, false,
}
use raxos.Codec.{
  to_le_bytes, from_le_bytes, Cursor, Reader, ◌>>=◌, pure, reject_if, read_u8, read_bytes, read_u32,
  read_u64, finished, decode_whole,
}
use raxos.Codec.Words.{length-to_le_bytes, from_le_bytes-to_le_bytes}

-- `bs` is what the cursor has not read of a buffer that a `usize` can index.
pub record At (c : Cursor) (bs : Bytes) : Type 0 where
  pub within : c.pos ≤ length c.buf
  pub small : length c.buf < u64_mod
  pub rest : drop c.pos c.buf ≡ bs

pub record Reads {A : Type 0} (r : Reader A) (u : Bytes) (a : A) : Type 0 where
  pub run :
      (c : Cursor) (rest : Bytes)
      → At c (u ++ rest)
      → (c' : Cursor) × (r c ≡ some (a, c')) × At c' rest

pub At-length : (c : Cursor) (bs : Bytes) → At c bs → length c.buf ≡ c.pos + length bs
At-length c bs t = omega (arith, length-drop c.pos c.buf, ap length t.rest, t.within)

pub At-advance :
    (c : Cursor) (u rest : Bytes) → At c (u ++ rest) → At (record c { pos = c.pos + length u }) rest
At-advance c u rest t = record {
  within = omega (arith, At-length c (u ++ rest) t, length-append u rest);
  small = t.small;
  rest =
      sym (drop-drop c.pos (length u) c.buf)
      ∙ ap (λ bs. drop (length u) bs) t.rest
      ∙ drop-append_self (length u) u rest refl;
}

pub read_bytes_fits :
    (c : Cursor) (len : ℕ)
    → c.pos + len ≤ length c.buf
    → length c.buf < u64_mod
    → read_bytes len c ≡ some (take len (drop c.pos c.buf), record c { pos = c.pos + len })
unfolding read_bytes
read_bytes_fits c len h k = ground arith

pub Reads-bytes : (len : ℕ) (u : Bytes) → length u ≡ len → Reads (read_bytes len) u u
Reads-bytes len u e = record {
  run = λ c rest t. (
    record c { pos = c.pos + len },
    read_bytes_fits c len (omega (arith, At-length c (u ++ rest) t, length-append u rest)) t.small
        ∙ ap (λ bs. some (bs, record c { pos = c.pos + len }))
            (ap (λ bs. take len bs) t.rest ∙ take-append_self len u rest e),
    subst (λ k. At (record c { pos = c.pos + k }) rest) e (At-advance c u rest t),
  );
}

pub Reads-u8 : (b : ℕ) → Reads read_u8 (b ∷ []) b
unfolding read_u8
Reads-u8 b = record {
  run = λ c rest t. (
    record c { pos = c.pos + 1 },
    rw (get_elem?-drop c.pos c.buf t.rest, read_u8),
    At-advance c (b ∷ []) rest t,
  );
}

pub Reads-pure : {A : Type 0} (a : A) → Reads (pure a) [] a
unfolding pure
Reads-pure a = record { run = λ c rest t. (c, refl, t) }

pub Reads-bind :
    {A B : Type 0} {m : Reader A} (f : A → Reader B) (u v : Bytes) {a : A} {b : B}
    → Reads m u a
    → Reads (f a) v b
    → Reads (m >>= f) (u ++ v) b
unfolding ◌>>=◌
Reads-bind f u v p q = record {
  run = λ c rest t.
      let (c1, e1, t1) = p.run c (v ++ rest) (subst (λ bs. At c bs) (append_assoc u v rest) t) in
      let (c2, e2, t2) = q.run c1 rest t1 in (c2, rw (e1, ◌>>=◌) e2, t2);
}

-- The last step of a `do` block.
pub Reads-last :
    {A B : Type 0} {m : Reader A} (f : A → B) {u : Bytes} {a : A}
    → Reads m u a
    → Reads (m >>= λ x. pure (f x)) u (f a)
unfolding ◌>>=◌ pure
Reads-last f p = record {
  run = λ c rest t. let (c1, e1, t1) = p.run c rest t in (c1, rw (e1, ◌>>=◌), t1);
}

pub Reads-reject :
    {B : Type 0} (b : Bool) {n : Reader B} {u : Bytes} {a : B}
    → b ≡ false
    → Reads n u a
    → Reads (reject_if b >>= λ _. n) u a
unfolding ◌>>=◌ reject_if
Reads-reject b e p = record {
  run = λ c rest t. let (c1, e1, t1) = p.run c rest t in (c1, rw (e, ◌>>=◌, reject_if) e1, t1);
}

Reads-word :
    (w n : ℕ)
    → n < 256 ^ w
    → Reads (read_bytes w >>= λ bytes. pure (from_le_bytes bytes)) (to_le_bytes w n) n
Reads-word w n h =
    subst (λ x. Reads (read_bytes w >>= λ bytes. pure (from_le_bytes bytes)) (to_le_bytes w n) x)
      (from_le_bytes-to_le_bytes w n h)
      (Reads-last from_le_bytes (Reads-bytes w (to_le_bytes w n) (length-to_le_bytes w n)))

pub Reads-u32 : (n : ℕ) → IsU32 n → Reads read_u32 (to_le_bytes 4 n) n
unfolding read_u32
Reads-u32 n h = Reads-word 4 n h

pub Reads-u64 : (n : ℕ) → IsU64 n → Reads read_u64 (to_le_bytes 8 n) n
unfolding read_u64
Reads-u64 n h = Reads-word 8 n h

pub start : (bs : Bytes) → length bs < u64_mod → At (record { buf = bs; pos = 0 }) bs
start bs h = record { within = omega arith; small = h; rest = refl }

finished-nil : (c : Cursor) → At c [] → finished c ≡ true
unfolding finished
finished-nil c t = ground (arith, At-length c [] t)

pub finished-cons : (c : Cursor) (x : ℕ) (xs : Bytes) → At c (x ∷ xs) → finished c ≡ false
unfolding finished
finished-cons c x xs t = ground (arith, At-length c (x ∷ xs) t)

-- A reader that reads an encoding decodes a buffer that holds just that, and refuses one that
-- holds more.
pub Reads-whole :
    {A : Type 0} (r : Reader A) (u : Bytes) (a : A)
    → Reads r u a
    → length u < u64_mod
    → decode_whole r u ≡ some a
unfolding decode_whole
Reads-whole r u a p h =
    let (c, e, t) =
      p.run (record { buf = u; pos = 0 }) []
        (subst (λ bs. At (record { buf = u; pos = 0 }) bs) (sym (append-nil u)) (start u h)) in
    rw (e, decode_whole) (rw (finished-nil c t))

pub Reads-trailing :
    {A : Type 0} (r : Reader A) (u : Bytes) (a : A) (x : ℕ) (xs : Bytes)
    → Reads r u a
    → length (u ++ (x ∷ xs)) < u64_mod
    → decode_whole r (u ++ (x ∷ xs)) ≡ none
unfolding decode_whole
Reads-trailing r u a x xs p h =
    let (c, e, t) =
      p.run (record { buf = u ++ (x ∷ xs); pos = 0 }) (x ∷ xs) (start (u ++ (x ∷ xs)) h) in
    rw (e, decode_whole) (rw (finished-cons c x xs t))
