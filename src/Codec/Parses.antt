-- ===== src/Codec/Parses.antt =====
-- What a successful read says of the bytes that it took.
use raxos.Prelude.{
  ℕ, ◌+◌, ◌^◌, ◌≤◌, ◌<◌, ◌≡◌, refl, sym, ap, ◌∙◌, subst, some, Option-cases, [], ◌∷◌, ◌++◌,
  append-nil, append_assoc, Bytes, IsByte, All, All-take, All-drop, length, length-take, take, drop,
  take-append-drop, get_elem?-drop, get_elem?-past, u64_mod, arith, Bool, true, false,
  if◌then◌else◌, ltb, not, Bool-cases, inl, inr, some_inv, some_pair,
}
use raxos.Codec.{
  to_le_bytes, from_le_bytes, Cursor, Reader, ◌>>=◌, pure, fail, reject_if, read_u8, read_bytes,
  read_u32, read_u64, finished, decode_whole,
}
use raxos.Codec.Words.{from_le_bytes-lt, to_le_bytes-from_le_bytes}
use raxos.Codec.Readers.{At, At-length, At-advance, start, finished-cons}

-- From `bs` the bytes `u` were taken, with `Q u`, and `c` stands before the others.
abbrev pub Takes : Bytes → Cursor → (Bytes → Type 0) → Type 0
Takes bs c Q = (u : Bytes) × (rest : Bytes) × (bs ≡ u ++ rest) × At c rest × All IsByte rest × Q u

pub record Parses {A : Type 0} (r : Reader A) (Q : A → Bytes → Type 0) : Type 0 where
  pub run :
      (c : Cursor) (bs : Bytes) (a : A) (c' : Cursor)
      → At c bs
      → All IsByte bs
      → r c ≡ some (a, c')
      → Takes bs c' (Q a)

module _ {A B : Type 0} where
  >>=-split :
      (m : Reader A) (f : A → Reader B) (c : Cursor) {b : B} {c' : Cursor}
      → (m >>= f) c ≡ some (b, c')
      → (a : A) × (c1 : Cursor) × (m c ≡ some (a, c1)) × (f a c1 ≡ some (b, c'))
  unfolding ◌>>=◌
  >>=-split m f c h = elim (Option-cases (m c)) [
    | inl e ↦ cc (rw (e, ◌>>=◌) at h)
    | inr ((a, c1), e) ↦ (a, c1, e, rw (e, ◌>>=◌) at h)
  ]

  pub Parses-bind :
      {m : Reader A} (f : A → Reader B) (P : A → Bytes → Type 0) (Q : B → Bytes → Type 0)
      → Parses m P
      → ((a : A) (u : Bytes) → P a u → Parses (f a) (λ b v. Q b (u ++ v)))
      → Parses (m >>= f) Q
  Parses-bind {m} f P Q p q = record {
    run = λ c bs b c' t w h.
        let (a, c1, e1, e2) = >>=-split m f c h in
        let (u, rest, s1, t1, w1, pu) = p.run c bs a c1 t w e1 in
        let (v, rest', s2, t2, w2, qv) = (q a u pu).run c1 rest b c' t1 w1 e2 in
        (u ++ v, rest', s1 ∙ ap (λ r. u ++ r) s2 ∙ sym (append_assoc u v rest'), t2, w2, qv);
  }

  -- The last step of a `do` block.
  pub Parses-last :
      {m : Reader A} (f : A → B) (P : A → Bytes → Type 0) (Q : B → Bytes → Type 0)
      → Parses m P
      → ((a : A) (u : Bytes) → P a u → Q (f a) u)
      → Parses (m >>= λ x. pure (f x)) Q
  unfolding pure
  Parses-last {m} f P Q p q = record {
    run = λ c bs b c' t w h.
        let (a, c1, e1, e2) = >>=-split m (λ x. pure (f x)) c h in
        let (u, rest, s1, t1, w1, pu) = p.run c bs a c1 t w e1 in
        let (eb, ec) = some_pair e2 in
        (u, rest, s1, subst (λ k. At k rest) ec t1, w1, subst (λ x. Q x u) eb (q a u pu));
  }

pub Parses-pure : {B : Type 0} (b : B) (Q : B → Bytes → Type 0) → Q b [] → Parses (pure b) Q
unfolding pure
Parses-pure b Q q = record {
  run = λ c bs b' c' t w h.
      let (eb, ec) = some_pair h in
      ([], bs, refl, subst (λ k. At k bs) ec t, w, subst (λ x. Q x []) eb q);
}

pub Parses-reject :
    {B : Type 0} (b : Bool) {n : Reader B} (Q : B → Bytes → Type 0)
    → (b ≡ false → Parses n Q)
    → Parses (reject_if b >>= λ _. n) Q
unfolding ◌>>=◌ reject_if
Parses-reject true Q p = record { run = λ c bs b' c' t w h. cc }
Parses-reject false Q p = record { run = λ c bs b' c' t w h. (p refl).run c bs b' c' t w h }

abbrev pub IsBytes : ℕ → Bytes → Bytes → Type 0
IsBytes len a u = (u ≡ a) × (length a ≡ len) × All IsByte a

read_bytes_inv :
    (c : Cursor) (len : ℕ) {a : Bytes} {c' : Cursor}
    → read_bytes len c ≡ some (a, c')
    → (c.pos + len ≤ length c.buf)
      × (take len (drop c.pos c.buf) ≡ a)
      × (record c { pos = c.pos + len } ≡ c')
unfolding read_bytes
read_bytes_inv c len h = elim (Bool-cases (not (ltb (c.pos + len) u64_mod))) [
  | inl over ↦ cc (rw (over, read_bytes) at h)
  | inr fits ↦ elim (Bool-cases (ltb (length c.buf) (c.pos + len))) [
    | inl past ↦ cc (rw (fits, past, read_bytes) at h)
    | inr inside ↦
        let (ea, ec) = some_pair (rw (fits, inside, read_bytes) at h) in (ground arith, ea, ec)
  ]
]

pub Parses-IsBytes : (len : ℕ) → Parses (read_bytes len) (IsBytes len)
Parses-IsBytes len = record {
  run = λ c bs a c' t w h.
      let (fits, ea, ec) = read_bytes_inv c len h in
      let taken : take len bs ≡ a = ap (λ r. take len r) (sym t.rest) ∙ ea in
      let long : len ≤ length bs = omega (arith, At-length c bs t) in
      let l : length (take len bs) ≡ len = length-take len bs long in
      (
        take len bs,
        drop len bs,
        sym (take-append-drop len bs),
        subst (λ k. At k (drop len bs)) ec
            (subst (λ k. At (record c { pos = c.pos + k }) (drop len bs)) l
              (At-advance c (take len bs) (drop len bs)
                (subst (λ r. At c r) (sym (take-append-drop len bs)) t))),
        All-drop IsByte len bs w,
        (
          taken,
          ap length (sym taken) ∙ l,
          subst (λ x. All IsByte x) taken (All-take IsByte len bs w),
        ),
      );
}

abbrev pub IsWord : ℕ → ℕ → Bytes → Type 0
IsWord w n u = (to_le_bytes w n ≡ u) × (n < 256 ^ w)

IsWord-of_bytes : (w : ℕ) (bs u : Bytes) → IsBytes w bs u → IsWord w (from_le_bytes bs) u
IsWord-of_bytes w bs u (e, l, a) = (
  subst (λ k. to_le_bytes k (from_le_bytes bs) ≡ u) l (to_le_bytes-from_le_bytes bs a ∙ sym e),
  subst (λ k. from_le_bytes bs < 256 ^ k) l (from_le_bytes-lt bs a),
)

pub Parses-u32 : Parses read_u32 (IsWord 4)
unfolding read_u32
Parses-u32 = Parses-last from_le_bytes (IsBytes 4) (IsWord 4) (Parses-IsBytes 4) (IsWord-of_bytes 4)

pub Parses-u64 : Parses read_u64 (IsWord 8)
unfolding read_u64
Parses-u64 = Parses-last from_le_bytes (IsBytes 8) (IsWord 8) (Parses-IsBytes 8) (IsWord-of_bytes 8)

abbrev pub IsOneByte : ℕ → Bytes → Type 0
IsOneByte b u = (b ∷ [] ≡ u) × IsByte b

read_u8_inv :
    (c : Cursor) (bs : Bytes) {b : ℕ} {c' : Cursor}
    → At c bs
    → read_u8 c ≡ some (b, c')
    → (rest : Bytes) × (bs ≡ b ∷ rest) × (record c { pos = c.pos + 1 } ≡ c')
unfolding read_u8
read_u8_inv c [] t h =
    cc (rw (get_elem?-past c.buf c.pos (omega (arith, At-length c [] t)), read_u8) at h)
read_u8_inv c (x ∷ xs) t h =
    let (eb, ec) = some_pair (rw (get_elem?-drop c.pos c.buf t.rest, read_u8) at h) in
    (xs, ap (λ y. y ∷ xs) eb, ec)

pub Parses-u8 : Parses read_u8 IsOneByte
Parses-u8 = record {
  run = λ c bs b c' t w h.
      let (rest, e, ec) = read_u8_inv c bs t h in
      let w' : All IsByte (b ∷ rest) = subst (λ r. All IsByte r) e w in
      (
        b ∷ [],
        rest,
        e,
        subst (λ k. At k rest) ec (At-advance c (b ∷ []) rest (subst (λ r. At c r) e t)),
        w'.1,
        (refl, w'.0),
      );
}

-- The end of the buffer is where nothing is left.
finished_rest : (c : Cursor) (rest : Bytes) → At c rest → finished c ≡ true → rest ≡ []
finished_rest c [] t f = refl
finished_rest c (x ∷ xs) t f = cc (finished-cons c x xs t)

decode_whole_inv :
    {A : Type 0} (r : Reader A) (bs : Bytes) {a : A}
    → decode_whole r bs ≡ some a
    → (c : Cursor) × (r (record { buf = bs; pos = 0 }) ≡ some (a, c)) × (finished c ≡ true)
unfolding decode_whole
decode_whole_inv r bs h = elim (Option-cases (r (record { buf = bs; pos = 0 }))) [
  | inl e ↦ cc (rw (e, decode_whole) at h)
  | inr ((b, c), e) ↦ elim (Bool-cases (finished c)) [
    | inl f ↦
        let eb = some_inv (rw (e, f, decode_whole) at h) in (c, e ∙ ap (λ x. some (x, c)) eb, f)
    | inr f ↦ cc (rw (e, f, decode_whole) at h)
  ]
]

pub Parses-weaken :
    {A : Type 0} {r : Reader A} (P Q : A → Bytes → Type 0)
    → Parses r P
    → ((a : A) (u : Bytes) → P a u → Q a u)
    → Parses r Q
Parses-weaken P Q p f = record {
  run = λ c bs a c' t w h.
      let (u, rest, s, t', w', q) = p.run c bs a c' t w h in (u, rest, s, t', w', f a u q);
}

-- A buffer that decodes is one whole encoding.
pub Parses-whole :
    {A : Type 0} (r : Reader A) (Q : A → Bytes → Type 0) (bs : Bytes) (a : A)
    → Parses r Q
    → All IsByte bs
    → length bs < u64_mod
    → decode_whole r bs ≡ some a
    → Q a bs
Parses-whole r Q bs a p w h e =
    let (c, er, f) = decode_whole_inv r bs e in
    let (u, rest, s, t, w', q) = p.run (record { buf = bs; pos = 0 }) bs a c (start bs h) w er in
    let all : bs ≡ u = s ∙ ap (λ x. u ++ x) (finished_rest c rest t f) ∙ append-nil u in
    subst (λ x. Q a x) (sym all) q

pub Parses-fail : {A : Type 0} (Q : A → Bytes → Type 0) → Parses fail Q
unfolding fail
Parses-fail Q = record { run = λ c bs a c' t w h. cc }

pub Parses-if :
    {A : Type 0} (b : Bool) {m n : Reader A} (Q : A → Bytes → Type 0)
    → (b ≡ true → Parses m Q)
    → (b ≡ false → Parses n Q)
    → Parses (if b then m else n) Q
Parses-if true Q p q = p refl
Parses-if false Q p q = q refl
