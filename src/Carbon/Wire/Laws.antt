-- ===== src/Carbon/Wire/Laws.antt =====
-- The primitive reads of CarbonReader read what CarbonWriter wrote.
use phantasma_sdk_rs.Prelude.{
  ℕ, ◌+◌, ◌*◌, ◌^◌, ◌≤◌, ◌<◌, ◌≡◌, refl, ap, sym, ◌∙◌, arith, ℤ, pos, to_signed, to_unsigned,
  to_signed-to_unsigned, to_unsigned-lt, InRange, List, [], ◌∷◌, ◌++◌, ◌==◌, length, All, All-map,
  lt→ltb, le→ltb, length-append, false, subst, append_assoc, append-nil,
}
use phantasma_sdk_rs.Error.{ok, err}
use phantasma_sdk_rs.Stream.{
  Bytes, Reader, Put, Get, ◌▹◌, pure, ◌>>=◌, new_reader, new_writer, write, remaining, assert_eof,
  read, le_bytes, from_le, read_many, write_many,
}
use phantasma_sdk_rs.Stream.Codes.{
  Codes, reader_at, remaining_at, Codes-write, Codes-exact, Codes-end, Codes-le, Codes-many,
  Codes-weaken, bind_ok, then_ok,
}
use phantasma_sdk_rs.Carbon.Wire.{
  CarbonSerializable, serialize, deserialize, half16, half32, half64, write1, write2, write4,
  write4u, write8, write8u, write32, write64, ensure_u32_len, write_length, write_byte_array,
  write_byte_arrays, write_i64_array, write_u64_array, read1, read2, read4, read4u, read8, read8u,
  read32, read64, check_length, read_length_for, read_length, read_byte_array, read_byte_arrays,
  read_i64_array, read_u64_array, write_carbon_array, read_carbon_array,
}

pub Codes-1 : (n : ℕ) → Codes 1 (write1 n) read1 n
unfolding write1 read1
Codes-1 n = Codes-end _ (Codes-exact 1 (n ∷ []) refl) refl

pub Codes-4u : (n : ℕ) → n < 2 ^ 32 → Codes 4 (write4u n) read4u n
unfolding write4u read4u
Codes-4u n h = Codes-le (λ k. k) 4 n h

pub Codes-8u : (n : ℕ) → n < 2 ^ 64 → Codes 8 (write8u n) read8u n
unfolding write8u read8u
Codes-8u n h = Codes-le (λ k. k) 8 n h

-- A signed integer of any of the widths.
Codes-signed :
    (half width : ℕ) (z : ℤ)
    → 0 < half
    → 2 * half ≤ 256 ^ width
    → InRange half z
    → Codes width
        (write (le_bytes width (to_unsigned half z)))
        (read width >>= λ raw. pure (to_signed half (from_le raw)))
        z
Codes-signed half width z p q h =
    subst (Codes width _ _) (to_signed-to_unsigned half z h) (
      Codes-le (to_signed half) width (to_unsigned half z) (omega (arith, to_unsigned-lt half z p)))

pub Codes-2 : (z : ℤ) → InRange half16 z → Codes 2 (write2 z) read2 z
unfolding write2 read2
Codes-2 z h = Codes-signed half16 2 z (omega arith) (omega arith) h

pub Codes-4 : (z : ℤ) → InRange half32 z → Codes 4 (write4 z) read4 z
unfolding write4 read4
Codes-4 z h = Codes-signed half32 4 z (omega arith) (omega arith) h

pub Codes-8 : (z : ℤ) → InRange half64 z → Codes 8 (write8 z) read8 z
unfolding write8 read8
Codes-8 z h = Codes-signed half64 8 z (omega arith) (omega arith) h

pub Codes-32 : (b : Bytes) → length b ≡ 32 → Codes 32 (write32 b) read32 b
unfolding write32 read32
Codes-32 b h = Codes-exact 32 b h

pub Codes-64 : (b : Bytes) → length b ≡ 64 → Codes 64 (write64 b) read64 b
unfolding write64 read64
Codes-64 b h = Codes-exact 64 b h

ensure_u32_len_ok : (n : ℕ) → n < 2 ^ 32 → ensure_u32_len n ≡ ok n
unfolding ensure_u32_len
ensure_u32_len_ok n h = rw (lt→ltb _ _ h)

-- A length below 2 ^ 31 is written as it is.
pub write_length_lem : (n : ℕ) → n < half32 → write_length n ≡ write4 (pos n)
unfolding write_length
write_length_lem n h = rw (ensure_u32_len_ok n (omega arith), write_length) (rw (lt→ltb n half32 h))

check_length_ok :
    (size n : ℕ) (r : Reader)
    → n * size < 2 ^ 64
    → n * size ≤ remaining r
    → check_length size (pos n) r ≡ ok (n, r)
unfolding check_length
check_length_ok size n r h k = rw (lt→ltb _ _ h, le→ltb _ _ k)

read_length_at :
    {A : Type 0} (size n : ℕ) (f : ℕ → Get A) (front back : Bytes)
    → 0 < size
    → n * size < 2 ^ 64
    → n * size ≤ length back
    → (c : Codes 4 (write4 (pos n)) read4 (pos n))
    → (read_length_for size >>= f) (reader_at front (c.bytes ++ back))
      ≡ f n (reader_at (front ++ c.bytes) back)
unfolding read_length_for
read_length_at size n f front back p q h c =
    let nonzero : (size == 0) ≡ false = ground arith in
    let room : n * size ≤ remaining (reader_at (front ++ c.bytes) back) =
      omega (arith, remaining_at (front ++ c.bytes) back) in
    bind_ok _ f _
      (rw nonzero (bind_ok read4 _ _ (c.reads front back) ∙ check_length_ok size n _ q room))

-- A length and what it counts: `n` items of at least `size` bytes each.
pub Codes-length :
    {A : Type 0} (size n : ℕ) (f : ℕ → Get A) {k : ℕ} {v : Put} {b : A}
    → 0 < size
    → n < half32
    → n * size < 2 ^ 64
    → n * size ≤ k
    → Codes k v (f n) b
    → Codes (4 + k) (write_length n ▹ v) (read_length_for size >>= f) b
Codes-length size n f {k} {v} {b} p small q enough d =
    let c : Codes 4 (write4 (pos n)) read4 (pos n) = Codes-4 (pos n) small in
    record {
      bytes = c.bytes ++ d.bytes;
      long = omega (arith, length-append c.bytes d.bytes, c.long, d.long);
      writes = λ buffer. rw (write_length_lem n small) (
          then_ok (write4 (pos n)) v _ (c.writes buffer)
          ∙ d.writes (buffer ++ c.bytes)
          ∙ ap (λ t. ok (record { buffer = t })) (append_assoc buffer c.bytes d.bytes));
      reads = λ front back.
          ap (λ t. (read_length_for size >>= f) (reader_at front t))
            (append_assoc c.bytes d.bytes back)
          ∙ read_length_at size n f front (d.bytes ++ back) p q
              (omega (arith, length-append d.bytes back, d.long)) c
          ∙ d.reads (front ++ c.bytes) back
          ∙ ap (λ t. ok (b, reader_at t back)) (append_assoc front c.bytes d.bytes);
    }

pub Codes-byte_array :
    (b : Bytes) → length b < half32 → Codes 4 (write_byte_array b) read_byte_array b
unfolding write_byte_array read_byte_array read_length
Codes-byte_array b h =
    Codes-weaken 4 (omega arith)
      (Codes-length 1 (length b) read (omega arith) h (omega arith) (omega arith) (Codes-write b))

-- An array of items of at least `size` bytes each, with the reader's own idea of their size.
module _ {A : Type 0} (w : A → Put) (p : Get A) where
  pub Codes-array :
      (size : ℕ) (xs : List A)
      → 0 < size
      → length xs < half32
      → size ≤ 8
      → All (λ x. Codes size (w x) p x) xs
      → Codes 4
          (write_length (length xs) ▹ write_many w xs)
          (read_length_for size >>= λ count. read_many count p)
          xs
  Codes-array size xs h short le cs = Codes-weaken 4 (omega arith) (
      Codes-length size (length xs) _ h short (grind arith) (omega arith)
        (Codes-many size w p xs cs))

assert_eof_at_end : (bytes : Bytes) → assert_eof (reader_at bytes []) ≡ ok tt
unfolding assert_eof
assert_eof_at_end bytes = rw (remaining_at bytes [])

module _ {A : Type 0} ⦃c : CarbonSerializable A⦄ where
  pub Codes-carbon_array :
      (xs : List A)
      → length xs < half32
      → All (λ x. Codes 1 (c.write_carbon x) c.read_carbon x) xs
      → Codes 4 (write_carbon_array xs) read_carbon_array xs
  unfolding write_carbon_array read_carbon_array read_length
  Codes-carbon_array xs h hs =
      Codes-array c.write_carbon c.read_carbon 1 xs (omega arith) h (omega arith) hs

  -- What agrees on a value takes it through `serialize` and `deserialize`.
  pub serialize-bytes :
      {n : ℕ} (a : A) (d : Codes n (c.write_carbon a) c.read_carbon a) → serialize a ≡ ok d.bytes
  unfolding serialize
  serialize-bytes a d = rw (d.writes [], serialize)

  pub deserialize-bytes :
      {n : ℕ} (a : A) (d : Codes n (c.write_carbon a) c.read_carbon a) → deserialize d.bytes ≡ ok a
  unfolding deserialize
  deserialize-bytes a d =
      let e : c.read_carbon (new_reader d.bytes) ≡ ok (a, reader_at d.bytes []) =
        subst
          (λ t.
            c.read_carbon (record { data_bytes = t; offset = 0 }) ≡ ok (a, reader_at d.bytes []))
          (append-nil d.bytes) (d.reads [] []) in
      rw (e, deserialize) (rw (assert_eof_at_end d.bytes))

  pub deserialize-serialize :
      {n : ℕ} (a : A)
      → Codes n (c.write_carbon a) c.read_carbon a
      → (bytes : Bytes) × (serialize a ≡ ok bytes) × (deserialize bytes ≡ ok a)
  deserialize-serialize a d = (d.bytes, serialize-bytes a d, deserialize-bytes a d)

  -- A value that has the bytes of another one is read as that one.
  pub deserialize-serialize_as :
      {n : ℕ} (a b : A)
      → c.write_carbon b ≡ c.write_carbon a
      → Codes n (c.write_carbon b) c.read_carbon b
      → (bytes : Bytes) × (serialize a ≡ ok bytes) × (deserialize bytes ≡ ok b)
  unfolding serialize
  deserialize-serialize_as a b same d = (
    d.bytes,
    ap (λ put. elim (put new_writer) [ ok w ↦ ok w.buffer | err e ↦ err e ]) (sym same)
        ∙ serialize-bytes b d,
    deserialize-bytes b d,
  )

pub Codes-u64_array :
    (xs : List ℕ)
    → length xs < half32
    → All (λ x. x < 2 ^ 64) xs
    → Codes 4 (write_u64_array xs) read_u64_array xs
unfolding write_u64_array read_u64_array
Codes-u64_array xs h hs =
    Codes-array write8u read8u 8 xs (omega arith) h (omega arith) (All-map Codes-8u xs hs)

pub Codes-i64_array :
    (xs : List ℤ)
    → length xs < half32
    → All (InRange half64) xs
    → Codes 4 (write_i64_array xs) read_i64_array xs
unfolding write_i64_array read_i64_array
Codes-i64_array xs h hs =
    Codes-array write8 read8 8 xs (omega arith) h (omega arith) (All-map Codes-8 xs hs)

pub Codes-byte_arrays :
    (xs : List Bytes)
    → length xs < half32
    → All (λ x. length x < half32) xs
    → Codes 4 (write_byte_arrays xs) read_byte_arrays xs
unfolding write_byte_arrays read_byte_arrays
Codes-byte_arrays xs h hs =
    Codes-array write_byte_array read_byte_array 4 xs (omega arith) h (omega arith)
      (All-map Codes-byte_array xs hs)
