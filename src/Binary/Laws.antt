-- ===== src/Binary/Laws.antt =====
-- What BinaryWriter of src/binary.rs writes, BinaryReader reads.
use phantasma_sdk_rs.Prelude.{
  ℕ, ap, ◌∙◌, ◌-◌, ◌^◌, ◌≤◌, ◌<◌, ◌≡◌, refl, subst, arith, [], ◌∷◌, Bool-cases, inl, inr, ltb, leb,
  true, length, le→ltb, append-nil,
}
use phantasma_sdk_rs.Error.{ok, err}
use phantasma_sdk_rs.Stream.{
  Bytes, Put, Get, pure, new_writer, new_reader, write, read, assert_eof, remaining,
}
use phantasma_sdk_rs.Stream.Codes.{
  Codes, Codes-bind, Codes-end, Codes-weaken, Codes-exact, Codes-le, Codes-write,
}
use phantasma_sdk_rs.Text.{is_utf8, from_utf8}
use phantasma_sdk_rs.Carbon.SmallString.{from_utf8_ok}
use phantasma_sdk_rs.Binary.{
  max_array_size, write_u8, write_u16_le, write_u32_le, write_u64_le, write_var_uint,
  write_var_bytes, write_string, read_u8, read_u16_le, read_u32_le, read_u64_le, var_uint_after,
  read_var_uint, read_sized, read_var_bytes, read_string, whole_value, read_whole, written_whole,
}

pub Codes-u8 : (n : ℕ) → Codes 1 (write_u8 n) read_u8 n
unfolding write_u8 read_u8
Codes-u8 n = Codes-end _ (Codes-exact 1 (n ∷ []) refl) refl

pub Codes-var_uint : (n : ℕ) → n < 2 ^ 64 → Codes 1 (write_var_uint n) read_var_uint n
unfolding write_var_uint read_var_uint var_uint_after write_u16_le read_u16_le write_u32_le
    read_u32_le write_u64_le read_u64_le
Codes-var_uint n h = elim (Bool-cases (ltb n 0xFD)) [
  | inl e ↦
      let tag : var_uint_after n ≡ pure n = ground arith in rw e (Codes-end _ (Codes-u8 n) tag)
  | inr e ↦ elim (Bool-cases (leb n 0xFFFF)) [
    | inl d ↦
        rw (e, d)
          (Codes-weaken 1 (omega arith)
            (Codes-bind _ (Codes-u8 0xFD) (Codes-le (λ k. k) 2 n (ground arith))))
    | inr d ↦ elim (Bool-cases (leb n 0xFFFFFFFF)) [
      | inl c ↦
          rw (e, d, c)
            (Codes-weaken 1 (omega arith)
              (Codes-bind _ (Codes-u8 0xFE) (Codes-le (λ k. k) 4 n (ground arith))))
      | inr c ↦
          rw (e, d, c)
            (Codes-weaken 1 (omega arith)
              (Codes-bind _ (Codes-u8 0xFF) (Codes-le (λ k. k) 8 n (omega arith))))
    ]
  ]
]

sized_lem : (max_size size : ℕ) → size ≤ max_size → read_sized max_size size ≡ read size
unfolding read_sized
sized_lem max_size size h = rw (le→ltb max_size size h)

pub Codes-var_bytes :
    (max_size : ℕ) (raw : Bytes)
    → length raw ≤ max_size
    → max_size < 2 ^ 64
    → Codes 1 (write_var_bytes raw) (read_var_bytes max_size) raw
unfolding write_var_bytes read_var_bytes
Codes-var_bytes max_size raw h k =
    let body : Codes (length raw) (write raw) (read_sized max_size (length raw)) raw =
      rw (sized_lem max_size (length raw) h) (Codes-write raw) in
    Codes-weaken 1 (omega arith) (Codes-bind _ (Codes-var_uint (length raw) (omega arith)) body)

pub Codes-string :
    (text : Bytes)
    → length text ≤ max_array_size
    → is_utf8 text ≡ true
    → Codes 1 (write_string text) read_string text
unfolding write_string read_string
Codes-string text h valid =
    Codes-end from_utf8 (Codes-var_bytes max_array_size text h (omega arith))
      (from_utf8_ok text valid)

-- What a writer makes of a value in an empty buffer, a reader takes from it whole.
abbrev pub PassesOver {ℓ} : {A : Type ℓ} → Put → Get A → A → Type ℓ
PassesOver put get a =
    (bytes : Bytes) × (put new_writer ≡ ok (record { buffer = bytes }))
    × (get (new_reader bytes) ≡ ok (a, record { data_bytes = bytes; offset = length bytes }))

pub Codes-PassesOver {ℓ} :
    {A : Type ℓ} {n : ℕ} (put : Put) (get : Get A) (a : A)
    → Codes n put get a
    → PassesOver put get a
unfolding new_writer new_reader
Codes-PassesOver put get a c = (
  c.bytes,
  c.writes [],
  subst
      (λ t.
        get (record { data_bytes = t; offset = 0 })
        ≡ ok (a, record { data_bytes = t; offset = length c.bytes }))
      (append-nil c.bytes) (c.reads [] []),
)

at_end : (bytes : Bytes) → assert_eof (record { data_bytes = bytes; offset = length bytes }) ≡ ok tt
unfolding assert_eof remaining
at_end bytes = let nothing : length bytes - length bytes ≡ 0 = omega arith in rw nothing

Codes-read_whole :
    {A : Type 0} {n : ℕ} (put : Put) (get : Get A) (a : A) (c : Codes n put get a)
    → get (new_reader c.bytes) ≡ ok (a, record { data_bytes = c.bytes; offset = length c.bytes })
unfolding new_reader
Codes-read_whole put get a c =
    subst
      (λ t.
        get (record { data_bytes = t; offset = 0 })
        ≡ ok (a, record { data_bytes = t; offset = length c.bytes }))
      (append-nil c.bytes) (c.reads [] [])

module _ {A : Type 0} {n : ℕ} (put : Put) (get : Get A) (a : A) (c : Codes n put get a) where
  pub written_whole-bytes : written_whole put ≡ ok c.bytes
  unfolding written_whole new_writer
  written_whole-bytes = ap (λ t. elim t [ ok w ↦ ok w.buffer | err e ↦ err e ]) (c.writes [])

  pub read_whole-bytes : read_whole get c.bytes ≡ ok a
  unfolding read_whole
  read_whole-bytes =
      let back = (Codes-read_whole put get a c) in
      ap (λ t. elim t [ ok (value, r) ↦ whole_value value (assert_eof r) | err e ↦ err e ]) back
      ∙ ap (whole_value a) (at_end c.bytes)

  -- What agrees on a value takes it to bytes and back, with nothing left over.
  pub read_whole-written_whole :
      (bytes : Bytes) × (written_whole put ≡ ok bytes) × (read_whole get bytes ≡ ok a)
  read_whole-written_whole = (c.bytes, written_whole-bytes, read_whole-bytes)

-- Every u64 is read as it was written, in whichever of the four lengths the writer chose.
pub read_var_uint-write_var_uint :
    (n : ℕ) → n < 2 ^ 64 → PassesOver (write_var_uint n) read_var_uint n
read_var_uint-write_var_uint n h = Codes-PassesOver _ _ n (Codes-var_uint n h)

-- Bytes that are no more than the reader's limit, which is below 2 ^ 64, are read as they were
-- written.
read_var_bytes-write_var_bytes :
    (max_size : ℕ) (raw : Bytes)
    → length raw ≤ max_size
    → max_size < 2 ^ 64
    → PassesOver (write_var_bytes raw) (read_var_bytes max_size) raw
read_var_bytes-write_var_bytes max_size raw h k =
    Codes-PassesOver _ _ raw (Codes-var_bytes max_size raw h k)

-- Valid UTF-8 of at most 0x01000000 bytes is read as it was written.
pub read_string-write_string :
    (text : Bytes)
    → length text ≤ max_array_size
    → is_utf8 text ≡ true
    → PassesOver (write_string text) read_string text
read_string-write_string text h valid = Codes-PassesOver _ _ text (Codes-string text h valid)
