-- ===== src/Stream/Codes.antt =====
-- A writer and a reader that agree on a value, and how such pairs are put together.
use phantasma_sdk_rs.Prelude.{
  ℕ, zero, suc, ◌+◌, ◌*◌, ◌/◌, ◌^◌, ◌≤◌, ◌<◌, ◌≡◌, refl, ap, ◌∙◌, arith, subst, List, [], ◌∷◌, ◌++◌,
  append-nil, append_assoc, length, All, length-append, take-append, drop-append, ltb, le→ltb,
  false,
}
use phantasma_sdk_rs.Error.{ok}
use phantasma_sdk_rs.Stream.{
  Bytes, Writer, Reader, Put, Get, ◌▹◌, skip, pure, ◌>>=◌, write, remaining, read, le_bytes,
  from_le, read_many, write_many,
}
use native.Mathlib.Nat.{pow-suc}

-- The reader that has passed `front` and has `back` before it.
abbrev pub reader_at : Bytes → Bytes → Reader
reader_at front back = record { data_bytes = front ++ back; offset = length front }

-- `put` appends certain bytes, at least `size` of them, and `get` reads `a` from these bytes and no
-- others, whatever stands before and behind them.
pub record Codes {ℓ} {A : Type ℓ} (size : ℕ) (put : Put) (get : Get A) (a : A) : Type ℓ where
  pub bytes : Bytes
  pub long : size ≤ length bytes
  pub writes :
      (buffer : Bytes) → put (record { buffer = buffer }) ≡ ok (record { buffer = buffer ++ bytes })
  pub reads :
      (front back : Bytes)
      → get (reader_at front (bytes ++ back)) ≡ ok (a, reader_at (front ++ bytes) back)

pub remaining_at : (front back : Bytes) → remaining (reader_at front back) ≡ length back
unfolding remaining
remaining_at front back = omega (arith, length-append front back)

reader_past :
    (front bytes back : Bytes)
    → reader_at (front ++ bytes) back
      ≡ record { data_bytes = front ++ (bytes ++ back); offset = length front + length bytes }
reader_past front bytes back = rw (append_assoc, length-append)

pub read_at :
    (front bytes back : Bytes)
    → read (length bytes) (reader_at front (bytes ++ back))
      ≡ ok (bytes, reader_at (front ++ bytes) back)
unfolding read
read_at front bytes back =
    let room : ltb (remaining (reader_at front (bytes ++ back))) (length bytes) ≡ false =
      le→ltb _ _ (omega (arith, remaining_at front (bytes ++ back), length-append bytes back)) in
    rw (room, drop-append, take-append, reader_past)

pub Codes-write : (bytes : Bytes) → Codes (length bytes) (write bytes) (read (length bytes)) bytes
unfolding write
Codes-write bytes = record {
  bytes = bytes;
  long = omega arith;
  writes = λ buffer. refl;
  reads = λ front back. read_at front bytes back;
}

pub then_ok : (p q : Put) (w : Writer) {w' : Writer} → p w ≡ ok w' → (p ▹ q) w ≡ q w'
unfolding ◌▹◌
then_ok p q w e = rw (e, ◌▹◌)

module _ {ℓ κ} {A : Type ℓ} {B : Type κ} where
  pub bind_ok :
      (p : Get A) (f : A → Get B) (r : Reader) {a : A} {r' : Reader}
      → p r ≡ ok (a, r')
      → (p >>= f) r ≡ f a r'
  unfolding ◌>>=◌
  bind_ok p f r e = rw (e, ◌>>=◌)

  pub Codes-bind :
      {n k : ℕ} {w v : Put} {p : Get A} (f : A → Get B) {a : A} {b : B}
      → Codes n w p a
      → Codes k v (f a) b
      → Codes (n + k) (w ▹ v) (p >>= f) b
  Codes-bind {w} {v} {p} f {a} {b} c d = record {
    bytes = c.bytes ++ d.bytes;
    long = omega (arith, length-append c.bytes d.bytes, c.long, d.long);
    writes = λ buffer.
        then_ok w v _ (c.writes buffer)
        ∙ d.writes (buffer ++ c.bytes)
        ∙ ap (λ t. ok (record { buffer = t })) (append_assoc buffer c.bytes d.bytes);
    reads = λ front back.
        ap (λ t. (p >>= f) (reader_at front t)) (append_assoc c.bytes d.bytes back)
        ∙ bind_ok p f _ (c.reads front (d.bytes ++ back))
        ∙ d.reads (front ++ c.bytes) back
        ∙ ap (λ t. ok (b, reader_at t back)) (append_assoc front c.bytes d.bytes);
  }

  -- The last read of a record, and the record that it completes.
  pub Codes-end :
      {n : ℕ} {w : Put} {p : Get A} (f : A → Get B) {a : A} {b : B}
      → Codes n w p a
      → f a ≡ pure b
      → Codes n w (p >>= f) b
  unfolding pure
  Codes-end {p} f c e = record {
    bytes = c.bytes;
    long = c.long;
    writes = c.writes;
    reads = λ front back. bind_ok p f _ (c.reads front back) ∙ rw e;
  }

pub Codes-skip {ℓ} : {A : Type ℓ} (a : A) → Codes 0 skip (pure a) a
unfolding skip pure
Codes-skip a = record {
  bytes = [];
  long = omega arith;
  writes = λ buffer. rw append-nil;
  reads = λ front back. rw append-nil;
}

-- A smaller lower bound on the size.
pub Codes-weaken {ℓ} :
    {A : Type ℓ} {n : ℕ} (k : ℕ) {w : Put} {p : Get A} {a : A}
    → k ≤ n
    → Codes n w p a
    → Codes k w p a
Codes-weaken k h c = record {
  bytes = c.bytes;
  long = omega (arith, c.long);
  writes = c.writes;
  reads = c.reads;
}

-- A fixed number of bytes that is read whole.
pub Codes-exact : (n : ℕ) (bytes : Bytes) → length bytes ≡ n → Codes n (write bytes) (read n) bytes
Codes-exact n bytes h = subst (λ k. Codes k (write bytes) (read k) bytes) h (Codes-write bytes)

pub from_le-le_bytes : (width n : ℕ) → n < 256 ^ width → from_le (le_bytes width n) ≡ n
unfolding from_le le_bytes
from_le-le_bytes zero n h = omega arith
from_le-le_bytes (suc width) n h =
    omega (arith, from_le-le_bytes width (n / 256) (omega (arith, pow-suc 256 width)))

pub length-le_bytes : (width n : ℕ) → length (le_bytes width n) ≡ width
unfolding le_bytes
length-le_bytes zero n = refl
length-le_bytes (suc width) n = ap suc (length-le_bytes width (n / 256))

-- An integer of a fixed width, through any reading of its bit pattern.
pub Codes-le {ℓ} :
    {A : Type ℓ} (view : ℕ → A) (width n : ℕ)
    → n < 256 ^ width
    → Codes width
        (write (le_bytes width n))
        (read width >>= λ raw. pure (view (from_le raw)))
        (view n)
Codes-le view width n h =
    Codes-end (λ raw. pure (view (from_le raw))) (Codes-exact width _ (length-le_bytes width n))
      (rw (from_le-le_bytes width n h))

module _ {ℓ} {A : Type ℓ} where
  -- A loop over items of at least `n` bytes each.
  pub Codes-many :
      (n : ℕ) (w : A → Put) (p : Get A) (xs : List A)
      → All (λ x. Codes n (w x) p x) xs
      → Codes (length xs * n) (write_many w xs) (read_many (length xs) p) xs
  unfolding write_many read_many
  Codes-many n w p [] h = Codes-weaken _ (omega arith) (Codes-skip [])
  Codes-many n w p (x ∷ xs) (h, hs) =
      Codes-weaken (length (x ∷ xs) * n) (omega arith)
        (Codes-bind _ h (Codes-end _ (Codes-many n w p xs hs) refl))

-- A step that reads nothing and does not fail.
pub Codes-pure {ℓ κ} :
    {A : Type ℓ} {B : Type κ} {n : ℕ} {w : Put} (q : Get A) (f : A → Get B) {a : A} {b : B}
    → q ≡ pure a
    → Codes n w (f a) b
    → Codes n w (q >>= f) b
unfolding ◌>>=◌ pure
Codes-pure q f e c = rw e c
