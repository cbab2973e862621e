-- ===== src/Carbon/SmallString.antt =====
-- SmallString of src/carbon.rs: text of at most 255 bytes behind its length in one byte.
use phantasma_sdk_rs.Prelude.{◌≤◌, ◌≡◌, refl, arith, true, ltb, le→ltb, if◌then◌else◌, length}
use phantasma_sdk_rs.Error.{Result, ok, err, serialization}
use phantasma_sdk_rs.Text.{is_utf8, from_utf8}
use phantasma_sdk_rs.Stream.{Bytes, Put, Get, ◌▹◌, fail_put, pure, ◌>>=◌, read, write}
use phantasma_sdk_rs.Stream.Codes.{Codes, Codes-bind, Codes-end, Codes-write, Codes-weaken}
use phantasma_sdk_rs.Carbon.Wire.{CarbonSerializable, read1, write1}
use phantasma_sdk_rs.Carbon.Wire.Laws.{Codes-1}

pub record SmallString : Type 0 where
  pub text : Bytes

unfoldable pub new_small_string : Bytes → Result SmallString
new_small_string value =
    if ltb 255 (length value)
    then err (serialization "SmallString exceeds 255 UTF-8 bytes")
    else ok (record { text = value })

unfoldable pub write_small_string : SmallString → Put
write_small_string s =
    if ltb 255 (length s.text)
    then fail_put (serialization "SmallString exceeds 255 UTF-8 bytes")
    else (write1 (length s.text) ▹ write s.text)

unfoldable pub read_small_string : Get SmallString
read_small_string =
    read1 >>= λ len. read len >>= λ raw. from_utf8 raw >>= λ text. pure (record { text = text })

instance abbrev pub small_string_carbon : CarbonSerializable SmallString
small_string_carbon = record { write_carbon = write_small_string; read_carbon = read_small_string }

-- What `new` accepts of valid UTF-8, which every `String` is.
pub record IsSmall (s : SmallString) : Type 0 where
  pub short : length s.text ≤ 255
  pub valid : is_utf8 s.text ≡ true

pub from_utf8_ok : (raw : Bytes) → is_utf8 raw ≡ true → from_utf8 raw ≡ pure raw
unfolding from_utf8
from_utf8_ok raw h = rw h

pub Codes-small_string :
    (s : SmallString) → IsSmall s → Codes 1 (write_small_string s) read_small_string s
unfolding write_small_string read_small_string
Codes-small_string s h = rw (le→ltb 255 (length s.text) h.short) (
    Codes-weaken 1 (omega arith) (
      Codes-bind _ (Codes-1 (length s.text)) (
        Codes-end _ (Codes-write s.text)
          (rw (from_utf8_ok s.text h.valid) (unfold ◌>>=◌ pure in refl)))))
