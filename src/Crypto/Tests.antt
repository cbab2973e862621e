-- ===== src/Crypto/Tests.antt =====
-- The theorems on src/crypto.rs at concrete keys and addresses.
use phantasma_sdk_rs.Prelude.{◌≡◌, ◌≢◌, refl, arith, [], ◌∷◌, replicate, list_eq}
use phantasma_sdk_rs.Error.{ok, err, panicked}
use phantasma_sdk_rs.Text.Ascii.{eq_ignore_ascii_case, to_ascii_lowercase, to_lower}
use phantasma_sdk_rs.Stream.{Bytes}
use phantasma_sdk_rs.Stream.Bytes.{All-replicate}
use phantasma_sdk_rs.Crypto.{
  AddressKind, Address, from_second_byte, from_text, to_text, from_wif, to_wif, kind, is_null, null,
}
use phantasma_sdk_rs.Crypto.Model.{model}
use phantasma_sdk_rs.Crypto.Laws.{from_text-to_text}
use phantasma_sdk_rs.Crypto.Wif.{from_wif-to_wif}

abbrev sevens : Bytes
sevens = replicate 32 7

abbrev user_address : Address
user_address = 1 ∷ 0 ∷ replicate 32 7

user_kind : kind user_address ≡ AddressKind.user
unfolding kind is_null null list_eq
user_kind = refl

user_valid : kind user_address ≢ AddressKind.invalid
user_valid h = cc (h, user_kind)

from_text-to_text_example : from_text (to_text user_address) ≡ ok user_address
from_text-to_text_example =
    from_text-to_text user_address (omega arith, (omega arith, All-replicate 32 7 (omega arith)))
      refl user_valid

from_wif-to_wif_example : from_wif (to_wif sevens) ≡ ok sevens
from_wif-to_wif_example = from_wif-to_wif sevens (All-replicate 32 7 (omega arith)) refl

-- A text whose first character has two bytes is cut inside that character.
from_text_splits_character :
    from_text (0xC3 ∷ 0xA9 ∷ []) ≡ err (panicked "byte index 1 is not a char boundary")
unfolding from_text from_second_byte eq_ignore_ascii_case to_ascii_lowercase to_lower list_eq
from_text_splits_character = refl
