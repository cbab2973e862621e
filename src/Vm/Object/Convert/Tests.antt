-- ===== src/Vm/Object/Convert/Tests.antt =====
-- The conversions of src/vm.rs at a text of two characters. In the place of UTF-16 stands the encoding
-- that counts bytes out in two letters.
use phantasma_sdk_rs.Prelude.{ℕ, zero, suc, ◌^◌, ◌<◌, ◌≡◌, refl, ap, arith, pos, [], ◌∷◌, true, All}
use phantasma_sdk_rs.Error.{ok}
use phantasma_sdk_rs.Stream.{Bytes}
use phantasma_sdk_rs.Text.{is_utf8}
use phantasma_sdk_rs.Text.Ascii.{ascii}
use phantasma_sdk_rs.BigInt.Model.{model}
use phantasma_sdk_rs.Crypto.Model.{counted, letters, count_back, count_back-letters}
use phantasma_sdk_rs.Vm.Code.{VmType}
use phantasma_sdk_rs.Vm.Object.{VmItems, text, struct}
use phantasma_sdk_rs.Vm.Object.Convert.{TextLibrary, as_string, cast_to}
use phantasma_sdk_rs.Vm.Object.Convert.Laws.{HasUnits, as_string-cast_to}

counted_small :
    (n : ℕ) (rest : Bytes)
    → All (λ unit. unit < 2 ^ 16) rest
    → All (λ unit. unit < 2 ^ 16) (counted n rest)
counted_small zero rest h = (omega arith, h)
counted_small (suc n) rest h = (omega arith, counted_small n rest h)

letters_small : (value : Bytes) → All (λ unit. unit < 2 ^ 16) (letters value)
letters_small [] = tt
letters_small (b ∷ value) = counted_small b (letters value) (letters_small value)

instance abbrev counting : TextLibrary
counting = record {
  number_text = λ value. ascii "0";
  parse_number = λ value. ok (pos 0);
  encode_utf16 = letters;
  from_utf16 = λ units. ok (count_back 0 units);
  base64_encode = λ raw. raw;
  encode_utf16-small = letters_small;
  from_utf16-encode_utf16 = λ value valid. ap ok (count_back-letters value);
}

hi_utf8 : is_utf8 (ascii "hi") ≡ true
unfolding is_utf8
hi_utf8 = refl

as_string-cast_to_example :
    (items : VmItems) × (cast_to (text (ascii "hi")) VmType.struct ≡ ok (struct items))
    × HasUnits items (letters (ascii "hi"))
    × (as_string (struct items) ≡ ok (ascii "hi"))
as_string-cast_to_example = as_string-cast_to (ascii "hi") hi_utf8 (omega arith)
