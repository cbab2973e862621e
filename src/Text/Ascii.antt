-- ===== src/Text/Ascii.antt =====
-- ASCII text as bytes: the literals of the source, and the methods of `str` that ignore case.
use Prim.Native.Char.{code}
use phantasma_sdk_rs.Prelude.{ℕ, ◌+◌, String, Bool, [], ◌∷◌, ◌&&◌, map, leb, if◌then◌else◌, list_eq}
use phantasma_sdk_rs.Stream.{Bytes}

-- The bytes of an ASCII literal.
abbrev pub ascii : String → Bytes
ascii String.[] = []
ascii (String.◌∷◌ c s) = code c ∷ ascii s

unfoldable pub to_lower : ℕ → ℕ
to_lower c = if leb b'A' c && leb c b'Z' then c + 32 else c

unfoldable pub to_ascii_lowercase : Bytes → Bytes
unfolding to_lower
to_ascii_lowercase text = map to_lower text

unfoldable pub eq_ignore_ascii_case : Bytes → Bytes → Bool
unfolding to_ascii_lowercase
eq_ignore_ascii_case text other = list_eq (to_ascii_lowercase text) (to_ascii_lowercase other)
