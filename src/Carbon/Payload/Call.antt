-- ===== src/Carbon/Payload/Call.antt =====
-- TxMsgCall of src/carbon.rs with its argument sections, and the messages made of such calls.
pub mod Laws
pub mod Kept
use phantasma_sdk_rs.Prelude.{
  ℕ, zero, suc, ◌+◌, ◌-◌, ◌%◌, ◌^◌, ℤ, pos, negsuc, to_signed, List, [], ◌∷◌, Option, some, none,
  ◌==◌, if◌then◌else◌, length, Bool, true, false,
}
use phantasma_sdk_rs.Error.{serialization, panicked}
use phantasma_sdk_rs.Stream.{
  Bytes, Put, Get, ◌▹◌, fail_put, pure, fail, ◌>>=◌, write, read, read_many, write_many,
}
use phantasma_sdk_rs.Carbon.Wire.{
  CarbonSerializable, half32, write4, write4u, write8u, write_length, write_carbon_array, read4,
  read4u, read8u, read_carbon_array,
}

pub record CallArgSection : Type 0 where
  pub register_offset : ℤ
  pub args : Bytes

unfoldable pub write_bytes_counted : Bytes → Put
write_bytes_counted args = write_length (length args) ▹ write args

-- A negative number takes the place of a length.
unfoldable pub write_section_at : ℤ → Bytes → Put
unfolding write_bytes_counted
write_section_at (negsuc n) args = write4 (negsuc n)
write_section_at (pos n) args = write_bytes_counted args

unfoldable pub write_call_arg_section : CallArgSection → Put
unfolding write_section_at
write_call_arg_section s = write_section_at s.register_offset s.args

unfoldable pub read_section_after : ℤ → Get CallArgSection
read_section_after (negsuc n) = pure (record { register_offset = negsuc n; args = [] })
read_section_after (pos n) =
    read n >>= λ args. pure (record { register_offset = pos 0; args = args })

unfoldable pub read_call_arg_section : Get CallArgSection
unfolding read_section_after
read_call_arg_section = read4 >>= read_section_after

instance abbrev pub call_arg_section_carbon : CarbonSerializable CallArgSection
call_arg_section_carbon = record {
  write_carbon = write_call_arg_section;
  read_carbon = read_call_arg_section;
}

pub record MsgCallArgSections : Type 0 where
  pub sections : List CallArgSection

unfoldable pub has_sections : MsgCallArgSections → Bool
has_sections m = elim m.sections [ [] ↦ false | s ∷ rest ↦ true ]

-- `-x` on an i32 in range; the negation of -2 ^ 31 wraps, which the caller below never meets.
unfoldable pub neg_i32 : ℤ → ℤ
neg_i32 (pos zero) = pos 0
neg_i32 (pos (suc n)) = negsuc n
neg_i32 (negsuc n) = if n == 2 ^ 31 - 1 then negsuc n else pos (suc n)

unfoldable pub write_sections : MsgCallArgSections → Put
unfolding has_sections neg_i32
write_sections m =
    if has_sections m
    then (write4 (neg_i32 (to_signed half32 (length m.sections % 2 ^ 32)))
        ▹ write_many write_call_arg_section m.sections)
    else fail_put (serialization "arg sections are empty")

-- The count -2 ^ 31 panics: its negation overflows, and where that wraps the capacity does.
unfoldable pub read_with_count : ℤ → Get MsgCallArgSections
read_with_count (pos n) = fail (serialization "arg sections count must be negative")
read_with_count (negsuc n) =
    if n == 2 ^ 31 - 1
    then fail (panicked "attempt to negate with overflow")
    else (read_many (suc n) read_call_arg_section >>= λ sections.
        pure (record { sections = sections }))

unfoldable pub read_sections : Get MsgCallArgSections
unfolding read_with_count
read_sections = read4 >>= read_with_count

pub record TxMsgCall : Type 0 where
  pub module_id : ℕ
  pub method_id : ℕ
  pub args : Bytes
  pub sections : Option MsgCallArgSections

unfoldable pub write_call_body : Bytes → Option MsgCallArgSections → Put
unfolding write_bytes_counted has_sections write_sections
write_call_body args none = write_bytes_counted args
write_call_body args (some s) =
    if has_sections s then write_sections s else write_bytes_counted args

unfoldable pub write_call : TxMsgCall → Put
unfolding write_call_body
write_call m = write4u m.module_id ▹ write4u m.method_id ▹ write_call_body m.args m.sections

-- The number before the arguments: their length, or the negated number of sections.
unfoldable pub read_call_body : ℕ → ℕ → ℤ → Get TxMsgCall
unfolding read_with_count
read_call_body module_id method_id (pos n) = do
  args ← read n
  pure (record { module_id = module_id; method_id = method_id; args = args; sections = none })
read_call_body module_id method_id (negsuc n) = do
  s ← read_with_count (negsuc n)
  pure (record { module_id = module_id; method_id = method_id; args = []; sections = some s })

unfoldable pub read_call : Get TxMsgCall
unfolding read_call_body
read_call = do
  module_id ← read4u
  method_id ← read4u
  len ← read4
  read_call_body module_id method_id len

instance abbrev pub call_carbon : CarbonSerializable TxMsgCall
call_carbon = record { write_carbon = write_call; read_carbon = read_call }

pub record TxMsgCallMulti : Type 0 where
  pub calls : List TxMsgCall

unfoldable pub write_call_multi : TxMsgCallMulti → Put
write_call_multi m = write_carbon_array m.calls

unfoldable pub read_call_multi : Get TxMsgCallMulti
read_call_multi = do calls ← read_carbon_array; pure (record { calls = calls })

pub record TxMsgSpecialResolution : Type 0 where
  pub resolution_id : ℕ
  pub calls : List TxMsgCall

unfoldable pub write_special_resolution : TxMsgSpecialResolution → Put
write_special_resolution m = write8u m.resolution_id ▹ write_carbon_array m.calls

unfoldable pub read_special_resolution : Get TxMsgSpecialResolution
read_special_resolution = do
  resolution_id ← read8u
  calls ← read_carbon_array
  pure (record { resolution_id = resolution_id; calls = calls })
