-- ===== src/Vm/Script/Calls.antt =====
-- The calls that a ScriptBuilder of src/vm.rs composes: loads of values, method arguments, and the
-- calls of interops and contracts.
pub mod Laws
use phantasma_sdk_rs.Prelude.{
  ℕ, ◌+◌, ◌-◌, ◌^◌, pos, [], ◌∷◌, Bool, true, false, ltb, leb, if◌then◌else◌,
}
use phantasma_sdk_rs.Stream.{Bytes, le_bytes}
use phantasma_sdk_rs.Text.Ascii.{ascii}
use phantasma_sdk_rs.BigInt.{BigInt, BigIntBytes}
use phantasma_sdk_rs.Binary.{write_var_bytes}
use phantasma_sdk_rs.Binary.BigInteger.{big_int_to_csharp_bytes}
use phantasma_sdk_rs.Crypto.{Address}
use phantasma_sdk_rs.Error.{ok, err}
use phantasma_sdk_rs.Vm.Code.{Opcode, VmType, vm_type_byte}
use phantasma_sdk_rs.Vm.Script.{ScriptBuilder, max_register_count, ◌▷◌, fail, byte, emit, emit_load}

-- The list of an array is a type of its own.
mutual
  pub data ScriptArg : Type 0 where
    address : Address → ScriptArg
    text : Bytes → ScriptArg
    bool : Bool → ScriptArg
    bytes : Bytes → ScriptArg
    number : BigInt → ScriptArg
    timestamp : ℕ → ScriptArg
    array : ScriptArgs → ScriptArg

  pub data ScriptArgs : Type 0 where
    no_args : ScriptArgs
    arg : ScriptArg → ScriptArgs → ScriptArgs

unfoldable pub emit_push : ℕ → ScriptBuilder → ScriptBuilder
unfolding emit byte
emit_push reg b = b ▷ emit Opcode.push ▷ byte reg

unfoldable pub emit_pop : ℕ → ScriptBuilder → ScriptBuilder
unfolding emit byte
emit_pop reg b = b ▷ emit Opcode.pop ▷ byte reg

unfoldable pub emit_throw : ℕ → ScriptBuilder → ScriptBuilder
unfolding emit byte
emit_throw reg b = b ▷ emit Opcode.throw ▷ byte reg

unfoldable pub emit_load_string : ℕ → Bytes → ScriptBuilder → ScriptBuilder
unfolding emit_load
emit_load_string reg value b = emit_load reg value VmType.text b

unfoldable pub emit_ext_call : Bytes → ℕ → ScriptBuilder → ScriptBuilder
unfolding emit_load_string emit byte
emit_ext_call method reg b = b ▷ emit_load_string reg method ▷ emit Opcode.ext_call ▷ byte reg

unfoldable pub emit_load_bool : ℕ → Bool → ScriptBuilder → ScriptBuilder
unfolding emit_load
emit_load_bool reg value b = emit_load reg ((if value then 1 else 0) ∷ []) VmType.bool b

unfoldable pub emit_load_timestamp : ℕ → ℕ → ScriptBuilder → ScriptBuilder
unfolding emit_load fail
emit_load_timestamp reg unix_seconds b =
    if leb (2 ^ 32) unix_seconds
    then fail "timestamp out of VM uint32 range" b
    else emit_load reg (le_bytes 4 unix_seconds) VmType.timestamp b

unfoldable pub emit_load_time : ℕ → ℕ → ScriptBuilder → ScriptBuilder
unfolding emit_load_timestamp
emit_load_time reg unix_seconds b = emit_load_timestamp reg unix_seconds b

unfoldable pub emit_move : ℕ → ℕ → ScriptBuilder → ScriptBuilder
unfolding emit byte
emit_move src_reg dst_reg b = b ▷ emit Opcode.move ▷ byte src_reg ▷ byte dst_reg

unfoldable pub emit_copy : ℕ → ℕ → ScriptBuilder → ScriptBuilder
unfolding emit byte
emit_copy src_reg dst_reg b = b ▷ emit Opcode.copy ▷ byte src_reg ▷ byte dst_reg

-- `Address::prefixed_bytes`: what a writer of its own makes of the address.
unfoldable pub prefixed_bytes : Address → Bytes
prefixed_bytes value = elim (write_var_bytes value (record { buffer = [] })) [
  | ok w ↦ w.buffer
  | err e ↦ []
]

module _ ⦃big : BigIntBytes⦄ where
  unfoldable pub emit_load_number : ℕ → BigInt → ScriptBuilder → ScriptBuilder
  unfolding emit_load
  emit_load_number reg value b = emit_load reg (big_int_to_csharp_bytes value) VmType.number b

  -- The loop over the items of an array has the index as an argument.
  unfoldable mutual
    unfolding emit byte emit_load emit_load_string emit_load_bool emit_load_number
        emit_load_timestamp fail prefixed_bytes

    pub load_into_register : ℕ → ScriptArg → ScriptBuilder → ScriptBuilder
    load_into_register reg (address value) b = emit_load reg (prefixed_bytes value) VmType.bytes b
    load_into_register reg (text value) b = emit_load_string reg value b
    load_into_register reg (bool value) b = emit_load_bool reg value b
    load_into_register reg (bytes value) b = emit_load reg value VmType.bytes b
    load_into_register reg (number value) b = emit_load_number reg value b
    load_into_register reg (timestamp value) b = emit_load_timestamp reg value b
    load_into_register reg (array values) b =
        let cast =
          b ▷ emit Opcode.cast ▷ byte reg ▷ byte reg ▷ byte (vm_type_byte VmType.none_type) in
        let whole = load_items reg 0 values cast in
        if ltb (max_register_count - 3) reg
        then fail "array load needs three registers" b
        else whole

    pub load_items : ℕ → ℕ → ScriptArgs → ScriptBuilder → ScriptBuilder
    load_items reg index no_args b = b
    load_items reg index (arg item items) b = load_items reg (index + 1) items (
        b
        ▷ load_into_register (reg + 1) item
        ▷ emit_load_number (reg + 2) (pos index)
        ▷ emit Opcode.put
        ▷ byte (reg + 1)
        ▷ byte reg
        ▷ byte (reg + 2))

  -- The loop over the arguments runs from the last to the first.
  unfoldable pub insert_method_args : ScriptArgs → ScriptBuilder → ScriptBuilder
  unfolding load_into_register emit_push
  insert_method_args no_args b = b
  insert_method_args (arg item items) b =
      b ▷ insert_method_args items ▷ load_into_register 0 item ▷ emit_push 0

  unfoldable pub call_interop : Bytes → ScriptArgs → ScriptBuilder → ScriptBuilder
  unfolding insert_method_args emit_load_string emit byte
  call_interop method args b =
      b ▷ insert_method_args args ▷ emit_load_string 0 method ▷ emit Opcode.ext_call ▷ byte 0

  unfoldable pub call_contract : Bytes → Bytes → ScriptArgs → ScriptBuilder → ScriptBuilder
  unfolding insert_method_args emit_load_string emit_push emit byte
  call_contract contract_name method args b =
      b
      ▷ insert_method_args args
      ▷ emit_load_string 0 method
      ▷ emit_push 0
      ▷ emit_load_string 0 contract_name
      ▷ emit Opcode.ctx
      ▷ byte 0
      ▷ byte 1
      ▷ emit Opcode.switch
      ▷ byte 1
