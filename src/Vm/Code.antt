-- ===== src/Vm/Code.antt =====
-- The opcodes of the VM, src/vm.rs, and the types of its objects, with the bytes they are written as.
use phantasma_sdk_rs.Prelude.{ℕ, Bool, true, false, ◌==◌, if◌then◌else◌}
use phantasma_sdk_rs.Error.{Result, ok, err, serialization}

pub data Opcode : Type 0 where
  nop move copy push pop swap call ext_call jmp jmp_if jmp_not ret throw load cast cat range :
      Opcode
  left right size count not and or xor equal lt gt lte gte inc dec sign negate abs add sub mul :
      Opcode
  div modulo shl shr min max pow ctx switch put get clear unpack pack debug substr remove evm :
      Opcode

-- The discriminants of the enum, with `as u8`.
unfoldable pub opcode_byte : Opcode → ℕ
opcode_byte Opcode.nop = 0
opcode_byte Opcode.move = 1
opcode_byte Opcode.copy = 2
opcode_byte Opcode.push = 3
opcode_byte Opcode.pop = 4
opcode_byte Opcode.swap = 5
opcode_byte Opcode.call = 6
opcode_byte Opcode.ext_call = 7
opcode_byte Opcode.jmp = 8
opcode_byte Opcode.jmp_if = 9
opcode_byte Opcode.jmp_not = 10
opcode_byte Opcode.ret = 11
opcode_byte Opcode.throw = 12
opcode_byte Opcode.load = 13
opcode_byte Opcode.cast = 14
opcode_byte Opcode.cat = 15
opcode_byte Opcode.range = 16
opcode_byte Opcode.left = 17
opcode_byte Opcode.right = 18
opcode_byte Opcode.size = 19
opcode_byte Opcode.count = 20
opcode_byte Opcode.not = 21
opcode_byte Opcode.and = 22
opcode_byte Opcode.or = 23
opcode_byte Opcode.xor = 24
opcode_byte Opcode.equal = 25
opcode_byte Opcode.lt = 26
opcode_byte Opcode.gt = 27
opcode_byte Opcode.lte = 28
opcode_byte Opcode.gte = 29
opcode_byte Opcode.inc = 30
opcode_byte Opcode.dec = 31
opcode_byte Opcode.sign = 32
opcode_byte Opcode.negate = 33
opcode_byte Opcode.abs = 34
opcode_byte Opcode.add = 35
opcode_byte Opcode.sub = 36
opcode_byte Opcode.mul = 37
opcode_byte Opcode.div = 38
opcode_byte Opcode.modulo = 39
opcode_byte Opcode.shl = 40
opcode_byte Opcode.shr = 41
opcode_byte Opcode.min = 42
opcode_byte Opcode.max = 43
opcode_byte Opcode.pow = 44
opcode_byte Opcode.ctx = 45
opcode_byte Opcode.switch = 46
opcode_byte Opcode.put = 47
opcode_byte Opcode.get = 48
opcode_byte Opcode.clear = 49
opcode_byte Opcode.unpack = 50
opcode_byte Opcode.pack = 51
opcode_byte Opcode.debug = 52
opcode_byte Opcode.substr = 53
opcode_byte Opcode.remove = 54
opcode_byte Opcode.evm = 255

-- `matches!(opcode, Opcode::JmpIf | Opcode::JmpNot)`.
unfoldable pub is_conditional_jump : Opcode → Bool
is_conditional_jump Opcode.jmp_if = true
is_conditional_jump Opcode.jmp_not = true
is_conditional_jump _ = false

-- `matches!(opcode, Opcode::Jmp | Opcode::JmpIf | Opcode::JmpNot)`.
unfoldable pub is_jump : Opcode → Bool
unfolding is_conditional_jump
is_jump Opcode.jmp = true
is_jump opcode = is_conditional_jump opcode

-- `opcode == Opcode::Jmp`.
unfoldable pub is_jmp : Opcode → Bool
is_jmp Opcode.jmp = true
is_jmp _ = false

pub data VmType : Type 0 where
  none_type struct bytes number text timestamp bool enum object : VmType

unfoldable pub vm_type_byte : VmType → ℕ
vm_type_byte VmType.none_type = 0
vm_type_byte VmType.struct = 1
vm_type_byte VmType.bytes = 2
vm_type_byte VmType.number = 3
vm_type_byte VmType.text = 4
vm_type_byte VmType.timestamp = 5
vm_type_byte VmType.bool = 6
vm_type_byte VmType.enum = 7
vm_type_byte VmType.object = 8

unfoldable pub vm_type_try_from : ℕ → Result VmType
vm_type_try_from value =
    if value == 0
    then ok VmType.none_type
    else if value == 1
    then ok VmType.struct
    else if value == 2
    then ok VmType.bytes
    else if value == 3
    then ok VmType.number
    else if value == 4
    then ok VmType.text
    else if value == 5
    then ok VmType.timestamp
    else if value == 6
    then ok VmType.bool
    else if value == 7
    then ok VmType.enum
    else if value == 8
    then ok VmType.object
    else err (serialization "unsupported VM object type")
