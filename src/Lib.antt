-- ===== src/Lib.antt =====
-- The Rust SDK for the Phantasma blockchain: the Carbon wire format of transactions, the offline
-- calculator of their fees, and the scripts, objects and transactions of the VM.
--
-- A caller builds a `TxMsg` with one of seventeen payloads, plans its gas offer with the fee
-- calculator, which needs the size of the signed envelope, signs it for each witness that its type
-- requires, and serializes the `SignedTxMsg`. On the VM side a caller composes a script with a
-- `ScriptBuilder`, whose end patches the jumps and reports the first error, puts it into a
-- `Transaction`, searches a nonce, signs it and writes its bytes; the answers are VM objects, which are
-- read from bytes. The parts and the files that model them:
--
-- - Stream: the growing buffer of a writer and the slice with an offset of a reader, which
--   src/carbon.rs has as CarbonWriter and CarbonReader. A method that writes is a function from
--   writer to writer or an error (`Put`), a method that reads is a function from reader to value and
--   reader or an error (`Get`), and `?` is the early return of their sequencing. Stream/Codes has
--   the relation between a writer and a reader that agree on a value, from which every round trip is
--   put together.
-- - Error: src/error.rs, with a constructor for a panic. Text: what `String::from_utf8` accepts.
-- - BigInt: the crate num-bigint as a parameter, the record `BigIntBytes` of its two conversions with
--   their documented behaviour, and the 256-bit words of src/binary.rs. BigInt/Model is an instance.
-- - Carbon/Wire, SmallString, IntX, Payload, Message, Envelope, GasConfig: the structures of
--   src/carbon.rs, each with `write_...` and `read_...` for `write_carbon` and `read_carbon`, and
--   with the records `...Fits` of the values that are read as they were written: the ranges of the
--   Rust types, arrays shorter than 2 ^ 31, amounts of type IntX that fit a signed 256-bit word and,
--   of calls, the canonical ones. Payload/Call/Kept, Message/Kept and Envelope/Kept have what the
--   format keeps of any other call, with the ranges `...InRange` of the values they are about.
--   Carbon/RoundTrip has the statements on `serialize` and `deserialize`, Carbon/Envelope/Size and
--   Placeholders those on the size of an envelope.
-- - Carbon/Signing: `witness_slots` and `sign_tx_msg_with_keys`, with the key pairs of ed25519-dalek as
--   the parameter `KeyPairs`.
-- - Carbon/NftAddress: the addresses of NFT instances.
-- - Carbon/Args: the configuration of the chain and of the market, market listings, and the argument
--   records of the token and market modules whose fields are plain. Carbon/Governance: the arguments
--   for registering a name, and the 32 bytes that stand for a key or an address.
-- - Binary: BinaryWriter and BinaryReader of src/binary.rs, the VM format; Binary/BigInteger has its
--   big integers.
-- - Crypto: src/crypto.rs and the Base58 of src/encoding.rs, with the crates bs58, sha2 and
--   ed25519-dalek as the parameter `CryptoLibrary`, of which Crypto/Model is an instance.
-- - Transaction: src/transaction.rs. `mine` has its turns as fuel.
-- - Vm/Code, Vm/Object: the opcodes, the types and the objects of src/vm.rs. The reader of objects has
--   its depth as fuel; one more than the number of bytes is enough, since each object takes a byte.
--   The stack that this depth takes on a machine is not modelled.
--   Vm/Object/Convert has the conversions, with the texts of numbers, UTF-16 and Base64 as the
--   parameter `TextLibrary`.
-- - Vm/Script: ScriptBuilder of src/vm.rs, a method being a function of the builder. Calls and
--   Transfers have the methods that are composed of others; those that take the text of an address
--   answer a result, since the reading of the text can panic. Pieces has an assembler that is no part
--   of the source, Refines, Targets and Assembled relate a builder to it, and Instructions lists what
--   a builder can be told.
-- - Fees/Words, Params, Operation, Settle, Envelope: src/fees.rs up to `symbol_shift`. Operation has
--   a definition for each arm of `operation_model`, Settle the totals and the two gas models.
--
-- Machine integers are natural numbers in the range of their type: u64 arithmetic saturates where
-- the source says so, plain u32 arithmetic wraps as in a release build. A usize has 64 bits. Loops
-- are recursion on the list or the count that they run over and need no fuel, but for the reader of
-- objects and the search for a nonce above, and the digits of BigInt/Model, which have one more than
-- the number itself. Fixed-size arrays are byte lists, whose
-- length the records `...Fits` state.
--
-- Not modelled: the RPC client and the fee planner, which read the chain over the network; extended
-- events, which are decoded by serde; token schemas, dynamic variables and metadata, with the
-- records of src/carbon.rs that hold one of them.
pub mod Prelude
pub mod Error
pub mod Stream
pub mod Text
pub mod Crypto
pub mod Transaction
pub mod Vm
pub mod Carbon
pub mod BigInt
pub mod Fees
pub mod Binary
