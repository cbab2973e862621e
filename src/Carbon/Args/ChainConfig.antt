-- ===== src/Carbon/Args/ChainConfig.antt =====
-- ChainConfig of src/carbon.rs: which transactions the chain takes, and its pace.
use phantasma_sdk_rs.Prelude.{ℕ, ◌<◌, ◌^◌, refl, arith}
use phantasma_sdk_rs.Stream.{Put, Get, ◌▹◌, pure, ◌>>=◌}
use phantasma_sdk_rs.Stream.Codes.{Codes, Codes-bind, Codes-end, Codes-weaken}
use phantasma_sdk_rs.Carbon.Wire.{CarbonSerializable, write1, write4u, read1, read4u}
use phantasma_sdk_rs.Carbon.Wire.Laws.{Codes-1, Codes-4u}

pub record ChainConfig : Type 0 where
  pub version : ℕ
  pub reserved1 : ℕ
  pub reserved2 : ℕ
  pub reserved3 : ℕ
  pub allowed_tx_types : ℕ
  pub expiry_window : ℕ
  pub block_rate_target : ℕ

unfoldable write_chain_config : ChainConfig → Put
write_chain_config args =
    write1 args.version
    ▹ write1 args.reserved1
    ▹ write1 args.reserved2
    ▹ write1 args.reserved3
    ▹ write4u args.allowed_tx_types
    ▹ write4u args.expiry_window
    ▹ write4u args.block_rate_target

unfoldable read_chain_config : Get ChainConfig
read_chain_config = do
  version ← read1
  reserved1 ← read1
  reserved2 ← read1
  reserved3 ← read1
  allowed_tx_types ← read4u
  expiry_window ← read4u
  block_rate_target ← read4u
  pure (record {
    version = version;
    reserved1 = reserved1;
    reserved2 = reserved2;
    reserved3 = reserved3;
    allowed_tx_types = allowed_tx_types;
    expiry_window = expiry_window;
    block_rate_target = block_rate_target;
  })

instance abbrev chain_config_carbon : CarbonSerializable ChainConfig
chain_config_carbon = record { write_carbon = write_chain_config; read_carbon = read_chain_config }

-- The ranges of the field types of ChainConfig.
record ChainConfigFits (args : ChainConfig) : Type 0 where
  allowed_tx_types : args.allowed_tx_types < 2 ^ 32
  expiry_window : args.expiry_window < 2 ^ 32
  block_rate_target : args.block_rate_target < 2 ^ 32

Codes-chain_config :
    (args : ChainConfig)
    → ChainConfigFits args
    → Codes 1 (write_chain_config args) read_chain_config args
unfolding write_chain_config read_chain_config
Codes-chain_config args h = Codes-weaken 1 (omega arith) (
    Codes-bind _ (Codes-1 args.version) (
      Codes-bind _ (Codes-1 args.reserved1) (
        Codes-bind _ (Codes-1 args.reserved2) (
          Codes-bind _ (Codes-1 args.reserved3) (
            Codes-bind _ (Codes-4u args.allowed_tx_types h.allowed_tx_types) (
              Codes-bind _ (Codes-4u args.expiry_window h.expiry_window)
                (Codes-end _ (Codes-4u args.block_rate_target h.block_rate_target) refl)))))))
