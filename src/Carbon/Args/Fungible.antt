-- ===== src/Carbon/Args/Fungible.antt =====
-- Arguments of the token module of src/carbon.rs that move, mint or burn a fungible token.
use phantasma_sdk_rs.Prelude.{ℕ, ◌<◌, ◌≡◌, ◌^◌, refl, arith, length}
use phantasma_sdk_rs.BigInt.{BigIntBytes}
use phantasma_sdk_rs.Stream.{Bytes, Put, Get, ◌▹◌, pure, ◌>>=◌}
use phantasma_sdk_rs.Stream.Codes.{Codes, Codes-bind, Codes-end, Codes-weaken}
use phantasma_sdk_rs.Carbon.Wire.{CarbonSerializable, write8u, write32, read8u, read32}
use phantasma_sdk_rs.Carbon.Wire.Laws.{Codes-8u, Codes-32}
use phantasma_sdk_rs.Carbon.IntX.{IntX, write_int_x, read_int_x}
use phantasma_sdk_rs.Carbon.IntX.Short.{InWord, Codes-int_x}

record MintFungibleArgs : Type 0 where
  token_id : ℕ
  to : Bytes
  amount : IntX

module _ ⦃big : BigIntBytes⦄ where
  unfoldable write_mint_fungible_args : MintFungibleArgs → Put
  write_mint_fungible_args args = write8u args.token_id ▹ write32 args.to ▹ write_int_x args.amount

  unfoldable read_mint_fungible_args : Get MintFungibleArgs
  read_mint_fungible_args = do
    token_id ← read8u
    to ← read32
    amount ← read_int_x
    pure (record { token_id = token_id; to = to; amount = amount })

  instance abbrev mint_fungible_args_carbon : CarbonSerializable MintFungibleArgs
  mint_fungible_args_carbon = record {
    write_carbon = write_mint_fungible_args;
    read_carbon = read_mint_fungible_args;
  }

-- The ranges of the field types of MintFungibleArgs.
record MintFungibleArgsFits (args : MintFungibleArgs) : Type 0 where
  token_id : args.token_id < 2 ^ 64
  to : length args.to ≡ 32
  amount : InWord args.amount

module _ ⦃big : BigIntBytes⦄ where
  Codes-mint_fungible_args :
      (args : MintFungibleArgs)
      → MintFungibleArgsFits args
      → Codes 1 (write_mint_fungible_args args) read_mint_fungible_args args
  unfolding write_mint_fungible_args read_mint_fungible_args
  Codes-mint_fungible_args args h = Codes-weaken 1 (omega arith) (
      Codes-bind _ (Codes-8u args.token_id h.token_id) (
        Codes-bind _ (Codes-32 args.to h.to) (Codes-end _ (Codes-int_x args.amount h.amount) refl)))

record TransferFungibleArgs : Type 0 where
  to : Bytes
  from_address : Bytes
  token_id : ℕ
  amount : IntX

module _ ⦃big : BigIntBytes⦄ where
  unfoldable write_transfer_fungible_args : TransferFungibleArgs → Put
  write_transfer_fungible_args args =
      write32 args.to ▹ write32 args.from_address ▹ write8u args.token_id ▹ write_int_x args.amount

  unfoldable read_transfer_fungible_args : Get TransferFungibleArgs
  read_transfer_fungible_args = do
    to ← read32
    from_address ← read32
    token_id ← read8u
    amount ← read_int_x
    pure (record { to = to; from_address = from_address; token_id = token_id; amount = amount })

  instance abbrev transfer_fungible_args_carbon : CarbonSerializable TransferFungibleArgs
  transfer_fungible_args_carbon = record {
    write_carbon = write_transfer_fungible_args;
    read_carbon = read_transfer_fungible_args;
  }

-- The ranges of the field types of TransferFungibleArgs.
record TransferFungibleArgsFits (args : TransferFungibleArgs) : Type 0 where
  to : length args.to ≡ 32
  from_address : length args.from_address ≡ 32
  token_id : args.token_id < 2 ^ 64
  amount : InWord args.amount

module _ ⦃big : BigIntBytes⦄ where
  Codes-transfer_fungible_args :
      (args : TransferFungibleArgs)
      → TransferFungibleArgsFits args
      → Codes 1 (write_transfer_fungible_args args) read_transfer_fungible_args args
  unfolding write_transfer_fungible_args read_transfer_fungible_args
  Codes-transfer_fungible_args args h = Codes-weaken 1 (omega arith) (
      Codes-bind _ (Codes-32 args.to h.to) (
        Codes-bind _ (Codes-32 args.from_address h.from_address) (
          Codes-bind _ (Codes-8u args.token_id h.token_id)
            (Codes-end _ (Codes-int_x args.amount h.amount) refl))))

record BurnFungibleArgs : Type 0 where
  token_id : ℕ
  from_address : Bytes
  amount : IntX

module _ ⦃big : BigIntBytes⦄ where
  unfoldable write_burn_fungible_args : BurnFungibleArgs → Put
  write_burn_fungible_args args =
      write8u args.token_id ▹ write32 args.from_address ▹ write_int_x args.amount

  unfoldable read_burn_fungible_args : Get BurnFungibleArgs
  read_burn_fungible_args = do
    token_id ← read8u
    from_address ← read32
    amount ← read_int_x
    pure (record { token_id = token_id; from_address = from_address; amount = amount })

  instance abbrev burn_fungible_args_carbon : CarbonSerializable BurnFungibleArgs
  burn_fungible_args_carbon = record {
    write_carbon = write_burn_fungible_args;
    read_carbon = read_burn_fungible_args;
  }

-- The ranges of the field types of BurnFungibleArgs.
record BurnFungibleArgsFits (args : BurnFungibleArgs) : Type 0 where
  token_id : args.token_id < 2 ^ 64
  from_address : length args.from_address ≡ 32
  amount : InWord args.amount

module _ ⦃big : BigIntBytes⦄ where
  Codes-burn_fungible_args :
      (args : BurnFungibleArgs)
      → BurnFungibleArgsFits args
      → Codes 1 (write_burn_fungible_args args) read_burn_fungible_args args
  unfolding write_burn_fungible_args read_burn_fungible_args
  Codes-burn_fungible_args args h = Codes-weaken 1 (omega arith) (
      Codes-bind _ (Codes-8u args.token_id h.token_id) (
        Codes-bind _ (Codes-32 args.from_address h.from_address)
          (Codes-end _ (Codes-int_x args.amount h.amount) refl)))
