-- ===== src/Carbon/Args/Minting.antt =====
-- Arguments and results of the token module of src/carbon.rs for minting non-fungible tokens.
use phantasma_sdk_rs.Prelude.{ℕ, ◌<◌, ◌≡◌, ◌^◌, refl, arith, List, All, All-map, length}
use phantasma_sdk_rs.BigInt.{BigIntBytes}
use phantasma_sdk_rs.Stream.{Bytes, Put, Get, ◌▹◌, pure, ◌>>=◌}
use phantasma_sdk_rs.Stream.Codes.{Codes, Codes-bind, Codes-end, Codes-weaken}
use phantasma_sdk_rs.Carbon.Wire.{
  CarbonSerializable, half32, write4u, write8u, write32, write_byte_array, write_carbon_array,
  read4u, read8u, read32, read_byte_array, read_carbon_array,
}
use phantasma_sdk_rs.Carbon.Wire.Laws.{
  Codes-4u, Codes-8u, Codes-32, Codes-byte_array, Codes-carbon_array,
}
use phantasma_sdk_rs.Carbon.IntX.{IntX, write_int_x, read_int_x}
use phantasma_sdk_rs.Carbon.IntX.Short.{InWord, Codes-int_x}

record NftMintInfo : Type 0 where
  series_id : ℕ
  rom : Bytes
  ram : Bytes

unfoldable write_nft_mint_info : NftMintInfo → Put
write_nft_mint_info args =
    write4u args.series_id ▹ write_byte_array args.rom ▹ write_byte_array args.ram

unfoldable read_nft_mint_info : Get NftMintInfo
read_nft_mint_info = do
  series_id ← read4u
  rom ← read_byte_array
  ram ← read_byte_array
  pure (record { series_id = series_id; rom = rom; ram = ram })

instance abbrev nft_mint_info_carbon : CarbonSerializable NftMintInfo
nft_mint_info_carbon = record {
  write_carbon = write_nft_mint_info;
  read_carbon = read_nft_mint_info;
}

-- The ranges of the field types of NftMintInfo.
record NftMintInfoFits (args : NftMintInfo) : Type 0 where
  series_id : args.series_id < 2 ^ 32
  rom : length args.rom < half32
  ram : length args.ram < half32

Codes-nft_mint_info :
    (args : NftMintInfo)
    → NftMintInfoFits args
    → Codes 1 (write_nft_mint_info args) read_nft_mint_info args
unfolding write_nft_mint_info read_nft_mint_info
Codes-nft_mint_info args h = Codes-weaken 1 (omega arith) (
    Codes-bind _ (Codes-4u args.series_id h.series_id) (
      Codes-bind _ (Codes-byte_array args.rom h.rom)
        (Codes-end _ (Codes-byte_array args.ram h.ram) refl)))

record MintNonFungibleArgs : Type 0 where
  token_id : ℕ
  address : Bytes
  tokens : List NftMintInfo

unfoldable write_mint_non_fungible_args : MintNonFungibleArgs → Put
write_mint_non_fungible_args args =
    write8u args.token_id ▹ write32 args.address ▹ write_carbon_array args.tokens

unfoldable read_mint_non_fungible_args : Get MintNonFungibleArgs
read_mint_non_fungible_args = do
  token_id ← read8u
  address ← read32
  tokens ← read_carbon_array
  pure (record { token_id = token_id; address = address; tokens = tokens })

instance abbrev mint_non_fungible_args_carbon : CarbonSerializable MintNonFungibleArgs
mint_non_fungible_args_carbon = record {
  write_carbon = write_mint_non_fungible_args;
  read_carbon = read_mint_non_fungible_args;
}

-- The ranges of the field types of MintNonFungibleArgs.
record MintNonFungibleArgsFits (args : MintNonFungibleArgs) : Type 0 where
  token_id : args.token_id < 2 ^ 64
  address : length args.address ≡ 32
  tokens_short : length args.tokens < half32
  tokens : All NftMintInfoFits args.tokens

Codes-mint_non_fungible_args :
    (args : MintNonFungibleArgs)
    → MintNonFungibleArgsFits args
    → Codes 1 (write_mint_non_fungible_args args) read_mint_non_fungible_args args
unfolding write_mint_non_fungible_args read_mint_non_fungible_args
Codes-mint_non_fungible_args args h = Codes-weaken 1 (omega arith) (
    Codes-bind _ (Codes-8u args.token_id h.token_id) (
      Codes-bind _ (Codes-32 args.address h.address) (
        Codes-end _
          (Codes-carbon_array args.tokens h.tokens_short
            (All-map Codes-nft_mint_info args.tokens h.tokens))
          refl)))

pub record PhantasmaNftMintInfo : Type 0 where
  pub phantasma_series_id : IntX
  pub rom : Bytes
  pub ram : Bytes

module _ ⦃big : BigIntBytes⦄ where
  unfoldable write_phantasma_nft_mint_info : PhantasmaNftMintInfo → Put
  write_phantasma_nft_mint_info args =
      write_int_x args.phantasma_series_id ▹ write_byte_array args.rom ▹ write_byte_array args.ram

  unfoldable read_phantasma_nft_mint_info : Get PhantasmaNftMintInfo
  read_phantasma_nft_mint_info = do
    phantasma_series_id ← read_int_x
    rom ← read_byte_array
    ram ← read_byte_array
    pure (record { phantasma_series_id = phantasma_series_id; rom = rom; ram = ram })

  instance abbrev phantasma_nft_mint_info_carbon : CarbonSerializable PhantasmaNftMintInfo
  phantasma_nft_mint_info_carbon = record {
    write_carbon = write_phantasma_nft_mint_info;
    read_carbon = read_phantasma_nft_mint_info;
  }

-- The ranges of the field types of PhantasmaNftMintInfo.
pub record PhantasmaNftMintInfoFits (args : PhantasmaNftMintInfo) : Type 0 where
  pub phantasma_series_id : InWord args.phantasma_series_id
  pub rom : length args.rom < half32
  pub ram : length args.ram < half32

module _ ⦃big : BigIntBytes⦄ where
  Codes-phantasma_nft_mint_info :
      (args : PhantasmaNftMintInfo)
      → PhantasmaNftMintInfoFits args
      → Codes 1 (write_phantasma_nft_mint_info args) read_phantasma_nft_mint_info args
  unfolding write_phantasma_nft_mint_info read_phantasma_nft_mint_info
  Codes-phantasma_nft_mint_info args h = Codes-weaken 1 (omega arith) (
      Codes-bind _ (Codes-int_x args.phantasma_series_id h.phantasma_series_id) (
        Codes-bind _ (Codes-byte_array args.rom h.rom)
          (Codes-end _ (Codes-byte_array args.ram h.ram) refl)))

pub record MintPhantasmaNonFungibleArgs : Type 0 where
  pub token_id : ℕ
  pub address : Bytes
  pub tokens : List PhantasmaNftMintInfo

module _ ⦃big : BigIntBytes⦄ where
  unfoldable pub write_mint_phantasma_non_fungible_args : MintPhantasmaNonFungibleArgs → Put
  write_mint_phantasma_non_fungible_args args =
      write8u args.token_id ▹ write32 args.address ▹ write_carbon_array args.tokens

  unfoldable pub read_mint_phantasma_non_fungible_args : Get MintPhantasmaNonFungibleArgs
  read_mint_phantasma_non_fungible_args = do
    token_id ← read8u
    address ← read32
    tokens ← read_carbon_array
    pure (record { token_id = token_id; address = address; tokens = tokens })

  instance abbrev pub mint_phantasma_non_fungible_args_carbon :
      CarbonSerializable MintPhantasmaNonFungibleArgs
  mint_phantasma_non_fungible_args_carbon = record {
    write_carbon = write_mint_phantasma_non_fungible_args;
    read_carbon = read_mint_phantasma_non_fungible_args;
  }

-- The ranges of the field types of MintPhantasmaNonFungibleArgs.
pub record MintPhantasmaNonFungibleArgsFits (args : MintPhantasmaNonFungibleArgs) : Type 0 where
  pub token_id : args.token_id < 2 ^ 64
  pub address : length args.address ≡ 32
  pub tokens_short : length args.tokens < half32
  pub tokens : All PhantasmaNftMintInfoFits args.tokens

module _ ⦃big : BigIntBytes⦄ where
  pub Codes-mint_phantasma_non_fungible_args :
      (args : MintPhantasmaNonFungibleArgs)
      → MintPhantasmaNonFungibleArgsFits args
      → Codes 1
          (write_mint_phantasma_non_fungible_args args)
          read_mint_phantasma_non_fungible_args
          args
  unfolding write_mint_phantasma_non_fungible_args read_mint_phantasma_non_fungible_args
  Codes-mint_phantasma_non_fungible_args args h = Codes-weaken 1 (omega arith) (
      Codes-bind _ (Codes-8u args.token_id h.token_id) (
        Codes-bind _ (Codes-32 args.address h.address) (
          Codes-end _
            (Codes-carbon_array args.tokens h.tokens_short
              (All-map Codes-phantasma_nft_mint_info args.tokens h.tokens))
            refl)))

record PhantasmaNftMintResult : Type 0 where
  phantasma_nft_id : Bytes
  carbon_instance_id : ℕ

unfoldable write_phantasma_nft_mint_result : PhantasmaNftMintResult → Put
write_phantasma_nft_mint_result args =
    write32 args.phantasma_nft_id ▹ write8u args.carbon_instance_id

unfoldable read_phantasma_nft_mint_result : Get PhantasmaNftMintResult
read_phantasma_nft_mint_result = do
  phantasma_nft_id ← read32
  carbon_instance_id ← read8u
  pure (record { phantasma_nft_id = phantasma_nft_id; carbon_instance_id = carbon_instance_id })

instance abbrev phantasma_nft_mint_result_carbon : CarbonSerializable PhantasmaNftMintResult
phantasma_nft_mint_result_carbon = record {
  write_carbon = write_phantasma_nft_mint_result;
  read_carbon = read_phantasma_nft_mint_result;
}

-- The ranges of the field types of PhantasmaNftMintResult.
record PhantasmaNftMintResultFits (args : PhantasmaNftMintResult) : Type 0 where
  phantasma_nft_id : length args.phantasma_nft_id ≡ 32
  carbon_instance_id : args.carbon_instance_id < 2 ^ 64

Codes-phantasma_nft_mint_result :
    (args : PhantasmaNftMintResult)
    → PhantasmaNftMintResultFits args
    → Codes 1 (write_phantasma_nft_mint_result args) read_phantasma_nft_mint_result args
unfolding write_phantasma_nft_mint_result read_phantasma_nft_mint_result
Codes-phantasma_nft_mint_result args h = Codes-weaken 1 (omega arith) (
    Codes-bind _ (Codes-32 args.phantasma_nft_id h.phantasma_nft_id)
      (Codes-end _ (Codes-8u args.carbon_instance_id h.carbon_instance_id) refl))
