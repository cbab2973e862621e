-- ===== src/Carbon/Args/NonFungible.antt =====
-- Arguments of the token module of src/carbon.rs that move, burn or update non-fungible tokens.
use phantasma_sdk_rs.Prelude.{ℕ, ◌<◌, ◌≡◌, ◌^◌, refl, arith, List, All, length}
use phantasma_sdk_rs.Stream.{Bytes, Put, Get, ◌▹◌, pure, ◌>>=◌}
use phantasma_sdk_rs.Stream.Codes.{Codes, Codes-bind, Codes-end, Codes-weaken}
use phantasma_sdk_rs.Carbon.Wire.{
  CarbonSerializable, half32, write4u, write8u, write32, write_byte_array, write_u64_array, read4u,
  read8u, read32, read_byte_array, read_u64_array,
}
use phantasma_sdk_rs.Carbon.Wire.Laws.{
  Codes-4u, Codes-8u, Codes-32, Codes-byte_array, Codes-u64_array,
}

record TransferNonFungibleArgs : Type 0 where
  to : Bytes
  from_address : Bytes
  token_id : ℕ
  instance_ids : List ℕ

unfoldable write_transfer_non_fungible_args : TransferNonFungibleArgs → Put
write_transfer_non_fungible_args args =
    write32 args.to
    ▹ write32 args.from_address
    ▹ write8u args.token_id
    ▹ write_u64_array args.instance_ids

unfoldable read_transfer_non_fungible_args : Get TransferNonFungibleArgs
read_transfer_non_fungible_args = do
  to ← read32
  from_address ← read32
  token_id ← read8u
  instance_ids ← read_u64_array
  pure (record {
    to = to;
    from_address = from_address;
    token_id = token_id;
    instance_ids = instance_ids;
  })

instance abbrev transfer_non_fungible_args_carbon : CarbonSerializable TransferNonFungibleArgs
transfer_non_fungible_args_carbon = record {
  write_carbon = write_transfer_non_fungible_args;
  read_carbon = read_transfer_non_fungible_args;
}

-- The ranges of the field types of TransferNonFungibleArgs.
record TransferNonFungibleArgsFits (args : TransferNonFungibleArgs) : Type 0 where
  to : length args.to ≡ 32
  from_address : length args.from_address ≡ 32
  token_id : args.token_id < 2 ^ 64
  instance_ids_short : length args.instance_ids < half32
  instance_ids : All (λ id. id < 2 ^ 64) args.instance_ids

Codes-transfer_non_fungible_args :
    (args : TransferNonFungibleArgs)
    → TransferNonFungibleArgsFits args
    → Codes 1 (write_transfer_non_fungible_args args) read_transfer_non_fungible_args args
unfolding write_transfer_non_fungible_args read_transfer_non_fungible_args
Codes-transfer_non_fungible_args args h = Codes-weaken 1 (omega arith) (
    Codes-bind _ (Codes-32 args.to h.to) (
      Codes-bind _ (Codes-32 args.from_address h.from_address) (
        Codes-bind _ (Codes-8u args.token_id h.token_id) (
          Codes-end _ (Codes-u64_array args.instance_ids h.instance_ids_short h.instance_ids)
            refl))))

record BurnNonFungibleArgs : Type 0 where
  token_id : ℕ
  from_address : Bytes
  instance_ids : List ℕ

unfoldable write_burn_non_fungible_args : BurnNonFungibleArgs → Put
write_burn_non_fungible_args args =
    write8u args.token_id ▹ write32 args.from_address ▹ write_u64_array args.instance_ids

unfoldable read_burn_non_fungible_args : Get BurnNonFungibleArgs
read_burn_non_fungible_args = do
  token_id ← read8u
  from_address ← read32
  instance_ids ← read_u64_array
  pure (record { token_id = token_id; from_address = from_address; instance_ids = instance_ids })

instance abbrev burn_non_fungible_args_carbon : CarbonSerializable BurnNonFungibleArgs
burn_non_fungible_args_carbon = record {
  write_carbon = write_burn_non_fungible_args;
  read_carbon = read_burn_non_fungible_args;
}

-- The ranges of the field types of BurnNonFungibleArgs.
record BurnNonFungibleArgsFits (args : BurnNonFungibleArgs) : Type 0 where
  token_id : args.token_id < 2 ^ 64
  from_address : length args.from_address ≡ 32
  instance_ids_short : length args.instance_ids < half32
  instance_ids : All (λ id. id < 2 ^ 64) args.instance_ids

Codes-burn_non_fungible_args :
    (args : BurnNonFungibleArgs)
    → BurnNonFungibleArgsFits args
    → Codes 1 (write_burn_non_fungible_args args) read_burn_non_fungible_args args
unfolding write_burn_non_fungible_args read_burn_non_fungible_args
Codes-burn_non_fungible_args args h = Codes-weaken 1 (omega arith) (
    Codes-bind _ (Codes-8u args.token_id h.token_id) (
      Codes-bind _ (Codes-32 args.from_address h.from_address)
        (Codes-end _ (Codes-u64_array args.instance_ids h.instance_ids_short h.instance_ids) refl)))

record UpdateSeriesMetadataArgs : Type 0 where
  token_id : ℕ
  series_id : ℕ
  metadata : Bytes

unfoldable write_update_series_metadata_args : UpdateSeriesMetadataArgs → Put
write_update_series_metadata_args args =
    write8u args.token_id ▹ write4u args.series_id ▹ write_byte_array args.metadata

unfoldable read_update_series_metadata_args : Get UpdateSeriesMetadataArgs
read_update_series_metadata_args = do
  token_id ← read8u
  series_id ← read4u
  metadata ← read_byte_array
  pure (record { token_id = token_id; series_id = series_id; metadata = metadata })

instance abbrev update_series_metadata_args_carbon : CarbonSerializable UpdateSeriesMetadataArgs
update_series_metadata_args_carbon = record {
  write_carbon = write_update_series_metadata_args;
  read_carbon = read_update_series_metadata_args;
}

-- The ranges of the field types of UpdateSeriesMetadataArgs.
record UpdateSeriesMetadataArgsFits (args : UpdateSeriesMetadataArgs) : Type 0 where
  token_id : args.token_id < 2 ^ 64
  series_id : args.series_id < 2 ^ 32
  metadata : length args.metadata < half32

Codes-update_series_metadata_args :
    (args : UpdateSeriesMetadataArgs)
    → UpdateSeriesMetadataArgsFits args
    → Codes 1 (write_update_series_metadata_args args) read_update_series_metadata_args args
unfolding write_update_series_metadata_args read_update_series_metadata_args
Codes-update_series_metadata_args args h = Codes-weaken 1 (omega arith) (
    Codes-bind _ (Codes-8u args.token_id h.token_id) (
      Codes-bind _ (Codes-4u args.series_id h.series_id)
        (Codes-end _ (Codes-byte_array args.metadata h.metadata) refl)))
