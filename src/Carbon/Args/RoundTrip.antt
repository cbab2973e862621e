-- ===== src/Carbon/Args/RoundTrip.antt =====
-- What `serialize` of src/carbon.rs makes of a record of `Args`, `deserialize` takes back.
use phantasma_sdk_rs.BigInt.{BigIntBytes}
use phantasma_sdk_rs.Carbon.Wire.Laws.{deserialize-serialize}
use phantasma_sdk_rs.Carbon.RoundTrip.{Survives}
use phantasma_sdk_rs.Carbon.Args.Minting.{
  MintPhantasmaNonFungibleArgs, MintPhantasmaNonFungibleArgsFits,
  mint_phantasma_non_fungible_args_carbon, Codes-mint_phantasma_non_fungible_args,
}
use phantasma_sdk_rs.Carbon.Args.Listing.{
  TokenListing, TokenListingFits, token_listing_carbon, Codes-token_listing,
}

module _ ⦃big : BigIntBytes⦄ where
  -- The arguments for minting any number of tokens below 2 ^ 31, whose fields fit the format, are
  -- written and read back as they were.
  pub deserialize-serialize_minting :
      (args : MintPhantasmaNonFungibleArgs) → MintPhantasmaNonFungibleArgsFits args → Survives args
  deserialize-serialize_minting args h =
      deserialize-serialize args (Codes-mint_phantasma_non_fungible_args args h)

  -- A market listing whose fields fit the format is written and read back as it was.
  pub deserialize-serialize_listing :
      (listing : TokenListing) → TokenListingFits listing → Survives listing
  deserialize-serialize_listing listing h =
      deserialize-serialize listing (Codes-token_listing listing h)
