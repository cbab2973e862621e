-- ===== src/Carbon/Args/Tests.antt =====
-- The theorems on the argument records of src/carbon.rs at concrete records, and small runs.
use phantasma_sdk_rs.Prelude.{◌^◌, refl, arith, pos, negsuc, [], ◌∷◌, replicate}
use phantasma_sdk_rs.Stream.{Bytes}
use phantasma_sdk_rs.BigInt.Model.{model}
use phantasma_sdk_rs.Carbon.RoundTrip.{Survives}
use phantasma_sdk_rs.Carbon.Args.Minting.{
  PhantasmaNftMintInfo, PhantasmaNftMintInfoFits, MintPhantasmaNonFungibleArgs,
  MintPhantasmaNonFungibleArgsFits, mint_phantasma_non_fungible_args_carbon,
}
use phantasma_sdk_rs.Carbon.Args.Listing.{
  ListingType, TokenListing, TokenListingFits, token_listing_carbon,
}
use phantasma_sdk_rs.Carbon.Args.RoundTrip.{
  deserialize-serialize_minting, deserialize-serialize_listing,
}

abbrev account : Bytes
account = replicate 32 7

abbrev small_mint : PhantasmaNftMintInfo
small_mint = record { phantasma_series_id = record { value = pos 5 }; rom = 1 ∷ 2 ∷ []; ram = [] }

abbrev large_mint : PhantasmaNftMintInfo
large_mint = record {
  phantasma_series_id = record { value = pos (2 ^ 200) };
  rom = [];
  ram = 3 ∷ [];
}

abbrev minting : MintPhantasmaNonFungibleArgs
minting = record { token_id = 9; address = account; tokens = small_mint ∷ large_mint ∷ [] }

small_mint-Fits : PhantasmaNftMintInfoFits small_mint
small_mint-Fits = record { phantasma_series_id = omega arith; rom = omega arith; ram = omega arith }

large_mint-Fits : PhantasmaNftMintInfoFits large_mint
large_mint-Fits = record { phantasma_series_id = omega arith; rom = omega arith; ram = omega arith }

minting-Fits : MintPhantasmaNonFungibleArgsFits minting
minting-Fits = record {
  token_id = omega arith;
  address = refl;
  tokens_short = omega arith;
  tokens = (small_mint-Fits, (large_mint-Fits, tt));
}

deserialize-serialize_minting_example : Survives minting
deserialize-serialize_minting_example = deserialize-serialize_minting minting minting-Fits

abbrev listing : TokenListing
listing = record {
  listing_type = ListingType.fixed_price;
  seller = account;
  quote_token_id = 1;
  price = record { value = pos (2 ^ 70) };
  start_date = negsuc 0;
  end_date = pos 1000;
}

listing-Fits : TokenListingFits listing
listing-Fits = record {
  seller = refl;
  quote_token_id = omega arith;
  price = omega arith;
  start_date = omega arith;
  end_date = omega arith;
}

deserialize-serialize_listing_example : Survives listing
deserialize-serialize_listing_example = deserialize-serialize_listing listing listing-Fits
