-- ===== src/Carbon/Args/Listing.antt =====
-- The listings of the market module of src/carbon.rs and its configuration.
use phantasma_sdk_rs.Prelude.{ℕ, zero, suc, ℤ, ◌<◌, ◌≡◌, ◌^◌, refl, arith, InRange, length}
use phantasma_sdk_rs.BigInt.{BigIntBytes}
use phantasma_sdk_rs.Error.{serialization}
use phantasma_sdk_rs.Stream.{Bytes, Put, Get, ◌▹◌, pure, fail, ◌>>=◌}
use phantasma_sdk_rs.Stream.Codes.{Codes, Codes-bind, Codes-end, Codes-weaken}
use phantasma_sdk_rs.Carbon.Wire.{
  CarbonSerializable, half64, write1, write4u, write8, write8u, write32, read1, read4u, read8,
  read8u, read32,
}
use phantasma_sdk_rs.Carbon.Wire.Laws.{Codes-1, Codes-4u, Codes-8, Codes-8u, Codes-32}
use phantasma_sdk_rs.Carbon.IntX.{IntX, write_int_x, read_int_x}
use phantasma_sdk_rs.Carbon.IntX.Short.{InWord, Codes-int_x}

pub data ListingType : Type 0 where
  fixed_price : ListingType

unfoldable pub write_listing_type : ListingType → Put
write_listing_type ListingType.fixed_price = write1 0

unfoldable pub listing_type_from : ℕ → Get ListingType
listing_type_from zero = pure ListingType.fixed_price
listing_type_from (suc _) = fail (serialization "unsupported listing type")

unfoldable pub read_listing_type : Get ListingType
read_listing_type = read1 >>= listing_type_from

Codes-listing_type : (t : ListingType) → Codes 1 (write_listing_type t) read_listing_type t
unfolding write_listing_type read_listing_type listing_type_from
Codes-listing_type ListingType.fixed_price = Codes-end _ (Codes-1 0) refl

pub record TokenListing : Type 0 where
  pub listing_type : ListingType
  pub seller : Bytes
  pub quote_token_id : ℕ
  pub price : IntX
  pub start_date : ℤ
  pub end_date : ℤ

module _ ⦃big : BigIntBytes⦄ where
  unfoldable pub write_token_listing : TokenListing → Put
  write_token_listing args =
      write_listing_type args.listing_type
      ▹ write32 args.seller
      ▹ write8u args.quote_token_id
      ▹ write_int_x args.price
      ▹ write8 args.start_date
      ▹ write8 args.end_date

  unfoldable pub read_token_listing : Get TokenListing
  read_token_listing = do
    listing_type ← read_listing_type
    seller ← read32
    quote_token_id ← read8u
    price ← read_int_x
    start_date ← read8
    end_date ← read8
    pure (record {
      listing_type = listing_type;
      seller = seller;
      quote_token_id = quote_token_id;
      price = price;
      start_date = start_date;
      end_date = end_date;
    })

  instance abbrev pub token_listing_carbon : CarbonSerializable TokenListing
  token_listing_carbon = record {
    write_carbon = write_token_listing;
    read_carbon = read_token_listing;
  }

-- The ranges of the field types of TokenListing.
pub record TokenListingFits (args : TokenListing) : Type 0 where
  pub seller : length args.seller ≡ 32
  pub quote_token_id : args.quote_token_id < 2 ^ 64
  pub price : InWord args.price
  pub start_date : InRange half64 args.start_date
  pub end_date : InRange half64 args.end_date

module _ ⦃big : BigIntBytes⦄ where
  pub Codes-token_listing :
      (args : TokenListing)
      → TokenListingFits args
      → Codes 1 (write_token_listing args) read_token_listing args
  unfolding write_token_listing read_token_listing
  Codes-token_listing args h = Codes-weaken 1 (omega arith) (
      Codes-bind _ (Codes-listing_type args.listing_type) (
        Codes-bind _ (Codes-32 args.seller h.seller) (
          Codes-bind _ (Codes-8u args.quote_token_id h.quote_token_id) (
            Codes-bind _ (Codes-int_x args.price h.price) (
              Codes-bind _ (Codes-8 args.start_date h.start_date)
                (Codes-end _ (Codes-8 args.end_date h.end_date) refl))))))

record MarketConfig : Type 0 where
  minimum_listing_time : ℕ
  maximum_listing_time : ℕ
  delisting_grace : ℕ
  flags : ℕ

unfoldable write_market_config : MarketConfig → Put
write_market_config args =
    write8u args.minimum_listing_time
    ▹ write8u args.maximum_listing_time
    ▹ write8u args.delisting_grace
    ▹ write4u args.flags

unfoldable read_market_config : Get MarketConfig
read_market_config = do
  minimum_listing_time ← read8u
  maximum_listing_time ← read8u
  delisting_grace ← read8u
  flags ← read4u
  pure (record {
    minimum_listing_time = minimum_listing_time;
    maximum_listing_time = maximum_listing_time;
    delisting_grace = delisting_grace;
    flags = flags;
  })

instance abbrev market_config_carbon : CarbonSerializable MarketConfig
market_config_carbon = record {
  write_carbon = write_market_config;
  read_carbon = read_market_config;
}

-- The ranges of the field types of MarketConfig.
record MarketConfigFits (args : MarketConfig) : Type 0 where
  minimum_listing_time : args.minimum_listing_time < 2 ^ 64
  maximum_listing_time : args.maximum_listing_time < 2 ^ 64
  delisting_grace : args.delisting_grace < 2 ^ 64
  flags : args.flags < 2 ^ 32

Codes-market_config :
    (args : MarketConfig)
    → MarketConfigFits args
    → Codes 1 (write_market_config args) read_market_config args
unfolding write_market_config read_market_config
Codes-market_config args h = Codes-weaken 1 (omega arith) (
    Codes-bind _ (Codes-8u args.minimum_listing_time h.minimum_listing_time) (
      Codes-bind _ (Codes-8u args.maximum_listing_time h.maximum_listing_time) (
        Codes-bind _ (Codes-8u args.delisting_grace h.delisting_grace)
          (Codes-end _ (Codes-4u args.flags h.flags) refl))))
