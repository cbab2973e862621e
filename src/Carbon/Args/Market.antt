-- ===== src/Carbon/Args/Market.antt =====
-- Arguments of the market module of src/carbon.rs that name a token by its numbers.
use phantasma_sdk_rs.Prelude.{ℕ, ℤ, ◌<◌, ◌≡◌, ◌^◌, refl, arith, InRange, length}
use phantasma_sdk_rs.BigInt.{BigIntBytes}
use phantasma_sdk_rs.Stream.{Bytes, Put, Get, ◌▹◌, pure, ◌>>=◌}
use phantasma_sdk_rs.Stream.Codes.{Codes, Codes-bind, Codes-end, Codes-weaken}
use phantasma_sdk_rs.Carbon.Wire.{
  CarbonSerializable, half64, write8, write8u, write32, read8, read8u, read32,
}
use phantasma_sdk_rs.Carbon.Wire.Laws.{Codes-8, Codes-8u, Codes-32}
use phantasma_sdk_rs.Carbon.IntX.{IntX, write_int_x, read_int_x}
use phantasma_sdk_rs.Carbon.IntX.Short.{InWord, Codes-int_x}

record MarketSellTokenArgs : Type 0 where
  from_address : Bytes
  token_id : ℕ
  instance_id : ℕ
  quote_token_id : ℕ
  price : IntX
  end_date : ℤ

module _ ⦃big : BigIntBytes⦄ where
  unfoldable write_market_sell_token_args : MarketSellTokenArgs → Put
  write_market_sell_token_args args =
      write32 args.from_address
      ▹ write8u args.token_id
      ▹ write8u args.instance_id
      ▹ write8u args.quote_token_id
      ▹ write_int_x args.price
      ▹ write8 args.end_date

  unfoldable read_market_sell_token_args : Get MarketSellTokenArgs
  read_market_sell_token_args = do
    from_address ← read32
    token_id ← read8u
    instance_id ← read8u
    quote_token_id ← read8u
    price ← read_int_x
    end_date ← read8
    pure (record {
      from_address = from_address;
      token_id = token_id;
      instance_id = instance_id;
      quote_token_id = quote_token_id;
      price = price;
      end_date = end_date;
    })

  instance abbrev market_sell_token_args_carbon : CarbonSerializable MarketSellTokenArgs
  market_sell_token_args_carbon = record {
    write_carbon = write_market_sell_token_args;
    read_carbon = read_market_sell_token_args;
  }

-- The ranges of the field types of MarketSellTokenArgs.
record MarketSellTokenArgsFits (args : MarketSellTokenArgs) : Type 0 where
  from_address : length args.from_address ≡ 32
  token_id : args.token_id < 2 ^ 64
  instance_id : args.instance_id < 2 ^ 64
  quote_token_id : args.quote_token_id < 2 ^ 64
  price : InWord args.price
  end_date : InRange half64 args.end_date

module _ ⦃big : BigIntBytes⦄ where
  Codes-market_sell_token_args :
      (args : MarketSellTokenArgs)
      → MarketSellTokenArgsFits args
      → Codes 1 (write_market_sell_token_args args) read_market_sell_token_args args
  unfolding write_market_sell_token_args read_market_sell_token_args
  Codes-market_sell_token_args args h = Codes-weaken 1 (omega arith) (
      Codes-bind _ (Codes-32 args.from_address h.from_address) (
        Codes-bind _ (Codes-8u args.token_id h.token_id) (
          Codes-bind _ (Codes-8u args.instance_id h.instance_id) (
            Codes-bind _ (Codes-8u args.quote_token_id h.quote_token_id) (
              Codes-bind _ (Codes-int_x args.price h.price)
                (Codes-end _ (Codes-8 args.end_date h.end_date) refl))))))

record MarketCancelSaleArgs : Type 0 where
  token_id : ℕ
  instance_id : ℕ

unfoldable write_market_cancel_sale_args : MarketCancelSaleArgs → Put
write_market_cancel_sale_args args = write8u args.token_id ▹ write8u args.instance_id

unfoldable read_market_cancel_sale_args : Get MarketCancelSaleArgs
read_market_cancel_sale_args = do
  token_id ← read8u
  instance_id ← read8u
  pure (record { token_id = token_id; instance_id = instance_id })

instance abbrev market_cancel_sale_args_carbon : CarbonSerializable MarketCancelSaleArgs
market_cancel_sale_args_carbon = record {
  write_carbon = write_market_cancel_sale_args;
  read_carbon = read_market_cancel_sale_args;
}

-- The ranges of the field types of MarketCancelSaleArgs.
record MarketCancelSaleArgsFits (args : MarketCancelSaleArgs) : Type 0 where
  token_id : args.token_id < 2 ^ 64
  instance_id : args.instance_id < 2 ^ 64

Codes-market_cancel_sale_args :
    (args : MarketCancelSaleArgs)
    → MarketCancelSaleArgsFits args
    → Codes 1 (write_market_cancel_sale_args args) read_market_cancel_sale_args args
unfolding write_market_cancel_sale_args read_market_cancel_sale_args
Codes-market_cancel_sale_args args h = Codes-weaken 1 (omega arith) (
    Codes-bind _ (Codes-8u args.token_id h.token_id)
      (Codes-end _ (Codes-8u args.instance_id h.instance_id) refl))

record MarketBuyTokenArgs : Type 0 where
  from_address : Bytes
  token_id : ℕ
  instance_id : ℕ

unfoldable write_market_buy_token_args : MarketBuyTokenArgs → Put
write_market_buy_token_args args =
    write32 args.from_address ▹ write8u args.token_id ▹ write8u args.instance_id

unfoldable read_market_buy_token_args : Get MarketBuyTokenArgs
read_market_buy_token_args = do
  from_address ← read32
  token_id ← read8u
  instance_id ← read8u
  pure (record { from_address = from_address; token_id = token_id; instance_id = instance_id })

instance abbrev market_buy_token_args_carbon : CarbonSerializable MarketBuyTokenArgs
market_buy_token_args_carbon = record {
  write_carbon = write_market_buy_token_args;
  read_carbon = read_market_buy_token_args;
}

-- The ranges of the field types of MarketBuyTokenArgs.
record MarketBuyTokenArgsFits (args : MarketBuyTokenArgs) : Type 0 where
  from_address : length args.from_address ≡ 32
  token_id : args.token_id < 2 ^ 64
  instance_id : args.instance_id < 2 ^ 64

Codes-market_buy_token_args :
    (args : MarketBuyTokenArgs)
    → MarketBuyTokenArgsFits args
    → Codes 1 (write_market_buy_token_args args) read_market_buy_token_args args
unfolding write_market_buy_token_args read_market_buy_token_args
Codes-market_buy_token_args args h = Codes-weaken 1 (omega arith) (
    Codes-bind _ (Codes-32 args.from_address h.from_address) (
      Codes-bind _ (Codes-8u args.token_id h.token_id)
        (Codes-end _ (Codes-8u args.instance_id h.instance_id) refl)))

record MarketGetTokenListingCountArgs : Type 0 where
  token_id : ℕ

unfoldable write_market_get_token_listing_count_args : MarketGetTokenListingCountArgs → Put
write_market_get_token_listing_count_args args = write8u args.token_id

unfoldable read_market_get_token_listing_count_args : Get MarketGetTokenListingCountArgs
read_market_get_token_listing_count_args = do
  token_id ← read8u
  pure (record { token_id = token_id })

instance abbrev market_get_token_listing_count_args_carbon :
    CarbonSerializable MarketGetTokenListingCountArgs
market_get_token_listing_count_args_carbon = record {
  write_carbon = write_market_get_token_listing_count_args;
  read_carbon = read_market_get_token_listing_count_args;
}

-- The ranges of the field types of MarketGetTokenListingCountArgs.
record MarketGetTokenListingCountArgsFits (args : MarketGetTokenListingCountArgs) : Type 0 where
  token_id : args.token_id < 2 ^ 64

Codes-market_get_token_listing_count_args :
    (args : MarketGetTokenListingCountArgs)
    → MarketGetTokenListingCountArgsFits args
    → Codes 1
        (write_market_get_token_listing_count_args args)
        read_market_get_token_listing_count_args
        args
unfolding write_market_get_token_listing_count_args read_market_get_token_listing_count_args
Codes-market_get_token_listing_count_args args h =
    Codes-weaken 1 (omega arith) (Codes-end _ (Codes-8u args.token_id h.token_id) refl)

record MarketGetTokenListingInfoArgs : Type 0 where
  token_id : ℕ
  instance_id : ℕ

unfoldable write_market_get_token_listing_info_args : MarketGetTokenListingInfoArgs → Put
write_market_get_token_listing_info_args args = write8u args.token_id ▹ write8u args.instance_id

unfoldable read_market_get_token_listing_info_args : Get MarketGetTokenListingInfoArgs
read_market_get_token_listing_info_args = do
  token_id ← read8u
  instance_id ← read8u
  pure (record { token_id = token_id; instance_id = instance_id })

instance abbrev market_get_token_listing_info_args_carbon :
    CarbonSerializable MarketGetTokenListingInfoArgs
market_get_token_listing_info_args_carbon = record {
  write_carbon = write_market_get_token_listing_info_args;
  read_carbon = read_market_get_token_listing_info_args;
}

-- The ranges of the field types of MarketGetTokenListingInfoArgs.
record MarketGetTokenListingInfoArgsFits (args : MarketGetTokenListingInfoArgs) : Type 0 where
  token_id : args.token_id < 2 ^ 64
  instance_id : args.instance_id < 2 ^ 64

Codes-market_get_token_listing_info_args :
    (args : MarketGetTokenListingInfoArgs)
    → MarketGetTokenListingInfoArgsFits args
    → Codes 1
        (write_market_get_token_listing_info_args args)
        read_market_get_token_listing_info_args
        args
unfolding write_market_get_token_listing_info_args read_market_get_token_listing_info_args
Codes-market_get_token_listing_info_args args h = Codes-weaken 1 (omega arith) (
    Codes-bind _ (Codes-8u args.token_id h.token_id)
      (Codes-end _ (Codes-8u args.instance_id h.instance_id) refl))
