-- ===== src/Vm/Script/Transfers.antt =====
-- The calls of ScriptBuilder, src/vm.rs, with a name of their own. A text that is no address is a
-- failure of the builder; the first of several is the one that counts.
use phantasma_sdk_rs.Prelude.{ℕ, pos, ◌++◌, String}
use phantasma_sdk_rs.Stream.{Bytes}
use phantasma_sdk_rs.Error.{
  Result, ok, err, PhantasmaError, encoding, serialization, crypto, builder, panicked, ◌>>=◌,
}
use phantasma_sdk_rs.Text.Ascii.{ascii}
use phantasma_sdk_rs.BigInt.{BigIntBytes}
use phantasma_sdk_rs.Crypto.{CryptoLibrary, Address, from_text}
use phantasma_sdk_rs.Vm.Script.{ScriptBuilder, fail}
use phantasma_sdk_rs.Vm.Script.Calls.{
  ScriptArg, ScriptArgs, no_args, arg, address, text, number, call_interop, call_contract,
}

-- The message of an error; the prefix that its `to_string` puts before it is left out.
abbrev pub message_of : PhantasmaError → String
message_of (encoding message) = message
message_of (serialization message) = message
message_of (crypto message) = message
message_of (builder message) = message
message_of (panicked message) = message

-- An error is a value that the caller looks at, and a panic is none.
abbrev pub caught : PhantasmaError → Result (Result Address)
caught (panicked message) = err (panicked message)
caught e = ok (err e)

-- The conversions of the arguments to `ScriptArg`.
abbrev pub of_address : Address → ScriptArg
of_address value = address value

abbrev pub of_text : Bytes → ScriptArg
of_text value = text value

abbrev pub of_u64 : ℕ → ScriptArg
of_u64 value = number (pos value)

module _ ⦃big : BigIntBytes⦄ where
  unfoldable pub allow_gas : Address → Address → ℕ → ℕ → ScriptBuilder → ScriptBuilder
  unfolding call_contract
  allow_gas from to gas_price gas_limit b =
      call_contract (ascii "gas") (ascii "AllowGas")
        (arg (of_address from)
          (arg (of_address to) (arg (of_u64 gas_price) (arg (of_u64 gas_limit) no_args))))
        b

  unfoldable pub spend_gas : Address → ScriptBuilder → ScriptBuilder
  unfolding call_contract
  spend_gas owner b =
      call_contract (ascii "gas") (ascii "SpendGas") (arg (of_address owner) no_args) b

  unfoldable pub transfer_tokens : Bytes → Address → Address → ℕ → ScriptBuilder → ScriptBuilder
  unfolding call_interop
  transfer_tokens symbol from to amount b =
      call_interop (ascii "Runtime.TransferTokens")
        (arg (of_address from)
          (arg (of_address to) (arg (of_text symbol) (arg (of_u64 amount) no_args))))
        b

  unfoldable pub mint_tokens : Bytes → Address → Address → ℕ → ScriptBuilder → ScriptBuilder
  unfolding call_interop
  mint_tokens symbol from to amount b =
      call_interop (ascii "Runtime.MintTokens")
        (arg (of_address from)
          (arg (of_address to) (arg (of_text symbol) (arg (of_u64 amount) no_args))))
        b

  unfoldable pub transfer_balance : Bytes → Address → Address → ScriptBuilder → ScriptBuilder
  unfolding call_interop
  transfer_balance symbol from to b =
      call_interop (ascii "Runtime.TransferBalance")
        (arg (of_address from) (arg (of_address to) (arg (of_text symbol) no_args))) b

  unfoldable pub transfer_nft : Bytes → Address → Address → ℕ → ScriptBuilder → ScriptBuilder
  unfolding call_interop
  transfer_nft symbol from to token_id b =
      call_interop (ascii "Runtime.TransferToken")
        (arg (of_address from)
          (arg (of_address to) (arg (of_text symbol) (arg (of_u64 token_id) no_args))))
        b

  unfoldable pub cross_transfer_token :
      Address → Bytes → Address → Address → ℕ → ScriptBuilder → ScriptBuilder
  unfolding call_interop
  cross_transfer_token destination_chain symbol from to amount b =
      call_interop (ascii "Runtime.SendTokens")
        (arg (of_address destination_chain) (
          arg (of_address from)
            (arg (of_address to) (arg (of_text symbol) (arg (of_u64 amount) no_args)))))
        b

  unfoldable pub cross_transfer_nft :
      Address → Bytes → Address → Address → ℕ → ScriptBuilder → ScriptBuilder
  unfolding call_interop
  cross_transfer_nft destination_chain symbol from to token_id b =
      call_interop (ascii "Runtime.SendToken")
        (arg (of_address destination_chain) (
          arg (of_address from)
            (arg (of_address to) (arg (of_text symbol) (arg (of_u64 token_id) no_args)))))
        b

  unfoldable pub stake : Address → ℕ → ScriptBuilder → ScriptBuilder
  unfolding call_contract
  stake owner amount b =
      call_contract (ascii "stake") (ascii "Stake")
        (arg (of_address owner) (arg (of_u64 amount) no_args)) b

  unfoldable pub unstake : Address → ℕ → ScriptBuilder → ScriptBuilder
  unfolding call_contract
  unstake owner amount b =
      call_contract (ascii "stake") (ascii "Unstake")
        (arg (of_address owner) (arg (of_u64 amount) no_args)) b

  -- `{symbol}#{series_id}`: the digits of the number are an argument.
  unfoldable pub call_nft : Bytes → Bytes → Bytes → ScriptArgs → ScriptBuilder → ScriptBuilder
  unfolding call_contract
  call_nft symbol series_digits method args b =
      call_contract (symbol ++ ascii "#" ++ series_digits) method args b

  module _ ⦃library : CryptoLibrary⦄ where
    -- `Address::from_text` where a panic ends the call and an error does not.
    unfoldable pub parsed : Bytes → Result (Result Address)
    unfolding from_text
    parsed given = elim (from_text given) [ ok value ↦ ok (ok value) | err e ↦ caught e ]

    -- A method that needs an address, given as what its text was read as.
    unfoldable pub with_address :
        Result Address → (Address → ScriptBuilder → ScriptBuilder) → ScriptBuilder → ScriptBuilder
    unfolding fail
    with_address (ok value) method b = method value b
    with_address (err e) method b = fail (message_of e) b

    unfoldable pub allow_gas_text : Bytes → Bytes → ℕ → ℕ → ScriptBuilder → Result ScriptBuilder
    unfolding parsed with_address allow_gas
    allow_gas_text from to gas_price gas_limit b = parsed from >>= λ from_read.
        parsed to >>= λ to_read. ok (
          with_address from_read
            (λ from_address.
              with_address to_read
                (λ to_address. allow_gas from_address to_address gas_price gas_limit))
            b)

    unfoldable pub spend_gas_text : Bytes → ScriptBuilder → Result ScriptBuilder
    unfolding parsed with_address spend_gas
    spend_gas_text owner b = parsed owner >>= λ owner_read.
        ok (with_address owner_read (λ owner_address. spend_gas owner_address) b)

    unfoldable pub transfer_tokens_text :
        Bytes → Bytes → Bytes → ℕ → ScriptBuilder → Result ScriptBuilder
    unfolding parsed with_address transfer_tokens
    transfer_tokens_text symbol from to amount b = parsed from >>= λ from_read.
        parsed to >>= λ to_read. ok (
          with_address from_read
            (λ from_address.
              with_address to_read
                (λ to_address. transfer_tokens symbol from_address to_address amount))
            b)

    unfoldable pub transfer_tokens_to_text :
        Bytes → Address → Bytes → ℕ → ScriptBuilder → Result ScriptBuilder
    unfolding parsed with_address transfer_tokens
    transfer_tokens_to_text symbol from to amount b = parsed to >>= λ to_read.
        ok (with_address to_read (λ to_address. transfer_tokens symbol from to_address amount) b)

    unfoldable pub mint_tokens_text :
        Bytes → Bytes → Bytes → ℕ → ScriptBuilder → Result ScriptBuilder
    unfolding parsed with_address mint_tokens
    mint_tokens_text symbol from to amount b = parsed from >>= λ from_read. parsed to >>= λ to_read.
        ok (
          with_address from_read
            (λ from_address.
              with_address to_read
                (λ to_address. mint_tokens symbol from_address to_address amount))
            b)

    unfoldable pub transfer_balance_text :
        Bytes → Bytes → Bytes → ScriptBuilder → Result ScriptBuilder
    unfolding parsed with_address transfer_balance
    transfer_balance_text symbol from to b = parsed from >>= λ from_read. parsed to >>= λ to_read.
        ok (
          with_address from_read
            (λ from_address.
              with_address to_read (λ to_address. transfer_balance symbol from_address to_address))
            b)

    unfoldable pub transfer_nft_text :
        Bytes → Bytes → Bytes → ℕ → ScriptBuilder → Result ScriptBuilder
    unfolding parsed with_address transfer_nft
    transfer_nft_text symbol from to token_id b = parsed from >>= λ from_read.
        parsed to >>= λ to_read. ok (
          with_address from_read
            (λ from_address.
              with_address to_read
                (λ to_address. transfer_nft symbol from_address to_address token_id))
            b)

    unfoldable pub transfer_nft_to_text :
        Bytes → Address → Bytes → ℕ → ScriptBuilder → Result ScriptBuilder
    unfolding parsed with_address transfer_nft
    transfer_nft_to_text symbol from to token_id b = parsed to >>= λ to_read.
        ok (with_address to_read (λ to_address. transfer_nft symbol from to_address token_id) b)

    unfoldable pub cross_transfer_token_text :
        Bytes → Bytes → Bytes → Bytes → ℕ → ScriptBuilder → Result ScriptBuilder
    unfolding parsed with_address cross_transfer_token
    cross_transfer_token_text destination_chain symbol from to amount b =
        parsed destination_chain >>= λ destination_chain_read. parsed from >>= λ from_read.
        parsed to >>= λ to_read. ok (
          with_address destination_chain_read
            (λ destination_chain_address. with_address from_read (λ from_address.
              with_address to_read (λ to_address.
                cross_transfer_token destination_chain_address symbol from_address to_address
                  amount)))
            b)

    unfoldable pub cross_transfer_token_to_text :
        Address → Bytes → Address → Bytes → ℕ → ScriptBuilder → Result ScriptBuilder
    unfolding parsed with_address cross_transfer_token
    cross_transfer_token_to_text destination_chain symbol from to amount b =
        parsed to >>= λ to_read. ok (
          with_address to_read
            (λ to_address. cross_transfer_token destination_chain symbol from to_address amount) b)

    unfoldable pub cross_transfer_nft_text :
        Bytes → Bytes → Bytes → Bytes → ℕ → ScriptBuilder → Result ScriptBuilder
    unfolding parsed with_address cross_transfer_nft
    cross_transfer_nft_text destination_chain symbol from to token_id b =
        parsed destination_chain >>= λ destination_chain_read. parsed from >>= λ from_read.
        parsed to >>= λ to_read. ok (
          with_address destination_chain_read
            (λ destination_chain_address. with_address from_read (λ from_address.
              with_address to_read (λ to_address.
                cross_transfer_nft destination_chain_address symbol from_address to_address
                  token_id)))
            b)

    unfoldable pub cross_transfer_nft_to_text :
        Address → Bytes → Address → Bytes → ℕ → ScriptBuilder → Result ScriptBuilder
    unfolding parsed with_address cross_transfer_nft
    cross_transfer_nft_to_text destination_chain symbol from to token_id b =
        parsed to >>= λ to_read. ok (
          with_address to_read
            (λ to_address. cross_transfer_nft destination_chain symbol from to_address token_id) b)

    unfoldable pub stake_text : Bytes → ℕ → ScriptBuilder → Result ScriptBuilder
    unfolding parsed with_address stake
    stake_text owner amount b = parsed owner >>= λ owner_read.
        ok (with_address owner_read (λ owner_address. stake owner_address amount) b)

    unfoldable pub unstake_text : Bytes → ℕ → ScriptBuilder → Result ScriptBuilder
    unfolding parsed with_address unstake
    unstake_text owner amount b = parsed owner >>= λ owner_read.
        ok (with_address owner_read (λ owner_address. unstake owner_address amount) b)
