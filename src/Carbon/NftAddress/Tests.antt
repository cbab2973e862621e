-- ===== src/Carbon/NftAddress/Tests.antt =====
-- The theorems on NFT addresses at one address.
use phantasma_sdk_rs.Prelude.{◌≡◌, refl, arith, true, not, ◌&&◌, ◌==◌, replicate, ◌∷◌, ◌++◌}
use phantasma_sdk_rs.Stream.{Bytes, from_le}
use phantasma_sdk_rs.Carbon.NftAddress.{
  get_nft_address, unpack_nft_address, is_nft_address, any_nonzero, is_nft_address-get_nft_address,
  get_nft_address-unpack_nft_address,
}

is_nft_address-get_nft_address_example :
    is_nft_address (get_nft_address 5 258) ≡ (not (5 == 0) && not (258 == 0))
is_nft_address-get_nft_address_example =
    is_nft_address-get_nft_address 5 258 (omega arith) (omega arith)

abbrev address : Bytes
address = replicate 15 0 ++ (1 ∷ 5 ∷ replicate 7 0 ++ (2 ∷ 1 ∷ replicate 6 0))

address_recognised : is_nft_address address ≡ true
unfolding is_nft_address unpack_nft_address any_nonzero from_le
address_recognised = refl

get_nft_address-unpack_nft_address_example :
    get_nft_address (unpack_nft_address address).0 (unpack_nft_address address).1 ≡ address
get_nft_address-unpack_nft_address_example =
    get_nft_address-unpack_nft_address address refl (omega arith) address_recognised
