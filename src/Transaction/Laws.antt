-- ===== src/Transaction/Laws.antt =====
-- Signing and mining of a transaction, src/transaction.rs.
use phantasma_sdk_rs.Prelude.{
  ℕ, zero, suc, ◌+◌, ◌%◌, ◌^◌, ◌≤◌, ◌<◌, ◌≡◌, refl, ap, ◌∙◌, arith, subst, List, [], ◌∷◌, ◌++◌,
  Bool, true, false, ltb, ◌||◌, ◌==◌, some, Bool-cases, inl, inr,
}
use phantasma_sdk_rs.Error.{ok, err}
use phantasma_sdk_rs.Stream.{Bytes, le_bytes}
use phantasma_sdk_rs.Crypto.{
  CryptoLibrary, Address, difficulty, verify, address_of, from_public_key,
}
use phantasma_sdk_rs.Crypto.Laws.{verify-sign}
use phantasma_sdk_rs.Transaction.{
  Transaction, write_transaction, to_bytes, hash, sign_transaction, any_verifies, is_signed_by,
  mine_from, mine,
}

module _ ⦃library : CryptoLibrary⦄ where
  any_verifies_last :
      (message : Bytes) (address : Address) (signatures : List Bytes) (signature : Bytes)
      → verify signature message (address ∷ []) ≡ true
      → any_verifies message address (signatures ++ signature ∷ []) ≡ true
  unfolding any_verifies
  any_verifies_last message address [] signature h = ap (λ b. b || false) h
  any_verifies_last message address (first ∷ signatures) signature h =
      later (verify first message (address ∷ [])) _
        (any_verifies_last message address signatures signature h)
    where
      later : (a b : Bool) → b ≡ true → (a || b) ≡ true
      later true b e = refl
      later false b e = e

  address_of_ok :
      (private_key : Bytes)
      → address_of private_key ≡ ok (1 ∷ 0 ∷ library.verifying_key private_key)
  unfolding address_of from_public_key
  address_of_ok private_key = rw (library.length-verifying_key private_key)

  message_unchanged :
      (t : Transaction) (signatures : List Bytes)
      → to_bytes (record t { signatures = signatures }) false ≡ to_bytes t false
  unfolding to_bytes write_transaction
  message_unchanged t signatures = refl

  -- A transaction that a key has signed is signed by it, whatever signatures it had before, and the
  -- signature leaves its hash as it was.
  pub is_signed_by-sign_transaction :
      (private_key : Bytes) (t : Transaction)
      → (is_signed_by private_key (sign_transaction private_key t).1 ≡ ok true)
        × (hash (sign_transaction private_key t).1 ≡ hash t)
  unfolding is_signed_by sign_transaction hash
  is_signed_by-sign_transaction private_key t =
      let key = library.verifying_key private_key in
      let message = to_bytes t false in
      let signature = phantasma_sdk_rs.Crypto.sign private_key message in
      let same = message_unchanged t (t.signatures ++ signature ∷ []) in
      let known = verify-sign private_key message (1 ∷ 0 ∷ key) [] (address_of_ok private_key) in
      (
        ap
              (λ own. elim own [
                | ok address ↦ ok (any_verifies message address (t.signatures ++ signature ∷ []))
                | err e ↦ err e
              ])
              (address_of_ok private_key)
            ∙ ap ok (any_verifies_last message (1 ∷ 0 ∷ key) t.signatures signature known),
        ap library.sha256 same,
      )

  -- A transaction with a nonce for its payload.
  abbrev pub with_nonce : Transaction → ℕ → Transaction
  with_nonce t nonce = record t { payload = le_bytes 4 nonce }

  module _ (t : Transaction) (wanted : ℕ) where
    turn_stops :
        (fuel nonce : ℕ) (s : Transaction)
        → ltb (difficulty (hash s)) wanted ≡ false
        → mine_from (suc fuel) nonce wanted s ≡ some s
    unfolding mine_from
    turn_stops fuel nonce s d = rw d

    turn_goes_on :
        (fuel nonce : ℕ) (s : Transaction)
        → ltb (difficulty (hash s)) wanted ≡ true
        → nonce + 1 < 2 ^ 32
        → mine_from (suc fuel) nonce wanted s
          ≡ mine_from fuel (nonce + 1) wanted (with_nonce s (nonce + 1))
    unfolding mine_from
    turn_goes_on fuel nonce s d small =
        let wrap : (nonce + 1) % 2 ^ 32 ≡ nonce + 1 = omega arith in rw (d, wrap)

    -- The search from a nonce on ends at the latest at one that serves.
    search_ends :
        (steps nonce : ℕ)
        → nonce + steps < 2 ^ 32
        → wanted ≤ difficulty (hash (with_nonce t (nonce + steps)))
        → (n : ℕ) × (mine_from (suc steps) nonce wanted (with_nonce t nonce)
            ≡ some (with_nonce t n))
          × (wanted ≤ difficulty (hash (with_nonce t n)))
    search_ends zero nonce small found =
        let here : nonce + 0 ≡ nonce = omega arith in
        let serves = subst (λ n. wanted ≤ difficulty (hash (with_nonce t n))) here found in
        (nonce, turn_stops zero nonce (with_nonce t nonce) (ground (arith, serves)), serves)
    search_ends (suc steps) nonce small found =
        elim (Bool-cases (ltb (difficulty (hash (with_nonce t nonce))) wanted)) [
          | inl d ↦
              let later : nonce + suc steps ≡ nonce + 1 + steps = omega arith in
              let (n, ends, serves) =
                search_ends steps (nonce + 1) (omega arith)
                  (subst (λ m. wanted ≤ difficulty (hash (with_nonce t m))) later found) in
              (
                n,
                turn_goes_on (suc steps) nonce (with_nonce t nonce) d (omega arith) ∙ ends,
                serves,
              )
          | inr d ↦ (nonce, turn_stops (suc steps) nonce (with_nonce t nonce) d, ground arith)
        ]

  -- When some nonce from 1 to 2 ^ 32 - 1 gives the transaction the wanted difficulty, the search ends
  -- within one turn more than that nonce; what it ends with has the wanted difficulty and differs
  -- from the transaction in its payload at most.
  pub mine-ends :
      (t : Transaction) (wanted nonce : ℕ)
      → 0 < nonce
      → nonce < 2 ^ 32
      → wanted ≤ difficulty (hash (with_nonce t nonce))
      → (mined : Transaction) × (mine (suc nonce) wanted t ≡ some mined)
        × (wanted ≤ difficulty (hash mined))
        × (record mined { payload = t.payload } ≡ t)
  mine-ends t wanted zero some_nonce small found = absurd (omega arith)
  mine-ends t wanted (suc steps) some_nonce small found = elim (Bool-cases (wanted == 0)) [
    | inl z ↦ (t, unfold mine in rw z, ground arith, refl)
    | inr z ↦ elim (Bool-cases (ltb (difficulty (hash t)) wanted)) [
      | inl d ↦
          let first : suc steps ≡ 1 + steps = omega arith in
          let (n, ends, serves) =
            search_ends t wanted steps 1 (omega arith)
              (subst (λ m. wanted ≤ difficulty (hash (with_nonce t m))) first found) in
          (
            with_nonce t n,
            unfold mine in rw z (turn_goes_on t wanted (suc steps) 0 t d (omega arith) ∙ ends),
            serves,
            refl,
          )
      | inr d ↦ (t, unfold mine in rw z (turn_stops t wanted (suc steps) 0 t d), ground arith, refl)
    ]
  ]
