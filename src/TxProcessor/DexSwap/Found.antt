-- ===== src/TxProcessor/DexSwap/Found.antt =====
-- DexSwapProcessor.ts: which transfer the value of a swap is read from.
use block_listener.Base.{
  In, String, Bool, true, false, none, sym, ◌≡◌, refl, ap, ◌∙◌, ◌⊎◌, inl, inr, List, [], ◌∷◌,
  Option, some, arith, Option-cases, Bool-cases, string_eq, ◌===◌, eq_iff,
}
use block_listener.Utils.Address.{checksumed, is_same_address, equal_if_valid, to_lower_case}
use block_listener.Rabbitmq.Objects.{lookup}
use block_listener.Entities.Tx.{TransactionLog}
use block_listener.TxProcessor.DexSwap.{
  swap_signature, transfer_signature, both_hold, either_holds, find_checked, is_transfer_by,
  token_value_from, get_token_value_from_logs,
}

find_checked_lem :
    {A : Type 0} (p : A → Option Bool) (xs : List A) (x : A)
    → find_checked p xs ≡ some (some x)
    → In x xs × (p x ≡ some true)
unfolding find_checked
find_checked_lem p [] x h = ground arith
find_checked_lem p (y ∷ ys) x h = elim (Option-cases (p y)) [
  | inl throws_here ↦ ground arith
  | inr (b, answer) ↦ elim (Bool-cases b) [
    | inl yes_b ↦ ground arith
    | inr no_b ↦ ground (arith, find_checked_lem p ys x)
  ]
]

-- Two texts are valid addresses with one checksummed form.
abbrev pub SameAddress : (String → Option String) → String → String → Type 0
SameAddress get_address a b =
    (c : String) × (get_address (to_lower_case (to_lower_case a)) ≡ some c)
    × (get_address (to_lower_case (to_lower_case b)) ≡ some c)

-- The log is a transfer by the token's contract, with the address as its receiver or its sender.
abbrev pub IsTransfer : (String → Option String) → String → String → TransactionLog → Type 0
IsTransfer get_address token address log =
    SameAddress get_address log.address token
    × (log.signature ≡ "Transfer(address,address,uint256)")
    × ((party : String) × ((lookup "to" log.args ≡ some party)
          ⊎ (lookup "from" log.args ≡ some party))
        × SameAddress get_address party address)

both_hold_lem : (a b : Option Bool) → both_hold a b ≡ some true → (a ≡ some true) × (b ≡ some true)
both_hold_lem none b h = ground arith
both_hold_lem (some false) b h = ground arith
both_hold_lem (some true) b h = (refl, h)

either_holds_lem :
    (a b : Option Bool) → either_holds a b ≡ some true → (a ≡ some true) ⊎ (b ≡ some true)
either_holds_lem none b h = ground arith
either_holds_lem (some true) b h = inl refl
either_holds_lem (some false) b h = inr h

module _ (get_address : String → Option String) where
  equal_if_valid_lem :
      (a b : Option String)
      → equal_if_valid get_address a b ≡ some true
      → (c : String) × (a ≡ some c) × (b ≡ some c)
  equal_if_valid_lem none b h = ground arith
  equal_if_valid_lem (some a) none h = ground arith
  equal_if_valid_lem (some a) (some b) h =
      (a, refl, ap some (sym ((eq_iff a b).0 (ground (arith, h)))))

  is_same_address_lem :
      (a b : String)
      → is_same_address get_address (some a) (some b) ≡ some true
      → SameAddress get_address a b
  unfolding is_same_address checksumed
  is_same_address_lem a b h =
      equal_if_valid_lem (get_address (to_lower_case (to_lower_case a)))
        (get_address (to_lower_case (to_lower_case b))) (ground (arith, h))

  is_party_lem :
      (a : Option String) (b : String)
      → is_same_address get_address a (some b) ≡ some true
      → (t : String) × (a ≡ some t) × SameAddress get_address t b
  unfolding is_same_address
  is_party_lem none b h = ground arith
  is_party_lem (some a) b h = (a, refl, is_same_address_lem a b h)

  is_transfer_by_lem :
      (token address : String) (log : TransactionLog)
      → is_transfer_by get_address token address log ≡ some true
      → IsTransfer get_address token address log
  is_transfer_by_lem token address log h =
      let of_token = is_same_address get_address (some log.address) (some token) in
      let is_transfer = log.signature === transfer_signature in
      let to = is_same_address get_address (lookup "to" log.args) (some address) in
      let from = is_same_address get_address (lookup "from" log.args) (some address) in
      let (by_token, rest) =
        both_hold_lem of_token (both_hold (some is_transfer) (either_holds to from)) h in
      let (signed, moved) = both_hold_lem (some is_transfer) (either_holds to from) rest in
      (
        is_same_address_lem log.address token by_token,
        (eq_iff log.signature transfer_signature).0 (ground (arith, signed)),
        elim (either_holds_lem to from moved) [
          | inl received ↦
              let (party, has, same) = is_party_lem (lookup "to" log.args) address received in
              (party, inl has, same)
          | inr sent ↦
              let (party, has, same) = is_party_lem (lookup "from" log.args) address sent in
              (party, inr has, same)
        ],
      )

-- `v` is the value of a transfer of the token to or from the address of a swap.
abbrev pub IsSwapValue :
    (String → Option String) → String → List TransactionLog → List TransactionLog → String → Type 0
IsSwapValue get_address token swaps logs v =
    (swap_log : TransactionLog) × (log : TransactionLog) × In swap_log swaps
    × In log logs
    × (swap_log.signature ≡ "Swap(address,uint256,uint256,uint256,uint256,address)")
    × IsTransfer get_address token swap_log.address log
    × (lookup "value" log.args ≡ some v)

module _ (get_address : String → Option String) (token : String) (logs : List TransactionLog) where
  later :
      (s : TransactionLog) (rest : List TransactionLog) (v : String)
      → IsSwapValue get_address token rest logs v
      → IsSwapValue get_address token (s ∷ rest) logs v
  later s rest v h = (h.0, h.1, inr h.2, h.3, h.4, h.5, h.6)

  token_value_from_lem :
      (swaps : List TransactionLog) (v : String)
      → token_value_from get_address token logs swaps ≡ some (some v)
      → IsSwapValue get_address token swaps logs v
  unfolding token_value_from
  token_value_from_lem [] v h = ground arith
  token_value_from_lem (s ∷ rest) v h = elim (Bool-cases (s.signature === swap_signature)) [
    | inr other ↦ later s rest v (token_value_from_lem rest v (ground arith))
    | inl swap ↦
        elim (Option-cases (find_checked (is_transfer_by get_address token s.address) logs)) [
          | inl failed ↦ ground arith
          | inr (found, answer) ↦ elim (Option-cases found) [
            | inl nothing ↦ later s rest v (token_value_from_lem rest v (ground arith))
            | inr (log, some_log) ↦
                let (member, moved) =
                  find_checked_lem (is_transfer_by get_address token s.address) logs log
                    (answer ∙ ap some some_log) in
                (
                  s,
                  log,
                  inl refl,
                  member,
                  (eq_iff s.signature swap_signature).0 swap,
                  is_transfer_by_lem get_address token s.address log moved,
                  ground arith,
                )
          ]
        ]
  ]

  -- A value that is found in the logs is the value of one of them, which is a transfer of the token to
  -- or from the address of a swap among the logs.
  pub get_token_value_from_logs_lem :
      (v : String)
      → get_token_value_from_logs get_address token logs ≡ some (some v)
      → IsSwapValue get_address token logs logs v
  unfolding get_token_value_from_logs
  get_token_value_from_logs_lem v = token_value_from_lem logs v
