-- ===== src/Soroban/Router.antt =====
-- The Soroswap router as the contracts of contracts/examples call it.
use sorocron.Base.{ℕ, ◌≡◌, ◌≢◌, Option, none, some, List, [], ◌∷◌}
use sorocron.Base.Int.{ℤ, pos, ◌+ℤ◌, ◌≤ℤ◌}
use sorocron.Registry.Types.{Address}
use sorocron.Soroban.{Host, World, M, Outcome, returns}

-- What a contract lets the router do in its name: one transfer of a token.
pub record Authorization : Type 0 where
  pub contract : Address
  pub from : Address
  pub to : Address
  pub amount : ℤ

-- The router's functions, by its address; `none` is a panic. The first two only read.
pub record Router (X : Type 0) : Type 0 where
  pub router_pair_for : Address → Address → Address → X → Option Address
  pub router_get_amounts_out : Address → ℤ → List Address → X → Option (List ℤ)
  -- The router, the authorization, the amount in, the least amount out, the path, the receiver and the
  -- deadline.
  pub swap_exact_tokens_for_tokens :
      Address → Authorization → ℤ → ℤ → List Address → Address → ℕ → X → Option (List ℤ × X)

-- `amounts.last().unwrap_or(0)`.
abbrev pub last_or_zero : List ℤ → ℤ
last_or_zero [] = pos 0
last_or_zero (a ∷ []) = a
last_or_zero (a ∷ (b ∷ amounts)) = last_or_zero (b ∷ amounts)

-- A swap of two tokens that succeeds pays what it says it pays, at least the least amount, and takes the amount
-- that it was authorized to.
pub record RouterLaws {X : Type 0} (host : Host X) (router : Router X) : Type 0 where
  pub swap_pays :
      (r pair sell buy : Address) (amount_in min_out : ℤ) (x y : X) (amounts : List ℤ)
      → sell ≢ buy
      → router.swap_exact_tokens_for_tokens r
          (record {
            contract = sell;
            from = host.current_contract_address;
            to = pair;
            amount = amount_in;
          })
          amount_in
          min_out
          (sell ∷ buy ∷ [])
          host.current_contract_address
          host.timestamp
          x
        ≡ some (amounts, y)
      → (min_out ≤ℤ last_or_zero amounts)
        × (host.balance sell host.current_contract_address y +ℤ amount_in
            ≡ host.balance sell host.current_contract_address x)
        × (host.balance buy host.current_contract_address y
            ≡ host.balance buy host.current_contract_address x +ℤ last_or_zero amounts)

module _ {X : Type 0} (host : Host X) (router : Router X) where
  -- The swap of one token for another, once the router has answered with the pair's address: the
  -- router, the tokens, the amount in and the least amount out.
  abbrev pub swapped :
      Address → Address → Address → ℤ → ℤ → Option Address → X → Option (List ℤ × X)
  swapped r sell buy amount_in min_out none x = none
  swapped r sell buy amount_in min_out (some pair) x =
      router.swap_exact_tokens_for_tokens r
        (record {
          contract = sell;
          from = host.current_contract_address;
          to = pair;
          amount = amount_in;
        })
        amount_in min_out (sell ∷ buy ∷ []) host.current_contract_address host.timestamp x

  abbrev pub answered : {E S : Type 0} → Option (List ℤ × X) → World S X → Outcome E (World S X) ℤ
  answered none w = Outcome.traps
  answered (some (amounts, x)) w = returns (last_or_zero amounts) (record w { outside = x })

  -- Authorizes the transfer to the pair and swaps; gives what the last amount says.
  abbrev pub swap : {E S : Type 0} → Address → Address → Address → ℤ → ℤ → M E (World S X) ℤ
  swap r sell buy amount_in min_out w =
      answered
        (swapped r sell buy amount_in min_out (router.router_pair_for r sell buy w.outside)
          w.outside)
        w
