-- ===== src/Soroban/Token.antt =====
-- What a contract relies on in the token it holds.
use sorocron.Base.{
  ◌≡◌, ap, sym, Bool, true, false, ◌==◌, some, Bool-cases, inl, inr, eq-of-==, arith,
}
use sorocron.Base.Int.{ℤ, pos, pos_part, neg_part, ◌+ℤ◌, ◌≤ℤ◌, int_laws}
use sorocron.Registry.Types.{Address}
use sorocron.Registry.Solvency.{gated}
use sorocron.Soroban.{Host}

-- A transfer takes the amount from the sender and gives it to the receiver, and nobody signs for the
-- contract.
pub record TokenLaws {X : Type 0} (host : Host X) : Type 0 where
  pub transfer_moves :
      (token from to : Address) (amount : ℤ) (x y : X)
      → host.transfer token from to amount x ≡ some y
      → (who : Address)
      → host.balance token who y +ℤ gated (who == from) amount
        ≡ host.balance token who x +ℤ gated (who == to) amount
  pub unsigned : host.authorized host.current_contract_address ≡ false

-- Besides, a transfer by the contract of what it has succeeds.
pub record HolderLaws {X : Type 0} (host : Host X) : Type 0 where
  pub moves : TokenLaws host
  pub transfer_pays :
      (token to : Address) (amount : ℤ) (x : X)
      → pos 0 ≤ℤ amount
      → amount ≤ℤ host.balance token host.current_contract_address x
      → (y : X) × (host.transfer token host.current_contract_address to amount x ≡ some y)

same_address : (a : Address) → (a == a) ≡ true
same_address a = ground arith

in_lem :
    (p q : Bool) (amount held held' : ℤ)
    → p ≡ false
    → q ≡ true
    → held' +ℤ gated p amount ≡ held +ℤ gated q amount
    → held' ≡ held +ℤ amount
in_lem false true amount held held' a b e = omega (int_laws, ap pos_part e, ap neg_part e)
in_lem true q amount held held' a b e = cc
in_lem false false amount held held' a b e = cc

out_lem :
    (p q : Bool) (amount held held' : ℤ)
    → p ≡ true
    → pos 0 ≤ℤ amount
    → held' +ℤ gated p amount ≡ held +ℤ gated q amount
    → held ≤ℤ held' +ℤ amount
out_lem true true amount held held' a n e = omega (int_laws, ap pos_part e, ap neg_part e)
out_lem true false amount held held' a n e = omega (int_laws, ap pos_part e, ap neg_part e)
out_lem false q amount held held' a n e = cc

module _ {X : Type 0} {host : Host X} (laws : TokenLaws host) where
  -- A transfer that its sender signed raises what the contract has by the amount.
  pub received :
      (token from : Address) (amount : ℤ) (x y : X)
      → host.authorized from ≡ true
      → host.transfer token from host.current_contract_address amount x ≡ some y
      → host.balance token host.current_contract_address y
        ≡ host.balance token host.current_contract_address x +ℤ amount
  received token from amount x y signed e =
      elim (Bool-cases (host.current_contract_address == from)) [
        | inl own ↦
            let same = eq-of-== host.current_contract_address from own in
            cc (sym laws.unsigned, ap host.authorized same, signed)
        | inr other ↦ in_lem _ _ amount _ _ other (same_address host.current_contract_address) (
            laws.transfer_moves token from host.current_contract_address amount x y e
              host.current_contract_address)
      ]

  -- A transfer by the contract lowers it by at most the amount.
  pub spent :
      (token to : Address) (amount : ℤ) (x y : X)
      → pos 0 ≤ℤ amount
      → host.transfer token host.current_contract_address to amount x ≡ some y
      → host.balance token host.current_contract_address x
        ≤ℤ host.balance token host.current_contract_address y +ℤ amount
  spent token to amount x y nonneg e =
      out_lem _ _ amount _ _ (same_address host.current_contract_address) nonneg (
        laws.transfer_moves token host.current_contract_address to amount x y e
          host.current_contract_address)
