-- ===== src/Examples/Tests/Sample.antt =====
-- A host whose tokens are one ledger, and a router that pays exactly the least amount.
use sorocron.Base.{
  ℕ, ◌≡◌, ◌≢◌, refl, ap, Bool, true, false, ◌&&◌, ◌==◌, if◌then◌else◌, Option, some, unwrap_or,
  List, [], ◌∷◌, arith,
}
use sorocron.Base.Int.{ℤ, pos, ◌+ℤ◌, ◌-ℤ◌, int_laws}
use sorocron.Registry.Types.{Address}
use sorocron.Registry.Solvency.{gated}
use sorocron.Soroban.{Host}
use sorocron.Soroban.Token.{TokenLaws, HolderLaws}
use sorocron.Soroban.Router.{Router, RouterLaws}

abbrev pub Ledger : Type 0
Ledger = Address → Address → ℤ

abbrev pub move : Address → Address → Address → ℤ → Ledger → Ledger
move token from to amount x t who =
    (x t who +ℤ gated (t == token && who == to) amount) -ℤ gated (t == token && who == from) amount

-- Contract 9 at a time; everybody else signs, and allows a thousand of each token.
abbrev pub host : ℕ → Host Ledger
host now = record {
  timestamp = now;
  current_contract_address = 9;
  authorized = λ a. if a == 9 then false else true;
  balance = λ token who x. x token who;
  allowance = λ token owner spender x. pos 1000;
  transfer = λ token from to amount x. some (move token from to amount x);
  transfer_from = λ token spender from to amount x. some (move token from to amount x);
  try_invoke = λ target function args x. (true, x);
}

same_token :
    (p q b : Bool)
    → (b ≡ true)
    → (a c d : ℤ) → (a +ℤ gated (b && q) c) -ℤ gated (b && p) c +ℤ gated p c ≡ a +ℤ gated q c
same_token p q true e a c d = omega int_laws
same_token p q false e a c d = cc

equal : (a : ℕ) → (a == a) ≡ true
equal a = ground arith

pub token_laws : (now : ℕ) → TokenLaws (host now)
token_laws now = record {
  transfer_moves = λ token from to amount x y e who.
      let same : move token from to amount x ≡ y = ap (λ (o : Option Ledger). unwrap_or o x) e in
      rw (← same) (
        same_token (who == from) (who == to) (token == token) (equal token) (x token who) amount
          amount);
  unsigned = refl;
}

pub laws : (now : ℕ) → HolderLaws (host now)
laws now = record {
  moves = token_laws now;
  transfer_pays = λ token to amount x nonneg enough. (move token 9 to amount x, refl);
}

abbrev tokens : List Address → Address × Address
tokens (sell ∷ (buy ∷ rest)) = (sell, buy)
tokens _ = (0, 0)

-- The receiver gets the least amount, the sender of the authorization loses its amount.
abbrev exchanged : Address → Address → Address → Address → ℤ → ℤ → Ledger → Ledger
exchanged sell buy from to amount_in out x t who =
    (x t who +ℤ gated (t == buy && who == to) out) -ℤ gated (t == sell && who == from) amount_in

abbrev pub router : Router Ledger
router = record {
  router_pair_for = λ r a b x. some 8;
  router_get_amounts_out = λ r amount_in path x. some (amount_in ∷ pos 60 ∷ []);
  swap_exact_tokens_for_tokens = λ r a amount_in min_out path to deadline x. some (
    amount_in ∷ min_out ∷ [],
    exchanged (tokens path).0 (tokens path).1 a.from to a.amount min_out x,
  );
}

spent_lem :
    (b c : Bool)
    → b ≡ false
    → c ≡ true
    → (a m n : ℤ) → (a +ℤ gated (b && true) m) -ℤ gated (c && true) n +ℤ n ≡ a
spent_lem false true e f a m n = omega int_laws
spent_lem true c e f a m n = cc
spent_lem false false e f a m n = cc

got_lem :
    (b c : Bool)
    → b ≡ true
    → c ≡ false
    → (a m n : ℤ) → (a +ℤ gated (b && true) m) -ℤ gated (c && true) n ≡ a +ℤ m
got_lem true false e f a m n = omega int_laws
got_lem true true e f a m n = cc
got_lem false c e f a m n = cc

apart : (a b : ℕ) → a ≢ b → (a == b) ≡ false
apart a b h = ground arith

order : (a b : ℕ) → a ≢ b → b ≢ a
order a b h = omega arith

pub router_laws : (now : ℕ) → RouterLaws (host now) router
router_laws now = record {
  swap_pays = λ r pair sell buy amount_in min_out x y amounts distinct e.
      let answer : (amount_in ∷ min_out ∷ [], exchanged sell buy 9 9 amount_in min_out x)
          ≡ (amounts, y) =
        ap (λ (o : Option (List ℤ × Ledger)). unwrap_or o (amounts, y)) e in
      let paid = ap (λ (p : List ℤ × Ledger). p.0) answer in
      let left = ap (λ (p : List ℤ × Ledger). p.1) answer in
      (
        rw (← paid) (omega arith),
        rw (← left) (
            spent_lem (sell == buy) (sell == sell) (apart sell buy distinct) (equal sell) (x sell 9)
              min_out amount_in),
        rw (← left, ← paid)
            (got_lem (buy == buy) (buy == sell) (equal buy)
              (apart buy sell (order sell buy distinct)) (x buy 9) min_out amount_in),
      );
}
