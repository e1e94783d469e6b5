-- ===== src/Examples/SelfExtending.antt =====
-- A contract that keeps its own entries alive: contracts/examples/self-extending/src/lib.rs.
pub mod Kept
pub mod Lasting
use sorocron.Base.{
  ℕ, zero, suc, Bool, true, false, Option, none, some, List, [], ◌∷◌, ◌++◌, ◌-◌, ◌&&◌, ltb, leb,
  if◌then◌else◌, is_some,
}
use sorocron.Base.Lists.{length, contains}
use sorocron.Base.Dict.{Dict, find, put}
use sorocron.Registry.Types.{Address, Symbol, Val}
use sorocron.Soroban.{Host, World, M, ◌>>=◌, ◌>>◌, gets, modify, fail_if, or_trap, require_auth}

-- Thirty days and twenty days of ledgers.
abbrev pub extend_to : ℕ
extend_to = 518400

abbrev pub threshold : ℕ
threshold = 345600

abbrev max_keys : ℕ
max_keys = 50

pub data Error : Type 0 where
  too_many_keys : Error

-- A persistent entry, with the ledgers that it has left to live.
pub record Entry : Type 0 where
  pub value : Val
  pub ttl : ℕ

pub record SelfExtending : Type 0 where
  pub admin : Address
  pub instance_ttl : ℕ
  pub index : List Symbol
  pub entries : Dict Entry

-- Time passes between calls: an entry that has no ledgers left is archived.
unfoldable pub age : ℕ → Dict Entry → Dict Entry
age n [] = []
age n (e ∷ d) = (e.0, record (e.1) { ttl = e.1.ttl - n }) ∷ age n d

abbrev pub pass_ledgers : ℕ → SelfExtending → SelfExtending
pass_ledgers n s = record s { instance_ttl = s.instance_ttl - n; entries = age n s.entries }

abbrev pub is_live : Option Entry → Bool
is_live none = true
is_live (some e) = ltb 0 e.ttl

abbrev pub all_live : List Symbol → Dict Entry → Bool
all_live [] entries = true
all_live (key ∷ keys) entries = is_live (find key entries) && all_live keys entries

-- The host's `extend_ttl`: the ledgers left of an entry, the threshold and the ledgers wanted. A new
-- entry starts with `fresh` of them.
module _ (extended : ℕ → ℕ → ℕ → ℕ) (fresh : ℕ) where
  unfoldable pub constructor : Address → SelfExtending
  constructor admin = record { admin = admin; instance_ttl = fresh; index = []; entries = [] }

  abbrev pub bumped : Entry → Entry
  bumped e = record e { ttl = extended e.ttl threshold extend_to }

  -- `set` keeps the ledgers that an existing entry has left.
  abbrev pub written : Val → Option Entry → Entry
  written value none = record { value = value; ttl = fresh }
  written value (some e) = record e { value = value }

  abbrev pub indexed : Symbol → List Symbol → List Symbol
  indexed key index = if contains index key then index else index ++ (key ∷ [])

  -- The index is full and has not the key.
  abbrev pub is_full : Symbol → List Symbol → Bool
  is_full key index = if contains index key then false else leb max_keys (length index)

  module _ {X : Type 0} (host : Host X) where
    unfoldable pub store : Symbol → Val → M Error (World SelfExtending X) (Unit {0})
    store key value = do
      s ← gets (λ s. s)
      or_trap (if ltb 0 s.instance_ttl then some tt else none)
      require_auth host s.admin
      fail_if (is_full key s.index) too_many_keys
      or_trap (if is_live (find key s.entries) then some tt else none)
      modify (λ s. record s {
        index = indexed key s.index;
        entries = put key (bumped (written value (find key s.entries))) s.entries;
      })

  abbrev pub extend_entry : Symbol → Option Entry → Dict Entry → Dict Entry
  extend_entry key none entries = entries
  extend_entry key (some e) entries = put key (bumped e) entries

  unfoldable pub extend_each : List Symbol → Dict Entry → Dict Entry
  extend_each [] entries = entries
  extend_each (key ∷ keys) entries = extend_each keys (extend_entry key (find key entries) entries)

  -- The host panics at an archived instance or entry, `none`, and undoes the rest of the call, so it is
  -- asked before the loop: extending one entry archives none.
  unfoldable pub extend_ttl : SelfExtending → Option (ℕ × SelfExtending)
  unfolding extend_each
  extend_ttl s =
      if ltb 0 s.instance_ttl && all_live s.index s.entries
      then some (
        length s.index,
        record s {
          instance_ttl = extended s.instance_ttl threshold extend_to;
          entries = extend_each s.index s.entries;
        },
      )
      else none
