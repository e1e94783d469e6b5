-- ===== src/Base.antt =====
-- Names shared by all modules: the libraries', passed on, and those of the children: Boolean tests
-- (Tests), lists (Lists), signed integers and the machine integers u32, u64 and i128 (Int, Word),
-- and the key-value storage of the contracts (Dict).
pub mod Tests
pub mod Lists
pub mod Int
pub mod Word
pub mod Dict
pub use Tests.*
pub use Prim.Native.Nat.{ℕ, zero, suc, ◌+◌, ◌-◌, ◌*◌, ◌/◌, ◌%◌, ◌^◌, ◌≤◌, ◌<◌, min, max}
pub use mathlib.Core.Path.{◌≡◌, refl, sym, ap, ◌∙◌}
pub use mathlib.Core.Logic.{◌≢◌, ◌↔◌, ◌⊎◌, inl, inr}
pub use mathlib.Core.Bool.{Bool, true, false, not, ◌&&◌, ◌||◌}
pub use mathlib.Core.Option.{Option, none, some}
pub use mathlib.Core.List.{List, [], ◌∷◌, ◌++◌}
pub use native.Mathlib.Omega.{arith}
