-- ===== src/Base.antt =====
-- The names that the other modules share: the libraries', passed on, and those of the children.
mod Tests
mod Lists
pub mod Words
pub mod Bits
mod Failure
pub mod Slots
pub mod Memory
pub use Tests.*
pub use Lists.*
pub use Failure.{
  Panic, zero_capacity, capacity_too_large, message_too_long, slack_too_large, zero_sized,
}
pub use Failure.{Outcome, returns, panics}
unfoldable pub use Words.{word_mod, word_max, wrapping_add, wrapping_sub}
pub use Bits.{IsPow2}
pub use Prim.Native.Nat.{ℕ, zero, suc, ◌+◌, ◌-◌, ◌*◌, ◌/◌, ◌%◌, ◌^◌, ◌≤◌, ◌<◌, ◌∣◌}
pub use Prim.Native.Nat.{min, max, bit_and, bit_or}
pub use mathlib.Core.Path.{◌≡◌, refl, sym, ap, ap₂, subst, ◌∙◌, ◌≡⟨◌⟩◌, ◌∎}
pub use mathlib.Core.Logic.{◌≢◌, ◌↔◌, ◌⊎◌, inl, inr}
pub use mathlib.Core.Bool.{Bool, true, false, not, ◌&&◌, ◌||◌}
pub use mathlib.Core.Option.{Option, none, some}
pub use mathlib.Core.List.{List, [], ◌∷◌, ◌++◌, map, append-nil, append_assoc}
pub use native.Mathlib.Omega.{arith}
