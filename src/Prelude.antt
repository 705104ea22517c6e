-- ===== src/Prelude.antt =====
-- The names that the other modules share: the libraries', passed on, and those of the children.
mod Tests
mod Lists
mod Text
mod Prefixes
pub use Tests.*
pub use Prefixes.{zip_ids_agree, is_prefix-parts, is_prefix_of_parts}
unfoldable pub use Prefixes.{is_prefix}
pub use Lists.*
pub use Text.{Bytes, Str, codes, str_beq_iff, str_eq, contains-sort}
unfoldable pub use Text.{str_beq, str_le, insert_sorted, sort}
unfoldable pub use Tests.{contains, remove_all}
pub use Prim.Native.Nat.{ℕ, zero, suc, ◌+◌, ◌-◌, ◌*◌, ◌/◌, ◌%◌, ◌^◌, ◌≤◌, ◌<◌}
pub use Prim.Native.String.{String}
pub use mathlib.Core.Path.{◌≡◌, refl, sym, ap, ap₂, ◌∙◌, subst, subst₂, fun_ext}
pub use mathlib.Core.Logic.{◌≢◌, ◌↔◌, ◌⊎◌, inl, inr}
pub use mathlib.Core.Bool.{Bool, true, false, ◌&&◌, ◌||◌, not}
pub use mathlib.Core.Option.{Option, none, some}
pub use mathlib.Core.List.{List, [], ◌∷◌, ◌++◌, map}
pub use native.Mathlib.Omega.{arith}
