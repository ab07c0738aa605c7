-- ===== src/Prelude.antt =====
-- The names that the other modules share: the libraries', passed on, and those of the children.
mod Tests
mod Lists
mod Texts
mod Maps
mod Int
pub mod Floats
pub mod Sorting
pub use Tests.*
pub use Lists.*
unfoldable pub use Texts.{bytes, same, or_default}
pub use Texts.{Text, same_iff, same_refl, text_eq}
unfoldable pub use Maps.{lookup, insert, delete, lookup_or}
pub use Maps.{
  Map, lookup-insert, lookup-insert_self, lookup-insert_ne, lookup-delete, lookup-delete_self,
  map_laws,
}
unfoldable pub use Int.{int_beq, int_ltb, int_add, wrap64}
pub use Int.{int_add-pos, ℤ, pos, negsuc, int_eq, int_beq_iff, pos_part}
pub use Floats.{Float}
pub use Prim.Native.Nat.{ℕ, zero, suc, ◌+◌, ◌-◌, ◌*◌, ◌/◌, ◌%◌, ◌^◌, ◌≤◌, ◌<◌, min}
pub use Prim.Native.String.{String}
pub use mathlib.Core.Path.{◌≡◌, refl, sym, ap, subst, ◌∙◌}
pub use mathlib.Core.Logic.{◌≢◌, ◌↔◌, ◌⊎◌, inl, inr}
pub use mathlib.Core.Bool.{Bool, true, false, not, ◌&&◌, ◌||◌, false≢true}
pub use mathlib.Core.Option.{Option, none, some}
pub use mathlib.Core.List.{List, [], ◌∷◌, ◌++◌, map, append-nil, append_assoc}
pub use native.Mathlib.Omega.{arith}
