-- ===== src/Prelude.antt =====
-- The names that the other modules share: those of the libraries, passed on, and the helpers of the
-- child modules.
mod Tests
mod Lists
mod Tables
mod Pages
mod Maps
mod Bytes
pub use Tests.*
pub use Lists.*
unfoldable pub use Tables.{select, find?, any, update_where}
pub use Tables.{find?-sound, find?-update_where, All-select, All-find?, All-update_where}
unfoldable pub use Pages.{insert_desc, sort_desc, page}
pub use Pages.{
  In, any-In, In-any, Descending, length-page_le, page-Descending, page_sound, page-In,
  page_complete,
}
unfoldable pub use Maps.{entry, erase, assign}
pub use Maps.{
  Slices, text_eq_refl, text_eq_sound, entry-erase, entry-erase_other, entry-assign,
  entry-assign_other,
}
unfoldable pub use Bytes.{split_in_two, before_byte, contains_byte}
pub use Bytes.{
  codes, drop, take-append_of, drop-append_of, drop-append_more, take-append, drop-append,
  take-append-drop, drop-add, length-drop, length-take, has_prefix, has_prefix_sound,
  has_prefix-append, split_in_two_sound,
}
pub use Prim.Native.Nat.{ℕ, zero, suc, ◌+◌, ◌-◌, ◌*◌, ◌/◌, ◌%◌, ◌^◌, ◌≤◌, ◌<◌, max}
pub use Prim.Native.String.{String}
pub use mathlib.Core.Path.{◌≡◌, refl, sym, ap, subst, ◌∙◌}
pub use mathlib.Core.Logic.{◌≢◌, ◌↔◌, ◌⊎◌, inl, inr}
pub use mathlib.Core.Bool.{Bool, true, false, not, ◌&&◌, ◌||◌}
pub use mathlib.Core.Option.{Option, none, some}
pub use mathlib.Core.List.{List, [], ◌∷◌, ◌++◌, map}
pub use native.Mathlib.Omega.{arith}
