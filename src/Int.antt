-- ===== src/Int.antt =====
-- JavaScript's `bigint`: signed integers over the native numbers, with the truncating division.
mod Defs
mod Laws
pub use Laws.*
pub use Defs.{ℤ, pos, negsuc}
unfoldable pub use Defs.{
  pos_part, neg_part, sub_ℕ, ◌+ℤ◌, ◌-ℤ◌, ◌*ℤ◌, neg, ◌≤ℤ◌, ◌<ℤ◌, ltb_ℤ, leb_ℤ, ℤ_beq, ℤ_eq, div,
  mod_by,
}
