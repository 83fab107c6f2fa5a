-- ===== src/Domains/Laws.antt =====
-- What a checked operation of move-domains.ts returns when it does not throw.
use cedra_reflect.Base.{arith, require-eq-some, some, true, ℕ, ◌&&◌, ◌≡◌}
use cedra_reflect.Int.{
  +ℤ_parts, -ℤ_parts, eq_of_parts, leb_ℤ, neg, neg_parts, pos, ℤ, ◌*ℤ◌, ◌+ℤ◌, ◌-ℤ◌, ◌≤ℤ◌,
}
use cedra_reflect.Domains.Checked.{
  apply_signed, checked_add, checked_multiply, checked_subtract, fits, signed_add,
  signed_add_unsigned, signed_subtract_unsigned,
}

pub fits-nonneg : (bits : ℕ) (v : ℤ) → fits bits v ≡ true → pos 0 ≤ℤ v
unfolding fits
fits-nonneg bits v h = ground arith

pub checked_add-eq-some : (a b : ℤ) {c : ℤ} → checked_add a b ≡ some c → c ≡ a +ℤ b
unfolding checked_add
checked_add-eq-some a b h = sym_path (require-eq-some _ (a +ℤ b) h).1
  where
    sym_path : {x y : ℤ} → x ≡ y → y ≡ x
    sym_path p = cc

pub checked_add_nonneg : (a b : ℤ) {c : ℤ} → checked_add a b ≡ some c → pos 0 ≤ℤ c
unfolding checked_add
checked_add_nonneg a b h = ground (
  arith,
  require-eq-some (fits 256 a && fits 256 b && fits 256 (a +ℤ b)) (a +ℤ b) h,
  fits-nonneg 256 (a +ℤ b),
)

pub checked_subtract-eq-some :
    (a b : ℤ) {c : ℤ} → checked_subtract a b ≡ some c → (c ≡ a -ℤ b) × (b ≤ℤ a) × (pos 0 ≤ℤ b)
unfolding checked_subtract
checked_subtract-eq-some a b {c} h =
    ground
      (arith, require-eq-some (fits 256 a && fits 256 b && leb_ℤ b a) (a -ℤ b) h, fits-nonneg 256 b)

pub checked_multiply-eq-some :
    (a b : ℤ) {c : ℤ} → checked_multiply a b ≡ some c → (c ≡ a *ℤ b) × (pos 0 ≤ℤ c)
unfolding checked_multiply
checked_multiply-eq-some a b h = ground (
  arith,
  require-eq-some (fits 256 a && fits 256 b && fits 256 (a *ℤ b)) (a *ℤ b) h,
  fits-nonneg 256 (a *ℤ b),
)

pub signed_add_unsigned-eq-some : (v n : ℤ) {c : ℤ} → signed_add_unsigned v n ≡ some c → c ≡ v +ℤ n
unfolding signed_add_unsigned
signed_add_unsigned-eq-some v n h = ground (arith, require-eq-some _ (v +ℤ n) h)

pub signed_subtract_unsigned-eq-some :
    (v n : ℤ) {c : ℤ} → signed_subtract_unsigned v n ≡ some c → c ≡ v -ℤ n
unfolding signed_subtract_unsigned
signed_subtract_unsigned-eq-some v n h = ground (arith, require-eq-some _ (v -ℤ n) h)

pub signed_add-eq-some : (a b : ℤ) {c : ℤ} → signed_add a b ≡ some c → c ≡ a +ℤ b
unfolding signed_add
signed_add-eq-some a b h = ground (arith, require-eq-some _ (a +ℤ b) h)

-- A correction is added, whatever its sign, and the result is not negative.
pub apply_signed-eq-some :
    (base correction : ℤ) {c : ℤ}
    → apply_signed base correction ≡ some c
    → (c ≡ base +ℤ correction) × (pos 0 ≤ℤ c)
unfolding apply_signed
apply_signed-eq-some base correction {c} h = ground (
  arith,
  checked_subtract-eq-some base (neg correction) {c = c},
  checked_add-eq-some base correction {c = c},
  checked_add_nonneg base correction {c = c},
  -ℤ_parts base (neg correction),
  +ℤ_parts base correction,
  neg_parts correction,
  eq_of_parts (base -ℤ neg correction) (base +ℤ correction),
)
