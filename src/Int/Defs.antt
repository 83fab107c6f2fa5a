-- ===== src/Int/Defs.antt =====
-- The integers and their operations. `negsuc n` is -(n + 1).
use cedra_reflect.Base.{
  ℕ, suc, ◌+◌, ◌-◌, ◌*◌, ◌/◌, ◌%◌, ◌≤◌, ◌<◌, ◌≡◌, ◌↔◌, Bool, true, Option, none, some, arith, ltb,
  leb, nat_beq, if◌then◌else◌, Equality,
}

pub data ℤ : Type 0 where
  pos : ℕ → ℤ
  negsuc : ℕ → ℤ

abbrev pub pos_part : ℤ → ℕ
pos_part (pos n) = n
pos_part (negsuc n) = 0

abbrev pub neg_part : ℤ → ℕ
neg_part (pos n) = 0
neg_part (negsuc n) = suc n

-- a - b, as an integer.
abbrev pub sub_ℕ : ℕ → ℕ → ℤ
sub_ℕ a b = if leb b a then pos (a - b) else negsuc (b - a - 1)

infixl 65 ◌+ℤ◌ ◌-ℤ◌
infixl 70 ◌*ℤ◌
infix 50 ◌≤ℤ◌ ◌<ℤ◌
unfoldable pub ◌+ℤ◌ : ℤ → ℤ → ℤ
a +ℤ b = sub_ℕ (pos_part a + pos_part b) (neg_part a + neg_part b)

unfoldable pub ◌-ℤ◌ : ℤ → ℤ → ℤ
a -ℤ b = sub_ℕ (pos_part a + neg_part b) (neg_part a + pos_part b)

unfoldable pub ◌*ℤ◌ : ℤ → ℤ → ℤ
a *ℤ b =
    sub_ℕ (pos_part a * pos_part b + neg_part a * neg_part b)
      (pos_part a * neg_part b + neg_part a * pos_part b)

unfoldable pub neg : ℤ → ℤ
neg a = sub_ℕ (neg_part a) (pos_part a)

abbrev pub ◌≤ℤ◌ : ℤ → ℤ → Type 0
a ≤ℤ b = pos_part a + neg_part b ≤ pos_part b + neg_part a

abbrev pub ◌<ℤ◌ : ℤ → ℤ → Type 0
a <ℤ b = pos_part a + neg_part b < pos_part b + neg_part a

abbrev pub ltb_ℤ : ℤ → ℤ → Bool
ltb_ℤ a b = ltb (pos_part a + neg_part b) (pos_part b + neg_part a)

abbrev pub leb_ℤ : ℤ → ℤ → Bool
leb_ℤ a b = leb (pos_part a + neg_part b) (pos_part b + neg_part a)

abbrev pub ℤ_beq : ℤ → ℤ → Bool
ℤ_beq a b = nat_beq (pos_part a + neg_part b) (pos_part b + neg_part a)

pub ℤ_beq_iff : (a b : ℤ) → (ℤ_beq a b ≡ true) ↔ (a ≡ b)
ℤ_beq_iff a b = ground arith

instance abbrev pub ℤ_eq : Equality ℤ
ℤ_eq = record { beq = ℤ_beq; beq_iff = ℤ_beq_iff }

-- `a / b`: the quotient is rounded towards zero, and a division by zero throws.
unfoldable pub div : ℤ → ℤ → Option ℤ
div (pos a) (pos b) = if nat_beq b 0 then none else some (pos (a / b))
div (pos a) (negsuc b) = some (sub_ℕ 0 (a / suc b))
div (negsuc a) (pos b) = if nat_beq b 0 then none else some (sub_ℕ 0 (suc a / b))
div (negsuc a) (negsuc b) = some (pos (suc a / suc b))

-- `a % b` has the sign of `a`.
unfoldable pub mod_by : ℤ → ℤ → Option ℤ
mod_by (pos a) (pos b) = if nat_beq b 0 then none else some (pos (a % b))
mod_by (pos a) (negsuc b) = some (pos (a % suc b))
mod_by (negsuc a) (pos b) = if nat_beq b 0 then none else some (sub_ℕ 0 (suc a % b))
mod_by (negsuc a) (negsuc b) = some (sub_ℕ 0 (suc a % suc b))
