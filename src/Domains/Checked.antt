-- ===== src/Domains/Checked.antt =====
-- Checked arithmetic of packages/indexer/src/move-domains.ts. A throw is `none`; the label that
-- only names the field in the thrown message is left out.
use cedra_reflect.Base.{Bool, Option, if◌then◌else◌, none, require, some, true, ℕ, ◌&&◌, ◌-◌, ◌^◌}
use cedra_reflect.Int.{leb_ℤ, ltb_ℤ, neg, pos, ℤ, ◌*ℤ◌, ◌+ℤ◌, ◌-ℤ◌}

-- `isMoveUnsigned`
unfoldable pub fits : ℕ → ℤ → Bool
fits bits v = leb_ℤ (pos 0) v && leb_ℤ v (pos (2 ^ bits - 1))

unfoldable pub fits_signed : ℤ → Bool
fits_signed v = leb_ℤ (neg (pos (2 ^ 256 - 1))) v && leb_ℤ v (pos (2 ^ 256 - 1))

unfoldable pub fits_nullable : ℕ → Option ℤ → Bool
unfolding fits
fits_nullable bits none = true
fits_nullable bits (some v) = fits bits v

abbrev pub max_safe_integer : ℤ
max_safe_integer = pos 9_007_199_254_740_991

unfoldable pub checked_add : ℤ → ℤ → Option ℤ
checked_add a b = require (fits 256 a && fits 256 b && fits 256 (a +ℤ b)) (a +ℤ b)

unfoldable pub checked_subtract : ℤ → ℤ → Option ℤ
checked_subtract a b = require (fits 256 a && fits 256 b && leb_ℤ b a) (a -ℤ b)

unfoldable pub checked_multiply : ℤ → ℤ → Option ℤ
checked_multiply a b = require (fits 256 a && fits 256 b && fits 256 (a *ℤ b)) (a *ℤ b)

unfoldable pub apply_signed : ℤ → ℤ → Option ℤ
apply_signed base correction =
    if fits 256 base && fits_signed correction
    then (if ltb_ℤ correction (pos 0)
        then checked_subtract base (neg correction)
        else checked_add base correction)
    else none

unfoldable pub signed_add_unsigned : ℤ → ℤ → Option ℤ
signed_add_unsigned v n = require (fits_signed v && fits 256 n && fits_signed (v +ℤ n)) (v +ℤ n)

unfoldable pub signed_subtract_unsigned : ℤ → ℤ → Option ℤ
signed_subtract_unsigned v n =
    require (fits_signed v && fits 256 n && fits_signed (v -ℤ n)) (v -ℤ n)

unfoldable pub signed_add : ℤ → ℤ → Option ℤ
signed_add a b = require (fits_signed a && fits_signed b && fits_signed (a +ℤ b)) (a +ℤ b)
