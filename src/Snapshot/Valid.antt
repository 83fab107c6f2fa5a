-- ===== src/Snapshot/Valid.antt =====
-- The tests of packages/indexer/src/snapshot.ts on a plain projection. What `typeof` tests there is
-- said by the types here.
use cedra_reflect.Base.{
  Bool, List, Option, String, [], bool_eq, every, false, has_unique, leb, map, nat_beq, none, not,
  option_eq, some, string_eq, true, ◌&&◌, ◌==◌, ◌||◌, ◌∷◌,
}
use cedra_reflect.Int.{ltb_ℤ, pos, ℤ, ℤ_eq}
use cedra_reflect.Dict.{Dict, all_entries}
use cedra_reflect.Domains.Checked.{fits, fits_signed}
use cedra_reflect.Domains.Event.{is_identifier, utf16_length}
use cedra_reflect.Domains.Projection.{fits_cursor, fits_lp_position, fits_position}
use cedra_reflect.Snapshot.Serial.{SerializableLpEpoch, values}
use cedra_reflect.Types.Common.{Address, EventCursor, LpEpochStatus, lifecycle_eq, status_eq}
use cedra_reflect.Types.State.{IndexedLpPosition, IndexedPosition}
use Prim.Native.Char.{Char, code}

abbrev pub is_hex_digit : Char → Bool
is_hex_digit c = leb b'0' (code c) && leb (code c) b'9' || leb b'a' (code c) && leb (code c) b'f'

abbrev is_hex : String → Bool
is_hex String.[] = true
is_hex (String.◌∷◌ c s) = is_hex_digit c && is_hex s

abbrev is_canonical_hex : String → Bool
is_canonical_hex String.[] = false
is_canonical_hex (String.◌∷◌ c String.[]) = is_hex_digit c
is_canonical_hex (String.◌∷◌ c s) =
    not (nat_beq (code c) b'0') && is_hex_digit c && is_hex s && leb (utf16_length s) 63

-- `/^0x(?:0|[1-9a-f][0-9a-f]{0,63})$/`
unfoldable pub is_address : String → Bool
is_address (String.◌∷◌ a (String.◌∷◌ b s)) =
    nat_beq (code a) b'0' && nat_beq (code b) b'x' && is_canonical_hex s
is_address _ = false

unfoldable pub is_optional_address : Option Address → Bool
unfolding is_address
is_optional_address none = true
is_optional_address (some a) = is_address a

unfoldable pub is_cursor : Option EventCursor → Bool
unfolding fits_cursor
is_cursor none = true
is_cursor (some c) = fits_cursor c

unfoldable pub is_wallet_position : IndexedPosition → Bool
unfolding is_address fits_position
is_wallet_position q = is_address q.account && fits_position q

unfoldable pub is_lp_position : IndexedLpPosition → Bool
unfolding is_address fits_lp_position
is_lp_position q = is_address q.owner && fits_lp_position q

-- `active` and `claim-only` epochs without and with their dust.
abbrev has_terminal_form : LpEpochStatus → Option ℤ → Bool
unfolding fits
has_terminal_form LpEpochStatus.active none = true
has_terminal_form LpEpochStatus.claim_only (some dust) = fits 128 dust
has_terminal_form _ _ = false

unfoldable pub is_lp_epoch : SerializableLpEpoch → Bool
unfolding is_address is_lp_position has_terminal_form
is_lp_epoch s =
    let e = s.spread in
    fits 64 e.epoch
    && ltb_ℤ (pos 0) e.epoch
    && is_address e.state_id
    && is_address e.reward_vault
    && fits 256 e.index
    && fits 256 e.index_remainder
    && fits 128 e.total_shares
    && fits_signed e.aggregate_correction
    && fits 128 e.unallocated_rewards
    && fits 128 e.rounding_reserve
    && fits 256 e.retired_residue_magnified
    && has_terminal_form e.status e.terminal_rounding_base_units
    && fits 256 e.lifetime_received
    && fits 256 e.lifetime_claimed
    && every is_lp_position s.positions
    && has_unique (map (λ q. q.owner) s.positions)

abbrev pub keys {ℓ κ} : {K : Type ℓ} {V : Type κ} → Dict K V → List K
keys [] = []
keys ((k, _) ∷ d) = k ∷ keys d

unfoldable pub is_address_epoch_entries : Dict Address ℤ → Bool
unfolding is_address
is_address_epoch_entries d =
    all_entries (λ key epoch. is_address key && fits 64 epoch && not (epoch == pos 0)) d
    && has_unique (keys d)
    && has_unique (values d)

unfoldable pub is_address_entries : Dict Address Address → Bool
unfolding is_address
is_address_entries d =
    all_entries (λ key store. is_address key && is_address store) d
    && has_unique (keys d)
    && has_unique (values d)

unfoldable pub is_seen_event_entries : Dict String EventCursor → Bool
unfolding fits_cursor
is_seen_event_entries d =
    all_entries (λ key cursor. is_identifier key && fits_cursor cursor) d && has_unique (keys d)
