-- ===== src/Reducer/Pool.antt =====
-- The pool's receipts in packages/indexer/src/reducer.ts: swaps and liquidity.
-- What the constant-product pool should pay for an input; an empty pool divides by zero.
use cedra_reflect.Base.{
  Bool, Option, false, if◌then◌else◌, not, some, string_eq, true, xor, ◌&&◌, ◌==◌, ◌>>=◌, ◌||◌,
}
use cedra_reflect.Int.{div, leb_ℤ, ltb_ℤ, neg, pos, ℤ, ℤ_eq, ◌*ℤ◌, ◌+ℤ◌, ◌-ℤ◌}
use cedra_reflect.Reducer.Core.{bps_denominator, debit_seller, is_sell, per_bps}
use cedra_reflect.Reducer.Group.{Group}
use cedra_reflect.Reducer.Lifecycle.{in_lifecycle, is_v02}
use cedra_reflect.Reducer.Monad.{Action, check, check_checked, modify, skip, update, ◌▹◌}
use cedra_reflect.Reducer.Wallet.{adjust_wallet_asset}
use cedra_reflect.Types.Common.{Address, AlertCode, Asset, EventBase, ProtocolLifecycle}
use cedra_reflect.Types.Core.{SwapExecutedEvent}
use cedra_reflect.Types.Lp.{LiquidityEvent, LiquidityKind}
use cedra_reflect.Types.State.{ProtocolProjection}

unfoldable pub gross_output : ℤ → ℤ → ℤ → Option ℤ
gross_output reserve_in reserve_out invariant_input =
    div (reserve_out *ℤ invariant_input) (reserve_in +ℤ invariant_input)

unfoldable pub disagrees_with_swap : SwapExecutedEvent → ProtocolProjection → Option Bool
unfolding gross_output
disagrees_with_swap e p =
    let sells = is_sell e.direction in
    let expected_reflection_fee =
      per_bps ((if sells then e.gross_amount else e.gross_pool_output) *ℤ p.fee_bps) in
    let expected_reserve_input =
      if sells then e.gross_amount -ℤ e.reflection_fee else e.gross_amount in
    let amm_gross_input = if sells then e.net_reserve_input else e.gross_amount in
    let invariant_input = per_bps (amm_gross_input *ℤ (bps_denominator -ℤ p.pool.amm_fee_bps)) in
    let expected_amm_fee = amm_gross_input -ℤ invariant_input in
    let reserve_in = if sells then p.pool.trfl_reserve else p.pool.tusd_reserve in
    let reserve_out = if sells then p.pool.tusd_reserve else p.pool.trfl_reserve in
    gross_output reserve_in reserve_out invariant_input >>= λ expected. some (
      not (e.reflection_fee == expected_reflection_fee)
      || not (e.net_reserve_input == expected_reserve_input)
      || not (e.amm_fee == expected_amm_fee)
      || not (e.gross_pool_output == expected)
      || not
          (e.net_user_receipt == (if sells then expected else expected -ℤ expected_reflection_fee)))

unfoldable pub moves_reserves_wrongly : SwapExecutedEvent → ProtocolProjection → Bool
moves_reserves_wrongly e p =
    let sells = is_sell e.direction in
    not (
      e.trfl_reserve_after == (
        if sells
        then p.pool.trfl_reserve +ℤ e.net_reserve_input
        else p.pool.trfl_reserve -ℤ e.gross_pool_output))
    || not (
        e.tusd_reserve_after == (
          if sells
          then p.pool.tusd_reserve -ℤ e.gross_pool_output
          else p.pool.tusd_reserve +ℤ e.net_reserve_input))

-- The trader's balances, once a seller's tRFL has left.
unfoldable pub settle_trader : SwapExecutedEvent → Action
unfolding adjust_wallet_asset
settle_trader e =
    if is_sell e.direction
    then update (adjust_wallet_asset e.account Asset.tusd e.net_user_receipt)
    else update (adjust_wallet_asset e.account Asset.tusd (neg e.gross_amount))
      ▹ update (adjust_wallet_asset e.account Asset.trfl e.net_user_receipt)

abbrev pub set_reserves : ℤ → ℤ → ProtocolProjection → ProtocolProjection
set_reserves trfl_after tusd_after p = record p {
  pool = record (p.pool) { trfl_reserve = trfl_after; tusd_reserve = tusd_after };
}

unfoldable pub on_swap_executed : EventBase → SwapExecutedEvent → Action
unfolding debit_seller settle_trader disagrees_with_swap moves_reserves_wrongly
on_swap_executed b e =
    debit_seller (some (record { base = b; body = e }))
    ▹ settle_trader e
    ▹ check_checked (disagrees_with_swap e) b AlertCode.fee_formula
    ▹ check (moves_reserves_wrongly e) b AlertCode.pool_reserves
    ▹ modify (set_reserves e.trfl_reserve_after e.tusd_reserve_after)

abbrev pub is_seeded : LiquidityKind → Bool
is_seeded LiquidityKind.seeded = true
is_seeded _ = false

abbrev pub is_removed : LiquidityKind → Bool
is_removed (LiquidityKind.removed _) = true
is_removed _ = false

abbrev pub is_final : LiquidityKind → Bool
is_final (LiquidityKind.removed final_exit) = final_exit
is_final _ = false

abbrev pub has_invalid_amounts : Group → LiquidityEvent → Bool
has_invalid_amounts g e =
    let no_trfl = e.trfl_amount == pos 0 in
    let no_tusd = e.tusd_amount == pos 0 in
    leb_ℤ e.lp_shares (pos 0)
    || ltb_ℤ e.trfl_amount (pos 0)
    || ltb_ℤ e.tusd_amount (pos 0)
    || (no_trfl && no_tusd)
    || (not (is_removed e.kind) && (no_trfl || no_tusd))
    || (is_removed e.kind && xor no_trfl no_tusd && not g.prior.pool.shutdown_mode)

abbrev pub signed_by : LiquidityKind → ℤ → ℤ
signed_by kind amount = if is_removed kind then neg amount else amount

abbrev pub credit_if_positive : Address → Asset → ℤ → Action
credit_if_positive account asset amount =
    if ltb_ℤ (pos 0) amount then update (adjust_wallet_asset account asset amount) else skip

-- The provider's wallet: a seed comes from the launch and moves none.
unfoldable pub settle_provider : LiquidityKind → LiquidityEvent → Action
unfolding adjust_wallet_asset
settle_provider LiquidityKind.seeded e = skip
settle_provider LiquidityKind.added e =
    update (adjust_wallet_asset e.provider Asset.trfl (neg e.trfl_amount))
    ▹ update (adjust_wallet_asset e.provider Asset.tusd (neg e.tusd_amount))
settle_provider (LiquidityKind.removed final_exit) e =
    credit_if_positive e.provider Asset.trfl e.trfl_amount
    ▹ credit_if_positive e.provider Asset.tusd e.tusd_amount

abbrev pub take_reserves : LiquidityEvent → ProtocolProjection → ProtocolProjection
take_reserves e p = record p {
  pool = record (p.pool) {
    trfl_reserve = e.trfl_reserve_after;
    tusd_reserve = e.tusd_reserve_after;
    seeded = is_seeded e.kind || (not (is_final e.kind) && p.pool.seeded);
    shutdown_mode = not (is_final e.kind) && p.pool.shutdown_mode;
  };
}

unfoldable pub on_liquidity : Group → EventBase → LiquidityEvent → Action
unfolding settle_provider
on_liquidity g b e =
    check
      (λ p.
        is_v02 p
        && is_seeded e.kind
        && (not (e.epoch == pos 1) || not (in_lifecycle ProtocolLifecycle.live p) || p.pool.seeded))
      b AlertCode.event_data
    ▹ check (λ _. has_invalid_amounts g e) b AlertCode.event_data
    ▹ check
        (λ p.
          not (e.trfl_reserve_after == p.pool.trfl_reserve +ℤ signed_by e.kind e.trfl_amount)
          || not (e.tusd_reserve_after == p.pool.tusd_reserve +ℤ signed_by e.kind e.tusd_amount))
        b AlertCode.pool_reserves
    ▹ settle_provider e.kind e
    ▹ modify (take_reserves e)
