-- ===== src/Conservation/Custody.antt =====
-- On fees, the global index and canonical custody (packages/indexer/src/reducer.ts).
use cedra_reflect.Base.{
  >>=-eq-some, List, Option, [], eq_of_some, find, if◌then◌else◌, none, not, refl, require,
  require-eq-some, some, subst, true, ◌&&◌, ◌∷◌, ◌≡◌,
}
use cedra_reflect.Int.{int_laws, leb_ℤ, neg, parts_of_eq, pos, ◌+ℤ◌}
use cedra_reflect.Conservation.Rules.{
  Ends-after, Ends-if, Extending, Extends-quiet, Extends-refl, Mild, alert-Extending,
  check-Extending, check_checked-Extending, modify-Extending, throw_if-Extending, unless-Extending,
  update-Extending, ▹-Extending,
}
use cedra_reflect.Conservation.Wallets.{adjust-Extending, shift_correction_parallel}
use cedra_reflect.Domains.Checked.{checked_add, checked_multiply, signed_subtract_unsigned}
use cedra_reflect.Domains.Laws.{signed_subtract_unsigned-eq-some}
use cedra_reflect.Reducer.Core.{
  change_custody_shares, collect_fee, debit_seller, disagrees_with_index, index_fee, is_sell,
  on_custody_adapter_registered, on_custody_epoch_route_opened, on_custody_rewards_routed,
  on_custody_shares_changed, on_reflection_fee_collected, on_reflection_index_advanced,
  on_wallet_transfer, open_route, route_rewards, take_index,
}
use cedra_reflect.Reducer.Group.{Group, Receipt}
use cedra_reflect.Reducer.Monad.{PendingCoreFee, done}
use cedra_reflect.Reducer.Wallet.{shift_correction}
use cedra_reflect.Types.Common.{AlertCode, Asset, EventBase}
use cedra_reflect.Types.Core.{
  CustodyAdapterRegisteredEvent, CustodyEpochRouteOpenedEvent, CustodyRewardsRoutedEvent,
  CustodySharesChangedEvent, ReflectionFeeCollectedEvent, ReflectionIndexAdvancedEvent,
  SwapExecutedEvent,
}
use cedra_reflect.Types.Setup.{WalletTransferEvent}
use cedra_reflect.Types.State.{ProtocolProjection}

change_custody_shares-Mild :
    {H : Type 0} (e : CustodySharesChangedEvent) (p p' : ProtocolProjection)
    → change_custody_shares e p ≡ some p'
    → Mild H p p'
unfolding change_custody_shares
change_custody_shares-Mild {H} e p p' h =
    let delta = if e.added then e.amount else neg e.amount in
    let (shares, e1, h1) =
      >>=-eq-some (require (leb_ℤ (pos 0) (p.custody.shares +ℤ delta)) (p.custody.shares +ℤ delta))
        _ h in
    let (change, e2, h2) = >>=-eq-some (checked_multiply e.amount p.current_index) _ h1 in
    let (correction, e3, h3) =
      >>=-eq-some (shift_correction e.added change p.custody.correction) _ h2 in
    let (aggregate, e4, h4) =
      >>=-eq-some (shift_correction e.added change p.aggregate_correction) _ h3 in
    let moved_shares = (require-eq-some _ (p.custody.shares +ℤ delta) e1).1 in
    let parallel = shift_correction_parallel e.added change _ _ e3 e4 in
    subst (Mild H p) (eq_of_some h4) (
      λ _ k. (
        omega (int_laws, parts_of_eq moved_shares, parts_of_eq k.0),
        omega (int_laws, parts_of_eq parallel, parts_of_eq k.1),
        k.2,
      ),
      refl,
      refl,
    )

open_route-Mild :
    {H : Type 0} (e : CustodyEpochRouteOpenedEvent) (p p' : ProtocolProjection)
    → open_route e p ≡ some p'
    → Mild H p p'
unfolding open_route
open_route-Mild {H} e p p' h =
    let n = e.retired_residue_magnified in
    let (aggregate, e1, h1) = >>=-eq-some (signed_subtract_unsigned p.aggregate_correction n) _ h in
    let (correction, e2, h2) = >>=-eq-some (signed_subtract_unsigned p.custody.correction n) _ h1 in
    let after = signed_subtract_unsigned-eq-some p.aggregate_correction n e1 in
    let kept = signed_subtract_unsigned-eq-some p.custody.correction n e2 in
    subst (Mild H p) (eq_of_some h2) (
      λ _ k. (k.0, omega (int_laws, parts_of_eq after, parts_of_eq kept, parts_of_eq k.1), k.2),
      refl,
      refl,
    )

collect_fee-Mild :
    {H : Type 0} (e : ReflectionFeeCollectedEvent) (p p' : ProtocolProjection)
    → collect_fee e p ≡ some p'
    → Mild H p p'
unfolding collect_fee
collect_fee-Mild {H} e p p' h =
    let (_, _, h1) = >>=-eq-some (checked_add p.reward_vault_credits e.fee_amount) _ h in
    let (_, _, h2) = >>=-eq-some (checked_add p.lifetime_swap_fees e.fee_amount) _ h1 in
    subst (Mild H p) (eq_of_some h2) (λ _ k. k, refl, refl)

route_rewards-Mild :
    {H : Type 0} (e : CustodyRewardsRoutedEvent) (p p' : ProtocolProjection)
    → route_rewards e p ≡ some p'
    → Mild H p p'
unfolding route_rewards
route_rewards-Mild {H} e p p' h =
    let (_, _, h1) = >>=-eq-some (checked_add p.custody.claimed e.amount) _ h in
    let (_, _, h2) = >>=-eq-some (checked_add p.custody.lifetime_routed e.amount) _ h1 in
    let (_, _, h3) = >>=-eq-some (checked_add p.lifetime_custody_routed e.amount) _ h2 in
    let (_, _, h4) = >>=-eq-some (checked_add p.reward_vault_payouts e.amount) _ h3 in
    subst (Mild H p) (eq_of_some h4) (λ _ k. k, refl, refl)

module _ {H : Type 0} where
  pub debit_seller-Extending :
      (s : Option (Receipt SwapExecutedEvent)) → Extending H (debit_seller s)
  unfolding debit_seller
  debit_seller-Extending none = record { apply = λ c. Extends-refl c }
  debit_seller-Extending (some s) =
      let debited =
        ▹-Extending {H = H} {n = λ d. done (record d { sell_wallet_debited = true })}
          (adjust-Extending s.body.account Asset.trfl (neg s.body.gross_amount))
          (record { apply = λ d. Extends-quiet d d.pending_core_fees d.consumed_routes true }) in
      record {
        apply = λ c.
            Ends-if H (is_sell s.body.direction && not c.sell_wallet_debited) c _ (done c)
              (debited.apply c) (Extends-refl c);
      }

  pub on_reflection_fee_collected-Extending :
      (g : Group) (b : EventBase) (e : ReflectionFeeCollectedEvent)
      → Extending H (on_reflection_fee_collected g b e)
  unfolding on_reflection_fee_collected
  on_reflection_fee_collected-Extending g b e =
      ▹-Extending
        (▹-Extending
          (▹-Extending (debit_seller-Extending (find (λ _. true) g.swaps)) (check-Extending _ b _))
          (update-Extending _ (collect_fee-Mild e)))
        (record { apply = λ c. Extends-quiet c _ c.consumed_routes c.sell_wallet_debited })

  index_fee-Extending :
      (b : EventBase) (e : ReflectionIndexAdvancedEvent) (fees : List PendingCoreFee)
      → Extending H (index_fee b e fees)
  index_fee-Extending b e [] = alert-Extending b AlertCode.transaction_group
  index_fee-Extending b e (fee ∷ rest) =
      let inner =
        unless-Extending {H = H} (λ _. leb_ℤ fee.shares_at_collection (pos 0)) b
          AlertCode.global_index
          (▹-Extending
            (check_checked-Extending (disagrees_with_index e fee) b AlertCode.global_index)
            (modify-Extending (take_index e) λ p. (λ _ k. k, refl, refl))) in
      record {
        apply = λ c.
            Ends-after H c (record c { pending_core_fees = rest }) _
              (Extends-quiet c rest c.consumed_routes c.sell_wallet_debited)
              (inner.apply (record c { pending_core_fees = rest }));
      }

  pub on_reflection_index_advanced-Extending :
      (b : EventBase) (e : ReflectionIndexAdvancedEvent)
      → Extending H (on_reflection_index_advanced b e)
  unfolding on_reflection_index_advanced
  on_reflection_index_advanced-Extending b e = record {
    apply = λ c. (index_fee-Extending b e c.pending_core_fees).apply c;
  }

  pub on_wallet_transfer-Extending :
      (g : Group) (b : EventBase) (e : WalletTransferEvent) → Extending H (on_wallet_transfer g b e)
  unfolding on_wallet_transfer
  on_wallet_transfer-Extending g b e =
      ▹-Extending (▹-Extending (throw_if-Extending _) (check-Extending _ b _))
        (check-Extending _ b _)

  pub on_custody_adapter_registered-Extending :
      (b : EventBase) (e : CustodyAdapterRegisteredEvent)
      → Extending H (on_custody_adapter_registered b e)
  unfolding on_custody_adapter_registered
  on_custody_adapter_registered-Extending b e =
      ▹-Extending (check-Extending _ b _) (modify-Extending _ λ p. (λ _ k. k, refl, refl))

  pub on_custody_epoch_route_opened-Extending :
      (b : EventBase) (e : CustodyEpochRouteOpenedEvent)
      → Extending H (on_custody_epoch_route_opened b e)
  unfolding on_custody_epoch_route_opened
  on_custody_epoch_route_opened-Extending b e =
      ▹-Extending
        (▹-Extending (▹-Extending (check_checked-Extending _ b _) (check-Extending _ b _))
          (check_checked-Extending _ b _))
        (update-Extending _ (open_route-Mild e))

  pub on_custody_shares_changed-Extending :
      (b : EventBase) (e : CustodySharesChangedEvent) → Extending H (on_custody_shares_changed b e)
  unfolding on_custody_shares_changed
  on_custody_shares_changed-Extending b e =
      ▹-Extending
        (▹-Extending (throw_if-Extending _) (update-Extending _ (change_custody_shares-Mild e)))
        (check-Extending _ b _)

  pub on_custody_rewards_routed-Extending :
      (b : EventBase) (e : CustodyRewardsRoutedEvent) → Extending H (on_custody_rewards_routed b e)
  unfolding on_custody_rewards_routed
  on_custody_rewards_routed-Extending b e =
      ▹-Extending
        (▹-Extending
          (▹-Extending
            (▹-Extending
              (▹-Extending
                (▹-Extending (▹-Extending (check-Extending _ b _) (check-Extending _ b _))
                  (check-Extending _ b _))
                (check-Extending _ b _))
              (check-Extending _ b _))
            (check_checked-Extending _ b _))
          (check_checked-Extending _ b _))
        (update-Extending _ (route_rewards-Mild e))
