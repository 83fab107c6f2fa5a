-- ===== src/Agreement/Wallets.antt =====
-- On the wallets of `reconcile` in packages/indexer/src/reconciler.ts.
use cedra_reflect.Base.{
  Option, [], append-eq-nil, bool_eq, none, not, option_eq, or_false, refl, some, string_eq, sym,
  ◌==◌, ◌||◌, ◌∙◌, ◌∷◌, ◌≡◌,
}
use cedra_reflect.Int.{ℤ_eq}
use cedra_reflect.Agreement.Entries.{Agree, NoneDiffers, NoneDiffers-Agree, left_over}
use cedra_reflect.Agreement.Passes.{eq_of_pass, eqs_of_pass, raise-eq-nil}
use cedra_reflect.Dict.{Dict, delete, lookup, map_from}
use cedra_reflect.Reconciler.Reconcile.{
  check_rest, check_wallets, compare_positions, differs_position,
}
use cedra_reflect.Reconciler.Site.{Site, raise}
use cedra_reflect.Types.Common.{Address, AlertCode, lifecycle_eq, status_eq, wallet_scope}
use cedra_reflect.Types.Observed.{ObservedAccountingSnapshot, ObservedPosition}
use cedra_reflect.Types.State.{IndexedPosition, ProtocolProjection}

compare_positions-NoneDiffers :
    (s : Site) (d : Dict Address IndexedPosition) (rest : Dict Address ObservedPosition)
    → (compare_positions s d rest).0 ≡ []
    → NoneDiffers differs_position d rest
unfolding compare_positions
compare_positions-NoneDiffers s [] rest h = tt
compare_positions-NoneDiffers s ((account, q) ∷ d) rest h =
    let (here, more) =
      append-eq-nil
        (raise s (differs_position q (lookup account rest)) AlertCode.position_accounting
          (wallet_scope account))
        _ h in
    (
      raise-eq-nil s (differs_position q (lookup account rest)) AlertCode.position_accounting
          (wallet_scope account) here,
      compare_positions-NoneDiffers s d (delete account rest) more,
    )

compare_positions-left_over :
    (s : Site) (d : Dict Address IndexedPosition) (rest : Dict Address ObservedPosition)
    → (compare_positions s d rest).1 ≡ left_over d rest
unfolding compare_positions
compare_positions-left_over s [] rest = refl
compare_positions-left_over s ((account, q) ∷ d) rest =
    compare_positions-left_over s d (delete account rest)

check_rest-eq-nil : (s : Site) (d : Dict Address ObservedPosition) → check_rest s d ≡ [] → d ≡ []
unfolding check_rest
check_rest-eq-nil s [] h = refl
check_rest-eq-nil s ((account, o) ∷ d) h = cc

-- The chain shows a wallet as replay has it: both know it, with the same shares, correction and
-- claims, or neither does.
abbrev pub ShowsWallet : Option IndexedPosition → Option ObservedPosition → Type 0
ShowsWallet none none = Unit
ShowsWallet (some q) (some o) =
    (o.raw_trfl ≡ q.raw_trfl) × (o.correction ≡ q.correction) × (o.claimed ≡ q.claimed)
ShowsWallet _ _ = ⊥

Agree-ShowsWallet :
    (q : Option IndexedPosition) (o : Option ObservedPosition)
    → Agree differs_position q o
    → ShowsWallet q o
Agree-ShowsWallet none none h = tt
Agree-ShowsWallet none (some o) h = cc
Agree-ShowsWallet (some q) none h = cc
Agree-ShowsWallet (some q) (some o) h =
    let (ab, c) =
      or_false (not (o.raw_trfl == q.raw_trfl) || not (o.correction == q.correction)) _ h in
    let (a, b) = eqs_of_pass o.raw_trfl q.raw_trfl o.correction q.correction ab in
    (a, b, eq_of_pass o.claimed q.claimed c)

-- The observed positions by their accounts.
abbrev pub observed_wallets : ObservedAccountingSnapshot → Dict Address ObservedPosition
observed_wallets o = map_from (λ q. q.account) [] o.positions

pub check_wallets-ShowsWallet :
    (s : Site) (p : ProtocolProjection) (o : ObservedAccountingSnapshot)
    → check_wallets s p o ≡ []
    → (j : Address) → ShowsWallet (lookup j p.positions) (lookup j (observed_wallets o))
unfolding check_wallets
check_wallets-ShowsWallet s p o h j =
    let (front, rest) = append-eq-nil _ (check_rest s _) h in
    let (_, found) =
      append-eq-nil _ (compare_positions s p.positions (observed_wallets o)).0 front in
    Agree-ShowsWallet (lookup j p.positions) (lookup j (observed_wallets o)) (
      NoneDiffers-Agree differs_position p.positions (observed_wallets o)
        (compare_positions-NoneDiffers s p.positions (observed_wallets o) found)
        (sym (compare_positions-left_over s p.positions (observed_wallets o))
          ∙ check_rest-eq-nil s _ rest)
        j)
