-- ===== src/Agreement/Views.antt =====
-- On `reconcile` of packages/indexer/src/reconciler.ts as a whole.
use cedra_reflect.Base.{
  >>=-eq-some, All, Bool-cases, List, Option, [], ap, append-eq-nil, bool_eq, eq_of_some, includes,
  inl, inr, is_empty, is_value, map, none, not, option_eq, or_false, refl, some, string_eq, subst,
  sym, true, ◌==◌, ◌||◌, ◌∙◌, ◌∷◌, ◌≡◌,
}
use cedra_reflect.Int.{ℤ, ℤ_eq, ◌+ℤ◌}
use cedra_reflect.Accounting.{core_indexed_liability, custody_pending, expected_core_vault_balance}
use cedra_reflect.Agreement.Epochs.{IsReplayed, compare_epochs-IsReplayed}
use cedra_reflect.Agreement.Passes.{eq_of_pass, eqs_of_pass, raise-eq-nil}
use cedra_reflect.Agreement.Wallets.{ShowsWallet, check_wallets-ShowsWallet, observed_wallets}
use cedra_reflect.Dict.{Dict, contains, lookup}
use cedra_reflect.Domains.Checked.{checked_add}
use cedra_reflect.Domains.Laws.{checked_add-eq-some}
use cedra_reflect.Reconciler.Core.{
  check_authority, check_core_vault, check_identity, check_index, check_registered_wallets,
}
use cedra_reflect.Reconciler.Epochs.{compare_epochs}
use cedra_reflect.Reconciler.Pool.{
  check_configuration, check_custody_views, check_limits, check_reserves,
}
use cedra_reflect.Reconciler.Reconcile.{
  Expectation, check_epoch_set, check_missing_epochs, check_wallets, compare_views, expectation,
  is_at, reconcile,
}
use cedra_reflect.Reconciler.Site.{Site, raise}
use cedra_reflect.Reducer.Empty.{cedra_testnet_chain_id}
use cedra_reflect.Screening.{not-eq-false}
use cedra_reflect.Types.Common.{
  Address, AlertCode, CriticalAlert, EventCursor, global_scope, lifecycle_eq, named_scope,
  status_eq,
}
use cedra_reflect.Types.Observed.{ObservedAccountingSnapshot, ReconciliationReport}
use cedra_reflect.Types.State.{IndexedLpEpoch, ProtocolProjection}

-- The chain's views at the cursor's ledger version show the replayed projection.
pub record Matches (p : ProtocolProjection) (o : ObservedAccountingSnapshot)
    (cursor : Option EventCursor) : Type 0 where
  pub pinned : (c : EventCursor) × (cursor ≡ some c) × (o.ledger_version ≡ c.ledger_version)
  pub same_chain : o.chain_id ≡ p.chain_id
  pub same_deployment : o.deployment_id ≡ p.deployment_id
  pub same_index : (o.current_index ≡ p.current_index) × (o.index_remainder ≡ p.index_remainder)
  pub same_supply : o.eligible_supply ≡ p.eligible_supply
  pub owes : core_indexed_liability p ≡ some o.reflection_liability
  pub holds : expected_core_vault_balance p ≡ some o.reward_vault_balance
  pub backed :
      o.reward_vault_balance ≡ o.reflection_liability +ℤ o.unallocated_fees +ℤ o.rounding_reserve
  pub reserve : (o.trfl_reserve ≡ p.custody.shares) × (o.custody_reserve_balance ≡ p.custody.shares)
  pub same_wallets :
      (j : Address) → ShowsWallet (lookup j p.positions) (lookup j (observed_wallets o))
  pub shown_epochs : All (IsReplayed p) o.lp_epochs
  pub all_epochs :
      (id : ℤ)
      → contains id p.lp_epochs ≡ true
      → includes id (map (λ e. e.epoch) o.lp_epochs) ≡ true

check_missing_epochs-includes :
    (s : Site) (observed : List ℤ) (d : Dict ℤ IndexedLpEpoch)
    → check_missing_epochs s observed d ≡ []
    → (id : ℤ) → contains id d ≡ true
    → includes id observed ≡ true
unfolding check_missing_epochs
check_missing_epochs-includes s observed [] h id k = cc
check_missing_epochs-includes s observed ((j, e) ∷ d) h id k =
    let (here, rest) = append-eq-nil _ (check_missing_epochs s observed d) h in
    elim (Bool-cases (j == id)) [
      | inl hit ↦
          subst (λ i. includes i observed ≡ true) ((ℤ_eq.beq_iff j id).0 hit)
            (not-eq-false (includes j observed) (raise-eq-nil s _ _ _ here))
      | inr miss ↦ check_missing_epochs-includes s observed d rest id (rw miss at k)
    ]

check_identity-same :
    (s : Site) (p : ProtocolProjection) (o : ObservedAccountingSnapshot)
    → check_identity s p o ≡ []
    → (o.chain_id ≡ p.chain_id) × (o.deployment_id ≡ p.deployment_id)
unfolding check_identity
check_identity-same s p o h =
    let h5 =
      (or_false _ (not (o.protocol_exclusions_remaining == p.protocol_exclusions_remaining))
        (raise-eq-nil s _ _ _ h)).0 in
    let h4 = (or_false _ (not (is_value p.token_metadata o.token_metadata)) h5).0 in
    let h3 = (or_false _ (not (o.network_label == p.network_label)) h4).0 in
    let (h2, deployment) = or_false _ (not (o.deployment_id == p.deployment_id)) h3 in
    let chain =
      (or_false (not (p.chain_id == cedra_testnet_chain_id)) (not (o.chain_id == p.chain_id))
        h2).1 in
    (eq_of_pass o.chain_id p.chain_id chain, eq_of_pass o.deployment_id p.deployment_id deployment)

check_index-same :
    (s : Site) (p : ProtocolProjection) (o : ObservedAccountingSnapshot)
    → check_index s p o ≡ []
    → (o.current_index ≡ p.current_index)
      × (o.index_remainder ≡ p.index_remainder)
      × (o.eligible_supply ≡ p.eligible_supply)
unfolding check_index
check_index-same s p o h =
    let h3 = (append-eq-nil _ (raise s _ AlertCode.lifetime_total global_scope) h).0 in
    let h2 = (append-eq-nil _ (raise s _ AlertCode.core_accounting global_scope) h3).0 in
    let (index, supply) =
      append-eq-nil _
        (raise s (not (o.eligible_supply == p.eligible_supply)) AlertCode.eligible_supply
          global_scope)
        h2 in
    let (i, r) =
      eqs_of_pass o.current_index p.current_index o.index_remainder p.index_remainder
        (raise-eq-nil s _ AlertCode.global_index global_scope index) in
    (i, r, eq_of_pass o.eligible_supply p.eligible_supply (raise-eq-nil s _ _ _ supply))

check_core_vault-backed :
    (s : Site) (p : ProtocolProjection) (o : ObservedAccountingSnapshot)
    (balance liability buckets : ℤ)
    → check_core_vault s p o balance liability buckets ≡ []
    → (o.reward_vault_balance ≡ balance)
      × (o.reflection_liability ≡ liability)
      × (o.reward_vault_balance ≡ buckets)
unfolding check_core_vault
check_core_vault-backed s p o balance liability buckets h =
    let (h3, backing) =
      append-eq-nil _
        (raise s (not (o.reward_vault_balance == buckets)) AlertCode.vault_backing
          (named_scope "core-buckets"))
        h in
    let (h2, owing) =
      append-eq-nil _
        (raise s (not (o.reflection_liability == liability)) AlertCode.reflection_liability
          (named_scope "core"))
        h3 in
    let holding =
      (append-eq-nil _
        (raise s (not (o.reward_vault_balance == balance)) AlertCode.vault_backing
          (named_scope "core"))
        h2).1 in
    (
      eq_of_pass o.reward_vault_balance balance (raise-eq-nil s _ _ _ holding),
      eq_of_pass o.reflection_liability liability (raise-eq-nil s _ _ _ owing),
      eq_of_pass o.reward_vault_balance buckets (raise-eq-nil s _ _ _ backing),
    )

check_reserves-same :
    (s : Site) (p : ProtocolProjection) (o : ObservedAccountingSnapshot)
    → check_reserves s p o ≡ []
    → (o.trfl_reserve ≡ p.custody.shares) × (o.custody_reserve_balance ≡ p.custody.shares)
unfolding check_reserves
check_reserves-same s p o h =
    let (first, second) =
      append-eq-nil
        (raise s
          (not (o.trfl_reserve == o.custody_reserve_balance)
            || not (o.trfl_reserve == o.custody_shares)
            || not (p.pool.trfl_reserve == p.custody.shares))
          AlertCode.reserve_custody global_scope)
        _ h in
    let (ab, c) =
      or_false
        (not (o.trfl_reserve == o.custody_reserve_balance)
          || not (o.trfl_reserve == o.custody_shares))
        _ (raise-eq-nil s _ _ _ first) in
    let (balance, _) =
      eqs_of_pass o.trfl_reserve o.custody_reserve_balance o.trfl_reserve o.custody_shares ab in
    let (pool, _) =
      eqs_of_pass o.trfl_reserve p.pool.trfl_reserve o.tusd_reserve p.pool.tusd_reserve
        (raise-eq-nil s _ AlertCode.pool_reserves global_scope second) in
    let shares = pool ∙ eq_of_pass p.pool.trfl_reserve p.custody.shares c in
    (shares, sym balance ∙ shares)

is_empty-eq-nil : (xs : List CriticalAlert) → is_empty xs ≡ true → xs ≡ []
is_empty-eq-nil [] h = refl
is_empty-eq-nil (x ∷ xs) h = cc

is_at-pinned :
    (cursor : Option EventCursor) (o : ObservedAccountingSnapshot)
    → is_at cursor o ≡ true
    → (c : EventCursor) × (cursor ≡ some c) × (o.ledger_version ≡ c.ledger_version)
is_at-pinned none o h = cc
is_at-pinned (some c) o h = (c, refl, (ℤ_eq.beq_iff o.ledger_version c.ledger_version).0 h)

compare_views-Matches :
    (s : Site) (p : ProtocolProjection) (o : ObservedAccountingSnapshot) (e : Expectation)
    (r : ReconciliationReport)
    → expectation p ≡ some e
    → is_at s.cursor o ≡ true
    → compare_views s p o e ≡ some r
    → r.reconciled ≡ true
    → Matches p o s.cursor
unfolding compare_views expectation check_epoch_set
compare_views-Matches s p o e r he at h clean =
    let (owed, ho, h1) = >>=-eq-some (checked_add o.reflection_liability o.unallocated_fees) _ h in
    let (buckets, hb, h2) = >>=-eq-some (checked_add owed o.rounding_reserve) _ h1 in
    let (compared, hc, h3) =
      >>=-eq-some (compare_epochs s p o.registered_wallet_accounts o.lp_epochs) _ h2 in
    let all = is_empty-eq-nil _ (ap (λ t. t.reconciled) (eq_of_some h3) ∙ clean) in
    let (a11, _) = append-eq-nil _ (check_configuration s p o) all in
    let (a10, epochs) = append-eq-nil _ compared.0 a11 in
    let (a9, epoch_set) = append-eq-nil _ (check_epoch_set s p o) a10 in
    let (a8, wallets) = append-eq-nil _ (check_wallets s p o) a9 in
    let (a7, _) = append-eq-nil _ (check_limits s p o) a8 in
    let (a6, reserves) = append-eq-nil _ (check_reserves s p o) a7 in
    let (a5, _) = append-eq-nil _ (check_custody_views s p o e.pending) a6 in
    let (a4, index) = append-eq-nil _ (check_index s p o) a5 in
    let (a3, vault) = append-eq-nil _ (check_core_vault s p o e.balance e.liability buckets) a4 in
    let (a2, _) = append-eq-nil _ (check_authority s p o) a3 in
    let identity = (append-eq-nil (check_identity s p o) (check_registered_wallets s p o) a2).0 in
    let same = check_identity-same s p o identity in
    let indices = check_index-same s p o index in
    let backing = check_core_vault-backed s p o e.balance e.liability buckets vault in
    let (balance, fb, k1) = >>=-eq-some (expected_core_vault_balance p) _ he in
    let (liability, fl, k2) = >>=-eq-some (core_indexed_liability p) _ k1 in
    let (pending, _, k3) = >>=-eq-some (custody_pending p) _ k2 in
    let missing =
      (append-eq-nil
        (raise s (not (o.active_lp_epoch == p.active_lp_epoch)) AlertCode.lp_accounting
          (named_scope "active-epoch"))
        _ epoch_set).1 in
    record {
      pinned = is_at-pinned s.cursor o at;
      same_chain = same.0;
      same_deployment = same.1;
      same_index = (indices.0, indices.1);
      same_supply = indices.2;
      owes = fl ∙ ap (λ t. some t) (ap (λ t. t.liability) (eq_of_some k3) ∙ sym backing.1);
      holds = fb ∙ ap (λ t. some t) (ap (λ t. t.balance) (eq_of_some k3) ∙ sym backing.0);
      backed =
          backing.2
          ∙ checked_add-eq-some owed o.rounding_reserve hb
          ∙ ap (λ t. t +ℤ o.rounding_reserve)
              (checked_add-eq-some o.reflection_liability o.unallocated_fees ho);
      reserve = check_reserves-same s p o reserves;
      same_wallets = check_wallets-ShowsWallet s p o wallets;
      shown_epochs =
          compare_epochs-IsReplayed s p o.registered_wallet_accounts o.lp_epochs compared hc epochs;
      all_epochs =
          check_missing_epochs-includes s (map (λ x. x.epoch) o.lp_epochs) p.lp_epochs missing;
    }

-- Where a reconciliation finds no divergence, the chain's views are those of the cursor's ledger
-- version and show the replayed projection: the deployment, the index and the supply; every wallet,
-- and no other; every LP epoch with all its owners, and no other. The core vault and each epoch's
-- vault hold what replay expects, which is exactly what is owed, unallocated and reserved, and the
-- pool's tRFL is the custody's.
pub reconcile-Matches :
    (now : ℤ) (p : ProtocolProjection) (o : ObservedAccountingSnapshot)
    (cursor : Option EventCursor) (r : ReconciliationReport)
    → reconcile now p o cursor ≡ some r
    → r.reconciled ≡ true
    → Matches p o cursor
unfolding reconcile
reconcile-Matches now p o cursor r h clean =
    let s : Site = record { now = now; cursor = cursor } in
    let (e, he, h1) = >>=-eq-some (expectation p) _ h in
    elim (Bool-cases (is_at cursor o)) [
      | inl at ↦ compare_views-Matches s p o e r he at (rw at at h1) clean
      | inr elsewhere ↦ cc (ap (λ t. t.reconciled) (eq_of_some (rw elsewhere at h1)), clean)
    ]
