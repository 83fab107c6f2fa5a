-- ===== src/Agreement/Epochs.antt =====
-- On the LP epochs of `reconcile` in packages/indexer/src/reconciler.ts.
use cedra_reflect.Base.{
  >>=-eq-some, All, List, Option, Option-cases, [], ap, append-eq-nil, bool_eq, eq_of_some, false,
  get_or, inl, inr, none, not, option_eq, or_false, refl, some, string_eq, sym, ◌==◌, ◌||◌, ◌∙◌,
  ◌∷◌, ◌≡◌,
}
use cedra_reflect.Int.{pos, ℤ, ℤ_eq, ◌+ℤ◌}
use cedra_reflect.Accounting.{expected_lp_vault_balance, lp_indexed_liability}
use cedra_reflect.Agreement.Entries.{Agree, NoneDiffers, NoneDiffers-Agree, left_over}
use cedra_reflect.Agreement.Passes.{eq_of_pass, eqs_of_pass, raise-eq-nil}
use cedra_reflect.Dict.{Dict, delete, lookup, map_from}
use cedra_reflect.Domains.Checked.{checked_add}
use cedra_reflect.Domains.Laws.{checked_add-eq-some}
use cedra_reflect.Reconciler.Epochs.{
  check_epoch_fields, check_epoch_positions, check_lp_rest, compare_epochs, compare_known_epoch,
  compare_lp_positions, differs_epoch, differs_lp_position,
}
use cedra_reflect.Reconciler.Site.{Site, raise}
use cedra_reflect.Types.Common.{
  Address, AlertCode, CriticalAlert, epoch_scope, lifecycle_eq, owner_scope, status_eq,
}
use cedra_reflect.Types.Observed.{LpReconciliationResult, ObservedLpEpoch, ObservedLpPosition}
use cedra_reflect.Types.State.{IndexedLpEpoch, IndexedLpPosition, ProtocolProjection}

module _ (s : Site) (id : ℤ) (registered : Dict Address Address) where
  compare_lp_positions-NoneDiffers :
      (d : Dict Address IndexedLpPosition) (rest : Dict Address ObservedLpPosition)
      → (compare_lp_positions s id registered d rest).0 ≡ []
      → NoneDiffers differs_lp_position d rest
  unfolding compare_lp_positions
  compare_lp_positions-NoneDiffers [] rest h = tt
  compare_lp_positions-NoneDiffers ((owner, q) ∷ d) rest h =
      let (front, more) =
        append-eq-nil _ (compare_lp_positions s id registered d (delete owner rest)).0 h in
      let (_, here) =
        append-eq-nil _
          (raise s (differs_lp_position q (lookup owner rest)) AlertCode.position_accounting
            (owner_scope id owner))
          front in
      (
        raise-eq-nil s (differs_lp_position q (lookup owner rest)) AlertCode.position_accounting
            (owner_scope id owner) here,
        compare_lp_positions-NoneDiffers d (delete owner rest) more,
      )

  compare_lp_positions-left_over :
      (d : Dict Address IndexedLpPosition) (rest : Dict Address ObservedLpPosition)
      → (compare_lp_positions s id registered d rest).1 ≡ left_over d rest
  unfolding compare_lp_positions
  compare_lp_positions-left_over [] rest = refl
  compare_lp_positions-left_over ((owner, q) ∷ d) rest =
      compare_lp_positions-left_over d (delete owner rest)

check_lp_rest-eq-nil :
    (s : Site) (id : ℤ) (d : Dict Address ObservedLpPosition) → check_lp_rest s id d ≡ [] → d ≡ []
unfolding check_lp_rest
check_lp_rest-eq-nil s id [] h = refl
check_lp_rest-eq-nil s id ((owner, o) ∷ d) h = cc

-- The chain shows an owner's LP position as replay has it.
abbrev pub ShowsOwner : Option IndexedLpPosition → Option ObservedLpPosition → Type 0
ShowsOwner none none = Unit
ShowsOwner (some q) (some o) =
    (o.shares ≡ q.shares) × (o.correction ≡ q.correction) × (o.claimed ≡ q.claimed)
ShowsOwner _ _ = ⊥

Agree-ShowsOwner :
    (q : Option IndexedLpPosition) (o : Option ObservedLpPosition)
    → Agree differs_lp_position q o
    → ShowsOwner q o
Agree-ShowsOwner none none h = tt
Agree-ShowsOwner none (some o) h = cc
Agree-ShowsOwner (some q) none h = cc
Agree-ShowsOwner (some q) (some o) h =
    let (ab, c) = or_false (not (o.shares == q.shares) || not (o.correction == q.correction)) _ h in
    let (a, b) = eqs_of_pass o.shares q.shares o.correction q.correction ab in
    (a, b, eq_of_pass o.claimed q.claimed c)

abbrev pub observed_owners : ObservedLpEpoch → Dict Address ObservedLpPosition
observed_owners o = map_from (λ q. q.owner) [] o.positions

-- The chain shows a replayed epoch: vault and state object, index, shares and every owner, with a
-- vault that holds what was received and not claimed, which is what is owed, unallocated and
-- reserved.
pub record ShowsEpoch (e : IndexedLpEpoch) (o : ObservedLpEpoch) : Type 0 where
  pub same_vault : o.reward_vault ≡ e.reward_vault
  pub same_state : o.state_id ≡ e.state_id
  pub same_index : o.index ≡ e.index
  pub same_shares : o.total_shares ≡ e.total_shares
  pub same_status : o.status ≡ e.status
  pub owes : lp_indexed_liability e ≡ some o.indexed_liability
  pub holds : expected_lp_vault_balance e ≡ some o.reward_vault_balance
  pub backed :
      o.reward_vault_balance ≡ o.indexed_liability +ℤ o.unallocated_rewards +ℤ o.rounding_reserve
  pub same_owners : (j : Address) → ShowsOwner (lookup j e.positions) (lookup j (observed_owners o))

check_epoch_positions-ShowsOwner :
    (s : Site) (replayed : Dict Address Address) (observed : List Address) (e : IndexedLpEpoch)
    (o : ObservedLpEpoch)
    → check_epoch_positions s replayed observed e o ≡ []
    → (j : Address) → ShowsOwner (lookup j e.positions) (lookup j (observed_owners o))
unfolding check_epoch_positions
check_epoch_positions-ShowsOwner s replayed observed e o h j =
    let (front, rest) = append-eq-nil _ (check_lp_rest s o.epoch _) h in
    let (found, _) =
      append-eq-nil (compare_lp_positions s o.epoch replayed e.positions (observed_owners o)).0 _
        front in
    Agree-ShowsOwner (lookup j e.positions) (lookup j (observed_owners o)) (
      NoneDiffers-Agree differs_lp_position e.positions (observed_owners o)
        (compare_lp_positions-NoneDiffers s o.epoch replayed e.positions (observed_owners o) found)
        (sym (compare_lp_positions-left_over s o.epoch replayed e.positions (observed_owners o))
          ∙ check_lp_rest-eq-nil s o.epoch _ rest)
        j)

differs_epoch-false :
    (e : IndexedLpEpoch) (o : ObservedLpEpoch)
    → differs_epoch e o ≡ false
    → (o.status ≡ e.status) × (o.index ≡ e.index) × (o.total_shares ≡ e.total_shares)
differs_epoch-false e o h =
    let h11 = (or_false _ (not (o.quarantined == e.quarantined)) h).0 in
    let h10 = (or_false _ (not (o.lifetime_claimed == e.lifetime_claimed)) h11).0 in
    let h9 = (or_false _ (not (o.lifetime_received == e.lifetime_received)) h10).0 in
    let h8 = (or_false _ (not (o.retired_residue_magnified == e.retired_residue_magnified)) h9).0 in
    let h7 =
      (or_false _
        (not (o.terminal_rounding_base_units == get_or e.terminal_rounding_base_units (pos 0)))
        h8).0 in
    let h6 = (or_false _ (not (o.rounding_reserve == e.rounding_reserve)) h7).0 in
    let h5 = (or_false _ (not (o.unallocated_rewards == e.unallocated_rewards)) h6).0 in
    let h4 = (or_false _ (not (o.aggregate_correction == e.aggregate_correction)) h5).0 in
    let (h3, shares) = or_false _ (not (o.total_shares == e.total_shares)) h4 in
    let h2 = (or_false _ (not (o.index_remainder == e.index_remainder)) h3).0 in
    let (status, index) = or_false (not (o.status == e.status)) (not (o.index == e.index)) h2 in
    (
      eq_of_pass o.status e.status status,
      eq_of_pass o.index e.index index,
      eq_of_pass o.total_shares e.total_shares shares,
    )

compare_known_epoch-ShowsEpoch :
    (s : Site) (replayed : Dict Address Address) (observed : List Address) (e : IndexedLpEpoch)
    (o : ObservedLpEpoch) (found : List CriticalAlert × LpReconciliationResult)
    → compare_known_epoch s replayed observed e o ≡ some found
    → found.0 ≡ []
    → ShowsEpoch e o
unfolding compare_known_epoch
compare_known_epoch-ShowsEpoch s replayed observed e o found h clean =
    let (liability, hl, h1) = >>=-eq-some (lp_indexed_liability e) _ h in
    let (balance, hb, h2) = >>=-eq-some (expected_lp_vault_balance e) _ h1 in
    let (owed, ho, h3) = >>=-eq-some (checked_add o.indexed_liability o.unallocated_rewards) _ h2 in
    let (buckets, hk, h4) = >>=-eq-some (checked_add owed o.rounding_reserve) _ h3 in
    let (fields, positions) =
      append-eq-nil (check_epoch_fields s e o liability balance buckets)
        (check_epoch_positions s replayed observed e o) (ap (λ t. t.0) (eq_of_some h4) ∙ clean) in
    let (f5, differs) =
      append-eq-nil _ (raise s (differs_epoch e o) AlertCode.lp_accounting (epoch_scope o.epoch))
        fields in
    let (f4, backing) =
      append-eq-nil _
        (raise s (not (o.reward_vault_balance == buckets)) AlertCode.lp_vault_backing
          (epoch_scope o.epoch))
        f5 in
    let (f3, owing) =
      append-eq-nil _
        (raise s (not (o.indexed_liability == liability)) AlertCode.lp_accounting
          (epoch_scope o.epoch))
        f4 in
    let (f2, holding) =
      append-eq-nil _
        (raise s (not (o.reward_vault_balance == balance)) AlertCode.lp_vault_backing
          (epoch_scope o.epoch))
        f3 in
    let (vault, state) =
      append-eq-nil
        (raise s (not (o.reward_vault == e.reward_vault)) AlertCode.vault_binding
          (epoch_scope o.epoch))
        _ f2 in
    let same = differs_epoch-false e o (raise-eq-nil s _ _ _ differs) in
    record {
      same_vault = eq_of_pass o.reward_vault e.reward_vault (raise-eq-nil s _ _ _ vault);
      same_state = eq_of_pass o.state_id e.state_id (raise-eq-nil s _ _ _ state);
      same_index = same.1;
      same_shares = same.2;
      same_status = same.0;
      owes =
          hl
          ∙ ap (λ t. some t)
              (sym (eq_of_pass o.indexed_liability liability (raise-eq-nil s _ _ _ owing)));
      holds =
          hb
          ∙ ap (λ t. some t)
              (sym (eq_of_pass o.reward_vault_balance balance (raise-eq-nil s _ _ _ holding)));
      backed =
          eq_of_pass o.reward_vault_balance buckets (raise-eq-nil s _ _ _ backing)
          ∙ checked_add-eq-some owed o.rounding_reserve hk
          ∙ ap (λ t. t +ℤ o.rounding_reserve)
              (checked_add-eq-some o.indexed_liability o.unallocated_rewards ho);
      same_owners = check_epoch_positions-ShowsOwner s replayed observed e o positions;
    }

-- An observed epoch is one that replay knows, and shown as replay has it.
abbrev pub IsReplayed : ProtocolProjection → ObservedLpEpoch → Type 0
IsReplayed p o = (e : IndexedLpEpoch) × (lookup o.epoch p.lp_epochs ≡ some e) × ShowsEpoch e o

pub compare_epochs-IsReplayed :
    (s : Site) (p : ProtocolProjection) (observed : List Address) (os : List ObservedLpEpoch)
    (found : List CriticalAlert × List LpReconciliationResult)
    → compare_epochs s p observed os ≡ some found
    → found.0 ≡ []
    → All (IsReplayed p) os
unfolding compare_epochs
compare_epochs-IsReplayed s p observed [] found h clean = tt
compare_epochs-IsReplayed s p observed (o ∷ os) found h clean =
    elim (Option-cases (lookup o.epoch p.lp_epochs)) [
      | inl unknown ↦
          let (rest, _, h1) =
            >>=-eq-some (compare_epochs s p observed os) _ (rw (unknown, compare_epochs) at h) in
          cc (ap (λ t. t.0) (eq_of_some h1), clean)
      | inr (e, known) ↦
          let (here, f, h1) =
            >>=-eq-some (compare_known_epoch s p.registered_wallets observed e o) _
              (rw (known, compare_epochs) at h) in
          let (rest, g, h2) = >>=-eq-some (compare_epochs s p observed os) _ h1 in
          let (first, others) =
            append-eq-nil here.0 rest.0 (ap (λ t. t.0) (eq_of_some h2) ∙ clean) in
          (
            (
              e,
              known,
              compare_known_epoch-ShowsEpoch s p.registered_wallets observed e o here f first,
            ),
            compare_epochs-IsReplayed s p observed os rest g others,
          )
    ]
