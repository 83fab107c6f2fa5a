-- ===== src/Rewards/Accrual.antt =====
-- On the correction that `adjustWalletAsset` of packages/indexer/src/reducer.ts keeps beside a
-- balance.
use cedra_reflect.Base.{
  Bool-cases, ap, arith, false, inl, inr, not, refl, some, string_eq, subst, true, ◌==◌, ◌∙◌, ◌≡◌,
}
use cedra_reflect.Int.{
  *ℤ-distrib, *ℤ-neg, int_laws, ltb_ℤ, parts_of_eq, pos, ℤ, ℤ_eq, ◌*ℤ◌, ◌+ℤ◌, ◌≤ℤ◌,
}
use cedra_reflect.Conservation.Wallets.{move_trfl-eq-some, moved, shift_correction_parallel}
use cedra_reflect.Dict.{Dict, insert, lookup, lookup-insert}
use cedra_reflect.Domains.Checked.{checked_multiply}
use cedra_reflect.Domains.Laws.{
  checked_multiply-eq-some, signed_add_unsigned-eq-some, signed_subtract_unsigned-eq-some,
}
use cedra_reflect.Reducer.Wallet.{
  absolute, adjust_trfl, adjust_wallet_asset, position_or_empty, shift_correction,
}
use cedra_reflect.Types.Common.{Address, trfl}
use cedra_reflect.Types.State.{IndexedPosition, ProtocolProjection}

-- What an account has earned, magnified: its shares times the index, and its correction.
abbrev pub accrued : ProtocolProjection → Address → ℤ
accrued p j =
    let q = position_or_empty j p.positions in q.raw_trfl *ℤ p.current_index +ℤ q.correction

shift_correction_keeps :
    (delta index raw correction : ℤ) {change correction' : ℤ}
    → checked_multiply (absolute delta) index ≡ some change
    → shift_correction (not (ltb_ℤ delta (pos 0))) change correction ≡ some correction'
    → (raw +ℤ delta) *ℤ index +ℤ correction' ≡ raw *ℤ index +ℤ correction
unfolding shift_correction
shift_correction_keeps delta index raw correction {change} {correction'} h k =
    elim (Bool-cases (ltb_ℤ delta (pos 0))) [
      | inl falls ↦
          let product = (checked_multiply-eq-some _ _ {c = change} (rw falls at h)).0 in
          let sum = signed_add_unsigned-eq-some correction change (rw falls at k) in
          omega (
            int_laws,
            parts_of_eq product,
            parts_of_eq sum,
            parts_of_eq (*ℤ-neg delta index),
            parts_of_eq (*ℤ-distrib raw delta index),
          )
      | inr rises ↦
          let product = (checked_multiply-eq-some _ _ {c = change} (rw rises at h)).0 in
          let sum = signed_subtract_unsigned-eq-some correction change (rw rises at k) in
          omega (
            int_laws,
            parts_of_eq product,
            parts_of_eq sum,
            parts_of_eq (*ℤ-distrib raw delta index),
          )
    ]

insert-lookup_hit :
    (account j : Address) (next : IndexedPosition) (d : Dict Address IndexedPosition)
    → (account == j) ≡ true
    → position_or_empty j (insert account next d) ≡ next
insert-lookup_hit account j next d hit = rw (lookup-insert account j next d) (rw hit refl)

insert-lookup_miss :
    (account j : Address) (next : IndexedPosition) (d : Dict Address IndexedPosition)
    → (account == j) ≡ false
    → position_or_empty j (insert account next d) ≡ position_or_empty j d
insert-lookup_miss account j next d miss = rw (lookup-insert account j next d) (rw miss refl)

-- The account's position after the movement: the balance changes by the movement, the correction to
-- whatever it is, and nothing else.
abbrev moved_position : Address → ℤ → ℤ → ProtocolProjection → IndexedPosition
moved_position account delta correction p =
    let current = position_or_empty account p.positions in
    record current { raw_trfl = current.raw_trfl +ℤ delta; correction = correction }

-- What a movement of tRFL that is not refused does: no account's accrual changes; the account's
-- position changes in its balance and its correction alone, no other account's at all; the eligible
-- supply changes by the movement, the aggregate correction as the account's, and nothing else.
pub record Moves (account : Address) (delta : ℤ) (p p' : ProtocolProjection) : Type 0 where
  pub accrues : (j : Address) → accrued p' j ≡ accrued p j
  pub correction : ℤ
  pub here :
      lookup account p'.positions
      ≡ some (record (position_or_empty account p.positions) {
        raw_trfl = (position_or_empty account p.positions).raw_trfl +ℤ delta;
        correction = correction;
      })
  pub covers : pos 0 ≤ℤ (position_or_empty account p.positions).raw_trfl +ℤ delta
  pub elsewhere :
      (j : Address) → (account == j) ≡ false → lookup j p'.positions ≡ lookup j p.positions
  pub supplies : p'.eligible_supply ≡ p.eligible_supply +ℤ delta
  pub corrects :
      correction +ℤ p.aggregate_correction
      ≡ p'.aggregate_correction +ℤ (position_or_empty account p.positions).correction
  pub keeps : p' ≡ record p {
    positions = p'.positions;
    eligible_supply = p'.eligible_supply;
    aggregate_correction = p'.aggregate_correction;
  }

moved-accrues :
    (account : Address) (delta : ℤ) (p : ProtocolProjection) (correction aggregate : ℤ)
    → let current = position_or_empty account p.positions in
      (current.raw_trfl +ℤ delta) *ℤ p.current_index +ℤ correction ≡ accrued p account
      → (j : Address) → accrued (moved account current delta p correction aggregate) j ≡ accrued p j
moved-accrues account delta p correction aggregate e j =
    let current = position_or_empty account p.positions in
    let next = moved_position account delta correction p in
    elim (Bool-cases (account == j)) [
      | inl hit ↦
          subst (λ k. accrued (moved account current delta p correction aggregate) k ≡ accrued p k)
            ((string_eq.beq_iff account j).0 hit)
            (ap (λ q. q.raw_trfl *ℤ p.current_index +ℤ q.correction)
                (insert-lookup_hit account account next p.positions
                  ((string_eq.beq_iff account account).1 refl))
              ∙ e)
      | inr miss ↦
          ap (λ q. q.raw_trfl *ℤ p.current_index +ℤ q.correction)
            (insert-lookup_miss account j next p.positions miss)
    ]

-- A tRFL movement that is not refused, whatever its sign, changes nothing that any account, this one
-- included, has earned so far. Of the account's position it changes the balance, by exactly the
-- movement, which leaves it not negative, and the correction; of any other account's position
-- nothing; and of the rest of the projection the eligible supply, by the movement, and the aggregate
-- correction, by as much as the account's.
pub adjust_wallet_asset-Moves :
    (account : Address) (delta : ℤ) (p p' : ProtocolProjection)
    → adjust_wallet_asset account trfl delta p ≡ some p'
    → Moves account delta p p'
unfolding adjust_wallet_asset adjust_trfl
adjust_wallet_asset-Moves account delta p p' h =
    let current = position_or_empty account p.positions in
    elim (Bool-cases (ltb_ℤ (current.raw_trfl +ℤ delta) (pos 0))) [
      | inl short ↦ cc (rw short at h)
      | inr enough ↦
          let (change, correction, aggregate, product, f, g, e) =
            move_trfl-eq-some account current delta p (rw enough at h) in
          let next = moved_position account delta correction p in
          subst (Moves account delta p) e (record {
            accrues = moved-accrues account delta p correction aggregate (
                shift_correction_keeps delta p.current_index current.raw_trfl current.correction
                  product f);
            correction = correction;
            here =
                lookup-insert account account next p.positions
                ∙ rw ((string_eq.beq_iff account account).1 refl) refl;
            covers = ground arith;
            elsewhere = λ j miss. lookup-insert account j next p.positions ∙ rw miss refl;
            supplies = refl;
            corrects =
                shift_correction_parallel (not (ltb_ℤ delta (pos 0))) change current.correction
                  p.aggregate_correction f g;
            keeps = refl;
          })
    ]
