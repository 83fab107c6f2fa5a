-- ===== src/Checkpoints/Maps.antt =====
-- On a `Map` that is written as the array of its values and read again, by the loops of
-- `decodeSnapshot` in packages/indexer/src/snapshot.ts.
use cedra_reflect.Base.{
  Equality, List, [], and_true, ap, append-nil, append_assoc, arith, bool_eq, false, has_unique,
  includes, map, not, option_eq, or_false, refl, string_eq, sym, true, ◌++◌, ◌==◌, ◌∙◌, ◌∷◌, ◌≡◌,
}
use cedra_reflect.Int.{ℤ_eq}
use cedra_reflect.Dict.{Dict, contains, contains-insert, insert, map_from}
use cedra_reflect.Snapshot.Serial.{values}
use cedra_reflect.Types.Common.{lifecycle_eq, status_eq}

-- Every entry stands under the key that its value carries.
abbrev pub IsKeyed {ℓ κ} : {K : Type ℓ} {V : Type κ} → (V → K) → Dict K V → Type ℓ
IsKeyed key [] = Unit
IsKeyed key ((k, v) ∷ d) = (k ≡ key v) × IsKeyed key d

module _ {K V : Type 0} ⦃e : Equality K⦄ (key : V → K) where
  abbrev AreAbsent : Dict K V → List V → Type 0
  AreAbsent d [] = Unit
  AreAbsent d (v ∷ vs) = (contains (key v) d ≡ false) × AreAbsent d vs

  insert_absent :
      (k : K) (v : V) (d : Dict K V) → contains k d ≡ false → insert k v d ≡ d ++ (k, v) ∷ []
  insert_absent k v [] h = refl
  insert_absent k v ((j, w) ∷ d) h =
      let (miss, rest) = or_false (j == k) (contains k d) h in rw (miss, insert_absent k v d rest)

  AreAbsent-insert :
      (k : K) (v : V) (d : Dict K V) (vs : List V)
      → includes k (map key vs) ≡ false
      → AreAbsent d vs
      → AreAbsent (insert k v d) vs
  AreAbsent-insert k v d [] other h = tt
  AreAbsent-insert k v d (x ∷ xs) other (here, h) =
      let (miss, rest) = or_false (key x == k) (includes k (map key xs)) other in
      (
        contains-insert k (key x) v d ∙ ground (arith, e.beq_iff k (key x), e.beq_iff (key x) k),
        AreAbsent-insert k v d xs rest h,
      )

  -- Reading the values of a keyed map behind a map that has none of its keys appends the map.
  map_from-values :
      (acc d : Dict K V)
      → IsKeyed key d
      → has_unique (map key (values d)) ≡ true
      → AreAbsent acc (values d)
      → map_from key acc (values d) ≡ acc ++ d
  map_from-values acc [] keyed unique absent = sym (append-nil acc)
  map_from-values acc ((k, v) ∷ d) (own, keyed) unique (absent, others) =
      let (fresh, rest) =
        and_true (not (includes (key v) (map key (values d)))) (has_unique (map key (values d)))
          unique in
      map_from-values (insert (key v) v acc) d keyed rest
        (AreAbsent-insert (key v) v acc (values d) (ground arith) others)
      ∙ ap (λ t. t ++ d) (insert_absent (key v) v acc absent)
      ∙ append_assoc acc ((key v, v) ∷ []) d
      ∙ ap (λ j. acc ++ (j, v) ∷ d) (sym own)

  AreAbsent-nil : (vs : List V) → AreAbsent [] vs
  AreAbsent-nil [] = tt
  AreAbsent-nil (v ∷ vs) = (refl, AreAbsent-nil vs)

  -- A keyed map is read back from its values.
  pub map_from-nil-values :
      (d : Dict K V)
      → IsKeyed key d
      → has_unique (map key (values d)) ≡ true
      → map_from key [] (values d) ≡ d
  map_from-nil-values d keyed unique = map_from-values [] d keyed unique (AreAbsent-nil (values d))
