-- ===== src/Dict.antt =====
-- JavaScript's `Map`, in insertion order: a list of entries. Setting a present key keeps its place.
use cedra_reflect.Base.{
  Bool, Bool-cases, Equality, List, Option, [], arith, false, if◌then◌else◌, inl, inr, none, refl,
  some, subst, sym, true, ◌&&◌, ◌==◌, ◌||◌, ◌∷◌, ◌≡◌,
}

abbrev pub Dict {ℓ κ} : Type ℓ → Type κ → Type (ℓ ⊔ κ)
Dict K V = List (K × V)

module _ {ℓ κ} {K : Type ℓ} {V : Type κ} ⦃e : Equality K⦄ where
  abbrev pub lookup : K → Dict K V → Option V
  lookup k [] = none
  lookup k ((j, v) ∷ d) = if j == k then some v else lookup k d

  abbrev pub insert : K → V → Dict K V → Dict K V
  insert k v [] = (k, v) ∷ []
  insert k v ((j, w) ∷ d) = if j == k then (j, v) ∷ d else (j, w) ∷ insert k v d

  abbrev pub contains : K → Dict K V → Bool
  contains k [] = false
  contains k ((j, v) ∷ d) = j == k || contains k d

  -- `[...d.values()].includes(v)`
  abbrev pub has_value : ⦃f : Equality V⦄ → V → Dict K V → Bool
  has_value v [] = false
  has_value v ((j, w) ∷ d) = w == v || has_value v d

  -- `d.delete(k)`
  abbrev pub delete : K → Dict K V → Dict K V
  delete k [] = []
  delete k ((j, v) ∷ d) = if j == k then d else (j, v) ∷ delete k d

  -- `new Map(xs.map((x) => [key(x), x]))`, set from the left.
  abbrev pub map_from : (V → K) → Dict K V → List V → Dict K V
  map_from key d [] = d
  map_from key d (x ∷ xs) = map_from key (insert (key x) x d) xs

  -- Another key is looked up as before.
  pub lookup-delete :
      (k j : K) (d : Dict K V) → (k == j) ≡ false → lookup j (delete k d) ≡ lookup j d
  lookup-delete k j [] h = refl
  lookup-delete k j ((i, v) ∷ d) h =
      ground (arith, e.beq_iff k j, e.beq_iff i k, e.beq_iff i j, lookup-delete k j d h)

  -- A written key is present, and so is every key that was.
  pub contains-insert :
      (k j : K) (v : V) (d : Dict K V) → contains j (insert k v d) ≡ (k == j || contains j d)
  contains-insert k j v [] = refl
  contains-insert k j v ((i, w) ∷ d) =
      ground (arith, e.beq_iff k j, e.beq_iff i k, e.beq_iff i j, contains-insert k j v d)

  pub lookup-insert :
      (k j : K) (v : V) (d : Dict K V)
      → lookup j (insert k v d) ≡ (if k == j then some v else lookup j d)
  lookup-insert k j v [] = refl
  lookup-insert k j v ((i, w) ∷ d) =
      ground (arith, e.beq_iff k j, e.beq_iff i k, e.beq_iff i j, lookup-insert k j v d)

abbrev pub Values {ℓ κ μ} : {K : Type ℓ} {V : Type κ} → (V → Type μ) → Dict K V → Type μ
Values P [] = Unit
Values P ((k, v) ∷ d) = P v × Values P d

module _ {ℓ κ μ} {K : Type ℓ} {V : Type κ} ⦃e : Equality K⦄ (P : V → Type μ) where
  -- What holds of every value still holds when a value that has it is set.
  pub Values-insert : (k : K) (v : V) (d : Dict K V) → P v → Values P d → Values P (insert k v d)
  Values-insert k v [] p h = (p, tt)
  Values-insert k v ((j, w) ∷ d) p h = elim (Bool-cases (j == k)) [
    | inl hit ↦
        subst (λ b. Values P (if b then (j, v) ∷ d else (j, w) ∷ insert k v d)) (sym hit) (p, h.1)
    | inr miss ↦
        subst (λ b. Values P (if b then (j, v) ∷ d else (j, w) ∷ insert k v d)) (sym miss)
          (h.0, Values-insert k v d p h.1)
  ]

  pub Values-lookup : (k : K) (v : V) (d : Dict K V) → Values P d → lookup k d ≡ some v → P v
  Values-lookup k v [] h e = cc
  Values-lookup k v ((j, w) ∷ d) h found = elim (Bool-cases (j == k)) [
    | inl hit ↦ subst P (cc (hit)) h.0
    | inr miss ↦ Values-lookup k v d h.1 (rw miss at found)
  ]

abbrev pub all_entries {ℓ κ} : {K : Type ℓ} {V : Type κ} → (K → V → Bool) → Dict K V → Bool
all_entries p [] = true
all_entries p ((k, v) ∷ d) = p k v && all_entries p d
