-- ===== src/Durability/Writers.antt =====
-- On the writers of packages/indexer/src/memory-store.ts.
use cedra_reflect.Base.{
  Bool-cases, List, Option, String, ap, bool_eq, false, inl, inr, option_eq, refl, same, same_iff,
  some, string_eq, subst, sym, true, ◌==◌, ◌∙◌, ◌≡◌, ◌≢◌, ◌⊎◌,
}
use cedra_reflect.Int.{ℤ_eq}
use cedra_reflect.Indexer.Memory.{
  MemoryStore, acquire_writer, append_alerts_in_memory, is_active_lease, latest_id, release_writer,
  save_snapshot_in_memory,
}
use cedra_reflect.Indexer.Store.{Identity, IndexerError, Result, ok, refused}
use cedra_reflect.Types.Common.{CriticalAlert, lifecycle_eq, status_eq}
use cedra_reflect.Types.Observed.{IndexerSnapshot}

-- What `saveSnapshot` says of its answer: it wrote under the active lease on the expected base, or
-- it refused and left the store as it was.
abbrev pub Swaps :
    IndexerSnapshot → Identity → Option String → MemoryStore → MemoryStore × Result Unit → Type 0
Swaps t lease base s (s', ok _) =
    (s' ≡ record s { latest = some t }) × (is_active_lease lease s ≡ true) × (latest_id s ≡ base)
Swaps t lease base s (s', refused e) =
    (s' ≡ s)
    × ((e ≡ IndexerError.invalid_writer_lease) × (is_active_lease lease s ≡ false)
        ⊎ (e ≡ IndexerError.stale_snapshot) × (latest_id s ≢ base))

save_snapshot_in_memory-Swaps :
    (t : IndexerSnapshot) (lease : Identity) (base : Option String) (s : MemoryStore)
    → Swaps t lease base s (save_snapshot_in_memory t lease base s)
unfolding save_snapshot_in_memory
save_snapshot_in_memory-Swaps t lease base s = elim (Bool-cases (is_active_lease lease s)) [
  | inr other ↦ rw other (refl, inl (refl, other))
  | inl own ↦ rw own (elim (Bool-cases (latest_id s == base)) [
    | inl fresh ↦ rw fresh (refl, own, (same_iff (latest_id s) base).0 fresh)
    | inr stale ↦
        rw stale (refl, inr (refl, λ same. cc ((same_iff (latest_id s) base).1 same, stale)))
  ])
]

refused_on :
    (u : IndexerSnapshot) (later : Identity) (base : Option String) (s : MemoryStore)
    (r : MemoryStore × Result Unit)
    → Swaps u later base s r
    → latest_id s ≢ base
    → (r.0 ≡ s) × ¬ (r.1 ≡ ok tt)
refused_on u later base s (s', ok _) (_, _, same) other = let bad : ⊥ = other same in elim bad [ ]
refused_on u later base s (s', refused e) (same, _) other = (same, λ bad. cc)

-- A call of the store by anyone, under any lease: it opens or closes a writer cycle, appends alerts,
-- or tries to save, on any base, a snapshot whose identifier is not the given one.
pub data Call (base : Option String) (s : MemoryStore) : MemoryStore → Type 0 where
  acquired : Call base s (acquire_writer s).0
  released : Call base s (release_writer s)
  appended :
      (alerts : List CriticalAlert) (lease : Identity)
      → Call base s (append_alerts_in_memory alerts lease s).0
  saved :
      (t : IndexerSnapshot) (lease : Identity) (on : Option String)
      → some t.id ≢ base
      → Call base s (save_snapshot_in_memory t lease on s).0

pub data Calls (base : Option String) (s : MemoryStore) : MemoryStore → Type 0 where
  uncalled : Calls base s s
  called : (u v : MemoryStore) → Calls base s u → Call base u v → Calls base s v

saved-ne-base :
    (t : IndexerSnapshot) (lease : Identity) (on base : Option String) (s : MemoryStore)
    (r : MemoryStore × Result Unit)
    → Swaps t lease on s r
    → some t.id ≢ base
    → latest_id s ≢ base
    → latest_id r.0 ≢ base
saved-ne-base t lease on base s (s', ok _) (written, _, _) other h =
    λ same. other (sym (ap latest_id written) ∙ same)
saved-ne-base t lease on base s (s', refused e) (unchanged, _) other h =
    λ same. h (sym (ap latest_id unchanged) ∙ same)

Call-ne-base :
    (base : Option String) {s v : MemoryStore}
    → Call base s v
    → latest_id s ≢ base
    → latest_id v ≢ base
unfolding acquire_writer release_writer append_alerts_in_memory
Call-ne-base base {s = s} acquired h = elim (Bool-cases s.writer_active) [
  | inl busy ↦ rw busy h
  | inr free ↦ rw free h
]
Call-ne-base base released h = h
Call-ne-base base {s = s} (appended alerts lease) h = elim (Bool-cases (is_active_lease lease s)) [
  | inl own ↦ rw own h
  | inr other ↦ rw other h
]
Call-ne-base base {s = s} (saved t lease on other) h =
    saved-ne-base t lease on base s (save_snapshot_in_memory t lease on s)
      (save_snapshot_in_memory-Swaps t lease on s) other h

Calls-ne-base :
    (base : Option String) {s v : MemoryStore}
    → Calls base s v
    → latest_id s ≢ base
    → latest_id v ≢ base
Calls-ne-base base uncalled h = h
Calls-ne-base base (called u v before call) h = Call-ne-base base call (Calls-ne-base base before h)

-- No update is lost in the in-memory store: once a snapshot is saved on a base, every later save on
-- the same base, under whatever lease and after whatever calls of the store, other saves included,
-- is refused and changes nothing, as long as neither that snapshot nor one whose save is tried in
-- between has the base's own identifier.
pub save_snapshot_in_memory_refuses_stale :
    (t u : IndexerSnapshot) (lease later : Identity) (base : Option String) (s s' v : MemoryStore)
    → save_snapshot_in_memory t lease base s ≡ (s', ok tt)
    → some t.id ≢ base
    → Calls base s' v
    → (save_snapshot_in_memory u later base v).0 ≡ v
      × ¬ ((save_snapshot_in_memory u later base v).1 ≡ ok tt)
save_snapshot_in_memory_refuses_stale t u lease later base s s' v saving other calls =
    let (written, _, _) =
      subst (Swaps t lease base s) saving (save_snapshot_in_memory-Swaps t lease base s) in
    refused_on u later base v (save_snapshot_in_memory u later base v)
      (save_snapshot_in_memory-Swaps u later base v)
      (Calls-ne-base base calls (λ same. other (sym (ap latest_id written) ∙ same)))
