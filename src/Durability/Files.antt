-- ===== src/Durability/Files.antt =====
-- On the snapshot file of packages/indexer/src/file-store.ts.
use cedra_reflect.Base.{
  Bool, Option, String, and_true, ap, arith, bool_eq, false, is_value, none, option_eq, refl,
  require, require-eq-some, same, some, string_eq, subst, true, ◌≡◌,
}
use cedra_reflect.Int.{ltb_ℤ, pos, ℤ_eq}
use cedra_reflect.Indexer.FileStore.{
  FileStore, SnapshotEnvelope, check_base, compare_snapshot_cursor, envelope_of, envelope_to_save,
  granting, is_monotonic, load_snapshot_file, save_snapshot_file, ◌≫◌,
}
use cedra_reflect.Indexer.Store.{Identity, IndexerError, Result, ok, refused}
use cedra_reflect.Snapshot.Codec.{Codec, decode_snapshot, encode_snapshot}
use cedra_reflect.Snapshot.Serial.{SerializableProjection}
use cedra_reflect.Types.Common.{EventCursor, lifecycle_eq, status_eq}
use cedra_reflect.Types.Observed.{IndexerSnapshot}

≫-eq-ok :
    {A B : Type 0} (m : Result A) (k : A → Result B) {b : B}
    → (m ≫ k) ≡ ok b
    → (a : A) × (m ≡ ok a) × (k a ≡ ok b)
unfolding ◌≫◌
≫-eq-ok (ok a) k h = (a, refl, h)
≫-eq-ok (refused e) k h = cc

granting-eq-ok :
    {A : Type 0} (m : Option A) (e : IndexerError) {a : A} → granting m e ≡ ok a → m ≡ some a
granting-eq-ok none e h = cc
granting-eq-ok (some a) e h = ap (value_of a) h
  where
    value_of : {A : Type 0} → A → Result A → Option A
    value_of d (ok x) = some x
    value_of d (refused e) = none

granted :
    {A : Type 0} (b : Bool) (a : A) (e : IndexerError) {x : A}
    → granting (require b a) e ≡ ok x
    → b ≡ true
granted b a e h = (require-eq-some b a (granting-eq-ok (require b a) e h)).0

is_value-eq : (base : Option String) (id : String) → is_value base id ≡ true → base ≡ some id
is_value-eq none id h = cc
is_value-eq (some x) id h = ap (λ t. some t) ((string_eq.beq_iff x id).0 h)

module _ (c : Codec) (state_digest : Option EventCursor → SerializableProjection → String)
    (is_below_limit : SnapshotEnvelope c → Bool) where
  -- The file's next snapshot: it replaces the one on which it is based, at no earlier cursor.
  abbrev pub Replaces : Option String → Option IndexerSnapshot → IndexerSnapshot → Type 0
  Replaces base none new = base ≡ none
  Replaces base (some old) new =
      (base ≡ some old.id) × (ltb_ℤ (compare_snapshot_cursor new.cursor old.cursor) (pos 0) ≡ false)

  check_base-Replaces :
      (base : Option String) (old : Option IndexerSnapshot) (new : IndexerSnapshot) {x : Unit}
      → check_base c state_digest is_below_limit base old new ≡ ok x
      → Replaces base old new
  unfolding check_base is_monotonic
  check_base-Replaces none none new h = refl
  check_base-Replaces (some id) none new h = cc
  check_base-Replaces base (some old) new h =
      let (based, monotonic) =
        and_true (is_value base old.id) (is_monotonic c state_digest is_below_limit old new)
          (granted _ tt IndexerError.stale_snapshot h) in
      (is_value-eq base old.id based, ground arith)

  -- What is written reads again, if it decodes.
  load_snapshot_file-written :
      (t new : IndexerSnapshot) (s : FileStore c)
      → decode_snapshot c (encode_snapshot c t) ≡ some new
      → load_snapshot_file c (record s { snapshot_file = some (envelope_of c s.manifest t) })
        ≡ some (some new)
  unfolding load_snapshot_file
  load_snapshot_file-written t new s decoded =
      let text = encode_snapshot c t in
      rw
        (
          (string_eq.beq_iff s.manifest s.manifest).1 refl,
          c.is_digest_digest text,
          (string_eq.beq_iff (c.digest text) (c.digest text)).1 refl,
          decoded,
        )
        refl

  written :
      (s s' : FileStore c) (r : Result (SnapshotEnvelope c))
      → (let after_save : FileStore c × Result Unit = elim r [
        | refused e ↦ (s, refused e)
        | ok e ↦ (record s { snapshot_file = some e }, ok tt)
      ] in
          after_save ≡ (s', ok tt))
      → (e : SnapshotEnvelope c) × (r ≡ ok e) × (record s { snapshot_file = some e } ≡ s')
  written s s' (ok e) h = (e, refl, ap (λ x. x.0) h)
  written s s' (refused e) h = cc (ap (λ x. x.1) h)

  abbrev Chain : IndexerSnapshot → Option String → FileStore c → SnapshotEnvelope c → Type 0
  Chain t base s e =
      (old : Option IndexerSnapshot) × (new : IndexerSnapshot) × (load_snapshot_file c s ≡ some old)
      × (decode_snapshot c (encode_snapshot c t) ≡ some new)
      × Replaces base old new
      × (envelope_of c s.manifest t ≡ e)

  ok_inj : {A : Type 0} {a b : A} → ok a ≡ ok b → a ≡ b
  ok_inj {a = a} h = ap (λ r. elim r [ ok x ↦ x | refused e ↦ a ]) h

  checked :
      (t : IndexerSnapshot) (lease : Identity) (base : Option String) (s : FileStore c)
      (e : SnapshotEnvelope c)
      → envelope_to_save c state_digest is_below_limit t lease base s ≡ ok e
      → Chain t base s e
  unfolding envelope_to_save
  checked t lease base s e h =
      let (_, _, h1) = ≫-eq-ok _ _ h in
      let (_, _, h2) = ≫-eq-ok _ _ h1 in
      let (new, decoded, h3) = ≫-eq-ok _ _ h2 in
      let (_, _, h4) = ≫-eq-ok _ _ h3 in
      let (old, loaded, h5) = ≫-eq-ok _ _ h4 in
      let (_, based, h6) = ≫-eq-ok _ _ h5 in
      (
        old,
        new,
        granting-eq-ok (load_snapshot_file c s) IndexerError.failed loaded,
        granting-eq-ok (decode_snapshot c (encode_snapshot c t)) IndexerError.failed decoded,
        check_base-Replaces base old new based,
        ok_inj h6,
      )

  -- A snapshot is saved in a file only over the one that it is based on, which still reads, and
  -- never at an earlier cursor; what is read afterwards is what was saved, validated.
  pub save_snapshot_file-Replaces :
      (t : IndexerSnapshot) (lease : Identity) (base : Option String) (s s' : FileStore c)
      → save_snapshot_file c state_digest is_below_limit t lease base s ≡ (s', ok tt)
      → (old : Option IndexerSnapshot) × (new : IndexerSnapshot) × (load_snapshot_file c s
          ≡ some old)
        × (load_snapshot_file c s' ≡ some (some new))
        × (decode_snapshot c (encode_snapshot c t) ≡ some new)
        × Replaces base old new
  unfolding save_snapshot_file
  save_snapshot_file-Replaces t lease base s s' h =
      let (e, ran, same) =
        written s s' (envelope_to_save c state_digest is_below_limit t lease base s) h in
      let (old, new, loaded, decoded, replaces, sealed) = checked t lease base s e ran in
      (
        old,
        new,
        loaded,
        subst (λ x. load_snapshot_file c x ≡ some (some new)) same
            (subst
              (λ x. load_snapshot_file c (record s { snapshot_file = some x }) ≡ some (some new))
              sealed (load_snapshot_file-written t new s decoded)),
        decoded,
        replaces,
      )
