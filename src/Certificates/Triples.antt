-- ===== src/Certificates/Triples.antt =====
-- On operations of the indexer (packages/indexer/src/event-indexer.ts), by what holds before and
-- after them, and rules for the pieces that they are made of.
use cedra_reflect.Base.{Bool, Bool-cases, Option, false, inl, inr, none, refl, some, true, ◌≡◌}
use cedra_reflect.Indexer.Operation.{
  IndexerState, Operation, World, assert_state_owner, consulting, is_owner, lifting, present,
  reading, requiring, returning, whether, writing, ◌▸◌,
}
use cedra_reflect.Indexer.Store.{Identity, IndexerError, Result, ok, refused}

-- After a result `Q`, after an error `I`.
abbrev pub Ended :
    {S A : Type 0} → (World S → Type 0) → (A → World S → Type 0) → World S × Result A → Type 0
Ended I Q (w, ok a) = Q a w
Ended I Q (w, refused e) = I w

pub record Triple {S A : Type 0} (I P : World S → Type 0) (m : Operation S A)
    (Q : A → World S → Type 0) : Type 0 where
  pub apply : (w : World S) → P w → Ended I Q (m w)

module _ {S : Type 0} (I : World S → Type 0) where
  then-Ended :
      {A B : Type 0} {Q : A → World S → Type 0} {R : B → World S → Type 0} (k : A → Operation S B)
      → ((a : A) → Triple I (Q a) (k a) R)
      → (r : World S × Result A) → Ended I Q r
      → Ended I R (elim r.1 [ ok a ↦ k a r.0 | refused e ↦ (r.0, refused e) ])
  then-Ended k f (w, ok a) h = (f a).apply w h
  then-Ended k f (w, refused e) h = h

  pub Triple-then :
      {A B : Type 0} {P : World S → Type 0} {Q : A → World S → Type 0} {R : B → World S → Type 0}
      {m : Operation S A} {k : A → Operation S B}
      → Triple I P m Q
      → ((a : A) → Triple I (Q a) (k a) R)
      → Triple I P (m ▸ k) R
  unfolding ◌▸◌
  Triple-then {m = m} {k = k} t f = record { apply = λ w h. then-Ended k f (m w) (t.apply w h) }

  pub Triple-returning :
      {A : Type 0} {P : World S → Type 0} {Q : A → World S → Type 0} (a : A)
      → ((w : World S) → P w → Q a w)
      → Triple I P (returning a) Q
  Triple-returning a f = record { apply = f }

  pub Triple-reading : {P : World S → Type 0} → Triple I P reading (λ s w. P w × (s ≡ w.indexer))
  Triple-reading = record { apply = λ w h. (h, refl) }

  pub Triple-writing :
      {P : World S → Type 0} (Q : World S → Type 0) (f : IndexerState → IndexerState)
      → ((w : World S) → P w → Q (record w { indexer = f w.indexer }))
      → Triple I P (writing f) (λ _ w. Q w)
  Triple-writing Q f h = record { apply = h }

  consulting-Ended :
      {A : Type 0} (P : World S → Type 0) (w : World S) (r : Result A)
      → P w
      → I w
      → Ended I (λ (_ : A) v. P v) (w, r)
  consulting-Ended P w (ok a) h i = h
  consulting-Ended P w (refused e) h i = i

  pub Triple-consulting :
      {A : Type 0} {P : World S → Type 0} (f : S → Result A)
      → ((w : World S) → P w → I w)
      → Triple I P (consulting f) (λ _ w. P w)
  Triple-consulting {P = P} f h = record {
    apply = λ w p. consulting-Ended P w (f w.store) p (h w p);
  }

  pub Triple-requiring :
      {P : World S → Type 0} (b : Bool) (e : IndexerError)
      → ((w : World S) → P w → I w)
      → Triple I P (requiring b e) (λ _ w. P w × (b ≡ true))
  Triple-requiring true e f = record { apply = λ w h. (h, refl) }
  Triple-requiring false e f = record { apply = λ w h. f w h }

  pub Triple-present :
      {A : Type 0} {P : World S → Type 0} (m : Option A) (e : IndexerError)
      → ((w : World S) → P w → I w)
      → Triple I P (present m e) (λ a w. P w × (m ≡ some a))
  Triple-present none e f = record { apply = λ w h. f w h }
  Triple-present (some a) e f = record { apply = λ w h. (h, refl) }

  pub Triple-lifting :
      {A : Type 0} {P : World S → Type 0} (m : Option A)
      → ((w : World S) → P w → I w)
      → Triple I P (lifting m) (λ a w. P w × (m ≡ some a))
  Triple-lifting none f = record { apply = λ w h. f w h }
  Triple-lifting (some a) f = record { apply = λ w h. (h, refl) }

  pub Triple-assert :
      {P : World S → Type 0} (owner : Identity)
      → ((w : World S) → P w → I w)
      → Triple I P (assert_state_owner owner) (λ _ w. P w)
  Triple-assert owner f = record {
    apply = λ w h. elim (Bool-cases (is_owner owner w.indexer.active_state_owner)) [
      | inl own ↦ rw own h
      | inr other ↦ rw other (f w h)
    ];
  }

  pub Triple-whether :
      {A : Type 0} {P : World S → Type 0} {Q : A → World S → Type 0} {b : Bool}
      {m n : Operation S A}
      → (b ≡ true → Triple I P m Q)
      → (b ≡ false → Triple I P n Q)
      → Triple I P (whether b m n) Q
  unfolding whether
  Triple-whether {b = true} f g = f refl
  Triple-whether {b = false} f g = g refl

  -- A weaker result.
  pub Triple-weaken :
      {A : Type 0} {P P' : World S → Type 0} {Q : A → World S → Type 0} {m : Operation S A}
      → ((w : World S) → P w → P' w)
      → Triple I P' m Q
      → Triple I P m Q
  Triple-weaken f t = record { apply = λ w h. t.apply w (f w h) }

  -- What is known before whatever the world is.
  pub Triple-given :
      {A : Type 0} {P : World S → Type 0} {Q : A → World S → Type 0} {m : Operation S A}
      (X : Type 0)
      → ((w : World S) → P w → X)
      → (X → Triple I P m Q)
      → Triple I P m Q
  Triple-given X f t = record { apply = λ w h. (t (f w h)).apply w h }

  result-Ended :
      {A : Type 0} (Q : A → World S → Type 0) (r : World S × Result A)
      → ((a : A) (w : World S) → Q a w → I w)
      → Ended I Q r
      → Ended I (λ _ w. I w × Unit) r
  result-Ended Q (w, ok a) f h = (f a w h, tt)
  result-Ended Q (w, refused e) f h = h

  -- A result that implies what holds after an error.
  pub Triple-result :
      {A : Type 0} {P : World S → Type 0} {Q : A → World S → Type 0} {m : Operation S A}
      → ((a : A) (w : World S) → Q a w → I w)
      → Triple I P m Q
      → Triple I P m (λ _ w. I w × Unit)
  Triple-result {Q = Q} {m = m} f t = record { apply = λ w h. result-Ended Q (m w) f (t.apply w h) }

  -- What holds after an error, where every result implies it too.
  pub left_behind :
      {A : Type 0} (Q : A → World S → Type 0) (r : World S × Result A)
      → ((a : A) (w : World S) → Q a w → I w)
      → Ended I Q r
      → I r.0
  left_behind Q (w, ok a) f h = f a w h
  left_behind Q (w, refused e) f h = h
