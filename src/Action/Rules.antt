-- ===== src/Action/Rules.antt =====
-- Rules for actions, one for each way to build an action: what an action does to the state, and
-- that it returns.
use robot_harness.Base.{◌≡◌, ◌≢◌, refl, Bool, true, false, if◌then◌else◌}
use robot_harness.Action.{
  Outcome, returned, thrown, unfinished, Action, pure, raise, gets, modify, continue, ◌>>=◌,
}

pub record IsPreorder {ℓ} {S : Type ℓ} (R : S → S → Type ℓ) : Type ℓ where
  pub reflexive : (s : S) → R s s
  pub transitive : (s t u : S) → R s t → R t u → R s u

-- Whether the action returns or throws, the state that it leaves is related to the first one.
pub record Relates {ℓ} {S A : Type ℓ} (R : S → S → Type ℓ) (m : Action S A) : Type ℓ where
  pub at : (s : S) → R s (m s).1

module _ {ℓ} {S A : Type ℓ} {R : S → S → Type ℓ} where
  pub Relates-pure : (a : A) → IsPreorder R → Relates R (pure a)
  unfolding pure
  Relates-pure a o = record { at = o.reflexive }

  pub Relates-raise : IsPreorder R → Relates R (raise {A = A})
  unfolding raise
  Relates-raise o = record { at = o.reflexive }

  pub Relates-gets : (f : S → A) → IsPreorder R → Relates R (gets f)
  unfolding gets
  Relates-gets f o = record { at = o.reflexive }

  pub Relates-if :
      (b : Bool) (m n : Action S A) → Relates R m → Relates R n → Relates R (if b then m else n)
  Relates-if true m n k l = k
  Relates-if false m n k l = l

pub Relates-modify :
    {S : Type 0} {R : S → S → Type 0} (f : S → S) → ((s : S) → R s (f s)) → Relates R (modify f)
unfolding modify
Relates-modify f k = record { at = k }

module _ {ℓ} {S A B : Type ℓ} {R : S → S → Type ℓ} where
  Relates-continue :
      (o : IsPreorder R) (s t : S) (r : Outcome A) (f : A → Action S B)
      → R s t
      → ((a : A) → Relates R (f a))
      → R s (continue r f t).1
  Relates-continue o s t (returned a) f k l = o.transitive s t (f a t).1 k ((l a).at t)
  Relates-continue o s t thrown f k l = k
  Relates-continue o s t unfinished f k l = k

  pub Relates-bind :
      (m : Action S A) (f : A → Action S B)
      → IsPreorder R
      → Relates R m
      → ((a : A) → Relates R (f a))
      → Relates R (m >>= f)
  unfolding ◌>>=◌
  Relates-bind m f o k l = record { at = λ s. Relates-continue o s (m s).1 (m s).0 f (k.at s) l }

pub ruleset relates_rules = (Relates-pure, Relates-raise, Relates-gets, Relates-if, Relates-bind)

-- From every state where `P` holds the action returns, and `Q` holds afterwards.
pub record Ensures {ℓ} {S A : Type ℓ} (P Q : S → Type ℓ) (m : Action S A) : Type ℓ where
  pub at : (s : S) → P s → ((a : A) × ((m s).0 ≡ returned a)) × Q (m s).1

abbrev pub Returns {ℓ} : {S A : Type ℓ} → (S → Type ℓ) → Action S A → Type ℓ
Returns P m = Ensures P P m

module _ {ℓ} {S A : Type ℓ} {P : S → Type ℓ} where
  pub Returns-pure : (a : A) → Returns P (pure a)
  unfolding pure
  Returns-pure a = record { at = λ s h. ((a, refl), h) }

  pub Returns-gets : (f : S → A) → Returns P (gets f)
  unfolding gets
  Returns-gets f = record { at = λ s h. ((f s, refl), h) }

  pub Returns-if :
      (b : Bool) (m n : Action S A) → Returns P m → Returns P n → Returns P (if b then m else n)
  Returns-if true m n k l = k
  Returns-if false m n k l = l

pub Returns-modify :
    {S : Type 0} {P : S → Type 0} (f : S → S) → ((s : S) → P s → P (f s)) → Returns P (modify f)
unfolding modify
Returns-modify f k = record { at = λ s h. ((tt, refl), k s h) }

module _ {ℓ} {S A B : Type ℓ} {Q R : S → Type ℓ} where
  Ensures-continue :
      (t : S) (r : Outcome A) (f : A → Action S B)
      → ((a : A) × (r ≡ returned a))
      → Q t
      → ((a : A) → Ensures Q R (f a))
      → ((b : B) × ((continue r f t).0 ≡ returned b)) × R (continue r f t).1
  Ensures-continue t (returned a) f k h l = (l a).at t h
  Ensures-continue t thrown f (a, e) h l = cc
  Ensures-continue t unfinished f (a, e) h l = cc

  pub Ensures-bind :
      {P : S → Type ℓ} (m : Action S A) (f : A → Action S B)
      → Ensures P Q m
      → ((a : A) → Ensures Q R (f a))
      → Ensures P R (m >>= f)
  unfolding ◌>>=◌
  Ensures-bind m f k l = record {
    at = λ s h. Ensures-continue (m s).1 (m s).0 f (k.at s h).0 (k.at s h).1 l;
  }

pub Returns-bind {ℓ} :
    {S A B : Type ℓ} {P : S → Type ℓ} (m : Action S A) (f : A → Action S B)
    → Returns P m
    → ((a : A) → Returns P (f a))
    → Returns P (m >>= f)
Returns-bind m f k l = Ensures-bind m f k l

pub ruleset returns_rules = (Returns-pure, Returns-gets, Returns-if, Returns-bind)

-- The action does not run out of fuel.
pub record Finishes {ℓ} {S A : Type ℓ} (m : Action S A) : Type ℓ where
  pub at : (s : S) → (m s).0 ≢ unfinished

pub Ensures-Finishes {ℓ} :
    {S A : Type ℓ} {P Q : S → Type ℓ} {m : Action S A}
    → ((s : S) → P s)
    → Ensures P Q m
    → Finishes m
Ensures-Finishes h k = record { at = λ s e. let r = (k.at s (h s)).0.1 in cc }

module _ {ℓ} {S A B : Type ℓ} where
  Finishes-continue :
      (t : S) (r : Outcome A) (f : A → Action S B)
      → r ≢ unfinished
      → ((a : A) → Finishes (f a))
      → (continue r f t).0 ≢ unfinished
  Finishes-continue t (returned a) f n l = (l a).at t
  Finishes-continue t thrown f n l = λ e. cc
  Finishes-continue t unfinished f n l = absurd (n refl)

  pub Finishes-bind :
      (m : Action S A) (f : A → Action S B)
      → Finishes m
      → ((a : A) → Finishes (f a))
      → Finishes (m >>= f)
  unfolding ◌>>=◌
  Finishes-bind m f k l = record { at = λ s. Finishes-continue (m s).1 (m s).0 f (k.at s) l }
