-- ===== src/Action.antt =====
-- Functions of the program that change an object and may throw, as actions: what was written before
-- an exception stays written, so the state comes back beside it too. `unfinished` is a loop that has
-- not ended within its fuel: nothing comes after it, and it is not caught.
pub mod Rules
use robot_harness.Base.{◌≡◌, refl}

pub data Outcome {ℓ} (A : Type ℓ) : Type ℓ where
  returned : A → Outcome A
  thrown : Outcome A
  unfinished : Outcome A

abbrev pub Action {ℓ} : Type ℓ → Type ℓ → Type ℓ
Action S A = S → Outcome A × S

module _ {ℓ} {S A : Type ℓ} where
  unfoldable pub pure : A → Action S A
  pure a s = (returned a, s)

  unfoldable pub raise : Action S A
  raise s = (thrown, s)

  unfoldable pub out_of_fuel : Action S A
  out_of_fuel s = (unfinished, s)

  unfoldable pub gets : (S → A) → Action S A
  gets f s = (returned (f s), s)

unfoldable pub modify : {S : Type 0} → (S → S) → Action S (Unit {0})
modify f s = (returned tt, f s)

module _ {ℓ} {S A B : Type ℓ} where
  abbrev pub continue : Outcome A → (A → Action S B) → Action S B
  continue (returned a) f s = f a s
  continue thrown f s = (thrown, s)
  continue unfinished f s = (unfinished, s)

  infixl 10 ◌>>=◌ ◌>>◌
  unfoldable pub ◌>>=◌ : Action S A → (A → Action S B) → Action S B
  ◌>>=◌ m f s = let (r, s') = m s in continue r f s'

  abbrev pub ◌>>◌ : Action S A → Action S B → Action S B
  m >> n = m >>= λ _. n

abbrev pub recover {ℓ} : {S A : Type ℓ} → Outcome A → Action S A → Action S A
recover (returned a) k s = (returned a, s)
recover thrown k s = k s
recover unfinished k s = (unfinished, s)

-- `try { m } catch (...) { k }`.
unfoldable pub on_throw {ℓ} : {S A : Type ℓ} → Action S A → Action S A → Action S A
on_throw m k s = let (r, s') = m s in recover r k s'
