-- ===== src/Prelude/Action.antt =====
-- A request handler: it changes the state and returns or throws. What was written before the throw
-- stays written, so the state comes back beside the error too.
use Prim.Native.String.{String}
use mathlib.Core.Path.{◌≡◌, refl}
use mathlib.Core.Logic.{◌⊎◌, inl, inr}
use mathlib.Core.Bool.{Bool, true, false, cond}
use mathlib.Core.Option.{Option, none, some}

-- The exceptions that the services throw, with their messages. `internal` is a plain `Error`.
pub data HttpError : Type 0 where
  unauthorized forbidden not_found conflict bad_request unavailable internal : String → HttpError

pub data Result (A : Type 0) : Type 0 where
  ok : A → Result A
  err : HttpError → Result A

abbrev pub Action : Type 0 → Type 0 → Type 0
Action S A = S → Result A × S

module _ {S A : Type 0} where
  abbrev pub pure : A → Action S A
  pure a s = (ok a, s)

  abbrev pub throw : HttpError → Action S A
  throw e s = (err e, s)

  -- A query.
  abbrev pub gets : (S → A) → Action S A
  gets f s = (ok (f s), s)

  -- `if (!o) throw e;`
  abbrev pub require : Option A → HttpError → Action S A
  require none e = throw e
  require (some a) e = pure a

module _ {S : Type 0} where
  -- A statement.
  abbrev pub modify : (S → S) → Action S (Unit {0})
  modify f s = (ok tt, f s)

  -- `if (b) throw e;`
  abbrev pub throw_if : Bool → HttpError → Action S (Unit {0})
  throw_if b e s = (cond b (err e) (ok tt), s)

  -- `if (b) { m }`
  abbrev pub when : Bool → Action S (Unit {0}) → Action S (Unit {0})
  when b m s = cond b (m s) (ok tt, s)

module _ {S A B : Type 0} where
  abbrev pub continue : Result A → (A → Action S B) → Action S B
  continue (ok a) f s = f a s
  continue (err e) f s = (err e, s)

  infixl 5 ◌>>=◌ ◌>>◌
  abbrev pub ◌>>=◌ : Action S A → (A → Action S B) → Action S B
  ◌>>=◌ m f s = let (r, s') = m s in continue r f s'

  abbrev pub ◌>>◌ : Action S A → Action S B → Action S B
  m >> k = m >>= λ _. k

-- Whether a call returned.
abbrev pub is_ok : {A : Type 0} → Result A → Bool
is_ok (ok a) = true
is_ok (err e) = false

-- A result is a value or an exception.
pub Result-cases :
    {A : Type 0} (r : Result A) → ((a : A) × (r ≡ ok a)) ⊎ ((e : HttpError) × (r ≡ err e))
Result-cases (ok a) = inl (a, refl)
Result-cases (err e) = inr (e, refl)
