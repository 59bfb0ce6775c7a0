-- ===== src/Prelude/Effects.antt =====
-- Go functions over a state: they return a value, return an error, or panic. What was changed
-- before a failure stays changed, so the state comes back beside each outcome.
use Prim.Native.Nat.{ℕ}
use Prim.Native.String.{String}
use mathlib.Core.Option.{Option, none, some}

-- How an `error` was made: by `errors.New(text)` or `errors.Errorf`, by `errors.Wrap(err, text)`,
-- or in another package, with the HTTP status that it carries and its text.
pub data Err : Type 0 where
  new : String → Err
  wrap : Err → String → Err
  foreign : ℕ → String → Err

pub data Res {ℓ} (A : Type ℓ) : Type ℓ where
  ok : A → Res A
  err : Err → Res A
  panic : Res A

-- The two results `(T, error)` of a function that neither panics nor changes a state.
pub data Fallible (A : Type 0) : Type 0 where
  gives : A → Fallible A
  fails : Err → Fallible A

abbrev pub wrap_error : {A : Type 0} → Fallible A → String → Fallible A
wrap_error (gives a) text = gives a
wrap_error (fails e) text = fails (wrap e text)

abbrev pub Go {ℓ} : Type ℓ → Type ℓ → Type ℓ
Go S A = S → Res A × S

module _ {ℓ} {S A B : Type ℓ} where
  abbrev pub bind_res : Res A × S → (A → Go S B) → Res B × S
  bind_res (ok a, s) f = f a s
  bind_res (err e, s) f = (err e, s)
  bind_res (panic, s) f = (panic, s)

  infixl 5 ◌>>=◌ ◌>>◌
  abbrev pub ◌>>=◌ : Go S A → (A → Go S B) → Go S B
  ◌>>=◌ m f s = bind_res (m s) f

  abbrev pub ◌>>◌ : Go S A → Go S B → Go S B
  ◌>>◌ m n s = bind_res (m s) (λ _. n)

abbrev pub wrap_res {ℓ} : {A : Type ℓ} → Res A → String → Res A
wrap_res (ok a) text = ok a
wrap_res (err e) text = err (wrap e text)
wrap_res panic text = panic

module _ {ℓ} {S A : Type ℓ} where
  abbrev pub pure : A → Go S A
  pure a s = (ok a, s)

  abbrev pub fail : Err → Go S A
  fail e s = (err e, s)

  -- `if err := m; err != nil { return errors.Wrap(err, text) }`
  abbrev pub or_wrap : Go S A → String → Go S A
  or_wrap m text s = let (r, s') = m s in (wrap_res r text, s')

  -- `defer d()`: it runs on a return, on an error and on a panic.
  abbrev pub deferred : (S → S) → Go S A → Go S A
  deferred d m s = let (r, s') = m s in (r, d s')

-- `e := m`, where the caller goes on with the error as a value.
abbrev pub error_of {ℓ} : {A : Type ℓ} → Res A → Res (Option Err)
error_of (ok a) = ok none
error_of (err e) = ok (some e)
error_of panic = panic

abbrev pub attempt : {S A : Type 0} → Go S A → Go S (Option Err)
attempt m s = let (r, s') = m s in (error_of r, s')
