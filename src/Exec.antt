-- ===== src/Exec.antt =====
-- Procedures over a state that may fail. What one did before an error stays done.
use yafe.Prelude.{◌≡◌, refl, Bool, Option, none, some, if◌then◌else◌}
use yafe.Result.{Error, Result, ok, err, wrapped}

abbrev pub Exec : Type 0 → Type 0 → Type 0
Exec S A = S → Result A × S

module _ {S A : Type 0} where
  abbrev pub pure : A → Exec S A
  pure a s = (ok a, s)

  abbrev pub raise : Error → Exec S A
  raise e s = (err e, s)

  -- The result of a call as a value, for code that goes on after an error.
  abbrev pub attempt : Exec S A → Exec S (Result A)
  attempt m s = let (r, s') = m s in (ok r, s')

  abbrev pub lift : Result A → Exec S A
  lift r s = (r, s)

  abbrev pub choose : Bool → Exec S A → Exec S A → Exec S A
  choose b m n s = if b then m s else n s

  -- `return fmt.Errorf("...: %w", err)`
  abbrev pub wrap : Exec S A → Exec S A
  wrap m s = (elim (m s).0 [ ok a ↦ ok a | err e ↦ err (wrapped e) ], (m s).1)

module _ {S A B : Type 0} where
  infixl 5 ◌>>=◌ ◌>>◌
  abbrev pub ◌>>=◌ : Exec S A → (A → Exec S B) → Exec S B
  ◌>>=◌ m f s = elim (m s).0 [ ok a ↦ f a (m s).1 | err e ↦ (err e, (m s).1) ]

  -- A branch on the result of a call, and one on a value that may be missing.
  abbrev pub handle : Result A → (A → Exec S B) → (Error → Exec S B) → Exec S B
  handle r f g s = elim r [ ok a ↦ f a s | err e ↦ g e s ]

  abbrev pub match_option : Option A → Exec S B → (A → Exec S B) → Exec S B
  match_option o m f s = elim o [ none ↦ m s | some a ↦ f a s ]

  abbrev pub ◌>>◌ : Exec S A → Exec S B → Exec S B
  m >> k = m >>= λ _. k

  -- A procedure that gives a value goes on with it, and one that fails ends there.
  pub bind_value :
      (m : Exec S A) (f : A → Exec S B) (s : S) (a : A) → (m s).0 ≡ ok a → (m >>= f) s ≡ f a (m s).1
  bind_value m f s a e = rw (◌>>=◌, e) refl

  pub bind_error :
      (m : Exec S A) (f : A → Exec S B) (s : S) (e : Error)
      → (m s).0 ≡ err e
      → (m >>= f) s ≡ (err e, (m s).1)
  bind_error m f s c e = rw (◌>>=◌, e) refl
