-- ===== src/Common/Op.antt =====
-- Methods that change an object and may fail. What was changed before the failure stays changed, so
-- the state comes back beside the error too.
use scuttlebot.Common.Tests.{Result, ok, err}

abbrev pub Op {ℓ} : Type ℓ → Type ℓ → Type ℓ → Type ℓ
Op E S A = S → Result E A × S

module _ {ℓ} {E S A : Type ℓ} where
  abbrev pub return : A → Op E S A
  return a s = (ok a, s)

  abbrev pub fail : E → Op E S A
  fail e s = (err e, s)

  -- A call of a pure function that may fail.
  abbrev pub attempt : Result E A → Op E S A
  attempt r s = (r, s)

  abbrev pub read : (S → A) → Op E S A
  read f s = (ok (f s), s)

abbrev pub change {ℓ} : {E S : Type ℓ} → (S → S) → Op E S (Unit {ℓ})
change f s = (ok tt, f s)

module _ {ℓ} {E S A B : Type ℓ} where
  abbrev pub go_on : Result E A → S → (A → Op E S B) → Result E B × S
  go_on (ok a) s f = f a s
  go_on (err e) s f = (err e, s)

  infixl 10 ◌>>=◌ ◌>>◌
  abbrev pub ◌>>=◌ : Op E S A → (A → Op E S B) → Op E S B
  ◌>>=◌ m f s = let r = m s in go_on r.0 r.1 f

  abbrev pub ◌>>◌ : Op E S A → Op E S B → Op E S B
  m >> n = m >>= λ _. n
