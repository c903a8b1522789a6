-- ===== src/Prelude/Effects.antt =====
-- Stateful C code as state passing, and calls of code outside the repository.
-- A call of outside code is recorded in a trace, newest first, together with its answer. The answer
-- comes from an environment, an arbitrary function of the calls made before and the call made now.
use mathlib.Core.List.{List, ◌∷◌}

module _ {ℓ} where
  abbrev pub Io : Type ℓ → Type ℓ → Type ℓ
  Io W A = W → A × W

  abbrev pub Trace : Type ℓ → Type ℓ → Type ℓ
  Trace C R = List (C × R)

  abbrev pub Env : Type ℓ → Type ℓ → Type ℓ
  Env C R = Trace C R → C → R

module _ {ℓ} {W A : Type ℓ} where
  abbrev pub pure : A → Io W A
  pure a w = (a, w)

module _ {ℓ} {C R : Type ℓ} where
  abbrev pub call : Env C R → C → Io (Trace C R) R
  call env c past = (env past c, (c, env past c) ∷ past)

module _ {ℓ} {W A B : Type ℓ} where
  infixl 5 ◌>>=◌ ◌>>◌
  abbrev pub ◌>>=◌ : Io W A → (A → Io W B) → Io W B
  ◌>>=◌ m f w = f (m w).0 (m w).1

  abbrev pub ◌>>◌ : Io W A → Io W B → Io W B
  ◌>>◌ m k w = k (m w).1
