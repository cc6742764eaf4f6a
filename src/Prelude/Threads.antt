-- ===== src/Prelude/Threads.antt =====
-- What each of any number of threads has, and the change of one of them.
use Prim.Native.Nat.{ℕ}
use mathlib.Core.Path.{◌≡◌, refl, subst}
use mathlib.Core.Logic.{◌≢◌, inl, inr}
use mathlib.Core.Option.{Option}
use native.Mathlib.Omega.{arith}
use socket_lib_linux.Prelude.Tests.{◌==◌, ==-refl, if◌then◌else◌, Bool-cases}

module _ {A : Type 0} where
  abbrev pub at_thread : ℕ → Option A → (ℕ → Option A) → ℕ → Option A
  at_thread i v vs j = if i == j then v else vs j

  pub at_thread_self : (i : ℕ) (v : Option A) (vs : ℕ → Option A) → at_thread i v vs i ≡ v
  at_thread_self i v vs = rw (==-refl i) refl

  pub at_thread_ne :
      (i j : ℕ) (v : Option A) (vs : ℕ → Option A) → i ≢ j → at_thread i v vs j ≡ vs j
  at_thread_ne i j v vs n = ground arith

  -- What holds of the new one of that thread, and of the old one of another, holds of each.
  pub at_thread_elim :
      (P : ℕ → Option A → Type 0) (i j : ℕ) (v : Option A) (vs : ℕ → Option A)
      → P i v
      → P j (vs j)
      → P j (at_thread i v vs j)
  at_thread_elim P i j v vs a b = elim (Bool-cases (i == j)) [
    | inl same ↦ rw same (subst (λ i. P i v) (ground arith) a)
    | inr other ↦ rw other b
  ]
