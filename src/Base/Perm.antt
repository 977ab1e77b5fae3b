-- ===== src/Base/Perm.antt =====
-- Permutations keep the length.
use mathlib.Core.Path.{◌≡◌, refl, ◌∙◌, ap}
use mathlib.Core.Logic.{∥∥₁_elim}
use mathlib.Core.List.{List, Perm, Permᴰ}
use native.Mathlib.Nat.{ℕ_set}
use Prim.Native.Nat.{suc}
use rediskrazy.Base.Lists.{length}

module _ {ℓ} {A : Type ℓ} where
  length-permᴰ : {l m : List A} → Permᴰ l m → length l ≡ length m
  length-permᴰ Permᴰ.nil = refl
  length-permᴰ (Permᴰ.cons e p) = ap suc (length-permᴰ p)
  length-permᴰ (Permᴰ.swap e e') = refl
  length-permᴰ (Permᴰ.trans p q) = length-permᴰ p ∙ length-permᴰ q

  pub length-perm : {l m : List A} → Perm l m → length l ≡ length m
  length-perm p = ∥∥₁_elim p (ℕ_set _ _) length-permᴰ
