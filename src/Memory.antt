-- ===== src/Memory.antt =====
-- Memory as the code sees it through pointers: a function from addresses to values, of words or of
-- bytes, with an assignment at one address.
use hyparm.Common.{ℕ, ◌≡◌, ◌≢◌, ◌==◌, if◌then◌else◌, arith}

abbrev pub Memory {ℓ} : Type ℓ → Type ℓ
Memory A = ℕ → A

unfoldable pub update {ℓ} : {A : Type ℓ} → Memory A → ℕ → A → Memory A
update m a v b = if a == b then v else m b

module _ {ℓ} {A : Type ℓ} (m : Memory A) (a : ℕ) (v : A) where
  pub update_self : update m a v a ≡ v
  unfolding update
  update_self = ground arith

  pub update_ne : (b : ℕ) → a ≢ b → update m a v b ≡ m b
  unfolding update
  update_ne b h = ground arith
