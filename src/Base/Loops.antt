-- ===== src/Base/Loops.antt =====
-- The counted loop `for(i = 0; i < n; i++)` and its invariant rule.
use Prim.Native.Nat.{ℕ, zero, suc, ◌<◌}
use native.Mathlib.Omega.{arith}

-- The body sees the index and the state that the earlier rounds left.
unfoldable pub for_loop {ℓ} : {S : Type ℓ} → ℕ → (ℕ → S → S) → S → S
for_loop zero body s = s
for_loop (suc k) body s = body k (for_loop k body s)

pub for_loop_inv {ℓ κ} :
    {S : Type ℓ} (P : ℕ → S → Type κ) (body : ℕ → S → S) (n : ℕ)
    → ((i : ℕ) (s : S) → i < n → P i s → P (suc i) (body i s))
    → (s : S) → P 0 s
    → P n (for_loop n body s)
unfolding for_loop
for_loop_inv P body zero keep s h = h
for_loop_inv P body (suc k) keep s h =
    keep k _ (omega arith) (for_loop_inv P body k (λ i t p. keep i t (omega arith)) s h)
