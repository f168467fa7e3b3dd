-- ===== src/Common/Loops.antt =====
-- Counted loops.
use Prim.Native.Nat.{ℕ, zero, suc, ◌+◌, ◌<◌}
use mathlib.Core.Path.{◌≡◌, ◌∙◌, sym}
use mathlib.Core.List.{List, [], ◌∷◌, ◌++◌, append_assoc, append-nil}
use native.Mathlib.Omega.{arith}

-- for (i = first; i < first + rounds; i++) s = body(i, s);
unfoldable pub for_up {ℓ} : {S : Type ℓ} → ℕ → ℕ → (ℕ → S → S) → S → S
for_up zero first body s = s
for_up (suc rounds) first body s = for_up rounds (first + 1) body (body first s)

-- What each round keeps, from one value of the counter to the next, holds at the end.
pub for_up_inv {ℓ κ} :
    {S : Type ℓ} (P : ℕ → S → Type κ) (body : ℕ → S → S) (rounds first last : ℕ) (s : S)
    → first + rounds ≡ last
    → ((i : ℕ) (t : S) → i < last → P i t → P (i + 1) (body i t))
    → P first s
    → P last (for_up rounds first body s)
unfolding for_up
for_up_inv P body zero first last s e keep h = let e' : first ≡ last = omega arith in rw (← e') h
for_up_inv P body (suc rounds) first last s e keep h =
    for_up_inv P body rounds (first + 1) last (body first s) (omega arith) keep
      (keep first s (omega arith) h)

-- arg first, arg (first + 1) and so on.
unfoldable pub listed {ℓ} : {A : Type ℓ} → ℕ → ℕ → (ℕ → A) → List A
listed zero first arg = []
listed (suc count) first arg = arg first ∷ listed count (first + 1) arg

-- A loop that appends one entry in each round.
pub for_up-append {ℓ} :
    {A : Type ℓ} (count first : ℕ) (arg : ℕ → A) (l : List A)
    → for_up count first (λ i args. args ++ (arg i ∷ [])) l ≡ l ++ listed count first arg
unfolding for_up listed
for_up-append zero first arg l = sym (append-nil l)
for_up-append (suc count) first arg l =
    for_up-append count (first + 1) arg (l ++ (arg first ∷ [])) ∙ append_assoc l (arg first ∷ []) _
