-- ===== src/Common/Fills.antt =====
-- Loops that store into the entries of an array one after another.
use native.Mathlib.Decide.{ℕ_discrete}
use pint.Common.Lists.{length, get_or, set, get_or-set_self, get_or-set_ne, length-set}
use Prim.Native.Nat.{ℕ, ◌+◌, ◌≤◌, ◌<◌}
use mathlib.Core.Path.{◌≡◌, refl, ap, sym, ◌∙◌}
use mathlib.Core.List.{List}
use native.Mathlib.Omega.{arith}

-- The entries from first up to last have their new values, those before are as they were.
pub record Filled {ℓ} {A : Type ℓ} (d : A) (value : ℕ → A → A) (first last : ℕ)
    (before after : List A) : Type ℓ where
  pub size : length after ≡ length before
  pub new : (i : ℕ) → first ≤ i → i < last → get_or after i d ≡ value i (get_or before i d)
  pub old : (i : ℕ) → i < first → get_or after i d ≡ get_or before i d

module _ {ℓ} {A : Type ℓ} (d : A) (value : ℕ → A → A) where
  pub Filled-nothing : (first : ℕ) (entries : List A) → Filled d value first first entries entries
  Filled-nothing first entries = record {
    size = refl;
    new = λ i low high. absurd (omega arith);
    old = λ i low. refl;
  }

  -- The first entry is stored before the others.
  pub Filled-step :
      (first last : ℕ) (before after : List A)
      → first < length before
      → Filled d value
          (first + 1)
          last
          (set before first (value first (get_or before first d)))
          after
      → Filled d value first last before after
  Filled-step first last before after room f =
      let e = value first (get_or before first d) in
      record {
        size = f.size ∙ length-set before first e;
        new = λ i low high. elim (ℕ_discrete i first) [
          | yes same ↦
              let there = f.old first (omega arith) ∙ get_or-set_self before first e d room in
              rw same there
          | no ne ↦
              f.new i (omega arith) high
              ∙ ap (value i) (get_or-set_ne before first i e d (λ q. ne (sym q)))
        ];
        old = λ i low. f.old i (omega arith) ∙ get_or-set_ne before first i e d (omega arith);
      }
