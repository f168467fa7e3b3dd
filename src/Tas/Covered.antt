-- ===== src/Tas/Covered.antt =====
-- The addresses that the loop of parseLine of tas_lib/force.c touches.
use pint.Common.{
  ℕ, zero, suc, ◌+◌, ◌*◌, ◌/◌, ◌%◌, ◌^◌, ◌≤◌, ◌<◌, ◌≡◌, refl, ◌⊎◌, inl, inr, false, List, [], ◌∷◌,
  some, ltb, arith, Bool-cases, Returns, Returns-bind,
}
use pint.Tas.Maps.{stride, page, touch}

-- One of the addresses is in the page of x.
abbrev pub Hit : ℕ → List ℕ → Type 0
Hit x [] = ⊥
Hit x (y ∷ ys) = (y / page ≡ x / page) ⊎ Hit x ys

abbrev pub Within : ℕ → ℕ → List ℕ → Type 0
Within lo hi [] = Unit {0}
Within lo hi (y ∷ ys) = ((lo ≤ y) × (y < hi)) × Within lo hi ys

Within-below : (lo lo' hi : ℕ) (ys : List ℕ) → lo ≤ lo' → Within lo' hi ys → Within lo hi ys
Within-below lo lo' hi [] le h = tt
Within-below lo lo' hi (y ∷ ys) le h =
    ((omega (arith, le, h.0.0), h.0.1), Within-below lo lo' hi ys le h.1)

pub record Touched (start end : ℕ) (ys : List ℕ) : Type 0 where
  pub within : Within start end ys
  pub all_hit : (x : ℕ) → start ≤ x → x < end → Hit x ys

Touched-nothing : (a end : ℕ) → end ≤ a → Touched a end []
Touched-nothing a end le = record { within = tt; all_hit = λ x low high. absurd (omega arith) }

Touched-more :
    (a end : ℕ) (ys : List ℕ)
    → a % stride ≡ 0
    → a < end
    → Touched (a + stride) end ys
    → Touched a end (a ∷ ys)
Touched-more a end ys half lt t = record {
  within = ((omega arith, lt), Within-below a (a + stride) end ys (omega arith) t.within);
  all_hit = λ x low high. elim (Bool-cases (ltb x (a + stride))) [
    | inl here ↦
        let near : x < a + stride = ground (arith, here) in inl (omega (arith, half, low, near))
    | inr later ↦ inr (t.all_hit x (ground (arith, later)) high)
  ];
}

pub touch-Touched :
    (n a end : ℕ)
    → a % stride ≡ 0
    → end + stride ≤ 2 ^ 64
    → end ≤ a + stride * n
    → Returns (Touched a end) (touch (suc n) a end)
unfolding touch
touch-Touched zero a end half room enough =
    let outside : ltb a end ≡ false = ground (arith, enough) in
    rw outside ([], refl, Touched-nothing a end (omega (arith, enough)))
touch-Touched (suc n) a end half room enough = elim (Bool-cases (ltb a end)) [
  | inl inside ↦
      let lt : a < end = ground (arith, inside) in
      let same : (a + stride) % 2 ^ 64 ≡ a + stride = omega (arith, lt, room) in
      rw (inside, same)
        (Returns-bind (Touched (a + stride) end) (Touched a end) (touch (suc n) (a + stride) end)
          (λ l. some (a ∷ l))
          (touch-Touched n (a + stride) end (omega (arith, half)) room (omega arith))
          (λ l t. (a ∷ l, refl, Touched-more a end l half lt t)))
  | inr outside ↦ rw outside ([], refl, Touched-nothing a end (ground (arith, outside)))
]
