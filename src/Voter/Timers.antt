-- ===== src/Voter/Timers.antt =====
-- Which pipes of the voter start and stop its timer: the last loop of parseArgs of voter/voterd.c.
use pint.Common.{
  ℕ, ◌+◌, ◌<◌, ◌≡◌, ◌⊎◌, inl, inr, refl, sym, ◌∙◌, subst, Bool, true, false, not, ◌&&◌, arith, ◌==◌,
  for_up, for_up_inv, Bool-cases,
}
use native.Mathlib.Decide.{ℕ_discrete}
use pint.Voter.State.{Voter, ext_pipe}
use pint.Voter.Arguments.{note_timer}

-- x is the last index below n that has the property, or `before` when none has it.
abbrev pub LastBelow : (ℕ → Bool) → ℕ → ℕ → ℕ → Type 0
LastBelow p n before x =
    ((x < n) × (p x ≡ true) × ((j : ℕ) → x < j → j < n → p j ≡ false))
    ⊎ (((j : ℕ) → j < n → p j ≡ false) × (x ≡ before))

LastBelow-hit : (p : ℕ → Bool) (n before : ℕ) → p n ≡ true → LastBelow p (n + 1) before n
LastBelow-hit p n before e = inl (omega arith, e, λ j low high. absurd (omega arith))

LastBelow-miss :
    (p : ℕ → Bool) (n before x : ℕ)
    → p n ≡ false
    → LastBelow p n before x
    → LastBelow p (n + 1) before x
LastBelow-miss p n before x e (inl (lt, hit, after)) = inl (
  omega arith,
  hit,
  λ j low high. elim (ℕ_discrete j n) [ yes same ↦ rw same e | no ne ↦ after j low (omega arith) ],
)
LastBelow-miss p n before x e (inr (none_hit, same)) =
    inr (
      (λ j high. elim (ℕ_discrete j n) [ yes q ↦ rw q e | no ne ↦ none_hit j (omega arith) ]),
      same,
    )

pub LastBelow-same :
    (p q : ℕ → Bool) (n before x : ℕ)
    → ((j : ℕ) → j < n → p j ≡ q j)
    → LastBelow p n before x
    → LastBelow q n before x
LastBelow-same p q n before x same (inl (lt, hit, after)) =
    inl (lt, sym (same x lt) ∙ hit, λ j low high. sym (same j high) ∙ after j low high)
LastBelow-same p q n before x same (inr (none_hit, e)) =
    inr ((λ j high. sym (same j high) ∙ none_hit j high), e)

module _ (v : Voter) where
  abbrev pub starts : ℕ → Bool
  starts i = (ext_pipe v i).timed && not ((ext_pipe v i).fd_in == 0)

  abbrev pub stops : ℕ → Bool
  stops i = (ext_pipe v i).timed && ((ext_pipe v i).fd_in == 0)

  -- The state after the first n rounds.
  abbrev Noted : ℕ → Voter → Type 0
  Noted n t =
      (a b : ℕ) × (t ≡ record v { timer_start_index = a; timer_stop_index = b })
      × LastBelow starts n v.timer_start_index a
      × LastBelow stops n v.timer_stop_index b

  note_timer-Noted :
      (i a b : ℕ)
      → LastBelow starts i v.timer_start_index a
      → LastBelow stops i v.timer_stop_index b
      → Noted (i + 1) (note_timer i (record v { timer_start_index = a; timer_stop_index = b }))
  unfolding note_timer
  note_timer-Noted i a b ha hb = elim (Bool-cases (ext_pipe v i).timed) [
    | inl timed ↦ elim (Bool-cases ((ext_pipe v i).fd_in == 0)) [
      | inl out ↦ (
        a,
        i,
        rw timed (rw out refl),
        LastBelow-miss starts i v.timer_start_index a (rw timed (rw out refl)) ha,
        LastBelow-hit stops i v.timer_stop_index (rw timed (rw out refl)),
      )
      | inr into ↦ (
        i,
        b,
        rw timed (rw into refl),
        LastBelow-hit starts i v.timer_start_index (rw timed (rw into refl)),
        LastBelow-miss stops i v.timer_stop_index b (rw timed (rw into refl)) hb,
      )
    ]
    | inr plain ↦ (
      a,
      b,
      rw plain refl,
      LastBelow-miss starts i v.timer_start_index a (rw plain refl) ha,
      LastBelow-miss stops i v.timer_stop_index b (rw plain refl) hb,
    )
  ]

  pub timers-Noted : (n : ℕ) → Noted n (for_up n 0 note_timer v)
  timers-Noted n =
      for_up_inv Noted note_timer n 0 n v (omega arith)
        (λ i t lt h.
          subst (λ u. Noted (i + 1) (note_timer i u)) (sym h.2)
            (note_timer-Noted i h.0 h.1 h.3 h.4))
        (
          v.timer_start_index,
          v.timer_stop_index,
          refl,
          inr ((λ j high. absurd (omega arith)), refl),
          inr ((λ j high. absurd (omega arith)), refl),
        )
