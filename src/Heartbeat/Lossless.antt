-- ===== src/Heartbeat/Lossless.antt =====
-- The heartbeat of controllers/client.c and controllers/server.c in a network that loses nothing,
-- when no SIGURG comes inside the SIGALRM handler.
use pint.Common.{
  subst, ℕ, ◌≡◌, refl, ap, sym, ◌∙◌, Bool, true, false, List, [], ◌∷◌, ◌++◌, arith, length-append,
}
use pint.Heartbeat.{
  Surroundings, System, Step, Reach, started, later, fires, ends, serves, hears, loses_request,
  loses_reply, on_urgent, on_alarm, end_alarm, server_answer,
}
use pint.Heartbeat.Turns.{tokens, sys, InTurn, All, ends-InTurn, Reach-InTurn}

abbrev pub calm : Surroundings
calm = record { lossy = false; nested = false }

fires_tokens :
    (g a : Bool) (n : ℕ) (q p : List ℕ)
    → tokens (record (sys g false a n q p) {
      client = (on_alarm (sys g false a n q p).client).0;
      to_server = q ++ (on_alarm (sys g false a n q p).client).1;
    })
      ≡ tokens (sys g false a n q p)
unfolding on_alarm
fires_tokens true a n q p = omega (arith, length-append q (b'?' ∷ []))
fires_tokens false a n q p = omega (arith, length-append {A = ℕ} q [])

serves_tokens :
    (g k a : Bool) (n c : ℕ) (q p : List ℕ)
    → All b'?' (c ∷ q)
    → tokens (sys g k a n q (p ++ server_answer c)) ≡ tokens (sys g k a n (c ∷ q) p)
unfolding server_answer
serves_tokens g k a n c q p h = rw h.0 (omega (arith, length-append p (b'Y' ∷ [])))

hears_tokens :
    (g a : Bool) (n c : ℕ) (q p : List ℕ)
    → All b'Y' (c ∷ p)
    → tokens (sys g false a n q (c ∷ p)) ≡ 1
    → tokens
        (record { client = on_urgent c (sys g false a n q p).client; to_server = q; to_client = p })
      ≡ 1
unfolding on_urgent
hears_tokens g a n c q p h e = rw h.0 (ground arith)

-- A flag whose truth would make false true.
idle : (k : Bool) → (k ≡ true → false ≡ true) → k ≡ false
idle true h = sym (h refl)
idle false h = refl

abbrev with_asking : System → Bool → System
with_asking s k = record s { client = record s.client { asking = k } }

Step-tokens : {s t : System} → Step calm s t → InTurn s → tokens s ≡ 1 → tokens t ≡ 1
unfolding on_alarm end_alarm on_urgent
Step-tokens {s = s} (fires armed still) h e =
    subst
      (λ k.
        tokens (record s {
          client = (on_alarm (record s.client { asking = k })).0;
          to_server = s.to_server ++ (on_alarm (record s.client { asking = k })).1;
        })
        ≡ 1)
      (sym still)
      (fires_tokens s.client.got_reply s.client.armed s.client.recoveries s.to_server s.to_client
        ∙ subst (λ k. tokens (with_asking s k) ≡ 1) still e)
Step-tokens {s = s} (ends asking) h e = subst (λ k. tokens (with_asking s k) ≡ 1) asking e
Step-tokens {s = s} (serves c rest q) h e =
    serves_tokens s.client.got_reply s.client.asking s.client.armed s.client.recoveries c rest
      s.to_client (subst (All b'?') q h.requests)
    ∙ (ap (λ q. tokens (record s { to_server = q })) (sym q) ∙ e)
Step-tokens {s = s} (hears c rest q nested) h e =
    subst
      (λ k.
        tokens
          (record s { client = on_urgent c (record s.client { asking = k }); to_client = rest })
        ≡ 1)
      (sym (idle s.client.asking nested))
      (hears_tokens s.client.got_reply s.client.armed s.client.recoveries c s.to_server rest
        (subst (All b'Y') q h.replies)
        (subst (λ p. tokens (record (with_asking s false) { to_client = p }) ≡ 1) q
          (subst (λ k. tokens (with_asking s k) ≡ 1) (idle s.client.asking nested) e)))
Step-tokens (loses_request c rest lossy _) h e = cc
Step-tokens (loses_reply c rest lossy _) h e = cc

Reach-tokens : {s : System} → Reach calm s → tokens s ≡ 1
Reach-tokens started = refl
Reach-tokens (later before step) = Step-tokens step (Reach-InTurn before) (Reach-tokens before)

-- One step after another.
pub data Steps : System → System → Type 0 where
  here : {s : System} → Steps s s
  next : {s t u : System} → Step calm s t → Steps t u → Steps s u

-- The client can hear from the server, with no recovery called meanwhile.
abbrev pub Hears : System → Type 0
Hears s =
    (t : System) × Steps s t
    × t.client.got_reply ≡ true
    × t.client.asking ≡ false
    × t.client.recoveries ≡ s.client.recoveries

answer_arrives :
    (g a : Bool) (n c : ℕ) (q p : List ℕ) → c ≡ b'Y' → Hears (sys g false a n q (c ∷ p))
unfolding on_urgent
answer_arrives g a n c q p same = (_, next (hears c p refl (λ e. e)) here, rw same, refl, refl)

idle_heard :
    (g a : Bool) (n : ℕ) (q p : List ℕ)
    → InTurn (sys g false a n q p)
    → tokens (sys g false a n q p) ≡ 1
    → Hears (sys g false a n q p)
unfolding server_answer
idle_heard true a n q p h e = (_, here, refl, refl, refl)
idle_heard false a n [] [] h e = ground arith
idle_heard false a n [] (c ∷ p) h e = answer_arrives false a n c [] p h.replies.0
idle_heard false a n (c ∷ q) [] h e =
    let (t, steps, got, still, same) = answer_arrives false a n b'Y' q [] refl in
    (t, next (serves c q refl) (rw h.requests.0 steps), got, still, same)
idle_heard false a n (c ∷ q) (d ∷ p) h e = ground arith

always_heard :
    (g k a : Bool) (n : ℕ) (q p : List ℕ)
    → InTurn (sys g k a n q p)
    → tokens (sys g k a n q p) ≡ 1
    → Hears (sys g k a n q p)
unfolding end_alarm
always_heard g true a n q p h e =
    let (t, steps, got, still, same) = idle_heard false a n q p (ends-InTurn g a n q p h) e in
    (t, next (ends refl) steps, got, still, same)
always_heard g false a n q p h e = idle_heard g a n q p h e

-- From every state that is reached when the network loses nothing and no SIGURG comes inside the
-- SIGALRM handler, the client can come to hold an answer again without a further recovery.
pub Reach-Hears : {s : System} → Reach calm s → Hears s
Reach-Hears {s = s} before =
    always_heard s.client.got_reply s.client.asking s.client.armed s.client.recoveries s.to_server
      s.to_client (Reach-InTurn before) (Reach-tokens before)
