-- ===== src/Heartbeat/Turns.antt =====
-- Client and server take turns.
use pint.Common.{
  subst, ℕ, ◌+◌, ◌≤◌, ◌≡◌, refl, sym, Bool, true, false, List, [], ◌∷◌, ◌++◌, arith, ◌==◌,
  if◌then◌else◌, length, length-append,
}
use pint.Heartbeat.{
  Surroundings, System, Step, Reach, started, later, fires, ends, serves, hears, loses_request,
  loses_reply, on_urgent, on_alarm, end_alarm, server_answer,
}

abbrev pub All : ℕ → List ℕ → Type 0
All c [] = Unit {0}
All c (x ∷ xs) = (x ≡ c) × All c xs

All-append : (c : ℕ) (xs ys : List ℕ) → All c xs → All c ys → All c (xs ++ ys)
All-append c [] ys h k = k
All-append c (x ∷ xs) ys h k = (h.0, All-append c xs ys h.1 k)

-- The bytes under way, and the right to ask, which the client gives up when it begins to.
abbrev pub tokens : System → ℕ
tokens s =
    length s.to_server
    + length s.to_client
    + (if s.client.asking then 0 else if s.client.got_reply then 1 else 0)

-- At most one byte is under way, and none when the client may ask; requests go one way and answers
-- the other; the alarm is set exactly as long as no recovery has been started, and that is done
-- once at most.
pub record InTurn (s : System) : Type 0 where
  pub one : tokens s ≤ 1
  pub requests : All b'?' s.to_server
  pub replies : All b'Y' s.to_client
  pub once : s.client.recoveries ≤ 1
  pub watching : s.client.armed ≡ (s.client.recoveries == 0)

head_is : (c x : ℕ) (l rest : List ℕ) → All c l → l ≡ x ∷ rest → (x ≡ c) × All c rest
head_is c x l rest h e = let k : All c (x ∷ rest) = rw e at h in k

-- The system by its parts.
abbrev pub sys : Bool → Bool → Bool → ℕ → List ℕ → List ℕ → System
sys g k a n q p = record {
  client = record { got_reply = g; asking = k; armed = a; recoveries = n };
  to_server = q;
  to_client = p;
}

fires-InTurn :
    (g a : Bool) (n : ℕ) (q p : List ℕ)
    → a ≡ true
    → InTurn (sys g false a n q p)
    → InTurn (record (sys g false a n q p) {
      client = (on_alarm (sys g false a n q p).client).0;
      to_server = q ++ (on_alarm (sys g false a n q p).client).1;
    })
unfolding on_alarm
fires-InTurn true a n q p armed h = record {
  one = omega (arith, length-append q (b'?' ∷ []), h.one);
  requests = All-append b'?' q (b'?' ∷ []) h.requests (refl, tt);
  replies = h.replies;
  once = h.once;
  watching = ground arith;
}
fires-InTurn false a n q p armed h = record {
  one = omega (arith, length-append {A = ℕ} q [], h.one);
  requests = All-append b'?' q [] h.requests tt;
  replies = h.replies;
  once = ground arith;
  watching = ground arith;
}

pub ends-InTurn :
    (g a : Bool) (n : ℕ) (q p : List ℕ)
    → InTurn (sys g true a n q p)
    → InTurn (record (sys g true a n q p) { client = end_alarm (sys g true a n q p).client })
unfolding end_alarm
ends-InTurn g a n q p h = record {
  one = h.one;
  requests = h.requests;
  replies = h.replies;
  once = h.once;
  watching = h.watching;
}

serves-InTurn :
    (g k a : Bool) (n c : ℕ) (q p : List ℕ)
    → InTurn (sys g k a n (c ∷ q) p)
    → InTurn (sys g k a n q (p ++ server_answer c))
unfolding server_answer
serves-InTurn g k a n c q p h =
    let same = h.requests.0 in
    rw same (record {
      one = omega (arith, length-append p (b'Y' ∷ []), h.one);
      requests = h.requests.1;
      replies = All-append b'Y' p (b'Y' ∷ []) h.replies (refl, tt);
      once = h.once;
      watching = h.watching;
    })

hears-InTurn :
    (g k a : Bool) (n c : ℕ) (q p : List ℕ)
    → InTurn (sys g k a n q (c ∷ p))
    → InTurn
        (record { client = on_urgent c (sys g k a n q p).client; to_server = q; to_client = p })
unfolding on_urgent
hears-InTurn g k a n c q p h =
    let same = h.replies.0 in
    rw same (record {
      one = ground arith;
      requests = h.requests;
      replies = h.replies.1;
      once = h.once;
      watching = h.watching;
    })

Step-InTurn : {around : Surroundings} {s t : System} → Step around s t → InTurn s → InTurn t
unfolding end_alarm
Step-InTurn {s = s} (fires armed idle) h =
    subst
      (λ k. InTurn (record s {
        client = (on_alarm (record s.client { asking = k })).0;
        to_server = s.to_server ++ (on_alarm (record s.client { asking = k })).1;
      }))
      (sym idle)
      (fires-InTurn s.client.got_reply s.client.armed s.client.recoveries s.to_server s.to_client
        armed (subst (λ k. InTurn (record s { client = record s.client { asking = k } })) idle h))
Step-InTurn {s = s} (ends asking) h =
    ends-InTurn s.client.got_reply s.client.armed s.client.recoveries s.to_server s.to_client
      (subst (λ k. InTurn (record s { client = record s.client { asking = k } })) asking h)
Step-InTurn {s = s} (serves c rest e) h =
    serves-InTurn s.client.got_reply s.client.asking s.client.armed s.client.recoveries c rest
      s.to_client (subst (λ q. InTurn (record s { to_server = q })) e h)
Step-InTurn {s = s} (hears c rest e _) h =
    hears-InTurn s.client.got_reply s.client.asking s.client.armed s.client.recoveries c s.to_server
      rest (subst (λ p. InTurn (record s { to_client = p })) e h)
Step-InTurn {s = s} (loses_request c rest _ e) h =
    let lost : InTurn (record s { to_server = c ∷ rest }) =
      subst (λ q. InTurn (record s { to_server = q })) e h in
    record {
      one = omega (arith, lost.one);
      requests = lost.requests.1;
      replies = h.replies;
      once = h.once;
      watching = h.watching;
    }
Step-InTurn {s = s} (loses_reply c rest _ e) h =
    let lost : InTurn (record s { to_client = c ∷ rest }) =
      subst (λ p. InTurn (record s { to_client = p })) e h in
    record {
      one = omega (arith, lost.one);
      requests = h.requests;
      replies = lost.replies.1;
      once = h.once;
      watching = h.watching;
    }

-- Whatever bytes the network loses and whenever the signals come: at most one byte is under way, and none while the client
-- holds an answer and is not about to ask; only requests go to the server and only answers to the client; the client has called
-- for at most one recovery; and its alarm is set exactly as long as it has called for none.
pub Reach-InTurn : {around : Surroundings} {s : System} → Reach around s → InTurn s
Reach-InTurn started = record {
  one = ground arith;
  requests = tt;
  replies = tt;
  once = ground arith;
  watching = refl;
}
Reach-InTurn (later before step) = Step-InTurn step (Reach-InTurn before)
