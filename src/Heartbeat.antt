-- ===== src/Heartbeat.antt =====
-- The heartbeat of controllers/client.c and controllers/server.c: the client asks by an urgent byte
-- whether the server is up, and the server answers by another.
pub mod Turns
pub mod Lossless
mod Tests
use pint.Common.{ℕ, ◌+◌, ◌≡◌, Bool, true, false, List, [], ◌∷◌, ◌++◌, ◌==◌, if◌then◌else◌}

-- The client's `got_reply`, whether its SIGALRM handler is between `alarm` and the write of
-- `got_reply`, whether its alarm is set, and how often it has called `system` to start the server
-- again.
pub record Client : Type 0 where
  pub got_reply : Bool
  pub asking : Bool
  pub armed : Bool
  pub recoveries : ℕ

-- After connect.
abbrev pub first_client : Client
first_client = record { got_reply = true; asking = false; armed = true; recoveries = 0 }

-- SIGURG, with the byte that recv brings.
unfoldable pub on_urgent : ℕ → Client → Client
on_urgent c client = record client { got_reply = c == b'Y' }

-- SIGALRM, with the bytes that it sends, up to the write of `got_reply`: the handler does not mask
-- SIGURG. The alarm has gone off, and is set again by alarm.
unfoldable pub on_alarm : Client → Client × List ℕ
on_alarm client =
    if client.got_reply
    then (record client { asking = true; armed = true }, b'?' ∷ [])
    else (record client { armed = false; recoveries = client.recoveries + 1 }, [])

-- The end of the handler after it has asked.
unfoldable pub end_alarm : Client → Client
end_alarm client = record client { got_reply = false; asking = false }

-- SIGURG at the server: the bytes that it sends for the byte that recv brings.
unfoldable pub server_answer : ℕ → List ℕ
server_answer c = if c == b'?' then b'Y' ∷ [] else []

-- The client and the urgent bytes that are under way.
pub record System : Type 0 where
  pub client : Client
  pub to_server : List ℕ
  pub to_client : List ℕ

abbrev pub start : System
start = record { client = first_client; to_server = []; to_client = [] }

-- What the surroundings may do: lose bytes, and deliver SIGURG inside the SIGALRM handler.
pub record Surroundings : Type 0 where
  pub lossy : Bool
  pub nested : Bool

-- What can happen next.
pub data Step (around : Surroundings) (s : System) : System → Type 0 where
  fires :
      s.client.armed ≡ true
      → s.client.asking ≡ false
      → Step around s (record s {
        client = (on_alarm s.client).0;
        to_server = s.to_server ++ (on_alarm s.client).1;
      })
  ends : s.client.asking ≡ true → Step around s (record s { client = end_alarm s.client })
  serves :
      (c : ℕ) (rest : List ℕ)
      → s.to_server ≡ c ∷ rest
      → Step around s (record s { to_server = rest; to_client = s.to_client ++ server_answer c })
  hears :
      (c : ℕ) (rest : List ℕ)
      → s.to_client ≡ c ∷ rest
      → (s.client.asking ≡ true → around.nested ≡ true)
      → Step around s (record s { client = on_urgent c s.client; to_client = rest })
  loses_request :
      (c : ℕ) (rest : List ℕ)
      → around.lossy ≡ true
      → s.to_server ≡ c ∷ rest
      → Step around s (record s { to_server = rest })
  loses_reply :
      (c : ℕ) (rest : List ℕ)
      → around.lossy ≡ true
      → s.to_client ≡ c ∷ rest
      → Step around s (record s { to_client = rest })

pub data Reach (around : Surroundings) : System → Type 0 where
  started : Reach around start
  later : {s t : System} → Reach around s → Step around s t → Reach around t
