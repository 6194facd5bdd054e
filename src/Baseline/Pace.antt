-- ===== src/Baseline/Pace.antt =====
-- Baseline/: how the two programs keep in step, whatever pieces the stream comes in.
use mathlib.Core.Path.{subst}
use network_optimization.Prelude.{
  ℕ, ◌≡◌, ◌≢◌, ◌⊎◌, inl, inr, refl, sym, List, [], ◌∷◌, ◌++◌, true, false, Bool-cases, ◌==◌, ==_iff,
  ap, ◌∙◌,
}
use network_optimization.Baseline.Calls.{Call, end_byte}
use network_optimization.Baseline.Serving.{Phase, receive_message, last_byte, after_recv}
use network_optimization.Baseline.Script.{
  NoEnd, IsScript, NoEnd-append, NoEnd-split, IsScript-at, client_calls-IsScript,
}
use network_optimization.Baseline.System.{
  System, Step, client_send, client_recv, client_close, server_recv, server_send, server_close,
  here, later, Session,
}

-- Where the two programs stand to each other: the client sends messages; its end message is under
-- way; the server has read it, and all before it; the answer is under way; or the client is done.
pub data IsPaced (s : System) : Type 0 where
  sending :
      IsScript false s.calls
      → NoEnd s.to_server
      → s.to_client ≡ []
      → s.phase ≡ Phase.receiving
      → s.client_open ≡ true
      → IsPaced s
  asked :
      (msgs : List ℕ)
      → IsScript true s.calls
      → s.to_server ≡ msgs ++ (end_byte ∷ [])
      → NoEnd msgs
      → s.to_client ≡ []
      → s.phase ≡ Phase.receiving
      → s.client_open ≡ true
      → IsPaced s
  heard :
      IsScript true s.calls
      → s.to_server ≡ []
      → s.to_client ≡ []
      → s.phase ≡ Phase.replying
      → s.client_open ≡ true
      → IsPaced s
  answered :
      IsScript true s.calls
      → s.to_server ≡ []
      → s.to_client ≡ receive_message
      → s.phase ≡ Phase.receiving
      → s.client_open ≡ true
      → IsPaced s
  over :
      s.calls ≡ []
      → NoEnd s.to_server
      → s.to_client ≡ []
      → s.phase ≢ Phase.replying
      → s.client_open ≡ false
      → IsPaced s

last_byte-NoEnd : (b : ℕ) (p : List ℕ) → NoEnd (b ∷ p) → last_byte b p ≢ end_byte
unfolding last_byte
last_byte-NoEnd b [] h = h.0
last_byte-NoEnd b (c ∷ p) h = last_byte-NoEnd c p h.1

after_recv-NoEnd : (b : ℕ) (p : List ℕ) → NoEnd (b ∷ p) → after_recv b p ≡ Phase.receiving
unfolding after_recv
after_recv-NoEnd b p h = elim (Bool-cases (last_byte b p == end_byte)) [
  | inl e ↦ absurd (last_byte-NoEnd b p h ((==_iff (last_byte b p) end_byte).0 e))
  | inr e ↦ rw e refl
]

nonempty : (b : ℕ) (bs : List ℕ) → ◌≡◌ {A = List ℕ} (b ∷ bs) [] → ⊥
nonempty b bs e = cc

-- A piece of a message and its end message is either all of it, or part of the message alone.
pub cut :
    (b : ℕ) (p rest msgs : List ℕ)
    → b ∷ p ++ rest ≡ msgs ++ (end_byte ∷ [])
    → NoEnd msgs
    → ((rest ≡ []) × (last_byte b p ≡ end_byte))
      ⊎ ((bs : List ℕ) × (rest ≡ bs ++ (end_byte ∷ [])) × NoEnd bs × (last_byte b p ≢ end_byte))
unfolding last_byte
cut b [] rest [] e h = inl (cc, cc)
cut b (c ∷ p) rest [] e h = absurd (nonempty c (p ++ rest) cc)
cut b [] rest (a ∷ msgs) e h = inr (msgs, cc, h.1, λ z. h.0 cc)
cut b (c ∷ p) rest (a ∷ msgs) e h =
    let tails : c ∷ p ++ rest ≡ msgs ++ (end_byte ∷ []) = cc in cut c p rest msgs tails h.1

pub after_end : (b : ℕ) (p : List ℕ) → last_byte b p ≡ end_byte → after_recv b p ≡ Phase.replying
unfolding after_recv
after_end b p e = rw e refl

pub after_other : (b : ℕ) (p : List ℕ) → last_byte b p ≢ end_byte → after_recv b p ≡ Phase.receiving
unfolding after_recv
after_other b p ne = elim (Bool-cases (last_byte b p == end_byte)) [
  | inl e ↦ absurd (ne ((==_iff (last_byte b p) end_byte).0 e))
  | inr e ↦ rw e refl
]

-- The states that a step leads to, from each place.
module _ (s : System) where
  sent :
      (m : List ℕ) (cs : List Call)
      → IsScript false (Call.send m ∷ cs)
      → NoEnd s.to_server
      → s.to_client ≡ []
      → s.phase ≡ Phase.receiving
      → s.client_open ≡ true
      → IsPaced (record s { calls = cs; to_server = s.to_server ++ m })
  sent m cs (_, inl (nm, rest)) ne tc ph op =
      sending rest (NoEnd-append s.to_server m ne nm) tc ph op
  sent m cs (_, inr (em, rest)) ne tc ph op =
      asked s.to_server rest (ap (λ x. s.to_server ++ x) em) ne tc ph op

  client_send-IsPaced :
      (m : List ℕ) (cs : List Call)
      → s.calls ≡ Call.send m ∷ cs
      → IsPaced s
      → IsPaced (record s { calls = cs; to_server = s.to_server ++ m })
  client_send-IsPaced m cs e (sending sc ne tc ph op) =
      sent m cs (IsScript-at false e sc) ne tc ph op
  client_send-IsPaced m cs e (asked _ sc _ _ _ _ _) = let sc' = IsScript-at true e sc in cc
  client_send-IsPaced m cs e (heard sc _ _ _ _) = let sc' = IsScript-at true e sc in cc
  client_send-IsPaced m cs e (answered sc _ _ _ _) = let sc' = IsScript-at true e sc in cc
  client_send-IsPaced m cs e (over none_left _ _ _ _) = cc

  client_recv-IsPaced :
      (b : ℕ) (p rest : List ℕ) (cs : List Call)
      → s.calls ≡ Call.recv ∷ cs
      → s.to_client ≡ b ∷ p ++ rest
      → rest ≡ []
      → IsPaced s
      → IsPaced (record s { calls = cs; to_client = rest })
  client_recv-IsPaced b p rest cs e arrived whole (sending sc _ _ _ _) =
      let sc' = IsScript-at false e sc in cc
  client_recv-IsPaced b p rest cs e arrived whole (asked _ _ _ _ tc _ _) = cc
  client_recv-IsPaced b p rest cs e arrived whole (heard _ _ tc _ _) = cc
  client_recv-IsPaced b p rest cs e arrived whole (answered sc ts tc ph op) =
      let sc' = IsScript-at true e sc in sending sc'.1 (rw ts tt) whole ph op
  client_recv-IsPaced b p rest cs e arrived whole (over _ _ tc _ _) = cc

  client_close-IsPaced : s.calls ≡ [] → IsPaced s → IsPaced (record s { client_open = false })
  client_close-IsPaced e (sending _ ne tc ph _) = over e ne tc (λ z. cc) refl
  client_close-IsPaced e (asked _ sc _ _ _ _ _) = let sc' = IsScript-at true e sc in cc
  client_close-IsPaced e (heard sc _ _ _ _) = let sc' = IsScript-at true e sc in cc
  client_close-IsPaced e (answered sc _ _ _ _) = let sc' = IsScript-at true e sc in cc
  client_close-IsPaced e (over none_left ne tc ph op) = over none_left ne tc ph refl

  server_recv-IsPaced :
      (b : ℕ) (p rest : List ℕ)
      → s.phase ≡ Phase.receiving
      → s.to_server ≡ b ∷ p ++ rest
      → IsPaced s
      → IsPaced (record s { to_server = rest; phase = after_recv b p })
  server_recv-IsPaced b p rest e came (sending sc ne tc ph op) =
      let parts = NoEnd-split (b ∷ p) rest (subst NoEnd came ne) in
      sending sc parts.1 tc (after_recv-NoEnd b p parts.0) op
  server_recv-IsPaced b p rest e came (asked msgs sc ts ne tc ph op) =
      elim (cut b p rest msgs (sym came ∙ ts) ne) [
        | inl (all, z) ↦ heard sc all tc (after_end b p z) op
        | inr (bs, left, more, nz) ↦ asked bs sc left more tc (after_other b p nz) op
      ]
  server_recv-IsPaced b p rest e came (heard _ ts _ _ _) = cc
  server_recv-IsPaced b p rest e came (answered _ ts _ _ _) = cc
  server_recv-IsPaced b p rest e came (over none_left ne tc ph op) =
      let parts = NoEnd-split (b ∷ p) rest (subst NoEnd came ne) in
      let on = after_recv-NoEnd b p parts.0 in over none_left parts.1 tc (λ z. cc) op

  server_send-IsPaced :
      s.phase ≡ Phase.replying
      → IsPaced s
      → IsPaced (record s { to_client = s.to_client ++ receive_message; phase = Phase.receiving })
  server_send-IsPaced e (sending _ _ _ ph _) = cc
  server_send-IsPaced e (asked _ _ _ _ _ ph _) = cc
  server_send-IsPaced e (heard sc ts tc ph op) = answered sc ts (rw tc refl) refl op
  server_send-IsPaced e (answered _ _ _ ph _) = cc
  server_send-IsPaced e (over _ _ _ ph _) = absurd (ph e)

  server_close-IsPaced :
      s.client_open ≡ false → IsPaced s → IsPaced (record s { phase = Phase.closed })
  server_close-IsPaced e (sending _ _ _ _ op) = cc
  server_close-IsPaced e (asked _ _ _ _ _ _ op) = cc
  server_close-IsPaced e (heard _ _ _ _ op) = cc
  server_close-IsPaced e (answered _ _ _ _ op) = cc
  server_close-IsPaced e (over none_left ne tc ph op) = over none_left ne tc (λ z. cc) op

pub Step-IsPaced : {s t : System} → Step true s t → IsPaced s → IsPaced t
Step-IsPaced {s} (client_send m cs e et) h = subst IsPaced (sym et) (client_send-IsPaced s m cs e h)
Step-IsPaced {s} (client_recv b p rest cs e came fits whole et) h =
    subst IsPaced (sym et) (client_recv-IsPaced s b p rest cs e came whole h)
Step-IsPaced {s} (client_close e op et) h = subst IsPaced (sym et) (client_close-IsPaced s e h)
Step-IsPaced {s} (server_recv b p rest e came fits et) h =
    subst IsPaced (sym et) (server_recv-IsPaced s b p rest e came h)
Step-IsPaced {s} (server_send e et) h = subst IsPaced (sym et) (server_send-IsPaced s e h)
Step-IsPaced {s} (server_close e nothing op et) h =
    subst IsPaced (sym et) (server_close-IsPaced s op h)

-- In every state of a session of the client and the server over TCP, whatever pieces the stream comes
-- in, when answers arrive whole, the two programs keep in step: the server answers only when it has
-- read all that the client sent up to its end message, and the client is then waiting for this
-- answer.
pub Session-IsPaced : {n : ℕ} {s : System} → Session n s → IsPaced s
Session-IsPaced here = sending client_calls-IsScript tt refl refl refl
Session-IsPaced (later r st) = Step-IsPaced st (Session-IsPaced r)
