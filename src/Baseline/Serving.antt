-- ===== src/Baseline/Serving.antt =====
-- Baseline/server.c: the socket that listens, and the loops that receive and answer.
use network_optimization.Prelude.{
  ℕ, ◌+◌, ◌*◌, Option, none, some, List, [], ◌∷◌, Bool, ◌==◌, if◌then◌else◌,
}
use network_optimization.Verbs.{Outcome, returned, waiting}
use network_optimization.Baseline.Calls.{end_byte}

abbrev pub buffer_size : ℕ
buffer_size = 2 * 1048576

-- "R", with its NUL
abbrev pub receive_message : List ℕ
receive_message = 82 ∷ 0 ∷ []

-- `buffer[bytes_read - 1]`
unfoldable pub last_byte : ℕ → List ℕ → ℕ
last_byte b [] = b
last_byte b (c ∷ cs) = last_byte c cs

-- Where the server stands: in the inner loop, behind it, or gone with both sockets closed.
pub data Phase : Type 0 where
  receiving : Phase
  replying : Phase
  closed : Phase

-- What the server does once `recv` has brought the bytes `b ∷ p`.
unfoldable pub after_recv : ℕ → List ℕ → Phase
after_recv b p = if last_byte b p == end_byte then replying else receiving

abbrev pub count_reply : Phase → ℕ → ℕ
count_reply replying n = n + 1
count_reply _ n = n

-- The status that `main` ends with, how often it answered, and what it closed; `none` stands for -1.
pub record ServerEnd : Type 0 where
  pub status : ℕ
  pub replies : ℕ
  pub closed_fds : List (Option ℕ)

-- Both loops, on what the calls of `recv` bring: `none` is an error, no bytes the end of the stream.
unfoldable pub serve : List (Option ℕ) → List (Option (List ℕ)) → ℕ → Outcome ServerEnd
unfolding after_recv
serve fds [] n = waiting
serve fds (none ∷ rs) n = returned (record { status = 0; replies = n; closed_fds = fds })
serve fds (some [] ∷ rs) n = returned (record { status = 0; replies = n; closed_fds = fds })
serve fds (some (b ∷ p) ∷ rs) n = serve fds rs (count_reply (after_recv b p) n)

-- What the calls of `main` answer: descriptors, `none` for -1, and whether the others succeed.
pub record ServerCalls : Type 0 where
  pub socket_fd : Option ℕ
  pub option_set : Bool
  pub bound : Bool
  pub listens : Bool
  pub accepted : Option ℕ
  pub received : List (Option (List ℕ))

abbrev pub give_up : List (Option ℕ) → Outcome ServerEnd
give_up fds = returned (record { status = 1; replies = 0; closed_fds = fds })

-- `accept` and the loops.
unfoldable pub accept_and_serve : Option ℕ → List (Option (List ℕ)) → Option ℕ → Outcome ServerEnd
accept_and_serve none received server_fd = give_up (server_fd ∷ [])
accept_and_serve (some new_socket) received server_fd =
    serve (some new_socket ∷ server_fd ∷ []) received 0

-- `main` behind the test of the descriptor.
unfoldable pub listen_on : ServerCalls → Option ℕ → Outcome ServerEnd
listen_on c server_fd =
    if c.option_set
    then (if c.bound
        then (if c.listens
            then accept_and_serve c.accepted c.received server_fd
            else give_up (server_fd ∷ []))
        else give_up (server_fd ∷ []))
    else give_up (server_fd ∷ [])

-- The test of the descriptor is for 0.
unfoldable pub with_socket : ServerCalls → Option ℕ → Outcome ServerEnd
with_socket c none = listen_on c none
with_socket c (some fd) = if fd == 0 then give_up [] else listen_on c (some fd)

unfoldable pub server_main : ServerCalls → Outcome ServerEnd
server_main c = with_socket c c.socket_fd
