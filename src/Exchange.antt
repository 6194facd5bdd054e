-- ===== src/Exchange.antt =====
-- LowLatencyProtocols/ib_functions.c: the exchange of destinations over TCP, before the queue pairs
-- are connected. What the sockets do is an input.
pub mod Digits
pub mod Printing
pub mod Agree
pub mod Closing
pub mod Tests
use mathlib.Core.List.{reverse}
use network_optimization.Prelude.{
  ℕ, zero, suc, ◌+◌, ◌*◌, ◌/◌, ◌%◌, ◌^◌, Option, none, some, List, [], ◌∷◌, ◌++◌, Bool, true, false,
  ◌==◌, ◌&&◌, ◌||◌, leb, ltb, if◌then◌else◌, length, drop,
}
use network_optimization.Prelude.Int.{ℤ, pos, negsuc}
use network_optimization.Prelude.Strings.{◌>>=◌, le_num}
use network_optimization.Verbs.{Outcome, returned, waiting, fault}
use network_optimization.Wire.{Mtu, hex_digit, digit_value, gid_to_wire_gid, wire_gid_to_gid}
use network_optimization.Connect.{PingpongDest, Change, pp_connect_ctx}

-- `sizeof "0000:000000:000000:00000000000000000000000000000000"`
abbrev pub msg_size : ℕ
msg_size = 52

-- `%0wx` of a 32-bit number, lowest digit first: at least `w` digits, and more where there are more.
unfoldable pub hex_pad : ℕ → ℕ → ℕ → List ℕ
hex_pad zero w x = []
hex_pad (suc n) zero x =
    let rest = hex_pad n zero (x / 16) in if x == 0 then [] else hex_digit (x % 16) ∷ rest
hex_pad (suc n) (suc w) x = hex_digit (x % 16) ∷ hex_pad n w (x / 16)

unfoldable pub print_hex : ℕ → ℕ → List ℕ
print_hex w x = reverse (hex_pad 8 w x)

-- `%04x:%06x:%06x:%s`
unfoldable pub dest_text : PingpongDest → List ℕ
dest_text d =
    print_hex 4 d.lid
    ++ (58 ∷ print_hex 6 d.qpn ++ (58 ∷ print_hex 6 d.psn ++ (58 ∷ gid_to_wire_gid d.gid)))

-- The `sprintf` into `msg`; `none` is a write behind its end.
unfoldable pub print_dest : PingpongDest → Option (List ℕ)
print_dest d =
    if leb (length (dest_text d) + 1) msg_size then some (dest_text d ++ (0 ∷ [])) else none

abbrev pub is_blank : ℕ → Bool
is_blank c = c == 32 || (leb 9 c && leb c 13)

unfoldable pub skip_blanks : List ℕ → List ℕ
skip_blanks [] = []
skip_blanks (c ∷ cs) = let rest = skip_blanks cs in if is_blank c then rest else c ∷ cs

-- The digits that follow, after digits with the value `v`.
unfoldable pub hex_run : ℕ → List ℕ → ℕ × List ℕ
hex_run v [] = (v, [])
hex_run v (c ∷ cs) = elim (digit_value c) [ none ↦ (v, c ∷ cs) | some d ↦ hex_run (16 * v + d) cs ]

unfoldable pub has_digit : List ℕ → Bool
has_digit [] = false
has_digit (c ∷ cs) = elim (digit_value c) [ none ↦ false | some d ↦ true ]

-- `%x` or `%lx`, without a sign or `0x`, into a number below `bound`. `none` is a variable that is
-- not set, or a number that it cannot hold.
unfoldable pub scan_below : ℕ → List ℕ → Option (ℕ × List ℕ)
scan_below bound cs =
    let (v, rest) = hex_run 0 (skip_blanks cs) in
    if has_digit (skip_blanks cs) && ltb v bound then some (v, rest) else none

unfoldable pub scan_hex : List ℕ → Option (ℕ × List ℕ)
scan_hex = scan_below (2 ^ 32)

unfoldable pub scan_colon : List ℕ → Option (List ℕ)
scan_colon [] = none
scan_colon (c ∷ cs) = if c == 58 then some cs else none

-- The characters up to a blank or the NUL; `none` is a read behind `msg`.
unfoldable pub word : List ℕ → Option (List ℕ)
word [] = none
word (c ∷ cs) =
    let rest = word cs in if c == 0 || is_blank c then some [] else (rest >>= λ w. some (c ∷ w))

-- `%s` into `gid`: a longer word is written behind its end, a shorter one leaves a part of it unset.
unfoldable pub scan_gid : List ℕ → Option (List ℕ)
scan_gid cs = do w ← word (skip_blanks cs); if length w == 32 then wire_gid_to_gid w else none

abbrev pub dest_of : ℕ → ℕ → ℕ → List ℕ → PingpongDest
dest_of lid qpn psn gid = record {
  lid = lid;
  qpn = qpn;
  psn = psn;
  gid = gid;
  interface_id = le_num (drop 8 gid);
}

-- The `sscanf` of `msg` and the conversion of the gid.
unfoldable pub read_dest : List ℕ → Option PingpongDest
read_dest msg = do
  (lid, msg1) ← scan_hex msg
  msg2 ← scan_colon msg1
  (qpn, msg3) ← scan_hex msg2
  msg4 ← scan_colon msg3
  (psn, msg5) ← scan_hex msg4
  msg6 ← scan_colon msg5
  gid ← scan_gid msg6
  some (dest_of lid qpn psn gid)

-- An address, whether a socket is made for it, and whether `connect` or `bind` then succeeds.
pub record Address : Type 0 where
  pub has_socket : Bool
  pub succeeds : Bool

-- What the host's calls answer: `written` is the answer of `write`, `none` for an error, and
-- `incoming` the bytes that `read` brings.
pub record Network : Type 0 where
  pub service_printed : Bool
  pub resolved : Bool
  pub addresses : List Address
  pub written : Option ℕ
  pub incoming : List ℕ
  pub has_memory : Bool

-- The addresses are tried in turn; with the numbers of sockets that were opened and closed.
unfoldable pub connect_loop : List Address → ℕ → ℕ → Bool × ℕ × ℕ
connect_loop [] opened closed = (false, opened, closed)
connect_loop (t ∷ ts) opened closed =
    let n = if t.has_socket then 1 else 0 in
    let rest = connect_loop ts (opened + n) (closed + n) in
    if t.has_socket && t.succeeds then (true, opened + 1, closed) else rest

abbrev pub wrote_all : Option ℕ → Bool
wrote_all none = false
wrote_all (some n) = n == msg_size

abbrev pub done_message : List ℕ
done_message = 100 ∷ 111 ∷ 110 ∷ 101 ∷ 0 ∷ []

-- The result, `none` for NULL, the messages given to `write`, and the sockets opened and closed.
pub record ClientExchange : Type 0 where
  pub answer : Option PingpongDest
  pub wrote : List (List ℕ)
  pub opened : ℕ
  pub closed : ℕ

pub client_talk : Network → PingpongDest → ℕ → ℕ → Option ClientExchange
client_talk net my_dest opened closed = do
  msg ← print_dest my_dest
  let failed : ClientExchange = record {
    answer = none;
    wrote = msg ∷ [];
    opened = opened;
    closed = closed + 1;
  }
  if wrote_all net.written
      then (if length net.incoming == msg_size
          then (if net.has_memory
              then (do
                rem_dest ← read_dest net.incoming
                some record {
                  answer = some rem_dest;
                  wrote = msg ∷ done_message ∷ [];
                  opened = opened;
                  closed = closed + 1;
                })
              else some (record failed { wrote = msg ∷ done_message ∷ [] }))
          else some failed)
      else some failed

pub pp_client_exch_dest : Network → PingpongDest → Option ClientExchange
pp_client_exch_dest net my_dest =
    let tried = connect_loop net.addresses 0 0 in
    let nothing : ClientExchange = record { answer = none; wrote = []; opened = 0; closed = 0 } in
    if net.service_printed && net.resolved
    then (if tried.0
        then client_talk net my_dest tried.1 tried.2
        else some (record nothing { opened = tried.1; closed = tried.2 }))
    else some nothing

-- The server's result, with the changes of the queue pair.
pub record ServerExchange : Type 0 where
  pub answer : Option PingpongDest
  pub wrote : List (List ℕ)
  pub changes : List Change

unfoldable pub server_reply :
    Network → PingpongDest → PingpongDest → List Change → Option ServerExchange
server_reply net my_dest rem_dest changes = do
  msg ← print_dest my_dest
  some record {
    answer = if wrote_all net.written then some rem_dest else none;
    wrote = msg ∷ [];
    changes = changes;
  }

unfoldable pub pp_server_exch_dest :
    (Change → ℕ) → Network → ℕ → Mtu → ℕ → PingpongDest → ℕ → Option ServerExchange
pp_server_exch_dest modify_qp net ib_port mtu sl my_dest sgid_idx =
    let failed : ServerExchange = record { answer = none; wrote = []; changes = [] } in
    if length net.incoming == msg_size && net.has_memory
    then (do
      rem_dest ← read_dest net.incoming
      let connected = pp_connect_ctx modify_qp ib_port my_dest.psn mtu sl rem_dest sgid_idx
      if connected.0 == 0
          then server_reply net my_dest rem_dest connected.1
          else some (record failed { changes = connected.1 }))
    else some failed

-- `accepts` is what `accept` answers, `none` for an error.
pub record Listener : Type 0 where
  pub service_printed : Bool
  pub resolved : Bool
  pub addresses : List Address
  pub accepts : List (Option ℕ)

-- The sockets accepted so far are `fds`.
unfoldable pub accept_loop : List (Option ℕ) → ℕ → List ℕ → Outcome (ℤ × List ℕ)
accept_loop accepts zero fds = returned (pos 0, fds)
accept_loop [] (suc n) fds = waiting
accept_loop (none ∷ accepts) (suc n) fds = returned (negsuc 0, fds)
accept_loop (some connfd ∷ accepts) (suc n) fds = accept_loop accepts n (fds ++ (connfd ∷ []))

unfoldable pub listen_to_websocket : Listener → ℕ → Outcome (ℤ × List ℕ)
listen_to_websocket net client_number =
    if net.service_printed && net.resolved && (connect_loop net.addresses 0 0).0
    then accept_loop net.accepts client_number []
    else returned (negsuc 0, [])
