-- ===== src/Server/Run/Progress.antt =====
-- What holds along the loop of `run_server`: its start, and the count of the shut-down requests.
use network_optimization.Prelude.{
  ℕ, suc, ◌+◌, ◌<◌, ◌≡◌, refl, none, [], Bool, true, false, ◌==◌, if◌then◌else◌, length, length-set,
  get_elem?, set, arith,
}
use network_optimization.Heap.{Heap}
use network_optimization.Heap.Frame.{IsFresh}
use network_optimization.Database.{set_kv_malloc, initialize_key_value_address_array, free_array}
use network_optimization.Database.Table.{Key}
use network_optimization.Protocol.{op_code, shut_down_server}
use network_optimization.Verbs.{Outcome, returned, waiting, fault, PingpongContext}
use network_optimization.Server.{Server, lift, ◌>>=◌}
use network_optimization.Server.Table.{view, IsServing}
use network_optimization.Server.Run.{
  get_remote_control_message, received_code, dispatch, Loop, Visit, goes_on, stops, visit, start,
}

-- The server starts with an empty table in order: no key shows anything.
pub start-IsServing :
    (s : Server)
    → IsFresh s.heap
    → IsServing (start s) [] × ((k : Key) → view k [] (start s).heap (start s).database ≡ none)
unfolding start set_kv_malloc initialize_key_value_address_array
start-IsServing s f = (
  record {
    keeps = λ e. omega arith;
    fresh = f;
    table = record {
      within = omega arith;
      slots = refl;
      some_room = omega arith;
      no_overflow = omega arith;
      countable = omega arith;
      keyed = tt;
      distinct = tt;
    };
    values = λ k va size mr e. absurd cc;
  },
  λ k. refl,
)

-- How many requests to shut down the server finds when it polls client `i`: 1 or 0.
abbrev pub heard : Loop → ℕ → Outcome ℕ
heard l i = do
  c ← lift (get_elem? l.contexts i)
  (polled, c') ← get_remote_control_message c false
  if polled == 1 then returned 0 else (do
    code ← lift (received_code c')
    returned (if code == op_code shut_down_server then 1 else 0))

-- What a visit from `l` that found `n` requests to shut down leads to: a loop that goes on has as
-- many clients, has counted those requests, and they are fewer than the clients; one that ends was
-- one request short, and found it.
pub Counts : Loop → Outcome ℕ → Outcome Visit → Type 0
Counts l n (returned (goes_on l')) =
    (length l'.contexts ≡ length l.contexts)
    × (l'.num_shut_down_server_request < length l'.contexts)
    × (k : ℕ) × (n ≡ returned k)
    × (l'.num_shut_down_server_request ≡ l.num_shut_down_server_request + k)
Counts l n (returned (stops h)) =
    (suc l.num_shut_down_server_request ≡ length l.contexts) × (n ≡ returned 1)
Counts l n waiting = Unit {0}
Counts l n fault = Unit {0}

after_bind {ℓ} :
    {A : Type ℓ} (l : Loop) (n : Outcome ℕ) (o : Outcome A) (f : A → Outcome Visit)
    → ((x : A) → o ≡ returned x → Counts l n (f x))
    → Counts l n (o >>= f)
unfolding Counts
after_bind l n (returned x) f h = h x refl
after_bind l n waiting f h = tt
after_bind l n fault f h = tt

either :
    (l : Loop) (n : Outcome ℕ) (b : Bool) (o o' : Outcome Visit)
    → (b ≡ true → Counts l n o)
    → (b ≡ false → Counts l n o')
    → Counts l n (if b then o else o')
either l n true o o' h h' = h refl
either l n false o o' h h' = h' refl

after_visit :
    (l : Loop) (n : Outcome ℕ) (i : ℕ) (t : Server)
    → l.num_shut_down_server_request < length l.contexts
    → n ≡ returned 0
    → Counts l n (returned (goes_on (record l { server = t; contexts = set l.contexts i t.ctx })))
unfolding Counts
after_visit l n i t below none_found =
    let same = length-set l.contexts i t.ctx in (same, omega arith, 0, none_found, omega arith)

one_request :
    (l : Loop) (n : Outcome ℕ) (i : ℕ) (t : Server)
    → l.num_shut_down_server_request < length l.contexts
    → (l.num_shut_down_server_request + 1 == length l.contexts) ≡ false
    → n ≡ returned 1
    → Counts l n (
        returned (
          goes_on (record l {
            server = t;
            contexts = set l.contexts i t.ctx;
            num_shut_down_server_request = l.num_shut_down_server_request + 1;
          })))
unfolding Counts
one_request l n i t below more found =
    let same = length-set l.contexts i t.ctx in (same, ground arith, 1, found, refl)

last_request :
    (l : Loop) (n : Outcome ℕ) (h : Heap)
    → (l.num_shut_down_server_request + 1 == length l.contexts) ≡ true
    → n ≡ returned 1
    → Counts l n (returned (stops h))
unfolding Counts
last_request l n h e found = (ground arith, found)

-- The loop counts the requests to shut down, and ends exactly on the last: while fewer clients than
-- there are have asked for it, a visit that returns adds 1 to their number if it found such a request
-- and leaves it as it is if not, and keeps it below that of the clients; or it found the request that
-- makes the two equal, and ends `run_server`. The number of clients stays.
pub visit-Counts :
    (l : Loop) (i : ℕ)
    → l.num_shut_down_server_request < length l.contexts
    → Counts l (heard l i) (visit l i)
unfolding visit
visit-Counts l i below = after_bind l _ (lift (get_elem? l.contexts i)) _ (λ c there.
    after_bind l _ (get_remote_control_message c false) _
      (λ (polled : ℕ × PingpongContext) answered.
        either l _ (polled.0 == 1) _ _
          (λ none_polled.
            after_visit l _ i (record (l.server) { ctx = polled.1 }) below
              (rw (there, answered, none_polled) refl))
          (λ message. after_bind l _ (lift (received_code polled.1)) _ (λ code reads.
            either l _ (code == op_code shut_down_server) _ _
              (λ shuts.
                let found : heard l i ≡ returned 1 =
                  rw (there, answered, message, reads, shuts) refl in
                either l _ (l.num_shut_down_server_request + 1 == length l.contexts) _ _
                  (λ last.
                    after_bind l _
                      (lift (free_array l.server.kv_malloc l.server.heap l.server.database)) _
                      (λ h freed. last_request l _ h last found))
                  (λ more.
                    one_request l _ i (record (l.server) { ctx = polled.1 }) below more found))
              (λ request.
                let none_found : heard l i ≡ returned 0 =
                  rw (there, answered, message, reads, request) refl in
                after_bind l _ (dispatch (record (l.server) { ctx = polled.1 }) code) _
                  (λ t served. after_visit l _ i t below none_found))))))
