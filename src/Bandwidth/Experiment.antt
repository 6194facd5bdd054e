-- ===== src/Bandwidth/Experiment.antt =====
-- `perform_single_experiment` on a device that works.
use native.Mathlib.Nat.{mod-add-mod, mod-eq_of_lt, mod_self}
use native.Mathlib.Decide.{dec_lt}
use mathlib.Core.Path.{subst}
use network_optimization.Prelude.{
  ℕ, zero, suc, ◌+◌, ◌-◌, ◌%◌, ◌≤◌, ◌<◌, ◌≡◌, ◌≢◌, refl, sym, ap, ◌∙◌, inl, inr, ==_iff, List, [],
  ◌∷◌, ◌++◌, replicate, Bool, true, false, Bool-cases, ◌==◌, arith,
}
use network_optimization.Verbs.{returned}
use network_optimization.Bandwidth.{
  Request, Bench, write_request, control_request, pp_post_send, pp_wait_completions, wait_for_depth,
  post_writes, client_experiment, server_experiment, perform_single_experiment,
}
use network_optimization.Bandwidth.Waiting.{IsReady}
use network_optimization.Bandwidth.Progress.{
  IsReady-le, Did, Did-nothing, Did-trans, pp_post_rdma_write-Did, pp_post_send-Did,
  pp_wait_completions-Did,
}

-- In front of post `i`: the completions that were waited for come in whole depths, all of earlier
-- posts, and less than a depth is left, or exactly one.
pub record IsPaced (d i num_complete : ℕ) : Type 0 where
  pub whole : num_complete % suc d ≡ 0
  pub behind : num_complete ≤ i
  pub close : i ≤ num_complete + suc d
  pub later : 0 < i → num_complete < i

mod_lem : (d nc r : ℕ) → nc % suc d ≡ 0 → (nc + r) % suc d ≡ r % suc d
mod_lem d nc r e =
    sym (mod-add-mod nc (suc d) r) ∙ ap (λ x. (x + r) % suc d) e ∙ ap (λ x. x % suc d) (omega arith)

left_lem : (d i nc : ℕ) → IsPaced d (suc i) nc → suc i % suc d ≡ (suc i - nc) % suc d
left_lem d i nc p =
    ap (λ x. x % suc d) (omega (arith, p.behind)) ∙ mod_lem d nc (suc i - nc) p.whole

-- The test finds out when a whole depth is left.
full_depth : (d i nc : ℕ) → IsPaced d (suc i) nc → suc i % suc d ≡ 0 → suc i ≡ nc + suc d
full_depth d i nc p e = elim (dec_lt (suc i - nc) (suc d)) [
  | yes lt ↦ absurd (omega (arith, e, left_lem d i nc p, mod-eq_of_lt lt, p.later (omega arith)))
  | no ge ↦ omega (arith, ge, p.close)
]

not_full : (d i nc : ℕ) → IsPaced d (suc i) nc → suc i % suc d ≢ 0 → suc i < nc + suc d
not_full d i nc p e = elim (dec_lt (suc i) (nc + suc d)) [
  | yes lt ↦ lt
  | no ge ↦
      absurd (
        e (left_lem d i nc p ∙ ap (λ x. x % suc d) (omega (arith, ge, p.close)) ∙ mod_self (suc d)))
]

pub Did-at : {b b' : Bench} {rs : List Request} {n m : ℕ} → m ≡ n → Did b b' rs n → Did b b' rs m
Did-at {b} {b'} {rs} e d = subst (Did b b' rs) (sym e) d

-- The wait in front of a post, and what can still be waited for.
wait_for_depth_lem :
    (b : Bench) (d i nc more : ℕ)
    → IsPaced d i nc
    → IsReady b (i - nc + more)
    → (nc' : ℕ) × (b' : Bench) × (wait_for_depth b (suc d) i nc ≡ returned (nc', b'))
      × IsPaced d (suc i) nc'
      × (nc ≤ nc')
      × (nc' ≤ i)
      × IsReady b' (i - nc' + more)
      × Did b b' [] (nc' - nc)
unfolding wait_for_depth
wait_for_depth_lem b d zero nc more p r = (
  nc,
  b,
  refl,
  record {
    whole = p.whole;
    behind = omega (arith, p.behind);
    close = omega arith;
    later = λ h. omega (arith, p.behind);
  },
  omega arith,
  p.behind,
  r,
  Did-at (omega arith) (Did-nothing b),
)
wait_for_depth_lem b d (suc i) nc more p r = elim (Bool-cases (suc i % suc d == 0)) [
  | inl full ↦
      let exact : suc i ≡ nc + suc d = full_depth d i nc p ((==_iff (suc i % suc d) 0).0 full) in
      let (b', e, r', did) =
        pp_wait_completions-Did b (suc d) more
          (IsReady-le (suc d + more) (omega (arith, exact)) r) in
      (
        nc + suc d,
        b',
        rw (full, e) refl,
        record {
          whole = mod_lem d nc (suc d) p.whole ∙ mod_self (suc d);
          behind = omega (arith, exact);
          close = omega (arith, exact);
          later = λ h. omega (arith, exact);
        },
        omega arith,
        omega (arith, exact),
        IsReady-le (suc i - (nc + suc d) + more) (omega (arith, exact)) r',
        Did-at (omega arith) did,
      )
  | inr other ↦
      let lt : suc i < nc + suc d =
        not_full d i nc p (λ z. cc (other, (==_iff (suc i % suc d) 0).1 z)) in
      (
        nc,
        b,
        rw other refl,
        record {
          whole = p.whole;
          behind = omega (arith, p.behind);
          close = omega (arith, lt);
          later = λ h. omega (arith, p.later (omega arith));
        },
        omega arith,
        p.behind,
        r,
        Did-at (omega arith) (Did-nothing b),
      )
]

post_writes_lem :
    (b : Bench) (d size n i nc more : ℕ)
    → IsPaced d i nc
    → IsReady b (i + n - nc + more)
    → (nc' : ℕ) × (b' : Bench) × (post_writes b (suc d) size n i nc ≡ returned (0, nc', b'))
      × (nc ≤ nc')
      × (nc' ≤ i + n)
      × IsReady b' (i + n - nc' + more)
      × Did b b' (replicate n (write_request b size)) (nc' - nc)
unfolding post_writes
post_writes_lem b d size zero i nc more p r =
    (nc, b, refl, omega arith, omega (arith, p.behind), r, Did-at (omega arith) (Did-nothing b))
post_writes_lem b d size (suc n) i nc more p r =
    let (nc1, b1, e1, p1, le1, le1', r1, did1) =
      wait_for_depth_lem b d i nc (suc n + more) p
        (IsReady-le (i - nc + (suc n + more)) (omega (arith, p.behind)) r) in
    let (b2, e2, r2, did2) = pp_post_rdma_write-Did b1 size (i - nc1 + (suc n + more)) r1 in
    let (nc3, b3, e3, le3, le3', r3, did3) =
      post_writes_lem b2 d size n (suc i) nc1 more p1
        (IsReady-le {b = b2} (suc i + n - nc1 + more) (omega (arith, le1')) r2) in
    (
      nc3,
      b3,
      rw (e1, e2) e3,
      omega (arith, le1, le3),
      omega (arith, le3'),
      IsReady-le {b = b3} (i + suc n - nc3 + more) (omega arith) r3,
      Did-at {b = b} {b' = b3} {m = nc3 - nc} (omega (arith, le1, le3)) (
          Did-trans did1 (
            Did-trans (rw (did1.writes_same size) at did2)
              (rw (did2.writes_same size, did1.writes_same size) at did3))),
    )

-- A post of a control message and the wait for `n` completions.
pub report :
    (b : Bench) (n more : ℕ)
    → IsReady b (n + more)
    → (b1 : Bench) × (b2 : Bench) × (pp_post_send b ≡ (0, b1))
      × (pp_wait_completions b1 n ≡ returned (0, b2))
      × IsReady b2 more
      × Did b b2 (control_request b ∷ []) n
report b n more r =
    let (b1, e1, r1, did1) = pp_post_send-Did b (n + more) r in
    let (b2, e2, r2, did2) = pp_wait_completions-Did b1 n more r1 in
    (b1, b2, e1, e2, r2, Did-at (omega arith) (Did-trans did1 did2))

client_lem :
    (b : Bench) (d iters size more : ℕ)
    → IsReady b (iters + 2 + more)
    → (b' : Bench) × (client_experiment b (suc d) iters size ≡ returned (0, b'))
      × IsReady b' more
      × Did b b' (replicate iters (write_request b size) ++ (control_request b ∷ [])) (iters + 2)
unfolding client_experiment
client_lem b d iters size more r =
    let start : IsPaced d 0 0 = record {
      whole = mod-eq_of_lt (omega arith);
      behind = omega arith;
      close = omega arith;
      later = λ h. omega (arith, h);
    } in
    let (nc, b1, e1, le0, le, r1, did1) =
      post_writes_lem b d size iters 0 0 (2 + more) start
        (IsReady-le (0 + iters - 0 + (2 + more)) (omega arith) r) in
    let (b2, b3, e2, e3, r3, did3) =
      report b1 (iters - nc + 2) more (IsReady-le (iters - nc + 2 + more) (omega arith) r1) in
    (
      b3,
      rw (e1, e2, e3) refl,
      r3,
      Did-at (omega (arith, le)) (Did-trans did1 (rw did1.control_same at did3)),
    )

server_lem :
    (b : Bench) (more : ℕ)
    → IsReady b (2 + more)
    → (b' : Bench) × (server_experiment b ≡ returned (0, b'))
      × IsReady b' more
      × Did b b' (control_request b ∷ []) 2
unfolding server_experiment
server_lem b more r =
    let (b1, e1, r1, did1) =
      pp_wait_completions-Did b 1 (1 + more) (IsReady-le (1 + (1 + more)) (omega arith) r) in
    let (b2, b3, e2, e3, r3, did3) = report b1 1 more r1 in
    (b3, rw (e1, e2, e3) refl, r3, Did-trans did1 (rw did1.control_same at did3))

-- What one experiment posts, and how many completions it takes.
abbrev pub posts_of : Bool → Bench → ℕ → ℕ → List Request
posts_of true b iters size = replicate iters (write_request b size) ++ (control_request b ∷ [])
posts_of false b iters size = control_request b ∷ []

abbrev pub takes_of : Bool → ℕ → ℕ
takes_of true iters = iters + 2
takes_of false iters = 2

-- On a device that works, with a depth of 1 or more, `perform_single_experiment` returns 0: the
-- client has posted its writes and one control message, and has waited for all of them and for the
-- answer, no matter how the depth divides the writes; the server has posted one control message, and
-- has waited for the client's and its own. The device is ready for what follows.
pub perform_single_experiment-IsReady :
    (is_client : Bool) (b : Bench) (d iters size more : ℕ)
    → IsReady b (takes_of is_client iters + more)
    → (b' : Bench) × (perform_single_experiment is_client b (suc d) iters size ≡ returned (0, b'))
      × IsReady b' more
      × Did b b' (posts_of is_client b iters size) (takes_of is_client iters)
unfolding perform_single_experiment
perform_single_experiment-IsReady true b d iters size more r = client_lem b d iters size more r
perform_single_experiment-IsReady false b d iters size more r = server_lem b more r
