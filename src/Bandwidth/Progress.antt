-- ===== src/Bandwidth/Progress.antt =====
-- What the steps of an experiment leave, when the device works.
use network_optimization.Prelude.{
  ℕ, ◌+◌, ◌≤◌, ◌≡◌, refl, sym, ap, ◌∙◌, List, [], ◌∷◌, ◌++◌, append_assoc, append-nil, drop, arith,
}
use network_optimization.Protocol.RoundTrip.{drop-drop}
use network_optimization.Verbs.{returned}
use network_optimization.Bandwidth.{
  Request, Bench, write_request, control_request, post_request, pp_post_rdma_write, pp_post_send,
  pp_wait_completions,
}
use network_optimization.Bandwidth.Waiting.{IsReady, waited, pp_wait_completions-IsReady}

pub IsReady-le : {b : Bench} {n : ℕ} (m : ℕ) → m ≤ n → IsReady b n → IsReady b m
IsReady-le m le r = record {
  filled = r.filled;
  good = r.good;
  arrived = omega (arith, r.arrived);
  finds = r.finds;
  many = omega (arith, r.many);
  sends = r.sends;
}

-- The requests `rs` were posted and `n` completions taken; what requests are made of is the same.
pub record Did (b b' : Bench) (rs : List Request) (n : ℕ) : Type 0 where
  pub posts : b'.sent ≡ b.sent ++ rs
  pub takes : b'.queue ≡ drop n b.queue
  pub writes_same : (size : ℕ) → write_request b' size ≡ write_request b size
  pub control_same : control_request b' ≡ control_request b

pub Did-nothing : (b : Bench) → Did b b [] 0
Did-nothing b = record {
  posts = sym (append-nil b.sent);
  takes = refl;
  writes_same = λ size. refl;
  control_same = refl;
}

pub Did-trans :
    {b b' b'' : Bench} {rs rs' : List Request} {n n' : ℕ}
    → Did b b' rs n
    → Did b' b'' rs' n'
    → Did b b'' (rs ++ rs') (n + n')
Did-trans {b} {rs} {rs'} {n} {n'} d d' = record {
  posts = d'.posts ∙ ap (λ xs. xs ++ rs') d.posts ∙ append_assoc b.sent rs rs';
  takes = d'.takes ∙ ap (drop n') d.takes ∙ sym (drop-drop n n' b.queue);
  writes_same = λ size. d'.writes_same size ∙ d.writes_same size;
  control_same = d'.control_same ∙ d.control_same;
}

-- A post.
abbrev pub posted : Bench → Request → Bench
posted b request = record b { sent = b.sent ++ (request ∷ []); num_post_send = b.num_post_send + 1 }

post_request_lem :
    (b : Bench) (request : Request) (n : ℕ)
    → IsReady b n
    → post_request b request ≡ (0, posted b request)
unfolding post_request
post_request_lem b request n r = rw (r.sends b.num_post_send) refl

posted-IsReady :
    (b : Bench) (request : Request) (n : ℕ) → IsReady b n → IsReady (posted b request) n
posted-IsReady b request n r = record {
  filled = record {
    tracked = r.filled.tracked;
    above = r.filled.above;
    within = r.filled.within;
    accepts = r.filled.accepts;
  };
  good = r.good;
  arrived = r.arrived;
  finds = r.finds;
  many = r.many;
  sends = r.sends;
}

posted-Did : (b : Bench) (request : Request) → Did b (posted b request) (request ∷ []) 0
posted-Did b request = record {
  posts = refl;
  takes = refl;
  writes_same = λ size. refl;
  control_same = refl;
}

pub pp_post_rdma_write-Did :
    (b : Bench) (size n : ℕ)
    → IsReady b n
    → (b' : Bench) × (pp_post_rdma_write b size ≡ (0, b'))
      × IsReady b' n
      × Did b b' (write_request b size ∷ []) 0
unfolding pp_post_rdma_write
pp_post_rdma_write-Did b size n r =
    let q = write_request b size in
    (posted b q, post_request_lem b q n r, posted-IsReady b q n r, posted-Did b q)

pub pp_post_send-Did :
    (b : Bench) (n : ℕ)
    → IsReady b n
    → (b' : Bench) × (pp_post_send b ≡ (0, b')) × IsReady b' n × Did b b' (control_request b ∷ []) 0
unfolding pp_post_send
pp_post_send-Did b n r =
    let q = control_request b in
    (posted b q, post_request_lem b q n r, posted-IsReady b q n r, posted-Did b q)

pub pp_wait_completions-Did :
    (b : Bench) (n more : ℕ)
    → IsReady b (n + more)
    → (b' : Bench) × (pp_wait_completions b n ≡ returned (0, b')) × IsReady b' more × Did b b' [] n
pp_wait_completions-Did b n more r =
    let (h, m, ps, e, r') = pp_wait_completions-IsReady b n more r in
    (
      waited b n h m ps,
      e,
      r',
      record {
        posts = sym (append-nil b.sent);
        takes = refl;
        writes_same = λ size. refl;
        control_same = refl;
      },
    )
