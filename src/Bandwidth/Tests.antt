-- ===== src/Bandwidth/Tests.antt =====
-- Runs of the measurement on a small device.
use network_optimization.Prelude.{
  ℕ, zero, suc, ◌≡◌, refl, List, [], ◌∷◌, replicate, length-replicate, true, false, arith,
}
use network_optimization.Prelude.Int.{pos}
use network_optimization.Verbs.{Outcome, returned, waiting, fault, missing, decrement}
use network_optimization.Bandwidth.{
  pingpong_send_wrid, pingpong_recv_wrid, other_wrid, Completion, Poll, failed, ready, Bench,
  pp_wait_completions, wait_loop, process_batch, process, by_wr_id, runs_low, fill_up, is_below,
  add_ℕ, pp_post_recv, post_recv_loop, measure,
}
use network_optimization.Bandwidth.Waiting.{
  AllGood, NoFailure, productive, IsReady, waited, pp_wait_completions-IsReady,
}
use network_optimization.Bandwidth.Batches.{core, pp_wait_completions-process_batch}
use network_optimization.Bandwidth.Exact.{Taken, pp_wait_completions-Taken}
use network_optimization.Bandwidth.Progress.{Did}
use network_optimization.Bandwidth.Throughput.{measure_posts, measure_takes, measure-IsReady}

abbrev sent_one : Completion
sent_one = record { is_success = true; wr_id = pingpong_send_wrid }

abbrev received_one : Completion
received_one = record { is_success = true; wr_id = pingpong_recv_wrid }

abbrev strange : Completion
strange = record { is_success = true; wr_id = other_wrid }

abbrev broken : Completion
broken = record { is_success = false; wr_id = pingpong_send_wrid }

-- A device whose queue of receive requests is full.
abbrev bench : List Completion → List Poll → Bench
bench queue polls = record {
  size = 1;
  rx_depth = 102;
  routs = pos 102;
  max_inline = 60;
  buf_va = 1024;
  buf_rkey = 7;
  sent = [];
  held = 102;
  queue = queue;
  polls = polls;
  post_recv_result = λ n. 0;
  post_send_result = λ n. 0;
  num_post_recv = 0;
  num_post_send = 0;
}

abbrev five : List Completion
five = received_one ∷ received_one ∷ sent_one ∷ received_one ∷ sent_one ∷ []

abbrev five_polls : List Poll
five_polls = ready 0 ∷ ready 2 ∷ ready 1 ∷ ready 9 ∷ ready 1 ∷ ready 1 ∷ []

five-IsReady : IsReady (bench five five_polls) 5
five-IsReady = record {
  filled = record {
    tracked = refl;
    above = omega arith;
    within = omega arith;
    accepts = λ n. refl;
  };
  good = (refl, tt, (refl, tt, (refl, tt, (refl, tt, (refl, tt, tt)))));
  arrived = omega arith;
  finds = tt;
  many = omega arith;
  sends = λ n. refl;
}

pp_wait_completions-IsReady_example :
    (h : ℕ) × (m : ℕ) × (ps : List Poll) × (pp_wait_completions (bench five five_polls) 3
      ≡ returned (0, waited (bench five five_polls) 3 h m ps))
    × IsReady (waited (bench five five_polls) 3 h m ps) 2
pp_wait_completions-IsReady_example =
    pp_wait_completions-IsReady (bench five five_polls) 3 2 five-IsReady

-- The second receive completion brings the queue to the threshold and is followed by a refill.
abbrev after_three : Bench
after_three = record (bench (received_one ∷ sent_one ∷ []) (ready 9 ∷ ready 1 ∷ ready 1 ∷ [])) {
  num_post_recv = 2;
}

three_taken : pp_wait_completions (bench five five_polls) 3 ≡ returned (0, after_three)
unfolding pp_wait_completions wait_loop process_batch process by_wr_id runs_low decrement fill_up
    is_below add_ℕ pp_post_recv post_recv_loop missing
three_taken = refl

pp_wait_completions-Taken_example : Taken 3 five (received_one ∷ sent_one ∷ [])
pp_wait_completions-Taken_example =
    pp_wait_completions-Taken (bench five five_polls) after_three 3 three_taken

pp_wait_completions-process_batch_example :
    (process_batch (core (bench five five_polls)) (received_one ∷ received_one ∷ sent_one ∷ [])
      ≡ (0, core after_three))
    × (after_three.queue ≡ received_one ∷ sent_one ∷ [])
pp_wait_completions-process_batch_example =
    pp_wait_completions-process_batch (bench five five_polls) 3 after_three three_taken

-- The code of a run.
abbrev code_of : Outcome (ℕ × Bench) → ℕ
code_of (returned (code, b)) = code
code_of waiting = 9
code_of fault = 9

broken_ends : code_of (pp_wait_completions (bench (sent_one ∷ broken ∷ []) (ready 2 ∷ [])) 2) ≡ 1
unfolding pp_wait_completions wait_loop process_batch process by_wr_id
broken_ends = refl

strange_ends : code_of (pp_wait_completions (bench (strange ∷ []) (ready 2 ∷ [])) 1) ≡ 1
unfolding pp_wait_completions wait_loop process_batch process by_wr_id
strange_ends = refl

failed_ends : code_of (pp_wait_completions (bench five (failed ∷ [])) 1) ≡ 1
unfolding pp_wait_completions wait_loop process_batch process by_wr_id
failed_ends = refl

AllGood-replicate : (n : ℕ) → AllGood (replicate n received_one)
AllGood-replicate zero = tt
AllGood-replicate (suc n) = (refl, tt, AllGood-replicate n)

NoFailure-replicate : (n : ℕ) → NoFailure (replicate n (ready 1))
NoFailure-replicate zero = tt
NoFailure-replicate (suc n) = NoFailure-replicate n

productive-replicate : (n : ℕ) → productive (replicate n (ready 1)) ≡ n
productive-replicate zero = refl
productive-replicate (suc n) = omega (arith, productive-replicate n)

abbrev long_bench : Bench
long_bench = bench (replicate 1044 received_one) (replicate 1044 (ready 1))

long-IsReady : IsReady long_bench 1044
long-IsReady = record {
  filled = record {
    tracked = refl;
    above = omega arith;
    within = omega arith;
    accepts = λ n. refl;
  };
  good = AllGood-replicate 1044;
  arrived = omega (arith, length-replicate 1044 received_one);
  finds = NoFailure-replicate 1044;
  many = omega (arith, productive-replicate 1044);
  sends = λ n. refl;
}

-- The server's part of a measurement of one round.
measure-IsReady_example :
    (b' : Bench) × (measure false long_bench 1 1 ≡ returned b')
    × IsReady b' 0
    × Did long_bench b' (measure_posts false long_bench 1) (measure_takes false 1)
measure-IsReady_example = measure-IsReady false long_bench 0 1 0 (omega arith) long-IsReady
