-- ===== src/Template/Life.antt =====
-- Optimization/bw_template.c: the life of a context, from `pp_init_ctx` to `pp_close_ctx`.
use network_optimization.Prelude.{
  ℕ, ◌≡◌, refl, sym, ap, ◌∙◌, inl, inr, some, List, [], ◌∷◌, Bool, true, false, Bool-cases, ◌==◌,
  ◌&&◌, arith,
}
use network_optimization.Release.{Kinds, give_back, close_all-give_back}
use network_optimization.Template.Context.{
  Resource, qp, cq, mr_control_send, mr_rdma_write, pd, channel, device, buffer, ctx_struct,
  Acquisition, reg_rdma_mr, resource_of, tested, Settings, Device, acquisitions, acquire_all,
  Context, pp_init_ctx, answer_of, close_order, pp_close_ctx,
}

abbrev number : Resource → ℕ
number qp = 0
number cq = 1
number mr_control_send = 2
number mr_rdma_write = 3
number pd = 4
number channel = 5
number device = 6
number buffer = 7
number ctx_struct = 8

-- What the device documents: the queue pair uses the completion queue and the domain, a region the
-- domain and the buffer, the queue the channel, and each of these the open device, whose handle
-- stands in the context.
abbrev uses : Resource → List Resource
uses qp = cq ∷ pd ∷ device ∷ ctx_struct ∷ []
uses cq = channel ∷ device ∷ ctx_struct ∷ []
uses mr_control_send = pd ∷ buffer ∷ device ∷ ctx_struct ∷ []
uses mr_rdma_write = pd ∷ buffer ∷ device ∷ ctx_struct ∷ []
uses pd = device ∷ ctx_struct ∷ []
uses channel = device ∷ ctx_struct ∷ []
uses device = ctx_struct ∷ []
uses buffer = ctx_struct ∷ []
uses ctx_struct = []

abbrev pub kinds : Kinds Resource
kinds = record { number = number; uses = uses }

abbrev pub resources_of : List Acquisition → List Resource
resources_of [] = []
resources_of (a ∷ as') = resource_of a ∷ resources_of as'

whole_order :
    (s : Settings)
    → give_back kinds (resources_of (acquisitions s)) (close_order s.use_event) ≡ some []
whole_order s = elim (Bool-cases s.use_event) [
  | inl with_events ↦ rw with_events refl
  | inr polled ↦ rw polled refl
]

-- All that is not tested is given.
abbrev AllGiven : (Acquisition → Bool) → List Acquisition → Type 0
AllGiven gives [] = Unit
AllGiven gives (a ∷ as') = (tested a ≡ false → gives a ≡ true) × AllGiven gives as'

acquire_all_lem :
    (gives : Acquisition → Bool) (as' : List Acquisition)
    → AllGiven gives as'
    → (acquire_all gives as').0 ≡ true
    → (acquire_all gives as').1 ≡ as'
unfolding acquire_all
acquire_all_lem gives [] untested e = refl
acquire_all_lem gives (a ∷ as') (here, untested) e = elim (Bool-cases (gives a)) [
  | inl given ↦ rw given (ap (λ xs. a ∷ xs) (acquire_all_lem gives as' untested (rw given at e)))
  | inr refused ↦ elim (Bool-cases (tested a)) [
    | inl looked ↦ absurd (ground (arith, rw (refused, looked) at e))
    | inr passed ↦ absurd (ground (arith, here passed))
  ]
]

never : (b : Bool) → true ≡ false → b ≡ true
never b e = cc

untested_given :
    (gives : Acquisition → Bool) (s : Settings)
    → gives (reg_rdma_mr s.size s.rdma_write_mr_size) ≡ true
    → AllGiven gives (acquisitions s)
untested_given gives s h = elim (Bool-cases s.use_event) [
  | inl with_events ↦ rw with_events (
    never _,
    (never _, (never _, (never _, (never _, (never _, (λ z. h, (never _, (never _, tt)))))))),
  )
  | inr polled ↦
      rw polled
        (never _, (never _, (never _, (never _, (never _, (λ z. h, (never _, (never _, tt))))))))
]

pp_init_ctx_lem :
    (dev : Device) (s : Settings) (c : Context) (taken : List Acquisition)
    → dev.gives (reg_rdma_mr s.size s.rdma_write_mr_size) ≡ true
    → pp_init_ctx dev s ≡ (some c, taken)
    → taken ≡ acquisitions s
unfolding pp_init_ctx
pp_init_ctx_lem dev s c taken given e =
    let tried = acquire_all dev.gives (acquisitions s) in
    elim (Bool-cases (tried.0 && dev.modify_to_init s.port == 0 && dev.query_qp == 0)) [
      | inl done ↦
          let all : tried.0 ≡ true = ground (arith, done) in
          sym (ap (λ p. p.1) e)
          ∙ acquire_all_lem dev.gives (acquisitions s) (untested_given dev.gives s given) all
      | inr failed ↦ absurd (ground (arith, rw failed at (ap (λ p. p.0) e)))
    ]

-- When the device registers the region for RDMA writes, whose NULL is not tested: whatever it refuses
-- when a context that `pp_init_ctx` made is taken down, `pp_close_ctx` gives back only what the
-- context holds, each resource once and none that another one still uses; and when it answers 0,
-- nothing is left.
pub pp_init_ctx-pp_close_ctx :
    (dev : Device) (s : Settings) (c : Context) (taken : List Acquisition) (destroy : Resource → ℕ)
    → dev.gives (reg_rdma_mr s.size s.rdma_write_mr_size) ≡ true
    → pp_init_ctx dev s ≡ (some c, taken)
    → (left : List Resource) × (give_back kinds
          (resources_of taken)
          (pp_close_ctx destroy s.use_event).1
        ≡ some left)
      × ((pp_close_ctx destroy s.use_event).0 ≡ 0 → left ≡ [])
unfolding pp_close_ctx
pp_init_ctx-pp_close_ctx dev s c taken destroy given e =
    rw (pp_init_ctx_lem dev s c taken given e) (
      close_all-give_back kinds (answer_of destroy) (resources_of (acquisitions s))
        (close_order s.use_event) (whole_order s))
