-- ===== src/Setup/Laws.antt =====
-- The life of a context: what it takes, and how it is given back.
use native.Mathlib.Nat.{div-add-mod', mod-lt, mul-mod_left}
use network_optimization.Prelude.{
  ℕ, ◌+◌, ◌-◌, ◌/◌, ◌%◌, ◌≤◌, ◌<◌, ◌≡◌, refl, sym, ap, ◌∙◌, inl, inr, some, List, [], ◌∷◌, length,
  length-replicate, Bool, true, Bool-cases, ◌==◌, ◌&&◌, arith,
}
use network_optimization.Verbs.{PingpongContext}
use network_optimization.Connect.{
  Resource, qp, send_cq, receive_cq, mr_control_send, mr_control_receive, buffer, pd, channel,
  device, ctx_struct, answer_of, close_order, pp_close_ctx,
}
use network_optimization.Release.{Kinds, give_back, close_all-give_back}
use network_optimization.Setup.{
  Acquisition, resource_of, Device, Settings, buffer_size_of, fill_of, acquisitions, acquire_all,
  new_context, pp_init_ctx,
}

abbrev number : Resource → ℕ
number qp = 0
number send_cq = 1
number receive_cq = 2
number mr_control_send = 3
number mr_control_receive = 4
number buffer = 5
number pd = 6
number channel = 7
number device = 8
number ctx_struct = 9

-- What the device documents: a queue pair uses its completion queues and its domain, a region its
-- domain and the buffer, a queue the channel, and each of these the open device, whose handle
-- stands in the context.
abbrev pub uses : Resource → List Resource
uses qp = send_cq ∷ receive_cq ∷ pd ∷ device ∷ ctx_struct ∷ []
uses send_cq = channel ∷ device ∷ ctx_struct ∷ []
uses receive_cq = channel ∷ device ∷ ctx_struct ∷ []
uses mr_control_send = pd ∷ buffer ∷ device ∷ ctx_struct ∷ []
uses mr_control_receive = pd ∷ buffer ∷ device ∷ ctx_struct ∷ []
uses buffer = ctx_struct ∷ []
uses pd = device ∷ ctx_struct ∷ []
uses channel = device ∷ ctx_struct ∷ []
uses device = ctx_struct ∷ []
uses ctx_struct = []

abbrev pub kinds : Kinds Resource
kinds = record { number = number; uses = uses }

abbrev pub resources_of : List Acquisition → List Resource
resources_of [] = []
resources_of (a ∷ as') = resource_of a ∷ resources_of as'

whole_order :
    (s : Settings)
    → give_back kinds (resources_of (acquisitions s)) (close_order s.use_event) ≡ some []
whole_order s = elim (Bool-cases s.use_event) [
  | inl with_events ↦ rw with_events refl
  | inr polled ↦ rw polled refl
]

acquire_all_lem :
    (gives : Acquisition → Bool) (as' : List Acquisition)
    → (acquire_all gives as').0 ≡ true
    → (acquire_all gives as').1 ≡ as'
unfolding acquire_all
acquire_all_lem gives [] e = refl
acquire_all_lem gives (a ∷ as') e = elim (Bool-cases (gives a)) [
  | inl given ↦ rw given (ap (λ xs. a ∷ xs) (acquire_all_lem gives as' (rw given at e)))
  | inr refused ↦ absurd (ground (arith, refused))
]

-- A context means that everything was taken.
pub pp_init_ctx_lem :
    (dev : Device) (s : Settings) (c : PingpongContext) (taken : List Acquisition)
    → pp_init_ctx dev s ≡ (some c, taken)
    → (c ≡ new_context dev s) × (taken ≡ acquisitions s)
unfolding pp_init_ctx
pp_init_ctx_lem dev s c taken e =
    let tried = acquire_all dev.gives (acquisitions s) in
    elim (Bool-cases (tried.0 && dev.modify_to_init s.port == 0 && dev.query_qp == 0)) [
      | inl done ↦
          let all : tried.0 ≡ true = ground (arith, done) in
          (
            ground (arith, rw done at (ap (λ p. p.0) e)),
            sym (ap (λ p. p.1) e) ∙ acquire_all_lem dev.gives (acquisitions s) all,
          )
      | inr failed ↦ absurd (ground (arith, rw failed at (ap (λ p. p.0) e)))
    ]

-- Whatever the device refuses when a context that `pp_init_ctx` made is taken down, `pp_close_ctx`
-- gives back only resources that the context holds, each once and none that another one still
-- uses; and when it answers 0, nothing is left.
pub context-life :
    (dev : Device) (s : Settings) (c : PingpongContext) (taken : List Acquisition)
    (destroy : Resource → ℕ)
    → pp_init_ctx dev s ≡ (some c, taken)
    → (left : List Resource) × (give_back kinds
          (resources_of taken)
          (pp_close_ctx destroy s.use_event).1
        ≡ some left)
      × ((pp_close_ctx destroy s.use_event).0 ≡ 0 → left ≡ [])
unfolding pp_close_ctx
context-life dev s c taken destroy e = rw (pp_init_ctx_lem dev s c taken e).1 (
    close_all-give_back kinds (answer_of destroy) (resources_of (acquisitions s))
      (close_order s.use_event) (whole_order s))

-- The two regions of a new context lie in its buffer, which is made of whole pages, and less than a
-- page of it is left over.
pub new_context-Fits :
    (dev : Device) (s : Settings) (c : PingpongContext) (taken : List Acquisition)
    → 0 < s.page_size
    → pp_init_ctx dev s ≡ (some c, taken)
    → (c.mr_control_send_size + c.mr_control_receive_size ≤ length c.work)
      × (length c.work < c.mr_control_send_size + c.mr_control_receive_size + s.page_size)
      × (length c.work % s.page_size ≡ 0)
new_context-Fits dev s c taken some_page e =
    let size = s.mr_control_size + s.mr_control_size in
    let whole = div-add-mod' (size + (s.page_size - 1)) s.page_size in
    let part = mod-lt (size + (s.page_size - 1)) some_page in
    let long = length-replicate (buffer_size_of s) (fill_of s) in
    let made = (pp_init_ctx_lem dev s c taken e).0 in
    rw made (
      omega (arith, long, whole, part),
      omega (arith, long, whole, part),
      rw long (mul-mod_left ((size + (s.page_size - 1)) / s.page_size) s.page_size),
    )
