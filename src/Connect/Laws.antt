-- ===== src/Connect/Laws.antt =====
-- Two hosts that connect to each other agree; a context is taken down in order.
use network_optimization.Prelude.{
  ℕ, ◌≡◌, ◌≢◌, refl, ◌⊎◌, inl, inr, List, [], ◌∷◌, ◌++◌, Bool, ◌==◌, Bool-cases, arith,
}
use network_optimization.Wire.{Mtu}
use network_optimization.Release.{close_all_lem}
use network_optimization.Connect.{
  PingpongDest, Change, receive_attributes, send_attributes, to_receive, to_send, pp_connect_ctx,
  Resource, answer_of, close_order, pp_close_ctx,
}

-- What two hosts have to agree on: each expects the other's packets from the number on from which
-- they are sent.
abbrev pub Agree : List Change → List Change → Type 0
Agree (to_receive a ∷ to_send b ∷ []) (to_receive a' ∷ to_send b' ∷ []) =
    (a.rq_psn ≡ b'.sq_psn) × (a'.rq_psn ≡ b.sq_psn) × (a.path_mtu ≡ a'.path_mtu)
Agree _ _ = ⊥

refused_ne : ◌≡◌ {A = ℕ} 1 0 → ⊥
refused_ne e = omega arith

pub both_done :
    (modify_qp : Change → ℕ) (port psn : ℕ) (mtu : Mtu) (sl : ℕ) (d : PingpongDest) (idx : ℕ)
    → (pp_connect_ctx modify_qp port psn mtu sl d idx).0 ≡ 0
    → (pp_connect_ctx modify_qp port psn mtu sl d idx).1
      ≡ (pp_connect_ctx (λ c. 0) port psn mtu sl d idx).1
unfolding pp_connect_ctx
both_done modify_qp port psn mtu sl d idx e = elim (Bool-cases (modify_qp first == 0)) [
  | inl made ↦ elim (Bool-cases (modify_qp second == 0)) [
    | inl made' ↦ rw (made, made')
    | inr refused ↦ absurd (refused_ne (rw (made, refused) at e))
  ]
  | inr refused ↦ absurd (refused_ne (rw refused at e))
]
  where
    first : Change
    first = to_receive (receive_attributes port mtu sl d idx)

    second : Change
    second = to_send (send_attributes psn)

-- If two hosts connect to each other, each with its own first packet number, at the same MTU, and
-- both calls answer 0, then each expects the packet numbers that the other starts from.
pub pp_connect_ctx-Agree :
    (modify_qp modify_qp' : Change → ℕ) (port port' sl sl' idx idx' : ℕ) (mtu : Mtu)
    (a b : PingpongDest)
    → (pp_connect_ctx modify_qp port a.psn mtu sl b idx).0 ≡ 0
    → (pp_connect_ctx modify_qp' port' b.psn mtu sl' a idx').0 ≡ 0
    → Agree
        (pp_connect_ctx modify_qp port a.psn mtu sl b idx).1
        (pp_connect_ctx modify_qp' port' b.psn mtu sl' a idx').1
unfolding pp_connect_ctx
pp_connect_ctx-Agree modify_qp modify_qp' port port' sl sl' idx idx' mtu a b e e' =
    rw
      (
        both_done modify_qp port a.psn mtu sl b idx e,
        both_done modify_qp' port' b.psn mtu sl' a idx' e',
      )
      (refl, refl, refl)

-- `pp_close_ctx` releases the resources in their order up to the first that the device refuses,
-- and answers 0 exactly if there is none: then nothing is left.
pub pp_close_ctx_lem :
    (destroy : Resource → ℕ) (has_channel : Bool)
    → (rest : List Resource) × (close_order has_channel
        ≡ (pp_close_ctx destroy has_channel).1 ++ rest)
      × ((((pp_close_ctx destroy has_channel).0 ≡ 0) × (rest ≡ []))
          ⊎ (((pp_close_ctx destroy has_channel).0 ≡ 1)
              × (r : Resource) × (later : List Resource) × (rest ≡ r ∷ later)
              × (answer_of destroy r ≢ 0)))
unfolding pp_close_ctx
pp_close_ctx_lem destroy has_channel = close_all_lem (answer_of destroy) (close_order has_channel)
