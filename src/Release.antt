-- ===== src/Release.antt =====
-- The release of what a context holds, one resource after the other, as the functions pp_close_ctx of
-- LowLatencyProtocols/ib_functions.c and Optimization/bw_template.c do it, for any kind of resources.
use network_optimization.Prelude.{
  ℕ, ◌≡◌, ◌≢◌, refl, ap, ◌⊎◌, inl, inr, Option, none, some, List, [], ◌∷◌, ◌++◌, Bool, false, not,
  ◌==◌, ◌&&◌, ◌||◌, if◌then◌else◌, Bool-cases, arith,
}

-- The first failure ends the release; the result comes with what was released.
unfoldable pub close_all : {R : Type 0} → (R → ℕ) → List R → ℕ × List R
close_all answer [] = (0, [])
close_all answer (r ∷ rs) =
    let rest = close_all answer rs in if answer r == 0 then (rest.0, r ∷ rest.1) else (1, [])

-- The changes that were made are a start of the list, the answer is 0 exactly if it is all of the
-- list, and otherwise the next resource is one that the device refused to release.
pub close_all_lem :
    {R : Type 0} (answer : R → ℕ) (rs : List R)
    → (rest : List R) × (rs ≡ (close_all answer rs).1 ++ rest)
      × ((((close_all answer rs).0 ≡ 0) × (rest ≡ []))
          ⊎ (((close_all answer rs).0 ≡ 1)
              × (r : R) × (later : List R) × (rest ≡ r ∷ later)
              × (answer r ≢ 0)))
unfolding close_all
close_all_lem answer [] = ([], refl, inl (refl, refl))
close_all_lem answer (r ∷ rs) = elim (Bool-cases (answer r == 0)) [
  | inl released ↦
      (let (rest, e, c) = close_all_lem answer rs in
        (rest, rw released (ap (λ xs. r ∷ xs) e), rw released c))
  | inr refused ↦ (r ∷ rs, rw refused refl, inr (rw refused refl, r, rs, refl, ground arith))
]

-- Kinds of resources: a number for each, and those that one uses.
pub record Kinds (R : Type 0) : Type 0 where
  pub number : R → ℕ
  pub uses : R → List R

module _ {R : Type 0} (k : Kinds R) where
  abbrev same : R → R → Bool
  same r r' = k.number r == k.number r'

  abbrev has : R → List R → Bool
  has r [] = false
  has r (r' ∷ rs) = same r r' || has r rs

  abbrev without : R → List R → List R
  without r [] = []
  without r (r' ∷ rs) = let rest = without r rs in if same r r' then rest else r' ∷ rest

  abbrev in_use : R → List R → Bool
  in_use r [] = false
  in_use r (r' ∷ rs) = has r (k.uses r') || in_use r rs

  -- Resources are given back one by one, each held, and used by nothing that is still held; the
  -- result is what is left.
  abbrev pub give_back : List R → List R → Option (List R)
  give_back held [] = some held
  give_back held (r ∷ rs) =
      let rest = give_back (without r held) rs in
      if has r held && not (in_use r (without r held)) then rest else none

  give_back-append :
      (held left xs ys : List R)
      → give_back held (xs ++ ys) ≡ some left
      → (between : List R) × (give_back held xs ≡ some between) × (give_back between ys ≡ some left)
  give_back-append held left [] ys e = (held, refl, e)
  give_back-append held left (x ∷ xs) ys e =
      elim (Bool-cases (has x held && not (in_use x (without x held)))) [
        | inl fine ↦
            let (between, e1, e2) = give_back-append (without x held) left xs ys (rw fine at e) in
            (between, rw fine e1, e2)
        | inr refused ↦ absurd cc
      ]

  nothing_left : (left rest : List R) → rest ≡ [] → give_back left rest ≡ some [] → left ≡ []
  nothing_left left [] e back = ground arith
  nothing_left left (r ∷ rest) e back = absurd cc

  -- If an order gives everything back, what is released in this order until a refusal is given back
  -- in order, and nothing is left when the answer is 0.
  pub close_all-give_back :
      (answer : R → ℕ) (held order : List R)
      → give_back held order ≡ some []
      → (left : List R) × (give_back held (close_all answer order).1 ≡ some left)
        × ((close_all answer order).0 ≡ 0 → left ≡ [])
  close_all-give_back answer held order e =
      let (rest, parts, ends) = close_all_lem answer order in
      let (left, back, rest_back) =
        give_back-append held [] (close_all answer order).1 rest (rw parts at e) in
      (
        left,
        back,
        λ done. elim ends [
          | inl (z, none_left) ↦ nothing_left left rest none_left rest_back
          | inr (o, r, later, e', refused) ↦ absurd (omega (arith, o, done))
        ],
      )
