-- ===== src/Server/Bind.antt =====
-- What the parts of a call leave alone, when it returns.
use mathlib.Core.Path.{subst}
use network_optimization.Prelude.{
  ℕ, suc, ◌≡◌, refl, sym, ap, ◌∙◌, Option, none, some, List, [], ◌∷◌, ◌++◌, Bool, arith,
}
use network_optimization.Prelude.Strings.{IsText}
use network_optimization.Heap.{Heap, malloc, tabulate, string_at}
use network_optimization.Heap.Frame.{IsFresh, strcpy-fits, cell-malloc_self, length-tabulate}
use network_optimization.Protocol.{Operation, set_control_message}
use network_optimization.Verbs.{
  Outcome, returned, waiting, fault, PingpongContext, pp_post_send, poll_n_send_wc,
}
use network_optimization.Server.{
  Region, Server, ◌>>=◌, lift, reply, copy_string, register_mr, register_with, region_of,
}
use network_optimization.Server.Memory.{Grows, copy_string_lem}

pub bind-returned {ℓ κ} :
    {A : Type ℓ} {B : Type κ} (x : Outcome A) (f : A → Outcome B) (b : B)
    → (x >>= f) ≡ returned b
    → (a : A) × (x ≡ returned a) × (f a ≡ returned b)
bind-returned (returned a) f b e = (a, refl, e)
bind-returned waiting f b e = absurd cc
bind-returned fault f b e = absurd cc

pub lift-returned {ℓ} : {A : Type ℓ} (o : Option A) (a : A) → lift o ≡ returned a → o ≡ some a
lift-returned none a e = absurd cc
lift-returned (some x) a e = cc

-- An answer changes the context alone.
pub ctx-reply :
    (s : Server) (op : Operation) (addresses : List (List ℕ)) (code : ℕ) (t : Server)
    → reply s op addresses ≡ returned (code, t)
    → (c : PingpongContext) × (t ≡ record s { ctx = c })
unfolding reply
ctx-reply s op addresses code t e =
    let (work, e1, r1) =
      bind-returned (lift (set_control_message s.ctx.work op addresses)) _ (code, t) e in
    let (posted, e2, r2) =
      bind-returned (pp_post_send (record (s.ctx) { work = work })) _ (code, t) r1 in
    let (polled, e3, r3) = bind-returned (poll_n_send_wc posted.1 1) _ (code, t) r2 in
    (polled.1, answer_eq r3)
  where
    answer_eq :
        {n : ℕ} {u : Server}
        → ◌≡◌ {A = Outcome (ℕ × Server)} (returned (n, u)) (returned (code, t))
        → t ≡ u
    answer_eq x = cc

-- A registration changes what is registered alone.
pub regions-register_mr :
    (s : Server) (start size : ℕ) (write read : Bool) (r : Region) (t : Server)
    → register_mr s start size write read ≡ returned (r, t)
    → (rest : List (Option (ℕ × ℕ))) × (rs : List Region) × (t
        ≡ record s { reg_mr_results = rest; regions = rs })
unfolding register_mr register_with
regions-register_mr s start size write read r t e =
    go s.reg_mr_results (region_of start size write read) e
  where
    go :
        (answers : List (Option (ℕ × ℕ))) (region : ℕ → ℕ → Region)
        → register_with s answers region ≡ returned (r, t)
        → (rest : List (Option (ℕ × ℕ))) × (rs : List Region) × (t
            ≡ record s { reg_mr_results = rest; regions = rs })
    go [] region e = absurd cc
    go (none ∷ rest) region e = absurd cc
    go (some (mr, rkey) ∷ rest) region e = (rest, s.regions ++ (region mr rkey ∷ []), cc)

-- A copy that was made is one of a string that fits its block.
pub copy_string_inv :
    (h h' : Heap) (n : ℕ) (source : Option (List ℕ))
    → IsFresh h
    → copy_string h n source ≡ some h'
    → ((text : List ℕ) → source ≡ some text → IsText text)
    → (text : List ℕ) × (source ≡ some text)
      × Grows h h'
      × IsFresh h'
      × (h'.next ≡ suc h.next)
      × (string_at h' h.next ≡ some text)
unfolding copy_string
copy_string_inv h h' n source f e is_text =
    let (text, found, fits) =
      strcpy-fits (malloc h n) h' h.next source (tabulate h.stale n) (cell-malloc_self h n) e in
    let (h1, e1, grows, fresh, next, at) =
      copy_string_lem h n text f (is_text text found)
        (omega (arith, fits, length-tabulate h.stale n)) in
    let same : h1 ≡ h' = copied (sym e1 ∙ ap (copy_string h n) (sym found) ∙ e) in
    subst
      (λ h'.
        (text : List ℕ) × (source ≡ some text)
        × Grows h h'
        × IsFresh h'
        × (h'.next ≡ suc h.next)
        × (string_at h' h.next ≡ some text))
      same (text, found, grows, fresh, next, at)
  where
    copied : {h1 : Heap} → ◌≡◌ {A = Option Heap} (some h1) (some h') → h1 ≡ h'
    copied x = cc
