-- ===== src/Server/Request.antt =====
-- Reading a client's request out of the receive region, and the check whether its key is in use.
use mathlib.Core.Path.{subst}
use network_optimization.Prelude.{
  ℕ, ◌≡◌, ◌⊎◌, inl, inr, Option, none, some, List, [], ◌∷◌, ◌++◌, map, Bool, false, get_elem?, drop,
}
use network_optimization.Database.{KeyValueAddressPair, get_key_value_address_pair}
use network_optimization.Database.Table.{Key, find, entries}
use network_optimization.Database.Lookup.{get_key_value_address_pair_lem, Search}
use network_optimization.Protocol.Layout.{
  Field, Message, operation, fields, payload, AllFields, Reads, AllRead,
}
use network_optimization.Protocol.RoundTrip.{decode_control_message_buffer_lem}
use network_optimization.Verbs.{returned, PingpongContext}
use network_optimization.Server.{Server, receive_buffer, decode, is_busy}
use network_optimization.Server.Table.{View, view, IsServing}

-- The receive region holds the message; `rest` is what was there before.
pub record Received (c : PingpongContext) (m : Message) (rest : List ℕ) : Type 0 where
  pub buffer : receive_buffer c ≡ payload (fields m) ++ rest
  pub fit : AllFields (fields m)

-- The pointers that the decoder fills in lead to the fields.
abbrev pub Pointed : List (List ℕ) → List Field → Type 0
Pointed [] [] = Unit {0}
Pointed [] (f ∷ fs) = ⊥
Pointed (p ∷ ps) [] = ⊥
Pointed (p ∷ ps) (f ∷ fs) = Reads f p × Pointed ps fs

Pointed-of :
    (buf os : List ℕ) (fs : List Field) → AllRead buf os fs → Pointed (map (λ o. drop o buf) os) fs
Pointed-of buf [] [] h = tt
Pointed-of buf [] (f ∷ fs) h = absurd h
Pointed-of buf (o ∷ os) [] h = absurd h
Pointed-of buf (o ∷ os) (f ∷ fs) (r, h) = (r, Pointed-of buf os fs h)

pub decode_lem :
    {c : PingpongContext} {m : Message} {rest : List ℕ}
    → Received c m rest
    → (ps : List (List ℕ)) × (decode (operation m) c ≡ returned ps) × Pointed ps (fields m)
decode_lem {c} {m} {rest} r =
    let (os, e, h) = decode_control_message_buffer_lem m rest r.fit in
    (
      map (λ o. drop o (payload (fields m) ++ rest)) os,
      rw (r.buffer, e),
      Pointed-of (payload (fields m) ++ rest) os (fields m) h,
    )

-- Whether a view shows a key in use.
abbrev pub busy_in : Option View → Bool
busy_in none = false
busy_in (some (value, busy)) = busy

pub found_lem :
    {s : Server} {ks : List Key} (k : Key)
    → IsServing s ks
    → ((get_key_value_address_pair s.heap s.database (some k) ≡ some none)
        × (view k ks s.heap s.database ≡ none))
      ⊎ ((i : ℕ) × (p : KeyValueAddressPair) × (get_key_value_address_pair s.heap s.database
              (some k)
            ≡ some (some i))
          × (get_elem? ks i ≡ some k)
          × (get_elem? s.database.head i ≡ some p)
          × (find k ks (entries s.database) ≡ some p))
found_lem {s} {ks} k v = split (get_key_value_address_pair_lem k v.table)
  where
    split :
        ((r : Option ℕ) × (get_key_value_address_pair s.heap s.database (some k) ≡ some r)
          × Search s.database ks k r)
        → ((get_key_value_address_pair s.heap s.database (some k) ≡ some none)
            × (view k ks s.heap s.database ≡ none))
          ⊎ ((i : ℕ) × (p : KeyValueAddressPair) × (get_key_value_address_pair s.heap s.database
                  (some k)
                ≡ some (some i))
              × (get_elem? ks i ≡ some k)
              × (get_elem? s.database.head i ≡ some p)
              × (find k ks (entries s.database) ≡ some p))
    split (none, e, (_, f)) = inl (e, rw f)
    split (some i, e, (_, g, p, gp, f)) = inr (i, p, e, g, gp, f)

-- The check answers what the view shows.
pub is_busy_lem :
    {s : Server} {ks : List Key} (k : Key)
    → IsServing s ks
    → is_busy s (some k) ≡ returned (busy_in (view k ks s.heap s.database))
unfolding is_busy
is_busy_lem {s} {ks} k v = elim (found_lem k v) [
  | inl (e, none_seen) ↦ rw (e, none_seen)
  | inr (i, p, e, g, gp, f) ↦ rw (e, gp, f)
]

-- The pointers of a message of one, two or three fields.
pub decode_one :
    {c : PingpongContext} {m : Message} {rest : List ℕ} (f : Field)
    → fields m ≡ f ∷ []
    → Received c m rest
    → (p : List ℕ) × (decode (operation m) c ≡ returned (p ∷ [])) × Reads f p
decode_one {c} {m} f e r = let (ps, d, q) = decode_lem r in shape ps d (subst (Pointed ps) e q)
  where
    shape :
        (ps : List (List ℕ))
        → decode (operation m) c ≡ returned ps
        → Pointed ps (f ∷ [])
        → (p : List ℕ) × (decode (operation m) c ≡ returned (p ∷ [])) × Reads f p
    shape [] d x = absurd x
    shape (p ∷ []) d (x, _) = (p, d, x)
    shape (p ∷ q ∷ ps) d (x, y) = absurd y

pub decode_two :
    {c : PingpongContext} {m : Message} {rest : List ℕ} (f g : Field)
    → fields m ≡ f ∷ g ∷ []
    → Received c m rest
    → (p : List ℕ) × (q : List ℕ) × (decode (operation m) c ≡ returned (p ∷ q ∷ []))
      × Reads f p
      × Reads g q
decode_two {c} {m} f g e r = let (ps, d, q) = decode_lem r in shape ps d (subst (Pointed ps) e q)
  where
    shape :
        (ps : List (List ℕ))
        → decode (operation m) c ≡ returned ps
        → Pointed ps (f ∷ g ∷ [])
        → (p : List ℕ) × (q : List ℕ) × (decode (operation m) c ≡ returned (p ∷ q ∷ []))
          × Reads f p
          × Reads g q
    shape [] d x = absurd x
    shape (p ∷ []) d (_, x) = absurd x
    shape (p ∷ q ∷ []) d (x, (y, _)) = (p, q, d, x, y)
    shape (p ∷ q ∷ r' ∷ ps) d (x, (y, z)) = absurd z

pub decode_three :
    {c : PingpongContext} {m : Message} {rest : List ℕ} (f g k : Field)
    → fields m ≡ f ∷ g ∷ k ∷ []
    → Received c m rest
    → (p : List ℕ) × (q : List ℕ) × (o : List ℕ) × (decode (operation m) c
        ≡ returned (p ∷ q ∷ o ∷ []))
      × Reads f p
      × Reads g q
      × Reads k o
decode_three {c} {m} f g k e r =
    let (ps, d, q) = decode_lem r in shape ps d (subst (Pointed ps) e q)
  where
    shape :
        (ps : List (List ℕ))
        → decode (operation m) c ≡ returned ps
        → Pointed ps (f ∷ g ∷ k ∷ [])
        → (p : List ℕ) × (q : List ℕ) × (o : List ℕ) × (decode (operation m) c
            ≡ returned (p ∷ q ∷ o ∷ []))
          × Reads f p
          × Reads g q
          × Reads k o
    shape [] d x = absurd x
    shape (p ∷ []) d (_, x) = absurd x
    shape (p ∷ q ∷ []) d (_, (_, x)) = absurd x
    shape (p ∷ q ∷ o ∷ []) d (x, (y, (z, _))) = (p, q, o, d, x, y, z)
    shape (p ∷ q ∷ o ∷ r' ∷ ps) d (x, (y, (z, w))) = absurd w
