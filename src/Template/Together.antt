-- ===== src/Template/Together.antt =====
-- Optimization/bw_template.c: the two programs, a client and a server, from their command lines to
-- the client's writes.
use mathlib.Core.Path.{subst}
use network_optimization.Prelude.{
  ℕ, ◌+◌, ◌%◌, ◌^◌, ◌<◌, ◌≡◌, refl, sym, ap, ◌∙◌, inl, inr, Option, none, some, List, [], ◌∷◌,
  length, Bool, true, false, not, Bool-cases, ◌==◌, ◌&&◌, ◌||◌, replicate, if◌then◌else◌, arith,
}
use network_optimization.Prelude.Int.{ℤ, pos, negsuc}
use network_optimization.Prelude.Strings.{swap_bytes, AllBytes}
use network_optimization.Verbs.Swap.{swap_bytes-swap_bytes, swap_bytes-lt}
use network_optimization.Wire.{Mtu}
use network_optimization.Exchange.{dest_of}
use network_optimization.Template.Attempt.{going, gave_up, unless_null, unless_null_lem, going_bind}
use network_optimization.Template.Message.{BufferDest, IsDest}
use network_optimization.Template.Context.{
  Settings, Device, Context, acquisitions, acquire_all, pp_init_ctx,
}
use network_optimization.Template.Options.{
  Opt, opt_port, opt_ib_dev, opt_ib_port, opt_size, opt_mtu, opt_rx_depth, opt_iters, opt_sl,
  opt_events, opt_gid_idx, unknown, with_mtu, natural, to_int, mtu_of, Options, defaults,
  take_option, parse_options, has_servername, choose_device,
}
use network_optimization.Template.Main.{
  World, Prepared, own_gid, own_dest, bench_of, fill_queue, check, prepare, settings_of,
}

-- What the device of a host documents: the sizes of its numbers and its gids.
pub record IsHost (w : World) : Type 0 where
  pub lid_fits : w.lid < 2 ^ 16
  pub qpn_fits : w.qp_num < 2 ^ 24
  pub gid_length : (idx : ℕ) (gid : List ℕ) → w.gid_of idx ≡ some gid → length gid ≡ 16
  pub gid_bytes : (idx : ℕ) (gid : List ℕ) → w.gid_of idx ≡ some gid → AllBytes gid
  pub rkey_fits : w.rkey < 2 ^ 32

abbrev IsGid : List ℕ → Type 0
IsGid gid = (length gid ≡ 16) × AllBytes gid

zeros-IsGid : IsGid (replicate 16 0)
zeros-IsGid = (refl, ground arith)

own_gid-IsGid :
    (w : World) (idx : ℤ) (gid : List ℕ) → IsHost w → own_gid w idx ≡ going gid → IsGid gid
unfolding own_gid
own_gid-IsGid w (negsuc n) gid h e =
    let same : replicate 16 0 ≡ gid = cc in subst IsGid same zeros-IsGid
own_gid-IsGid w (pos n) gid h e =
    let found = unless_null_lem (w.gid_of n) gid e in
    (h.gid_length n gid found, h.gid_bytes n gid found)

-- The destination that a host gives away.
abbrev dest_with : World → ℕ → List ℕ → BufferDest
dest_with w start gid = record {
  host = dest_of w.lid w.qp_num (w.random % 2 ^ 24) gid;
  buf_va = swap_bytes 8 (w.buf + start);
  buf_rkey = swap_bytes 4 w.rkey;
}

dest_with-IsDest :
    (w : World) (start : ℕ) (gid : List ℕ) → IsHost w → IsGid gid → IsDest (dest_with w start gid)
dest_with-IsDest w start gid h g = record {
  lid_fits = h.lid_fits;
  qpn_fits = h.qpn_fits;
  psn_fits = omega arith;
  va_fits = omega (arith, swap_bytes-lt 8 (w.buf + start));
  rkey_fits = omega (arith, swap_bytes-lt 4 w.rkey);
  gid_length = g.0;
  gid_bytes = g.1;
  second_half = refl;
}

own_dest_lem :
    (w : World) (o : Options) (c : Context) (d : BufferDest)
    → own_dest w o c ≡ going d
    → (gid : List ℕ) × (own_gid w o.gidx ≡ going gid) × (d ≡ dest_with w c.mr_rdma_write_start gid)
unfolding own_dest
own_dest_lem w o c d e =
    let (gid, found, rest) = going_bind (own_gid w o.gidx) _ d e in
    elim (Bool-cases c.has_rdma_write_mr) [
      | inl there ↦ let same = rw there at rest in (gid, found, cc)
      | inr null ↦ absurd (ground (arith, rw null at rest))
    ]

pp_init_ctx-start :
    (dev : Device) (s : Settings) (c : Context)
    → (pp_init_ctx dev s).0 ≡ some c
    → c.mr_rdma_write_start ≡ s.size
unfolding pp_init_ctx
pp_init_ctx-start dev s c e =
    elim (Bool-cases (
      (acquire_all dev.gives (acquisitions s)).0
      && dev.modify_to_init s.port == 0
      && dev.query_qp == 0)) [
        | inl done ↦ ground (arith, rw done at e)
        | inr failed ↦ absurd (ground (arith, rw failed at e))
      ]

going_inj : {A : Type 0} {p q : A} → going p ≡ going q → p ≡ q
going_inj e = cc

kept : (x o : Options) → going x ≡ going o → o.tx_depth ≡ x.tx_depth
kept x o e = ap (λ y. y.tx_depth) (sym (going_inj e))

kept_if :
    (b : Bool) (x o : Options)
    → (if b then going x else gave_up) ≡ going o
    → o.tx_depth ≡ x.tx_depth
kept_if true x o e = kept x o e
kept_if false x o e = cc

kept_mtu :
    (g : Bool) (o o' : Options) (mtu : Option Mtu)
    → with_mtu g o mtu ≡ going o'
    → o'.tx_depth ≡ o.tx_depth
kept_mtu true o o' none e = cc
kept_mtu false o o' none e = cc
kept_mtu g o o' (some mtu) e = kept _ o' e

-- No option changes the depth of the send queue.
take_option-depth :
    (g : Bool) (o o' : Options) (x : Opt) → take_option g o x ≡ going o' → o'.tx_depth ≡ o.tx_depth
unfolding take_option
take_option-depth g o o' (opt_port p) e = kept_if _ _ o' e
take_option-depth g o o' (opt_ib_dev name) e = kept _ o' e
take_option-depth g o o' (opt_ib_port p) e = kept_if _ _ o' e
take_option-depth g o o' (opt_size z) e =
    let (n, _, rest) = going_bind (natural (to_int z)) _ o' e in kept _ o' rest
take_option-depth g o o' (opt_mtu n) e = kept_mtu g o o' (mtu_of (to_int n)) e
take_option-depth g o o' (opt_rx_depth z) e =
    let (n, _, rest) = going_bind (natural (to_int z)) _ o' e in kept _ o' rest
take_option-depth g o o' (opt_iters z) e =
    let (n, _, rest) = going_bind (natural (to_int z)) _ o' e in kept _ o' rest
take_option-depth g o o' (opt_sl n) e = kept _ o' e
take_option-depth g o o' opt_events e = kept _ o' e
take_option-depth g o o' (opt_gid_idx n) e = kept _ o' e
take_option-depth g o o' unknown e = cc

parse_options-depth :
    (g : Bool) (o o' : Options) (xs : List Opt)
    → parse_options g o xs ≡ going o'
    → o'.tx_depth ≡ o.tx_depth
unfolding parse_options
parse_options-depth g o o' [] e = cc
parse_options-depth g o o' (x ∷ xs) e =
    let (o1, taken, rest) = going_bind (take_option g o x) _ o' e in
    parse_options-depth g o1 o' xs rest ∙ take_option-depth g o o1 x taken

-- A host gives away the start of the region behind its control messages.
abbrev GivesRegion : World → Prepared → Type 0
GivesRegion w p =
    (gid : List ℕ) × (own_gid w p.settings.gidx ≡ going gid)
    × (p.my_dest ≡ dest_with w p.settings.size gid)

own_dest-GivesRegion :
    (w : World) (i : ℕ) (c : Context) (p : Prepared)
    → (pp_init_ctx (w.device i) (settings_of w p.settings p.is_client)).0 ≡ some c
    → own_dest w p.settings c ≡ going p.my_dest
    → GivesRegion w p
own_dest-GivesRegion w i c p made own =
    let (gid, found, same) = own_dest_lem w p.settings c p.my_dest own in
    let start = pp_init_ctx-start (w.device i) (settings_of w p.settings p.is_client) c made in
    (gid, found, same ∙ ap (λ n. dest_with w n gid) start)

pub prepare_lem :
    (w : World) (p : Prepared)
    → prepare w ≡ going p
    → GivesRegion w p × (p.settings.tx_depth ≡ 4800)
unfolding prepare
prepare_lem w p e =
    let (o, parsed, e1) = going_bind (parse_options w.enum_is_signed defaults w.options) _ p e in
    let (is_client, _, e2) = going_bind (has_servername w.leftover w.names) _ p e1 in
    let (i, _, e3) = going_bind (choose_device w.devices o.ib_devname) _ p e2 in
    let (c, made, e4) =
      going_bind (unless_null (pp_init_ctx (w.device i) (settings_of w o is_client)).0) _ p e3 in
    let (b, _, e5) = going_bind (fill_queue (bench_of w c)) _ p e4 in
    let (_, _, e6) = going_bind (check (o.use_event == 0 || w.notified == 0)) _ p e5 in
    let (_, _, e7) = going_bind (check (w.port_queried == 0)) _ p e6 in
    let (_, _, e8) = going_bind (check (not (w.is_infiniband && w.lid == 0))) _ p e7 in
    let (d, own, e9) = going_bind (own_dest w o c) _ p e8 in
    let depth = parse_options-depth w.enum_is_signed defaults o w.options parsed in
    subst (λ q. GivesRegion w q × (q.settings.tx_depth ≡ 4800)) (going_inj e9)
      (
        own_dest-GivesRegion w i c
            (record { settings = o; is_client = is_client; bench = b; my_dest = d })
            (unless_null_lem _ c made) own,
        depth,
      )

pub prepare-IsDest : (w : World) (p : Prepared) → IsHost w → prepare w ≡ going p → IsDest p.my_dest
prepare-IsDest w p h e =
    let (gid, found, same) = (prepare_lem w p e).0 in
    rw same (dest_with-IsDest w p.settings.size gid h (own_gid-IsGid w p.settings.gidx gid h found))

-- What the peer gets when it swaps the address and the key back.
pub prepare-region :
    (w : World) (p : Prepared)
    → IsHost w
    → prepare w ≡ going p
    → w.buf + p.settings.size < 2 ^ 64
    → (swap_bytes 8 p.my_dest.buf_va ≡ w.buf + p.settings.size)
      × (swap_bytes 4 p.my_dest.buf_rkey ≡ w.rkey)
prepare-region w p h e fits =
    let (gid, found, same) = (prepare_lem w p e).0 in
    rw same (
      (swap_bytes-swap_bytes 8 (w.buf + p.settings.size) (omega (arith, fits))).0,
      (swap_bytes-swap_bytes 4 w.rkey (omega (arith, h.rkey_fits))).0,
    )
