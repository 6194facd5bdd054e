-- ===== src/Setup/Tests.antt =====
-- A small context, and a device that refuses to release its protection domain.
use network_optimization.Prelude.{ℕ, ◌≡◌, refl, some, List, [], length, true}
use network_optimization.Connect.{Resource, pd, pp_close_ctx}
use network_optimization.Setup.{
  Device, Settings, acquisitions, acquire_all, new_context, pp_init_ctx,
}
use network_optimization.Setup.Laws.{resources_of, kinds, context-life}
use network_optimization.Release.{give_back}

abbrev dev : Device
dev = record {
  gives = λ a. true;
  modify_to_init = λ port. 0;
  query_qp = 0;
  max_inline_data = 60;
  post_send_results = [];
  post_recv_results = [];
  send_polls = [];
  receive_polls = [];
}

abbrev small : Settings
small = record {
  mr_control_size = 10;
  rx_depth = 4;
  tx_depth = 5;
  port = 1;
  use_event = true;
  is_server = true;
  page_size = 16;
}

refuse_pd : Resource → ℕ
refuse_pd pd = 16
refuse_pd _ = 0

made : pp_init_ctx dev small ≡ (some (new_context dev small), acquisitions small)
unfolding pp_init_ctx acquire_all
made = refl

two_pages : length (new_context dev small).work ≡ 32
two_pages = refl

context-life_example :
    (left : List Resource) × (give_back kinds
        (resources_of (acquisitions small))
        (pp_close_ctx refuse_pd true).1
      ≡ some left)
    × ((pp_close_ctx refuse_pd true).0 ≡ 0 → left ≡ [])
context-life_example =
    context-life dev small (new_context dev small) (acquisitions small) refuse_pd made
