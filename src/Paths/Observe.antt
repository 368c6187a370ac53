-- ===== src/Paths/Observe.antt =====
-- What a path learns of its two endpoints, and the tail of a probe (src/path.c).
use comrade.Prelude.{ℕ, Bool, true, not, ◌&&◌, ◌||◌, List, if◌then◌else◌}
use comrade.Prelude.Int.{ℤ, pos}
use comrade.Paths.Ep.{Ep, Os, any, ep_eq, id_calc, ep_str}
use comrade.Paths.Types.{NetPath, path_label_max}
use comrade.Paths.Measure.{srtt_ms, loss_ppt}
use comrade.Paths.Cost.{peer_view, base_srtt_ms}

-- `struct path_probe`
pub record Probe : Type 0 where
  pub type : ℕ
  pub nonce : ℕ
  pub seq : ℕ
  pub ufrag : List ℕ
  pub have_tail : Bool
  pub echo : Ep
  pub srtt_ms : ℤ
  pub loss_ppt : ℤ
  pub base_srtt_ms : ℤ

module _ (os : Os) (sig_key : List ℕ) where
  unfoldable pub id_refresh : NetPath → NetPath
  id_refresh p = record p { id = id_calc os sig_key p.self_ep p.peer_ep }

  unfoldable pub set_self_ep : NetPath → Ep → NetPath
  unfolding id_refresh
  set_self_ep p e =
      if any e || (p.have_self_ep && ep_eq p.self_ep e)
      then p
      else id_refresh (record p { self_ep = e; have_self_ep = true })

  unfoldable pub set_peer_ep : NetPath → Ep → NetPath
  unfolding id_refresh
  set_peer_ep p e =
      if any e || ep_eq p.peer_ep e
      then p
      else id_refresh (record p { peer_ep = e; label = ep_str os e path_label_max })

  unfoldable pub apply_tail : NetPath → Probe → NetPath
  unfolding set_self_ep
  apply_tail p pr =
      if not pr.have_tail
      then p
      else peer_view (set_self_ep p pr.echo) pr.srtt_ms pr.loss_ppt pr.base_srtt_ms

unfoldable pub saw_inbound : NetPath → Ep → NetPath
saw_inbound p src = if not (any src) then record p { in_src = src } else p

unfoldable pub fill_tail : NetPath → Probe → Probe
fill_tail p pr = record pr {
  have_tail = true;
  echo = p.in_src;
  srtt_ms = pos (srtt_ms p);
  loss_ppt = pos (loss_ppt p);
  base_srtt_ms = pos (base_srtt_ms p);
}
