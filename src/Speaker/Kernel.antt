-- ===== src/Speaker/Kernel.antt =====
-- installKernelRoute and removeKernelRoute of internal/bgp/speaker.go, and the watcher over the
-- kernel's routes. netlink is a record of the operations that the code calls, on a kernel `K`.
use router_ui.Base.{ℕ, List, [], ◌∷◌, Option, none, some, String, Result, ok, err}
use router_ui.Base.Text.{◌+++◌}
use router_ui.Net.{Ip, IpNet, Texts}
use router_ui.Speaker.{
  SpeakerConfig, Call, add_path, delete_path, route_replace, route_del, BestPath, watch_best_paths,
}

pub record Route : Type 0 where
  pub link_index : ℕ
  pub dst : IpNet
  pub gw : Ip
  pub protocol : ℕ

pub record Netlink (K : Type 0) : Type 0 where
  pub link_by_name : String → K → Result String ℕ
  pub route_replace : Route → K → Result String K
  pub route_del : IpNet → K → Result String K

-- An error, which is only logged, and the kernel after it.
abbrev pub changed : {K : Type 0} → Result String K → K → Option String × K
changed (ok after) k = (none, after)
changed (err e) k = (some e, k)

module _ {K : Type 0} (n : Netlink K) where
  abbrev pub linked : String → IpNet → Ip → Result String ℕ → K → Option String × K
  linked interface dst gw (err e) k = (some ("link " +++ (interface +++ (" not found: " +++ e))), k)
  linked interface dst gw (ok index) k =
      changed
        (n.route_replace (record { link_index = index; dst = dst; gw = gw; protocol = 186 }) k) k

  unfoldable pub install_kernel_route : String → IpNet → Ip → K → Option String × K
  install_kernel_route interface dst gw k = linked interface dst gw (n.link_by_name interface k) k

  unfoldable pub remove_kernel_route : IpNet → K → Option String × K
  remove_kernel_route dst k = changed (n.route_del dst k) k

  -- The watcher's calls, one after the other.
  abbrev pub carried_out : List Call → K → K
  carried_out [] k = k
  carried_out (route_replace interface dst gw ∷ calls) k =
      carried_out calls (install_kernel_route interface dst gw k).1
  carried_out (route_del dst ∷ calls) k = carried_out calls (remove_kernel_route dst k).1
  carried_out (add_path p ∷ calls) k = carried_out calls k
  carried_out (delete_path uuid ∷ calls) k = carried_out calls k

  unfoldable pub watched : Texts → SpeakerConfig → List BestPath → K → K
  watched t cfg ps k = carried_out (watch_best_paths t cfg ps) k
