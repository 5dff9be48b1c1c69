-- ===== src/Bgpctl/Commands.antt =====
-- The commands of cmd/bgpctl/main.go.
use router_ui.Base.{ℕ, List, [], ◌∷◌, map, String, ◌==◌, if◌then◌else◌, Result, ok, err, ◌>>=◌}
use router_ui.Base.Text.{◌+++◌}
use router_ui.Api.{NodeInfo}
use router_ui.Bgpctl.{
  Tools, Settings, Error, node_missing, api_get, api_delete, NodeRow, NodeDetail, SubnetRow,
  RouteRow, StatusReport, node_row, node_detail, subnet_row, route_row, status_report,
}

-- The loop of `node show`.
unfoldable pub find_node : String → List NodeInfo → Result Error NodeInfo
find_node id [] = err (node_missing id)
find_node id (n ∷ ns) = if n.node_id == id then ok n else find_node id ns

module _ (t : Tools) (settings : Settings) (now : ℕ) where
  unfoldable pub node_list : Result Error (List NodeRow)
  node_list = do nodes ← api_get t settings t.decode_nodes "/nodes"; ok (map (node_row t now) nodes)

  unfoldable pub node_show : String → Result Error NodeDetail
  node_show id = do
    nodes ← api_get t settings t.decode_nodes "/nodes"
    n ← find_node id nodes
    ok (node_detail t now n)

  unfoldable pub node_delete : String → Result Error String
  node_delete id = api_delete t settings ("/nodes/" +++ id)

  unfoldable pub subnet_list : Result Error (List SubnetRow)
  subnet_list = do nodes ← api_get t settings t.decode_nodes "/nodes"; ok (map subnet_row nodes)

  unfoldable pub route_list : Result Error (List RouteRow)
  route_list = do routes ← api_get t settings t.decode_routes "/routes"; ok (map route_row routes)

  unfoldable pub status : Result Error StatusReport
  status = do summary ← api_get t settings t.decode_status "/status"; ok (status_report summary)
