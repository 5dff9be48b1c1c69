-- ===== src/Tests/Nets.antt =====
-- The networks of the tests are as net.ParseCIDR returns them, and the names differ.
use router_ui.Base.{arith, refl, ◌≢◌, String, eq_iff}
use router_ui.Net.{IsIp4Net, be_value}
use router_ui.Tests.{aggregate, wg_range, everything}

pub aggregate-IsIp4Net : IsIp4Net aggregate
unfolding be_value
aggregate-IsIp4Net = record {
  four = refl;
  bytes = ground arith;
  short = omega arith;
  word = refl;
  masked = refl;
}

pub wg_range-IsIp4Net : IsIp4Net wg_range
unfolding be_value
wg_range-IsIp4Net = record {
  four = refl;
  bytes = ground arith;
  short = omega arith;
  word = refl;
  masked = refl;
}

pub everything-IsIp4Net : IsIp4Net everything
unfolding be_value
everything-IsIp4Net = record {
  four = refl;
  bytes = ground arith;
  short = omega arith;
  word = refl;
  masked = refl;
}

abbrev pub node_a : String
node_a = "a"

abbrev pub node_b : String
node_b = "b"

pub a-b : node_a ≢ node_b
a-b e = cc ((eq_iff node_a node_b).1 e)
