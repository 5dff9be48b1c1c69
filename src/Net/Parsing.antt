-- ===== src/Net/Parsing.antt =====
-- The textual side of Go's package net, which the model takes as a parameter: net.ParseCIDR,
-- net.ParseIP, IP.String and IPNet.String.
use router_ui.Base.{Option, String}
use router_ui.Net.Bytes.{Ip}
use router_ui.Net.Blocks.{IpNet}

pub record Texts : Type 0 where
  -- The network of a prefix such as "203.0.113.0/24", or an error.
  pub parse_cidr : String → Option IpNet
  -- The address, or nil.
  pub parse_ip : String → Ip
  pub ip_string : Ip → String
  pub cidr_string : IpNet → String
