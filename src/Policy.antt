-- ===== src/Policy.antt =====
-- internal/bgp/policy.go: the policies that the core installs in GoBGP.
pub mod Refused
use router_ui.Base.{ℕ, ◌%◌, ◌^◌, Bool, List, [], ◌∷◌, String, Option, none, some, Result, ok, err}
use router_ui.Base.Calls.{Act, pure, fail, perform, ◌>>=◌, ◌>>◌}
use router_ui.Net.{IpNet, Texts}

-- api.Prefix, api.DefinedSet of type PREFIX.
pub record Prefix : Type 0 where
  pub ip_prefix : String
  pub mask_length_min : ℕ
  pub mask_length_max : ℕ

pub record DefinedSet : Type 0 where
  pub name : String
  pub prefixes : List Prefix

pub data RouteAction : Type 0 where
  accept reject : RouteAction

-- api.Statement with its one condition, any prefix of the set of that name, and its one action.
pub record Statement : Type 0 where
  pub name : String
  pub any_of_set : String
  pub action : RouteAction

pub record Policy : Type 0 where
  pub name : String
  pub statements : List Statement

pub data Direction : Type 0 where
  import_direction export_direction : Direction

-- api.PolicyAssignment; the policies are named.
pub record Assignment : Type 0 where
  pub name : String
  pub direction : Direction
  pub policies : List String
  pub default_action : RouteAction

-- A request to the BGP server.
pub data Call : Type 0 where
  add_defined_set : DefinedSet → Call
  add_policy : Policy → Call
  set_policy_assignment : Assignment → Call

pub data Error : Type 0 where
  parse_aggregate : Error
  refused : String → Error

pub record PolicyManager : Type 0 where
  pub aggregate_prefix : String
  pub subnet_bits : ℕ

abbrev pub node_subnets : PolicyManager → DefinedSet
node_subnets pm = record {
  name = "node-subnets";
  prefixes =
      record {
        ip_prefix = pm.aggregate_prefix;
        mask_length_min = pm.subnet_bits % 2 ^ 32;
        mask_length_max = pm.subnet_bits % 2 ^ 32;
      }
      ∷ [];
}

abbrev pub aggregate_only : PolicyManager → ℕ → DefinedSet
aggregate_only pm agg_bits = record {
  name = "aggregate-only";
  prefixes =
      record {
        ip_prefix = pm.aggregate_prefix;
        mask_length_min = agg_bits;
        mask_length_max = agg_bits;
      }
      ∷ [];
}

abbrev pub import_policy : Policy
import_policy = record {
  name = "import-from-nodes";
  statements =
      record { name = "accept-node-subnets"; any_of_set = "node-subnets"; action = accept } ∷ [];
}

abbrev pub export_policy : Policy
export_policy = record {
  name = "export-aggregate-only";
  statements =
      record { name = "allow-aggregate"; any_of_set = "aggregate-only"; action = accept } ∷ [];
}

abbrev pub global_import : Assignment
global_import = record {
  name = "";
  direction = import_direction;
  policies = "import-from-nodes" ∷ [];
  default_action = reject;
}

abbrev pub upstream_export : String → Assignment
upstream_export peer_addr = record {
  name = peer_addr;
  direction = export_direction;
  policies = "export-aggregate-only" ∷ [];
  default_action = reject;
}

abbrev pub add_sets_of : PolicyManager → Option IpNet → Act Call Error String
add_sets_of pm none = fail parse_aggregate
add_sets_of pm (some agg_net) = do
  perform refused (add_defined_set (node_subnets pm))
  perform refused (add_defined_set (aggregate_only pm agg_net.ones))

unfoldable pub add_prefix_sets : Texts → PolicyManager → Act Call Error String
add_prefix_sets t pm = add_sets_of pm (t.parse_cidr pm.aggregate_prefix)

unfoldable pub add_policies : Act Call Error String
add_policies = do
  perform refused (add_policy import_policy)
  perform refused (add_policy export_policy)

unfoldable pub assign_global_import : Act Call Error String
assign_global_import = perform refused (set_policy_assignment global_import)

unfoldable pub apply : Texts → PolicyManager → Act Call Error String
unfolding add_prefix_sets add_policies assign_global_import
apply t pm = do add_prefix_sets t pm; add_policies; assign_global_import

unfoldable pub add_upstream_export_policy : String → Act Call Error String
add_upstream_export_policy peer_addr =
    perform refused (set_policy_assignment (upstream_export peer_addr))
