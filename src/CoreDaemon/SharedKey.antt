-- ===== src/CoreDaemon/SharedKey.antt =====
-- handleRegister of internal/registry/registry.go: a second node under the key of a registered one.
use router_ui.Subnet
use router_ui.WgPool
use router_ui.WgPool.Lease
use router_ui.Registry.{Registry}
