-- ===== src/WireGuard/Setup.antt =====
-- Manager.Setup and Manager.Teardown of internal/wireguard/manager.go: the calls that they make.
use router_ui.Base.{
  not, Bool, true, false, List, [], ◌∷◌, ◌++◌, String, ok, err, ◌≡◌, arith, if◌then◌else◌,
}
use router_ui.Base.Calls.{World, succeeded}
use router_ui.WireGuard.{
  InterfaceConfig, Call, link_by_name, link_add, configure_device, parse_addr, addr_replace,
  link_set_up, mtu_of, device_config, Error, setup,
}

-- The calls of a Setup that goes through, the newest first: the interface is added only if it is
-- not there.
abbrev pub setup_calls : InterfaceConfig → Bool → List Call
setup_calls cfg is_there =
    link_set_up cfg.name
    ∷ addr_replace cfg.name cfg.address
    ∷ link_by_name cfg.name
    ∷ parse_addr cfg.address
    ∷ configure_device cfg.name (device_config cfg)
    ∷ (if is_there then [] else link_add cfg.name (mtu_of cfg.mtu) ∷ [])

-- A Setup that succeeds has made all its calls, in their order, after the look for the interface.
pub setup-calls :
    (cfg : InterfaceConfig) (w : World Call) (done : List Call) (text : String)
    → (setup cfg w done).0 ≡ ok text
    → (setup cfg w done).1
      ≡ setup_calls cfg (succeeded (w done (link_by_name cfg.name))) ++ link_by_name cfg.name ∷ done
unfolding setup
setup-calls cfg w done text e = ground (arith, e)

-- The newest call was answered with an error.
abbrev pub failed_last : World Call → List Call → Bool
failed_last w [] = false
failed_last w (c ∷ rest) = not (succeeded (w rest c))

-- A Setup that fails has stopped at a call that was answered with an error.
pub setup_failed :
    (cfg : InterfaceConfig) (w : World Call) (done : List Call) (e : Error)
    → (setup cfg w done).0 ≡ err e
    → failed_last w (setup cfg w done).1 ≡ true
unfolding setup
setup_failed cfg w done e failed = ground (arith, failed)
