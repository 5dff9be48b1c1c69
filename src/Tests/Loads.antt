-- ===== src/Tests/Loads.antt =====
-- The reader of Files behaves as viper documents, and what it loads.
use router_ui.Base.{
  ℕ, true, false, [], ◌∷◌, Option, some, String, ◌==◌, ◌≡◌, ◌≢◌, refl, ap, ◌∙◌, arith,
  if◌then◌else◌, Option-cases, inl, inr, subst,
}
use router_ui.Base.Dict.{lookup, insert, lookup-insert}
use router_ui.Config.{CoreConfig, AgentConfig, validate_core_config, validate_agent_config}
use router_ui.Config.Load.{
  Value, number, duration, text, Key, tag_path, core_setting, agent_setting, Defaults,
  core_defaults, agent_defaults, load_core_config, load_agent_config, valid, log_level,
  bgp_listen_port, bgp_hold_time, bgp_keepalive, network_subnet_bits, api_listen,
  wireguard_interface, wireguard_listen_port, wireguard_mtu, health_heartbeat_timeout,
  health_check_interval, core_api_port, heartbeat_interval,
}
use router_ui.Config.Documented.{read_as, IsViper}
use router_ui.Config.Defaults.{load_core_config-ok}
use router_ui.Tests.Files.{
  Settings, State, contents, parse, get, number_of, text_of, duration_of, core_from, agent_from,
  viper, path_of, fresh, file,
}

number_kind :
    (x : Value) (n : ℕ) (z : Value)
    → read_as parse (number n) x ≡ some z
    → number (number_of (some x)) ≡ z
number_kind (number m) n z g = cc g
number_kind (duration m) n z g = absurd (cc g)
number_kind (text m) n z g = absurd (cc g)

number_read :
    (held : Option Value) (x y z : Value)
    → held ≡ some x
    → some (number (number_of held)) ≡ some y
    → read_as parse y x ≡ some z
    → y ≡ z
number_read held x y z e f g =
    let same : y ≡ number (number_of (some x)) = cc (f, ap number_of e) in
    same ∙ number_kind x (number_of (some x)) z (subst (λ u. read_as parse u x ≡ some z) same g)

text_kind :
    (x : Value) (n : String) (z : Value)
    → read_as parse (text n) x ≡ some z
    → text (text_of (some x)) ≡ z
text_kind (number m) n z g = absurd (cc g)
text_kind (duration m) n z g = absurd (cc g)
text_kind (text m) n z g = cc g

text_read :
    (held : Option Value) (x y z : Value)
    → held ≡ some x
    → some (text (text_of held)) ≡ some y
    → read_as parse y x ≡ some z
    → y ≡ z
text_read held x y z e f g =
    let same : y ≡ text (text_of (some x)) = cc (f, ap text_of e) in
    same ∙ text_kind x (text_of (some x)) z (subst (λ u. read_as parse u x ≡ some z) same g)

duration_kind :
    (x : Value) (n : ℕ) (z : Value)
    → read_as parse (duration n) x ≡ some z
    → duration (duration_of (some x)) ≡ z
duration_kind (number m) n z g = absurd (cc g)
duration_kind (duration m) n z g = absurd (cc g)
duration_kind (text m) n z g = elim (Option-cases (parse m)) [
  | inl bad ↦ absurd (ground (arith, bad, g))
  | inr (d, read) ↦ ground (arith, read, g)
]

duration_read :
    (held : Option Value) (x y z : Value)
    → held ≡ some x
    → some (duration (duration_of held)) ≡ some y
    → read_as parse y x ≡ some z
    → y ≡ z
duration_read held x y z e f g =
    let same : y ≡ duration (duration_of (some x)) = cc (f, ap duration_of e) in
    same ∙ duration_kind x (duration_of (some x)) z (subst (λ u. read_as parse u x ≡ some z) same g)

core_fields :
    (s : State) (k : Key) (x y z : Value)
    → get s (tag_path k) ≡ some x
    → core_setting (core_from s) k ≡ some y
    → read_as parse y x ≡ some z
    → y ≡ z
core_fields s log_level x y z e f g = text_read (get s (tag_path log_level)) x y z e f g
core_fields s bgp_listen_port x y z e f g =
    number_read (get s (tag_path bgp_listen_port)) x y z e f g
core_fields s bgp_hold_time x y z e f g = number_read (get s (tag_path bgp_hold_time)) x y z e f g
core_fields s bgp_keepalive x y z e f g = number_read (get s (tag_path bgp_keepalive)) x y z e f g
core_fields s network_subnet_bits x y z e f g =
    number_read (get s (tag_path network_subnet_bits)) x y z e f g
core_fields s api_listen x y z e f g = text_read (get s (tag_path api_listen)) x y z e f g
core_fields s wireguard_interface x y z e f g =
    text_read (get s (tag_path wireguard_interface)) x y z e f g
core_fields s wireguard_listen_port x y z e f g =
    number_read (get s (tag_path wireguard_listen_port)) x y z e f g
core_fields s wireguard_mtu x y z e f g = number_read (get s (tag_path wireguard_mtu)) x y z e f g
core_fields s health_heartbeat_timeout x y z e f g =
    duration_read (get s (tag_path health_heartbeat_timeout)) x y z e f g
core_fields s health_check_interval x y z e f g =
    duration_read (get s (tag_path health_check_interval)) x y z e f g
core_fields s core_api_port x y z e f g = absurd (cc f)
core_fields s heartbeat_interval x y z e f g = absurd (cc f)

agent_fields :
    (s : State) (k : Key) (x y z : Value)
    → get s (tag_path k) ≡ some x
    → agent_setting (agent_from s) k ≡ some y
    → read_as parse y x ≡ some z
    → y ≡ z
agent_fields s log_level x y z e f g = text_read (get s (tag_path log_level)) x y z e f g
agent_fields s bgp_listen_port x y z e f g = absurd (cc f)
agent_fields s bgp_hold_time x y z e f g = number_read (get s (tag_path bgp_hold_time)) x y z e f g
agent_fields s bgp_keepalive x y z e f g = number_read (get s (tag_path bgp_keepalive)) x y z e f g
agent_fields s network_subnet_bits x y z e f g = absurd (cc f)
agent_fields s api_listen x y z e f g = absurd (cc f)
agent_fields s wireguard_interface x y z e f g =
    text_read (get s (tag_path wireguard_interface)) x y z e f g
agent_fields s wireguard_listen_port x y z e f g =
    number_read (get s (tag_path wireguard_listen_port)) x y z e f g
agent_fields s wireguard_mtu x y z e f g = number_read (get s (tag_path wireguard_mtu)) x y z e f g
agent_fields s health_heartbeat_timeout x y z e f g = absurd (cc f)
agent_fields s health_check_interval x y z e f g = absurd (cc f)
agent_fields s core_api_port x y z e f g = number_read (get s (tag_path core_api_port)) x y z e f g
agent_fields s heartbeat_interval x y z e f g =
    duration_read (get s (tag_path heartbeat_interval)) x y z e f g

default_read :
    (k j : String) (x : Value) (s : State)
    → fresh s ≡ true
    → get (record s { defaults = insert k x s.defaults }) j ≡ (if k == j then some x else get s j)
default_read k j x s new = elim (Option-cases s.read) [
  | inl none_read ↦ rw (get, none_read) (lookup-insert k j x s.defaults)
  | inr (settings, read) ↦ absurd (ground (arith, new, read))
]

file_read :
    (s read : State) (j : String)
    → fresh s ≡ true
    → record s { read = some contents } ≡ read
    → file s.path j ≡ false
    → get read j ≡ get s j
unfolding lookup
file_read s read j new done out = elim (Option-cases s.read) [
  | inl none_read ↦
      subst (λ r. get r j ≡ get s j) done
        (elim (Option-cases (lookup j contents)) [
          | inl absent ↦ rw (get, absent, none_read) refl
          | inr (x, there) ↦ absurd (ground (arith, out, there))
        ])
  | inr (settings, old) ↦ absurd (ground (arith, new, old))
]

pub documented : IsViper viper get path_of fresh file parse
unfolding lookup
documented = record {
  new_fresh = λ path. refl;
  config_file = λ path s. refl;
  default_path = λ k x s. refl;
  default_fresh = λ k x s new. new;
  default_value = λ k j x s new. (default_read (tag_path k) (tag_path j) x s new);
  left_out = λ s read j new done out. (file_read s read j new (cc done) out);
  core_field = λ s c k x y z made e f g.
      let same : c ≡ core_from s = cc made in
      core_fields s k x y z e (subst (λ b. core_setting b k ≡ some y) same f) g;
  agent_field = λ s c k x y z made e f g.
      let same : c ≡ agent_from s = cc made in
      agent_fields s k x y z e (subst (λ b. agent_setting b k ≡ some y) same f) g;
}

-- The defaults in a dictionary.
abbrev defaults_of : Defaults → Settings
defaults_of ds = filled ds []
  where
    filled : Defaults → Settings → Settings
    filled [] s = s
    filled ((k, x) ∷ rest) s = filled rest (insert k x s)

abbrev pub core_read : CoreConfig
core_read =
    core_from
      (record { path = "core.yaml"; defaults = defaults_of core_defaults; read = some contents })

abbrev pub agent_read : AgentConfig
agent_read =
    agent_from
      (record { path = "agent.yaml"; defaults = defaults_of agent_defaults; read = some contents })

pub core_loads : load_core_config viper "core.yaml" ≡ valid core_read
unfolding load_core_config insert lookup validate_core_config
core_loads = refl

pub agent_loads : load_agent_config viper "agent.yaml" ≡ valid agent_read
unfolding load_agent_config insert lookup validate_agent_config
agent_loads = refl

-- The file sets the level of the log alone.
load_core_config-ok_example :
    ((core_read.bgp.asn ≢ 0)
      × (core_read.bgp.router_id ≢ "")
      × (core_read.wireguard.private_key ≢ "")
      × (core_read.wireguard.address ≢ "")
      × (core_read.network.aggregate_prefix ≢ "")
      × (core_read.api.api_key ≢ ""))
    × (core_read.log_level ≡ "debug")
    × (core_read.bgp.listen_port ≡ 179)
    × (core_read.bgp.hold_time ≡ 90)
    × (core_read.bgp.keepalive ≡ 30)
    × (core_read.network.subnet_bits ≡ 26)
    × (core_read.api.listen ≡ "0.0.0.0:8080")
    × (core_read.wireguard.interface ≡ "wg-core")
    × (core_read.wireguard.listen_port ≡ 51_820)
    × (core_read.wireguard.mtu ≡ 1_420)
    × (core_read.health.heartbeat_timeout ≡ 90_000_000_000)
    × (core_read.health.check_interval ≡ 15_000_000_000)
unfolding insert lookup
load_core_config-ok_example =
    load_core_config-ok viper get path_of fresh file parse "core.yaml" core_read documented refl
      refl core_loads
