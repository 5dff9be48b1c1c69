-- ===== src/Config/Documented.antt =====
-- LoadCoreConfig and LoadAgentConfig of pkg/config/config.go over viper as it is documented: what a
-- field holds that the configuration file leaves out.
use router_ui.Base.{
  [], ◌∷◌, Option, none, some, String, ◌==◌, ◌≡◌, refl, Bool, true, false, if◌then◌else◌, Result,
  ok, err, ℕ, ◌∙◌, Bool-cases, Result-cases, inl, inr, ap, subst, sym,
}
use router_ui.Config.{CoreConfig, AgentConfig, validate_core_config, validate_agent_config}
use router_ui.Config.Load.{
  Value, number, duration, text, Viper, Key, tag_path, core_setting, agent_setting, Defaults,
  set_defaults, core_defaults, agent_defaults, valid, validated, core_unmarshalled, log_level,
  bgp_listen_port, bgp_hold_time, bgp_keepalive, network_subnet_bits, api_listen,
  wireguard_interface, wireguard_listen_port, wireguard_mtu, health_heartbeat_timeout,
  health_check_interval, core_api_port, heartbeat_interval, agent_unmarshalled, load_core_config,
  load_agent_config, core_read, agent_read,
}

-- A value as the field of a key holds it: a duration is parsed from its text. What viper makes of a
-- value of another kind than the field's is left open.
abbrev pub read_as : (String → Option ℕ) → Value → Value → Option Value
read_as parse (number n) (number m) = some (number m)
read_as parse (text s) (text u) = some (text u)
read_as parse (duration n) (text u) = elim (parse u) [ none ↦ none | some d ↦ some (duration d) ]
read_as parse _ _ = none

-- What viper documents of the operations: `get` is the value of a key, `file` whether a file sets
-- a key, `fresh` that no file has been read, and `parse` Go's time.ParseDuration, in nanoseconds. A
-- default counts where the file does not set the key, and a struct's fields are read from the
-- values of their keys.
pub record IsViper {V : Type 0} (v : Viper V) (get : V → String → Option Value)
    (path_of : V → String) (fresh : V → Bool) (file : String → String → Bool)
    (parse : String → Option ℕ) : Type 0 where
  pub new_fresh : (path : String) → fresh (v.set_config_file path v.new) ≡ true
  pub config_file : (path : String) (s : V) → path_of (v.set_config_file path s) ≡ path
  pub default_path :
      (k : Key) (x : Value) (s : V) → path_of (v.set_default (tag_path k) x s) ≡ path_of s
  pub default_fresh :
      (k : Key) (x : Value) (s : V) → fresh s ≡ true → fresh (v.set_default (tag_path k) x s) ≡ true
  pub default_value :
      (k j : Key) (x : Value) (s : V)
      → fresh s ≡ true
      → get (v.set_default (tag_path k) x s) (tag_path j)
        ≡ (if tag_path k == tag_path j then some x else get s (tag_path j))
  pub left_out :
      (s read : V) (j : String)
      → fresh s ≡ true
      → v.read_in_config s ≡ ok read
      → file (path_of s) j ≡ false
      → get read j ≡ get s j
  pub core_field :
      (s : V) (c : CoreConfig) (k : Key) (x y z : Value)
      → v.unmarshal_core s ≡ ok c
      → get s (tag_path k) ≡ some x
      → core_setting c k ≡ some y
      → read_as parse y x ≡ some z
      → y ≡ z
  pub agent_field :
      (s : V) (c : AgentConfig) (k : Key) (x y z : Value)
      → v.unmarshal_agent s ≡ ok c
      → get s (tag_path k) ≡ some x
      → agent_setting c k ≡ some y
      → read_as parse y x ≡ some z
      → y ≡ z

-- The last value that the list gives to the key.
abbrev pub default_of : String → Defaults → Option Value → Option Value
default_of j [] held = held
default_of j ((k, x) ∷ rest) held = default_of j rest (if k == j then some x else held)

-- Each key of the calls of SetDefault is the path of a field, which is named.
infixr 5 ◌◂◌
pub data AreTags : Defaults → Type 0 where
  no_more : AreTags []
  ◌◂◌ : (k : Key) {x : Value} {ds : Defaults} → AreTags ds → AreTags ((tag_path k, x) ∷ ds)

module _ {V : Type 0} (v : Viper V) (get : V → String → Option Value) (path_of : V → String)
    (fresh : V → Bool) (file : String → String → Bool) (parse : String → Option ℕ)
    (viper : IsViper v get path_of fresh file parse) where
  defaults_get :
      (ds : Defaults) (s : V) (j : Key)
      → AreTags ds
      → fresh s ≡ true
      → (get (set_defaults v ds s) (tag_path j) ≡ default_of (tag_path j) ds (get s (tag_path j)))
        × (path_of (set_defaults v ds s) ≡ path_of s)
        × (fresh (set_defaults v ds s) ≡ true)
  defaults_get _ s j no_more new = (refl, refl, new)
  defaults_get _ s j (◌◂◌ k {x} {ds} tags) new =
      let after = v.set_default (tag_path k) x s in
      let (value, path, still) = defaults_get ds after j tags (viper.default_fresh k x s new) in
      (
        value ∙ ap (default_of (tag_path j) ds) (viper.default_value k j x s new),
        path ∙ viper.default_path k x s,
        still,
      )

  prepared_get :
      (ds : Defaults) (path : String) (read : V) (j : Key)
      → AreTags ds
      → v.read_in_config (set_defaults v ds (v.set_config_file path v.new)) ≡ ok read
      → file path (tag_path j) ≡ false
      → get read (tag_path j)
        ≡ default_of (tag_path j) ds (get (v.set_config_file path v.new) (tag_path j))
  prepared_get ds path read j tags done out =
      let base = v.set_config_file path v.new in
      let (value, same, still) = defaults_get ds base j tags (viper.new_fresh path) in
      let at : path_of (set_defaults v ds base) ≡ path = same ∙ viper.config_file path v.new in
      viper.left_out (set_defaults v ds base) read (tag_path j) still done
        (subst (λ file_path. file file_path (tag_path j) ≡ false) (sym at) out)
      ∙ value

  default_held :
      (ds : Defaults) (j : String) (x : Value) (held : Option Value)
      → default_of j ds none ≡ some x
      → default_of j ds held ≡ some x
  default_held [] j x held e = absurd (cc)
  default_held ((k, y) ∷ rest) j x held e = elim (Bool-cases (k == j)) [
    | inl hit ↦ rw hit (subst (λ b. default_of j rest (if b then some y else none) ≡ some x) hit e)
    | inr miss ↦ rw miss (
        default_held rest j x held
          (subst (λ b. default_of j rest (if b then some y else none) ≡ some x) miss e))
  ]

  validated_ok :
      {C : Type 0} (c cfg : C) (error : Option String)
      → validated c error ≡ valid cfg
      → (c ≡ cfg) × (error ≡ none)
  validated_ok c cfg none same = (cc same, refl)
  validated_ok c cfg (some e) same = absurd (cc same)

  core_unread : (path e : String) (cfg : CoreConfig) → core_read v path (err e) ≡ valid cfg → ⊥
  core_unread path e cfg loaded = absurd (cc loaded)

  core_unmarshalled_ok :
      (made : Result String CoreConfig) (cfg : CoreConfig)
      → core_unmarshalled made ≡ valid cfg
      → (made ≡ ok cfg) × (validate_core_config cfg ≡ none)
  core_unmarshalled_ok (err e) cfg loaded = absurd (cc loaded)
  core_unmarshalled_ok (ok c) cfg loaded =
      let (same, valid_c) = validated_ok c cfg (validate_core_config c) loaded in
      (ap ok same, subst (λ x. validate_core_config x ≡ none) same valid_c)

  agent_unread : (path e : String) (cfg : AgentConfig) → agent_read v path (err e) ≡ valid cfg → ⊥
  agent_unread path e cfg loaded = absurd (cc loaded)

  agent_unmarshalled_ok :
      (made : Result String AgentConfig) (cfg : AgentConfig)
      → agent_unmarshalled made ≡ valid cfg
      → (made ≡ ok cfg) × (validate_agent_config cfg ≡ none)
  agent_unmarshalled_ok (err e) cfg loaded = absurd (cc loaded)
  agent_unmarshalled_ok (ok c) cfg loaded =
      let (same, valid_c) = validated_ok c cfg (validate_agent_config c) loaded in
      (ap ok same, subst (λ x. validate_agent_config x ≡ none) same valid_c)

  core_tags : AreTags core_defaults
  core_tags =
      log_level ◂ bgp_listen_port ◂ bgp_hold_time ◂ bgp_keepalive ◂ network_subnet_bits ◂ api_listen
      ◂ wireguard_interface ◂ wireguard_listen_port ◂ wireguard_mtu ◂ health_heartbeat_timeout
      ◂ health_check_interval ◂ no_more

  agent_tags : AreTags agent_defaults
  agent_tags =
      log_level ◂ bgp_hold_time ◂ bgp_keepalive ◂ wireguard_interface ◂ wireguard_listen_port
      ◂ wireguard_mtu ◂ core_api_port ◂ heartbeat_interval ◂ no_more

  -- A configuration that is loaded without an error is valid, and a field that has a default and that
  -- the file leaves out holds the default, where that is of the field's kind.
  pub core_loaded :
      (path : String) (cfg : CoreConfig)
      → load_core_config v path ≡ valid cfg
      → (validate_core_config cfg ≡ none)
        × ((k : Key) (x y z : Value)
            → file path (tag_path k) ≡ false
            → default_of (tag_path k) core_defaults none ≡ some x
            → core_setting cfg k ≡ some y
            → read_as parse y x ≡ some z
            → y ≡ z)
  unfolding load_core_config
  core_loaded path cfg loaded =
      let base = v.set_config_file path v.new in
      elim (Result-cases (v.read_in_config (set_defaults v core_defaults base))) [
        | inl (e, failed) ↦
            absurd
              (core_unread path e cfg (subst (λ r. core_read v path r ≡ valid cfg) failed loaded))
        | inr (read, done) ↦
            let (made, checked) =
              core_unmarshalled_ok (v.unmarshal_core read) cfg
                (subst (λ r. core_read v path r ≡ valid cfg) done loaded) in
            (
              checked,
              λ k x y z out default field same.
                  viper.core_field read cfg k x y z made
                    (prepared_get core_defaults path read k core_tags done out
                      ∙ default_held core_defaults (tag_path k) x (get base (tag_path k)) default)
                    field same,
            )
      ]

  -- The same of the agent's configuration.
  pub agent_loaded :
      (path : String) (cfg : AgentConfig)
      → load_agent_config v path ≡ valid cfg
      → (validate_agent_config cfg ≡ none)
        × ((k : Key) (x y z : Value)
            → file path (tag_path k) ≡ false
            → default_of (tag_path k) agent_defaults none ≡ some x
            → agent_setting cfg k ≡ some y
            → read_as parse y x ≡ some z
            → y ≡ z)
  unfolding load_agent_config
  agent_loaded path cfg loaded =
      let base = v.set_config_file path v.new in
      elim (Result-cases (v.read_in_config (set_defaults v agent_defaults base))) [
        | inl (e, failed) ↦
            absurd
              (agent_unread path e cfg (subst (λ r. agent_read v path r ≡ valid cfg) failed loaded))
        | inr (read, done) ↦
            let (made, checked) =
              agent_unmarshalled_ok (v.unmarshal_agent read) cfg
                (subst (λ r. agent_read v path r ≡ valid cfg) done loaded) in
            (
              checked,
              λ k x y z out default field same.
                  viper.agent_field read cfg k x y z made
                    (prepared_get agent_defaults path read k agent_tags done out
                      ∙ default_held agent_defaults (tag_path k) x (get base (tag_path k)) default)
                    field same,
            )
      ]
