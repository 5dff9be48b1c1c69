-- ===== src/Speaker/Server.antt =====
-- Start and stop of internal/bgp/speaker.go: the calls of GoBGP's server, which blocks until the
-- context ends; and IPToUint32.
use router_ui.Base.{
  ℕ, ◌^◌, ◌<◌, List, [], ◌∷◌, Option, none, some, String, ◌≡◌, refl, arith, nat_eq, length,
  if◌then◌else◌, Result-cases, inl, inr, ap,
}
use router_ui.Base.Calls.{World, Act, perform, attempt, succeeded, ◌>>◌}
use router_ui.Net.{Ip, to4, be_value, put_uint32, to4_four, length-put_uint32, be_value-put_uint32}
use router_ui.Speaker.{SpeakerConfig}

pub record Global : Type 0 where
  pub asn : ℕ
  pub router_id : String
  pub listen_port : ℕ
  pub listen_addresses : List String

pub data ServerCall : Type 0 where
  new_server serve watch_event stop_bgp : ServerCall
  start_bgp : Global → ServerCall

pub data StartError : Type 0 where
  not_started not_stopped : String → StartError

abbrev pub global : SpeakerConfig → Global
global cfg = record {
  asn = cfg.asn;
  router_id = cfg.router_id;
  listen_port = cfg.listen_port;
  listen_addresses = cfg.listen_addr ∷ [];
}

unfoldable pub stop : Act ServerCall StartError String
stop = perform not_stopped stop_bgp

-- What is started in a goroutine is a call of which nothing is read. The context ends before stop.
unfoldable pub start : SpeakerConfig → Act ServerCall StartError String
start cfg = do
  attempt new_server
  attempt serve
  perform not_started (start_bgp (global cfg))
  attempt watch_event
  stop

-- A server that cannot start is not watched and not stopped; one that starts is stopped last.
pub start-calls :
    (cfg : SpeakerConfig) (w : World ServerCall)
    → (start cfg w []).1 ≡ (
        if succeeded (w (serve ∷ new_server ∷ []) (start_bgp (global cfg)))
        then stop_bgp ∷ watch_event ∷ start_bgp (global cfg) ∷ serve ∷ new_server ∷ []
        else start_bgp (global cfg) ∷ serve ∷ new_server ∷ [])
unfolding start stop
start-calls cfg w = elim (Result-cases (w (serve ∷ new_server ∷ []) (start_bgp (global cfg)))) [
  | inl (e, failed) ↦ rw failed refl
  | inr (text, started) ↦ rw started refl
]

-- None where Go panics, as it does on the nil that To4 gives for an address that is not IPv4.
unfoldable pub ip_to_uint32 : Ip → Option ℕ
ip_to_uint32 ip = if nat_eq (length (to4 ip)) 4 then some (be_value (to4 ip)) else none

pub ip_to_uint32-put_uint32 : (n : ℕ) → n < 2 ^ 32 → ip_to_uint32 (put_uint32 n) ≡ some n
unfolding ip_to_uint32
ip_to_uint32-put_uint32 n small =
    rw (to4_four (put_uint32 n) (length-put_uint32 n), length-put_uint32 n, be_value-put_uint32 n)
      (ap some (omega (arith, small)))
