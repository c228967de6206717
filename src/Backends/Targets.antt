-- ===== src/Backends/Targets.antt =====
-- src/modules/backend.js: the targets of a backend and the settings that its policies give. A target
-- without a port throws, since `backendRef` is not defined there; an exception is `none`. A time is the text of the configuration, read by `parse_float`.
use fgw.Base.{
  ℕ, Bool, true, false, List, [], ◌∷◌, ◌++◌, Option, none, some, Text, txt, truthy, text_eq,
  to_text, find, if◌then◌else◌, ltb,
}

pub record TargetSpec : Type 0 where
  pub address : Text
  pub port : Option ℕ
  pub app_protocol : Text
  pub weight : Option ℕ

pub record BackendTarget : Type 0 where
  pub address : Text
  pub protocol : Text
  pub weight : Option ℕ
  pub concurrency : ℕ

pub record PolicyTimeouts : Type 0 where
  pub connect : Option Text
  pub idle : Option Text
  pub read : Option Text
  pub write : Option Text

pub record LbPolicy : Type 0 where
  pub algorithm : Option Text
  pub timeouts : Option PolicyTimeouts

abbrev port_of : Option ℕ → Option ℕ
port_of none = none
port_of (some p) = if ltb 0 p then some p else none

abbrev target_at : Text → TargetSpec → Option ℕ → Option BackendTarget
target_at app_protocol t none = none
target_at app_protocol t (some port) = some (record {
  address = (t.address ++ txt ":") ++ to_text port;
  protocol = if truthy t.app_protocol then t.app_protocol else app_protocol;
  weight = t.weight;
  concurrency = 0;
})

abbrev cons_target :
    Option BackendTarget → Option (List BackendTarget) → Option (List BackendTarget)
cons_target none ts = none
cons_target (some t) none = none
cons_target (some t) (some ts) = some (t ∷ ts)

-- getTargets, for the targets of a resource and its own `appProtocol`.
unfoldable pub get_targets : Text → List TargetSpec → Option (List BackendTarget)
get_targets app_protocol [] = some []
get_targets app_protocol (t ∷ ts) =
    cons_target (target_at app_protocol t (port_of t.port)) (get_targets app_protocol ts)

abbrev has_text : Option Text → Bool
has_text none = false
has_text (some s) = truthy s

abbrev has_timeouts : Option PolicyTimeouts → Bool
has_timeouts none = false
has_timeouts (some t) = true

pub data Algorithm : Type 0 where
  least_load round_robin : Algorithm

abbrev algorithm_of : Option LbPolicy → Algorithm
algorithm_of none = round_robin
algorithm_of (some p) = elim p.algorithm [
  | none ↦ round_robin
  | some s ↦ if text_eq s (txt "LeastLoad") then least_load else round_robin
]

-- The algorithm of the first policy that names one.
unfoldable pub choose_algorithm : List LbPolicy → Algorithm
choose_algorithm ps = algorithm_of (find (λ p. has_text p.algorithm) ps)

abbrev timeouts_of : Option LbPolicy → Option PolicyTimeouts
timeouts_of none = none
timeouts_of (some p) = p.timeouts

unfoldable pub choose_timeouts : List LbPolicy → Option PolicyTimeouts
choose_timeouts ps = timeouts_of (find (λ p. has_timeouts p.timeouts) ps)

-- tcpOptions and udpOptions; a setting that is not written is `none`.
pub record ConnectOptions (F : Type 0) : Type 0 where
  pub connect_timeout : Option F
  pub idle_timeout : Option F
  pub read_timeout : Option F
  pub write_timeout : Option F

module _ {F : Type 0} (parse_float : Text → F) (never minute : F) where
  abbrev parsed_or : Option Text → Option F → Option F
  parsed_or none d = d
  parsed_or (some s) d = if truthy s then some (parse_float s) else d

  unfoldable pub tcp_options : Option PolicyTimeouts → ConnectOptions F
  tcp_options none = record {
    connect_timeout = none;
    idle_timeout = some never;
    read_timeout = none;
    write_timeout = none;
  }
  tcp_options (some t) = record {
    connect_timeout = parsed_or t.connect none;
    idle_timeout = parsed_or t.idle (some never);
    read_timeout = parsed_or t.read none;
    write_timeout = parsed_or t.write none;
  }

  unfoldable pub udp_options : Option PolicyTimeouts → ConnectOptions F
  udp_options none = record {
    connect_timeout = none;
    idle_timeout = some minute;
    read_timeout = none;
    write_timeout = none;
  }
  udp_options (some t) = record {
    connect_timeout = none;
    idle_timeout = parsed_or t.idle (some minute);
    read_timeout = parsed_or t.read none;
    write_timeout = parsed_or t.write none;
  }
