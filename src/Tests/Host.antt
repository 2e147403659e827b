-- ===== src/Tests/Host.antt =====
-- A host with systemd and a podman socket that answers, two modules, and a listener.
use pilothouse.Base.{
  ◌≡◌, refl, ◌↔◌, String, Bool, true, false, Option, none, some, List, [], ◌∷◌, map, string_eq,
  ◌==◌, if◌then◌else◌, any, All, contains, pos,
}
use pilothouse.Capability.{CapabilitySet, has, union_sets}
use pilothouse.Capability.Probes.{Config, HostAnswers, probe}
use pilothouse.Capability.Configured.{
  updex_works, podman_works, docker_works, incus_works, k3s_works, probe_configured,
}
use pilothouse.Platform.{
  Manifest, gate, handled, available, register_all, register_module, conflict, sort_modules,
  insert_module, not_after,
}
use pilothouse.Platform.Gates.{gate_iff}
use pilothouse.Platform.Modules.{IsSound, new_registry-IsSound}
use pilothouse.Listen.{
  Setting, Settings, serve_http, decide, resolve_string, resolve_bool, is_loopback_listen,
  decide_serve_mode,
}
use pilothouse.Listen.Plaintext.{Exposed, decide-Exposed}

abbrev host : HostAnswers
host = record {
  marker = true;
  connects = true;
  unit_files = none;
  journald = false;
  run = λ name args. none;
  is_json = λ text. true;
  version = λ text. none;
  podman_version = λ socket. socket == "/run/podman.sock";
  docker_client = λ endpoint. true;
  docker_ping = λ endpoint. true;
  incus_server = true;
}

abbrev config : Config
config = record {
  docker_endpoint = "";
  incus_enabled = false;
  k3s = "";
  podman_socket = "/run/podman.sock";
  updex = "";
}

-- Podman is reported; docker and incus answer, but are not configured.
probe_configured_example :
    (has (probe host config) "updex" ≡ updex_works host config)
    × (has (probe host config) "podman" ≡ podman_works host config)
    × (has (probe host config) "docker" ≡ docker_works host config)
    × (has (probe host config) "incus" ≡ incus_works host config)
    × (has (probe host config) "k3s" ≡ k3s_works host config)
probe_configured_example = probe_configured host config

abbrev sets : List CapabilitySet
sets = ("systemd" ∷ []) ∷ [] ∷ ("podman" ∷ []) ∷ []

abbrev page : String
page = "page"

gate_iff_example :
    ((gate (union_sets sets) ("podman" ∷ "systemd" ∷ []) page ≡ handled page)
      ↔ All (λ id. any (λ s. has s id) sets ≡ true) ("podman" ∷ "systemd" ∷ []))
    × ((gate (union_sets sets) ("podman" ∷ "systemd" ∷ []) page ≡ handled page)
        ↔ (available (some ("podman" ∷ "systemd" ∷ [])) (union_sets sets) ≡ true))
gate_iff_example = gate_iff sets ("podman" ∷ "systemd" ∷ []) page

abbrev files : Manifest
files = record { id = "files"; name = "Files"; order = pos 40; path = "/files" }

abbrev logs : Manifest
logs = record { id = "logs"; name = "Logs"; order = pos 30; path = "/logs" }

new_registry-IsSound_example :
    IsSound (logs ∷ files ∷ [])
    × ((x : String)
        → contains (map (λ m. m.id) (logs ∷ files ∷ [])) x
          ≡ contains (map (λ m. m.id) (files ∷ logs ∷ [])) x)
unfolding register_all register_module conflict sort_modules insert_module not_after
new_registry-IsSound_example = new_registry-IsSound (files ∷ logs ∷ []) (logs ∷ files ∷ []) refl

abbrev as_is : String → String
as_is s = s

abbrev one_is_true : String → Option Bool
one_is_true s = if s == "1" then some true else none

abbrev any_address : String → Option String
any_address addr = some "0.0.0.0"

abbrev not_loopback : String → Option Bool
not_loopback address = some false

abbrev same : String → String → Bool
same s t = s == t

abbrev unset : Setting String
unset = record { passed = false; flag = ""; env = "" }

abbrev settings : Settings
settings = record {
  listen = record { passed = true; flag = "0.0.0.0:8888"; env = "" };
  tls_cert = unset;
  tls_key = unset;
  allow_insecure_http = record { passed = false; flag = false; env = "1" };
}

decide-Exposed_example : Exposed as_is one_is_true any_address not_loopback same settings
unfolding decide resolve_string resolve_bool is_loopback_listen decide_serve_mode
decide-Exposed_example =
    decide-Exposed as_is one_is_true any_address not_loopback same settings
      (record { mode = serve_http; loopback = false }) refl refl refl
