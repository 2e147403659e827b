-- ===== src/Capability/Probes.antt =====
-- internal/capability/probe.go and the probes of probe_systemd.go, probe_exec.go and
-- probe_engines.go: which capabilities the daemon reports of a host. What the host answers is a
-- parameter: the marker file, systemd's unit files, commands, and the engines behind their sockets.
use pilothouse.Base.{
  String, Bool, not, Option, none, some, List, [], ◌∷◌, ◌++◌, string_eq, ◌==◌, if◌then◌else◌,
  contains,
}
use pilothouse.Capability.{CapabilitySet, new, union_sets}

-- `Config`
pub record Config : Type 0 where
  pub docker_endpoint : String
  pub incus_enabled : Bool
  pub k3s : String
  pub podman_socket : String
  pub updex : String

-- The answers of the host.
pub record HostAnswers : Type 0 where
  -- `systemdMarkerExists`
  pub marker : Bool
  pub connects : Bool
  -- The base names of the unit files, `none` where they cannot be listed.
  pub unit_files : Option (List String)
  pub journald : Bool
  -- The output of a command that exits with 0.
  pub run : String → List String → Option String
  -- `json.Valid`
  pub is_json : String → Bool
  -- The major and the minor version in the answer of k3s.
  pub version : String → Option (String × String)
  -- Whether the engine behind a socket or an endpoint answers without an error.
  pub podman_version : String → Bool
  pub docker_client : String → Bool
  pub docker_ping : String → Bool
  pub incus_server : Bool

-- `probeAutoupdatePairs`
unfoldable pub autoupdate_pair : List String → String → String → String → List String
autoupdate_pair known timer service id =
    if not (contains known timer) then [] else if not (contains known service) then [] else id ∷ []

unfoldable pub probe_autoupdate_pairs : Option (List String) → List String
probe_autoupdate_pairs none = []
probe_autoupdate_pairs (some known) =
    autoupdate_pair known "rpm-ostreed-automatic.timer" "rpm-ostreed-automatic.service"
      "autoupdate-rpm-ostree"
    ++ autoupdate_pair known "bootc-fetch-apply-updates.timer" "bootc-fetch-apply-updates.service"
        "autoupdate-bootc"

-- `probeSystemd`
unfoldable pub probe_systemd : HostAnswers → CapabilitySet
probe_systemd host =
    if not host.marker
    then new []
    else if not host.connects
    then new []
    else new ("systemd" ∷ [] ++ probe_autoupdate_pairs host.unit_files)

-- `ProbeJournald`
abbrev pub probe_journald : HostAnswers → CapabilitySet
probe_journald host = if host.journald then new ("journald" ∷ []) else new []

-- `probeExecSuccess`
unfoldable pub probe_exec_success : HostAnswers → String → String → List String → CapabilitySet
probe_exec_success host id name args = elim (host.run name args) [
  | none ↦ new []
  | some output ↦ new (id ∷ [])
]

-- `probeExecJSON`
unfoldable pub probe_exec_json : HostAnswers → String → String → List String → CapabilitySet
probe_exec_json host id name args = elim (host.run name args) [
  | none ↦ new []
  | some output ↦ if not (host.is_json output) then new [] else new (id ∷ [])
]

-- `ProbeUpdex`
unfoldable pub probe_updex : HostAnswers → String → CapabilitySet
probe_updex host updex =
    if updex == "" then new [] else probe_exec_success host "updex" updex ("--help" ∷ [])

-- `ProbeSysext`, `ProbeBootc` and `ProbeRPMOStree`
abbrev pub probe_sysext : HostAnswers → CapabilitySet
probe_sysext host = probe_exec_success host "sysext" "systemd-sysext" ("list" ∷ [])

abbrev pub probe_bootc : HostAnswers → CapabilitySet
probe_bootc host = probe_exec_json host "bootc" "bootc" ("status" ∷ "--json" ∷ [])

abbrev pub probe_rpm_ostree : HostAnswers → CapabilitySet
probe_rpm_ostree host = probe_exec_json host "rpm-ostree" "rpm-ostree" ("status" ∷ "--json" ∷ [])

unfoldable pub k3s_version : Option (String × String) → CapabilitySet
k3s_version none = new []
k3s_version (some (major, minor)) =
    if major == "" then new [] else if minor == "" then new [] else new ("k3s" ∷ [])

-- `ProbeK3s`
unfoldable pub probe_k3s : HostAnswers → String → CapabilitySet
unfolding k3s_version
probe_k3s host k3s =
    if k3s == ""
    then new []
    else elim (host.run k3s
        ("kubectl" ∷ "--kubeconfig=/etc/rancher/k3s/k3s.yaml" ∷ "get" ∷ "--raw=/version" ∷ [])) [
          | none ↦ new []
          | some output ↦ k3s_version (host.version output)
        ]

-- `probePodman`
unfoldable pub probe_podman : HostAnswers → String → CapabilitySet
probe_podman host socket =
    if socket == ""
    then new []
    else if not (host.podman_version socket)
    then new []
    else new ("podman" ∷ [])

-- `probeDocker`
unfoldable pub probe_docker : HostAnswers → String → CapabilitySet
probe_docker host endpoint =
    if endpoint == ""
    then new []
    else if not (host.docker_client endpoint)
    then new []
    else if not (host.docker_ping endpoint)
    then new []
    else new ("docker" ∷ [])

-- `probeIncus`
unfoldable pub probe_incus : HostAnswers → Bool → CapabilitySet
probe_incus host enabled =
    if not enabled then new [] else if not host.incus_server then new [] else new ("incus" ∷ [])

-- The table `probes`.
unfoldable pub probes : HostAnswers → Config → List CapabilitySet
probes host config =
    probe_systemd host
    ∷ probe_journald host
    ∷ probe_updex host config.updex
    ∷ probe_sysext host
    ∷ probe_bootc host
    ∷ probe_rpm_ostree host
    ∷ probe_podman host config.podman_socket
    ∷ probe_docker host config.docker_endpoint
    ∷ probe_incus host config.incus_enabled
    ∷ probe_k3s host config.k3s
    ∷ []

-- `Probe`
unfoldable pub probe : HostAnswers → Config → CapabilitySet
probe host config = union_sets (probes host config)
