-- ===== src/Capability/Configured.antt =====
-- Which capabilities depend on what the operator has configured.
use pilothouse.Base.{
  ◌≡◌, refl, ◌∙◌, String, Bool, true, false, not, ◌&&◌, ◌||◌, Option, none, some, List, [], ◌∷◌,
  ◌++◌, string_eq, ◌==◌, if◌then◌else◌, contains, is_some, arith, Bool-cases, inl, inr,
}
use pilothouse.Capability.{new, has}
use pilothouse.Capability.Union.{has-new, has-union_sets}
use pilothouse.Capability.Probes.{
  Config, HostAnswers, autoupdate_pair, probe_autoupdate_pairs, probe_systemd, probe_journald,
  probe_exec_success, probe_exec_json, probe_updex, probe_sysext, probe_bootc, probe_rpm_ostree,
  probe_k3s, k3s_version, probe_podman, probe_docker, probe_incus, probes, probe,
}

has-one : (id x : String) → has (new (id ∷ [])) x ≡ (id == x)
has-one id x = has-new x (id ∷ []) ∙ ground arith

pairs_lem :
    (o : Option (List String)) (x : String)
    → contains ("systemd" ∷ "autoupdate-rpm-ostree" ∷ "autoupdate-bootc" ∷ []) x ≡ false
    → contains ("systemd" ∷ [] ++ probe_autoupdate_pairs o) x ≡ false
unfolding probe_autoupdate_pairs autoupdate_pair
pairs_lem none x h = ground arith
pairs_lem (some known) x h = ground arith

-- Without the ids of systemd, and with the id of the probe where it succeeds.
has-probe_systemd :
    (host : HostAnswers) (x : String)
    → contains ("systemd" ∷ "autoupdate-rpm-ostree" ∷ "autoupdate-bootc" ∷ []) x ≡ false
    → has (probe_systemd host) x ≡ false
unfolding probe_systemd
has-probe_systemd host x h = ground (
  arith,
  has-new x [],
  has-new x ("systemd" ∷ [] ++ probe_autoupdate_pairs host.unit_files),
  pairs_lem host.unit_files x h,
)

has-probe_journald :
    (host : HostAnswers) (x : String)
    → has (probe_journald host) x ≡ (host.journald && ("journald" == x))
has-probe_journald host x = ground (arith, has-new x [], has-one "journald" x)

has-probe_exec_success :
    (host : HostAnswers) (id name : String) (args : List String) (x : String)
    → has (probe_exec_success host id name args) x ≡ (is_some (host.run name args) && (id == x))
unfolding probe_exec_success
has-probe_exec_success host id name args x = ground (arith, has-new x [], has-one id x)

abbrev json_output : HostAnswers → Option String → Bool
json_output host none = false
json_output host (some output) = host.is_json output

has-probe_exec_json :
    (host : HostAnswers) (id name : String) (args : List String) (x : String)
    → has (probe_exec_json host id name args) x
      ≡ (json_output host (host.run name args) && (id == x))
unfolding probe_exec_json
has-probe_exec_json host id name args x = ground (arith, has-new x [], has-one id x)

-- What a probe that has to be configured depends on.
abbrev pub updex_works : HostAnswers → Config → Bool
updex_works host config =
    not (config.updex == "") && is_some (host.run config.updex ("--help" ∷ []))

abbrev pub podman_works : HostAnswers → Config → Bool
podman_works host config =
    not (config.podman_socket == "") && host.podman_version config.podman_socket

abbrev pub docker_works : HostAnswers → Config → Bool
docker_works host config =
    not (config.docker_endpoint == "")
    && (host.docker_client config.docker_endpoint && host.docker_ping config.docker_endpoint)

abbrev pub incus_works : HostAnswers → Config → Bool
incus_works host config = config.incus_enabled && host.incus_server

has-probe_updex :
    (host : HostAnswers) (config : Config) (x : String)
    → has (probe_updex host config.updex) x ≡ (updex_works host config && ("updex" == x))
unfolding probe_updex
has-probe_updex host config x =
    ground (arith, has-new x [], has-probe_exec_success host "updex" config.updex ("--help" ∷ []) x)

has-probe_podman :
    (host : HostAnswers) (config : Config) (x : String)
    → has (probe_podman host config.podman_socket) x ≡ (podman_works host config && ("podman" == x))
unfolding probe_podman
has-probe_podman host config x = ground (arith, has-new x [], has-one "podman" x)

has-probe_docker :
    (host : HostAnswers) (config : Config) (x : String)
    → has (probe_docker host config.docker_endpoint) x
      ≡ (docker_works host config && ("docker" == x))
unfolding probe_docker
has-probe_docker host config x = ground (arith, has-new x [], has-one "docker" x)

has-probe_incus :
    (host : HostAnswers) (config : Config) (x : String)
    → has (probe_incus host config.incus_enabled) x ≡ (incus_works host config && ("incus" == x))
unfolding probe_incus
has-probe_incus host config x = ground (arith, has-new x [], has-one "incus" x)

abbrev names_version : Option (String × String) → Bool
names_version none = false
names_version (some (major, minor)) = not (major == "") && not (minor == "")

abbrev pub k3s_command : List String
k3s_command = "kubectl" ∷ "--kubeconfig=/etc/rancher/k3s/k3s.yaml" ∷ "get" ∷ "--raw=/version" ∷ []

abbrev k3s_output : HostAnswers → Option String → Bool
k3s_output host none = false
k3s_output host (some output) = names_version (host.version output)

abbrev pub k3s_works : HostAnswers → Config → Bool
k3s_works host config = not (config.k3s == "") && k3s_output host (host.run config.k3s k3s_command)

has-k3s_version :
    (v : Option (String × String)) (x : String)
    → has (k3s_version v) x ≡ (names_version v && ("k3s" == x))
unfolding k3s_version
has-k3s_version none x = has-new x []
has-k3s_version (some (major, minor)) x = ground (arith, has-new x [], has-one "k3s" x)

has-k3s_output :
    (host : HostAnswers) (o : Option String) (x : String)
    → has (elim o [ none ↦ new [] | some output ↦ k3s_version (host.version output) ]) x
      ≡ (k3s_output host o && ("k3s" == x))
has-k3s_output host none x = has-new x []
has-k3s_output host (some output) x = has-k3s_version (host.version output) x

has-probe_k3s :
    (host : HostAnswers) (config : Config) (x : String)
    → has (probe_k3s host config.k3s) x ≡ (k3s_works host config && ("k3s" == x))
unfolding probe_k3s
has-probe_k3s host config x = elim (Bool-cases (config.k3s == "")) [
  | inl unset ↦ rw unset (has-new x [])
  | inr given ↦ rw given (has-k3s_output host (host.run config.k3s k3s_command) x)
]

either :
    (a b c d e : Bool)
    → (if a
        then true
        else if b
        then true
        else if c
        then true
        else if d
        then true
        else if e
        then true
        else false)
      ≡ (a || (b || (c || (d || e))))
either true b c d e = refl
either false true c d e = refl
either false false true d e = refl
either false false false true e = refl
either false false false false true = refl
either false false false false false = refl

has-probe :
    (host : HostAnswers) (config : Config) (x : String)
    → contains ("systemd" ∷ "autoupdate-rpm-ostree" ∷ "autoupdate-bootc" ∷ []) x ≡ false
    → contains ("journald" ∷ "sysext" ∷ "bootc" ∷ "rpm-ostree" ∷ []) x ≡ false
    → has (probe host config) x ≡ (
        (updex_works host config && ("updex" == x))
        || ((podman_works host config && ("podman" == x))
            || ((docker_works host config && ("docker" == x))
                || ((incus_works host config && ("incus" == x))
                    || (k3s_works host config && ("k3s" == x))))))
unfolding probe probes
has-probe host config x systemd other =
    let journald : has (probe_journald host) x ≡ false = has-probe_journald host x ∙ ground arith in
    let sysext : has (probe_sysext host) x ≡ false =
      has-probe_exec_success host "sysext" "systemd-sysext" ("list" ∷ []) x ∙ ground arith in
    let bootc : has (probe_bootc host) x ≡ false =
      has-probe_exec_json host "bootc" "bootc" ("status" ∷ "--json" ∷ []) x ∙ ground arith in
    let rpm_ostree : has (probe_rpm_ostree host) x ≡ false =
      has-probe_exec_json host "rpm-ostree" "rpm-ostree" ("status" ∷ "--json" ∷ []) x
      ∙ ground arith in
    has-union_sets (probes host config) x
    ∙ rw
        (
          has-probe_systemd host x systemd,
          journald,
          has-probe_updex host config x,
          sysext,
          bootc,
          rpm_ostree,
          has-probe_podman host config x,
          has-probe_docker host config x,
          has-probe_incus host config x,
          has-probe_k3s host config x,
        )
        (either (updex_works host config && ("updex" == x))
          (podman_works host config && ("podman" == x))
          (docker_works host config && ("docker" == x)) (incus_works host config && ("incus" == x))
          (k3s_works host config && ("k3s" == x)))

-- The capabilities that have to be configured are reported exactly where they are configured and the
-- host answers: updex where its command runs, podman and docker where the engine behind the
-- configured socket or endpoint answers, incus where it is enabled and its server answers, and k3s
-- where its command gives a version with both of its parts. No other probe reports them.
pub probe_configured :
    (host : HostAnswers) (config : Config)
    → (has (probe host config) "updex" ≡ updex_works host config)
      × (has (probe host config) "podman" ≡ podman_works host config)
      × (has (probe host config) "docker" ≡ docker_works host config)
      × (has (probe host config) "incus" ≡ incus_works host config)
      × (has (probe host config) "k3s" ≡ k3s_works host config)
probe_configured host config = (
  has-probe host config "updex" refl refl ∙ ground arith,
  has-probe host config "podman" refl refl ∙ ground arith,
  has-probe host config "docker" refl refl ∙ ground arith,
  has-probe host config "incus" refl refl ∙ ground arith,
  has-probe host config "k3s" refl refl ∙ ground arith,
)
