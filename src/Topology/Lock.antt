-- ===== src/Topology/Lock.antt =====
-- Workload contracts and the artifact lock: `workload` and `validate_lock` of
-- packages/lab-support/cpp/contracts.cpp. What the code reads again from a lock that passed is kept in
-- records; the digest of a value is a parameter.
use Prim.Native.String.{String}
use text.Mathlib.Text.{◌==◌}
use graphlab.Prelude.{
  ℕ, Bool, true, false, not, ◌&&◌, ◌||◌, List, [], ◌∷◌, Option, none, some, ◌==◌ as nat_eq, leb, ok,
  err, if◌then◌else◌, length,
}
use graphlab.Topology.Json.{
  Json, Check, validation_error, unsupported_version, integrity_error, ◌>>=◌, ◌>>◌, expect, require,
  object, array, str, boolean, number, need, getstr, mem, fields, features, contains,
}
use graphlab.Topology.Names.{
  is_id, is_hash, is_version, is_machine, is_dotted, is_machine_from, split_at,
}

pub data Kind : Type 0 where
  docker qemu ovs_switch : Kind

pub data Role : Type 0 where
  data_port management_port : Role

pub record Interface : Type 0 where
  pub role : Role
  pub is_required : Bool
  pub mtu_low : ℕ
  pub mtu_high : ℕ

pub record Contract : Type 0 where
  pub id : String
  pub kind : Kind
  pub platforms : List String
  pub interfaces : List (String × Interface)

abbrev pub is_qemu : Kind → Bool
is_qemu qemu = true
is_qemu _ = false

abbrev workload_kind : String → Check Kind
workload_kind s =
    if s == "docker" then ok docker else if s == "qemu" then ok qemu else err validation_error

abbrev pub role_of : String → Check Role
role_of s =
    if s == "data"
    then ok data_port
    else if s == "management"
    then ok management_port
    else err validation_error

abbrev pub named : String → Check (Unit {0})
named s = require (is_id s)

abbrev pub hashed : String → Check (Unit {0})
hashed s = require (is_hash s)

abbrev is_platform : Kind → String → Bool
is_platform k s = s == "linux/amd64" || s == "linux/arm64" || (is_qemu k && s == "linux/ppc64le")

-- The platforms, of which none comes twice.
unfoldable pub platforms_of : Kind → List String → List Json → Check (List String)
unfolding ◌>>=◌ expect
platforms_of k seen [] = ok seen
platforms_of k seen (v ∷ vs) = do
  s ← str v
  require (is_platform k s)
  require (not (mem s seen))
  platforms_of k (s ∷ seen) vs

abbrev bounds : List Json → Check (ℕ × ℕ)
bounds (a ∷ b ∷ []) = do
  lo ← number a 576 9216
  hi ← number b 576 9216
  require (leb lo hi)
  ok (lo, hi)
bounds _ = err validation_error

unfoldable pub interface_of : String × Json → Check Interface
unfolding ◌>>=◌ expect fields getstr number
interface_of (name, v) = do
  named name
  fields v ("role" ∷ "required" ∷ "medium" ∷ "mtuRange" ∷ [])
  role ← getstr v "role" >>= role_of
  needed ← need v "required" >>= boolean
  medium ← getstr v "medium"
  require (medium == "ethernet")
  range ← need v "mtuRange" >>= array
  (lo, hi) ← bounds range
  ok record { role = role; is_required = needed; mtu_low = lo; mtu_high = hi }

unfoldable pub interfaces_of : List (String × Json) → Check (List (String × Interface))
unfolding ◌>>=◌ interface_of
interfaces_of [] = ok []
interfaces_of (m ∷ ms) = do i ← interface_of m; rest ← interfaces_of ms; ok ((m.0, i) ∷ rest)

abbrev lifecycle_valid : Json → Check (Unit {0})
lifecycle_valid life = do
  fields life ("gateUntilRelease" ∷ "quiesce" ∷ [])
  gate ← need life "gateUntilRelease" >>= boolean
  require gate
  quiesce ← getstr life "quiesce"
  require (quiesce == "supported" || quiesce == "restart-required")

abbrev support_valid : Json → Check (Unit {0})
support_valid v = do
  fields v ("language" ∷ "version" ∷ "packageSha256" ∷ [])
  language ← getstr v "language"
  require (language == "cpp23")
  version ← getstr v "version"
  require (is_version version)
  digest_text ← getstr v "packageSha256"
  hashed digest_text

abbrev resources_valid : Json → Check (Unit {0})
resources_valid v = do
  fields v ("cpus" ∷ "memoryMiB" ∷ [])
  _ ← need v "cpus" >>= λ n. number n 1 1024
  _ ← need v "memoryMiB" >>= λ n. number n 16 1048576
  ok tt

-- `workload`
unfoldable pub workload : Json → Check Contract
unfolding ◌>>=◌ expect fields getstr number features platforms_of interfaces_of is_dotted
    is_machine_from
workload c = do
  fields c (
      "apiVersion" ∷ "id" ∷ "kind" ∷ "platforms" ∷ "interfaces" ∷ "lifecycle" ∷ "labSupport"
      ∷ "resources" ∷ "requiredFeatures" ∷ [])
  version ← getstr c "apiVersion"
  expect (version == "graphlab.workload/v2") unsupported_version
  id ← getstr c "id"
  named id
  kind ← getstr c "kind" >>= workload_kind
  features c
  platforms ← need c "platforms" >>= array
  require (not (nat_eq (length platforms) 0))
  seen ← platforms_of kind [] platforms
  interfaces ← need c "interfaces" >>= object >>= interfaces_of
  need c "lifecycle" >>= lifecycle_valid
  need c "labSupport" >>= support_valid
  need c "resources" >>= resources_valid
  ok record { id = id; kind = kind; platforms = seen; interfaces = interfaces }

-- Both members, or neither.
abbrev paired : Json → String → String → (String → Check (Unit {0})) → Check (Unit {0})
paired vm a b first =
    if contains vm a || contains vm b
    then (do x ← getstr vm a; first x; y ← getstr vm b; hashed y)
    else ok tt

abbrev runner_valid : Json → Check (Unit {0})
runner_valid vm = if contains vm "runnerImage" then getstr vm "runnerImage" >>= hashed else ok tt

abbrev vm_valid : Json → Check (Unit {0})
vm_valid vm = do
  fields vm (
      "machine" ∷ "firmwareSha256" ∷ "accelerator" ∷ "kernelSha256" ∷ "initrdSha256" ∷ "sshUser"
      ∷ "knownHostsSha256" ∷ "runnerImage" ∷ [])
  runner_valid vm
  paired vm "sshUser" "knownHostsSha256" named
  paired vm "kernelSha256" "initrdSha256" hashed
  machine ← getstr vm "machine"
  require (is_machine machine)
  firmware ← getstr vm "firmwareSha256"
  hashed firmware
  accelerator ← getstr vm "accelerator"
  require (accelerator == "kvm" || accelerator == "tcg")

abbrev has_blank : String → Bool
has_blank s = is_some (split_at b' ' s) || is_some (split_at b'\t' s) || is_some (split_at b'\n' s)
  where
    is_some : Option (String × String) → Bool
    is_some none = false
    is_some (some x) = true

-- `name@sha256:…`
abbrev image_parts : String → Option (String × String) → Check (Unit {0})
image_parts image none = err validation_error
image_parts image (some (name, h)) = require (not (name == "") && not (has_blank image)) >> hashed h

abbrev artifact_valid : Kind → Json → Check (Unit {0})
artifact_valid docker e = do
  image ← getstr e "image"
  image_parts image (split_at b'@' image)
  require (not (contains e "diskSha256" || contains e "vm"))
artifact_valid _ e = do
  require (not (contains e "image"))
  disk ← getstr e "diskSha256"
  hashed disk
  need e "vm" >>= vm_valid

module _ (digest : Json → String) where
  unfoldable pub locked : String × Json → Check Contract
  unfolding ◌>>=◌ expect workload fields getstr split_at
  locked (key, e) = do
    named key
    fields e ("contract" ∷ "contractSha256" ∷ "image" ∷ "diskSha256" ∷ "platform" ∷ "vm" ∷ [])
    raw ← need e "contract"
    c ← workload raw
    require (c.id == key)
    h ← getstr e "contractSha256"
    hashed h
    expect (digest raw == h) integrity_error
    platform ← getstr e "platform"
    require (mem platform c.platforms)
    artifact_valid c.kind e
    ok c

  unfoldable pub all_locked : List (String × Json) → Check (List (String × Contract))
  unfolding ◌>>=◌ locked
  all_locked [] = ok []
  all_locked (m ∷ ms) = do c ← locked m; rest ← all_locked ms; ok ((m.0, c) ∷ rest)

  -- `validate_lock`
  unfoldable pub validate_lock : Json → Check (List (String × Contract))
  unfolding ◌>>=◌ expect all_locked
  validate_lock lock = do
    fields lock ("apiVersion" ∷ "workloads" ∷ [])
    version ← getstr lock "apiVersion"
    expect (version == "graphlab.artifacts/v1") unsupported_version
    need lock "workloads" >>= object >>= all_locked
