-- ===== src/Qos.antt =====
-- backend/app/qos.py: the storage headroom and the limit on anonymous sign-in attempts. The disk
-- usage of the two volumes comes from `shutil.disk_usage`; a monotonic clock counts microseconds.
pub mod Limiter
use layerscope.Base.{
  ℕ, zero, suc, ◌+◌, ◌-◌, ◌*◌, ◌/◌, ◌%◌, ◌≤◌, ◌<◌, ◌≡◌, refl, sym, max, Bool, true, false, not,
  ◌&&◌, ◌||◌, List, [], ◌∷◌, ◌++◌, Option, none, some, ◌==◌, ltb, leb, length, length-append,
  select, if◌then◌else◌, arith, is_some, or_else, Bool-cases, inl, inr,
}
use layerscope.Base.Text.{Text, text, same}
use layerscope.Config.{Settings}
use layerscope.Models.{seconds}
use layerscope.Auth.{Reply, ok, http}

pub record DiskUsage : Type 0 where
  pub total : ℕ
  pub free : ℕ

pub data StorageStatus : Type 0 where
  critical warning fine : StorageStatus

pub record Capacity : Type 0 where
  pub status : StorageStatus
  pub free_bytes : ℕ
  pub total_bytes : ℕ
  pub reserve_bytes : ℕ
  pub host_probe_limits : Bool
  pub container_volume_free_bytes : ℕ
  pub host_probe_free_bytes : Option ℕ

-- `min(…, key=free)`: the first of the two when they are equal.
abbrev pub limiting : DiskUsage → Option DiskUsage → DiskUsage
limiting volume none = volume
limiting volume (some host) = if ltb host.free volume.free then host else volume

abbrev pub host_limits : DiskUsage → Option DiskUsage → Bool
host_limits volume none = false
host_limits volume (some host) = leb host.free volume.free

abbrev pub free_of : Option DiskUsage → Option ℕ
free_of none = none
free_of (some usage) = some usage.free

-- `available_after < bound`, where the available bytes may be negative.
abbrev pub below : DiskUsage → ℕ → ℕ → Bool
below usage incoming bound = ltb usage.free (bound + incoming)

abbrev pub storage_status : Settings → DiskUsage → ℕ → StorageStatus
storage_status c usage incoming =
    if below usage incoming c.storage_reserve_bytes
    then critical
    else if below usage incoming (c.storage_reserve_bytes * 2)
        || (ltb 0 usage.total && ltb (usage.free * 10) usage.total)
    then warning
    else fine

-- `storage_capacity`
unfoldable pub storage_capacity : Settings → DiskUsage → Option DiskUsage → ℕ → Capacity
storage_capacity c volume host incoming =
    let usage = limiting volume host in
    record {
      status = storage_status c usage incoming;
      free_bytes = usage.free;
      total_bytes = usage.total;
      reserve_bytes = c.storage_reserve_bytes;
      host_probe_limits = host_limits volume host;
      container_volume_free_bytes = volume.free;
      host_probe_free_bytes = free_of host;
    }

abbrev pub refuse_critical : Capacity → StorageStatus → Reply Capacity
refuse_critical capacity critical =
    http 507
      (text "Insufficient storage headroom. Free space or reduce the operation size, then retry.")
refuse_critical capacity warning = ok capacity
refuse_critical capacity fine = ok capacity

-- `require_storage_capacity`
unfoldable pub require_storage_capacity :
    Settings → DiskUsage → Option DiskUsage → ℕ → Reply Capacity
require_storage_capacity c volume host incoming =
    let capacity = storage_capacity c volume host incoming in
    refuse_critical capacity capacity.status

abbrev pub granted : {A : Type 0} → Reply A → Bool
granted (ok a) = true
granted (http code message) = false

abbrev pub is_critical : StorageStatus → Bool
is_critical critical = true
is_critical warning = false
is_critical fine = false

granted-refuse_critical :
    (capacity : Capacity) (s : StorageStatus)
    → granted (refuse_critical capacity s) ≡ true
    → is_critical s ≡ false
granted-refuse_critical capacity critical g = sym g
granted-refuse_critical capacity warning g = refl
granted-refuse_critical capacity fine g = refl

fine_headroom :
    (c : Settings) (usage : DiskUsage) (incoming : ℕ)
    → is_critical (storage_status c usage incoming) ≡ false
    → c.storage_reserve_bytes + incoming ≤ usage.free
fine_headroom c usage incoming h =
    elim (Bool-cases (below usage incoming c.storage_reserve_bytes)) [
      | inl e ↦ ground (arith, e, h)
      | inr e ↦ ground (arith, e)
    ]

limiting_least :
    (volume : DiskUsage) (host : Option DiskUsage) (n : ℕ)
    → n ≤ (limiting volume host).free
    → (n ≤ volume.free) × (n ≤ or_else (free_of host) n)
limiting_least volume none n h = (h, omega arith)
limiting_least volume (some host) n h = ground (arith, h)

-- An operation that is let through leaves the reserve free after its incoming bytes, on the
-- container's volume and on the host's where that is probed.
pub require_storage_capacity-headroom :
    (c : Settings) (volume : DiskUsage) (host : Option DiskUsage) (incoming : ℕ)
    → granted (require_storage_capacity c volume host incoming) ≡ true
    → (c.storage_reserve_bytes + incoming ≤ volume.free)
      × (c.storage_reserve_bytes + incoming
          ≤ or_else (free_of host) (c.storage_reserve_bytes + incoming))
unfolding require_storage_capacity storage_capacity
require_storage_capacity-headroom c volume host incoming g =
    limiting_least volume host (c.storage_reserve_bytes + incoming) (
      fine_headroom c (limiting volume host) incoming
        (granted-refuse_critical _ (storage_status c (limiting volume host) incoming) g))
