-- ===== src/Live/Leases.antt =====
-- src/app/live/leases.py, `RedisLeaseStore`, with the requests and results of live/models.py.
-- Instants are numbers of microseconds.
pub mod Payload
pub mod Laws
pub mod Exclusion
pub mod Active
pub mod Race
use web_enigma.Base.{
  ℕ, Bool, true, false, ltb, if◌then◌else◌, Option, none, some, List, [], ◌∷◌, ◌++◌, not, ◌||◌,
}
use web_enigma.Base.Texts.{Text, codes, text_eq}
use web_enigma.Base.Result.{Result, ok, ◌>>=◌}
use web_enigma.Live.Backend.{Backend, Value, get_value, set_value, delete, scan_prefix}
use web_enigma.Live.Backend
use Payload.{LeaseRecord, lease_to_payload, lease_of_value}

pub record LeaseAcquireRequest : Type 0 where
  pub worker_id : Text
  pub pod_name : Text
  pub shard_id : ℕ
  pub symbol_key : Text
  pub assignment_version : ℕ
  pub leased_at : ℕ
  pub expires_at : ℕ

pub record LeaseAcquireResult : Type 0 where
  pub acquired : Bool
  pub lease : Option LeaseRecord
  pub reason : Option Text

pub record LeaseRenewRequest : Type 0 where
  pub worker_id : Text
  pub symbol_key : Text
  pub assignment_version : ℕ
  pub leased_at : ℕ
  pub expires_at : ℕ

pub record LeaseRenewResult : Type 0 where
  pub renewed : Bool
  pub lease : Option LeaseRecord
  pub reason : Option Text

abbrev pub lease_prefix : Text → Text
lease_prefix key_prefix = key_prefix ++ codes ":lease:symbol:"

-- RedisLeaseStore._lease_key
unfoldable pub lease_key : Text → Text → Text
lease_key key_prefix symbol_key = lease_prefix key_prefix ++ symbol_key

-- RedisLeaseStore.get_symbol_lease
unfoldable pub get_symbol_lease : Text → Backend → Text → Result (Option LeaseRecord)
get_symbol_lease key_prefix b symbol_key =
    lease_of_value (get_value b (lease_key key_prefix symbol_key))

abbrev pub write_lease : Text → Backend → Text → LeaseRecord → Backend
write_lease key_prefix b symbol_key lease =
    set_value b (lease_key key_prefix symbol_key)
      (Value.json (Backend.object (lease_to_payload lease)))

abbrev pub requested_lease : LeaseAcquireRequest → LeaseRecord
requested_lease r = record {
  worker_id = r.worker_id;
  pod_name = r.pod_name;
  shard_id = r.shard_id;
  symbol_key = r.symbol_key;
  assignment_version = r.assignment_version;
  leased_at = r.leased_at;
  expires_at = r.expires_at;
}

-- The test that stops an acquisition: the lease that was read has not run out.
unfoldable pub is_held : Option LeaseRecord → ℕ → Bool
is_held none at = false
is_held (some lease) at = ltb at lease.expires_at

-- What `acquire_symbol_lease` does with the lease that it has read.
unfoldable pub acquire_after_read :
    Text → Backend → LeaseAcquireRequest → Option LeaseRecord → Backend × LeaseAcquireResult
unfolding is_held
acquire_after_read key_prefix b r existing =
    if is_held existing r.leased_at
    then (
      b,
      record { acquired = false; lease = existing; reason = some (codes "lease already held") },
    )
    else (
      write_lease key_prefix b r.symbol_key (requested_lease r),
      record { acquired = true; lease = some (requested_lease r); reason = none },
    )

-- RedisLeaseStore.acquire_symbol_lease
unfoldable pub acquire_symbol_lease :
    Text → Backend → LeaseAcquireRequest → Result (Backend × LeaseAcquireResult)
acquire_symbol_lease key_prefix b r = do
  existing ← get_symbol_lease key_prefix b r.symbol_key
  ok (acquire_after_read key_prefix b r existing)

abbrev pub renewed_lease : LeaseRecord → LeaseRenewRequest → LeaseRecord
renewed_lease current r = record current {
  assignment_version = r.assignment_version;
  leased_at = r.leased_at;
  expires_at = r.expires_at;
}

unfoldable pub renew_after_read :
    Text → Backend → LeaseRenewRequest → Option LeaseRecord → Backend × LeaseRenewResult
renew_after_read key_prefix b r none =
    (b, record { renewed = false; lease = none; reason = some (codes "lease missing") })
renew_after_read key_prefix b r (some current) =
    if text_eq current.worker_id r.worker_id
    then (
      write_lease key_prefix b r.symbol_key (renewed_lease current r),
      record { renewed = true; lease = some (renewed_lease current r); reason = none },
    )
    else (
      b,
      record {
        renewed = false;
        lease = some current;
        reason = some (codes "lease owned by another worker");
      },
    )

-- RedisLeaseStore.renew_symbol_lease
unfoldable pub renew_symbol_lease :
    Text → Backend → LeaseRenewRequest → Result (Backend × LeaseRenewResult)
renew_symbol_lease key_prefix b r = do
  current ← get_symbol_lease key_prefix b r.symbol_key
  ok (renew_after_read key_prefix b r current)

unfoldable pub release_after_read : Text → Backend → Text → Text → Option LeaseRecord → Backend
release_after_read key_prefix b symbol_key worker_id none = b
release_after_read key_prefix b symbol_key worker_id (some current) =
    if text_eq current.worker_id worker_id then delete b (lease_key key_prefix symbol_key) else b

-- RedisLeaseStore.release_symbol_lease
unfoldable pub release_symbol_lease : Text → Backend → Text → Text → Result Backend
release_symbol_lease key_prefix b symbol_key worker_id = do
  current ← get_symbol_lease key_prefix b symbol_key
  ok (release_after_read key_prefix b symbol_key worker_id current)
