-- ===== src/Live/Leases/Payload.antt =====
-- src/app/live/leases.py, the JSON form of a lease: `_lease_to_payload`, and its inverse in
-- `get_symbol_lease`. A text field that holds no string is an error here.
use web_enigma.Base.{ℕ, ◌≡◌, refl, true, false, Option, none, some, [], ◌∷◌}
use web_enigma.Base.Texts.{Text, codes, text_eq, strip}
use web_enigma.Base.Result.{Result, ok, raises, ◌>>=◌, or_raise, key_error, value_error, type_error}
use web_enigma.Base.Decimal.{parse_int}
use web_enigma.Base.Dict.{Dict, get, text_key}
use web_enigma.Live.Backend.{Scalar, Value}
use web_enigma.Live.Backend

pub record LeaseRecord : Type 0 where
  pub worker_id : Text
  pub pod_name : Text
  pub shard_id : ℕ
  pub symbol_key : Text
  pub assignment_version : ℕ
  pub leased_at : ℕ
  pub expires_at : ℕ

-- _lease_to_payload
unfoldable pub lease_to_payload : LeaseRecord → Dict Text Scalar
lease_to_payload lease =
    (codes "worker_id", Scalar.string lease.worker_id)
    ∷ (codes "pod_name", Scalar.string lease.pod_name)
    ∷ (codes "shard_id", Scalar.number lease.shard_id)
    ∷ (codes "symbol_key", Scalar.string lease.symbol_key)
    ∷ (codes "assignment_version", Scalar.number lease.assignment_version)
    ∷ (codes "leased_at", Scalar.instant lease.leased_at)
    ∷ (codes "expires_at", Scalar.instant lease.expires_at)
    ∷ []

-- The text of a field. The source does not look: the record would carry what is no string along.
unfoldable pub string_of : Scalar → Result Text
string_of (Scalar.string s) = ok s
string_of _ = raises type_error

-- int(value); of the texts that int reads, the decimal digits between blanks
unfoldable pub int_of : Scalar → Result ℕ
int_of (Scalar.number n) = ok n
int_of (Scalar.boolean true) = ok 1
int_of (Scalar.boolean false) = ok 0
int_of (Scalar.string s) = elim (parse_int (strip s)) [ none ↦ raises value_error | some n ↦ ok n ]
int_of (Scalar.instant t) = raises value_error
int_of _ = raises type_error

-- datetime.fromisoformat(value)
unfoldable pub instant_of : Scalar → Result ℕ
instant_of (Scalar.instant t) = ok t
instant_of (Scalar.string s) = raises value_error
instant_of _ = raises type_error

abbrev pub field : Dict Text Scalar → Text → Result Scalar
field payload name = or_raise (get payload name) key_error

unfoldable pub lease_of_payload : Dict Text Scalar → Result LeaseRecord
unfolding string_of int_of instant_of get text_eq
lease_of_payload payload = do
  worker_id ← field payload (codes "worker_id") >>= string_of
  pod_name ← field payload (codes "pod_name") >>= string_of
  shard_id ← field payload (codes "shard_id") >>= int_of
  symbol_key ← field payload (codes "symbol_key") >>= string_of
  assignment_version ← field payload (codes "assignment_version") >>= int_of
  leased_at ← field payload (codes "leased_at") >>= instant_of
  expires_at ← field payload (codes "expires_at") >>= instant_of
  ok (record {
    worker_id = worker_id;
    pod_name = pod_name;
    shard_id = shard_id;
    symbol_key = symbol_key;
    assignment_version = assignment_version;
    leased_at = leased_at;
    expires_at = expires_at;
  })

-- What `get_symbol_lease` makes of the value under the key.
unfoldable pub lease_of_value : Option Value → Result (Option LeaseRecord)
lease_of_value none = ok none
lease_of_value (some (Value.json (Backend.object payload))) = do
  lease ← lease_of_payload payload
  ok (some lease)
lease_of_value (some (Value.json (Backend.scalar s))) = raises type_error
lease_of_value (some (Value.raw_text s)) = raises value_error
lease_of_value (some (Value.flag b)) = raises type_error

-- Reading back the payload of a lease gives the lease.
lease_of_payload-lease_to_payload :
    (lease : LeaseRecord) → lease_of_payload (lease_to_payload lease) ≡ ok lease
unfolding lease_of_payload lease_to_payload
lease_of_payload-lease_to_payload lease = refl

pub lease_of_value-json :
    (lease : LeaseRecord)
    → lease_of_value (some (Value.json (Backend.object (lease_to_payload lease)))) ≡ ok (some lease)
unfolding lease_of_value
lease_of_value-json lease = rw lease_of_payload-lease_to_payload
