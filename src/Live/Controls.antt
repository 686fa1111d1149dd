-- ===== src/Live/Controls.antt =====
-- src/app/live/control_flags.py, `RedisControlFlagStore`, and src/app/live/revocation.py,
-- `RedisContractRevocationStore`. A contract's UUID is its text.
use web_enigma.Base.{ℕ, Bool, true, false, not, ◌==◌, Option, none, some, [], ◌∷◌, ◌++◌}
use web_enigma.Base.Texts.{Text, codes, text_eq, lower}
use web_enigma.Base.TextSet.{contains}
use web_enigma.Base.Dict.{get, text_key}
use web_enigma.Live.Backend.{Backend, Scalar, Json, Value, get_value, set_value}
use web_enigma.Live.Backend

-- bool(value) of a decoded scalar
unfoldable pub truthy : Scalar → Bool
truthy Scalar.null = false
truthy (Scalar.boolean b) = b
truthy (Scalar.number n) = not (n == 0)
truthy (Scalar.string s) = not (text_eq s [])
truthy (Scalar.instant t) = true
truthy (Scalar.nested n) = not (n == 0)

abbrev truthy_or_false : Option Scalar → Bool
truthy_or_false none = false
truthy_or_false (some s) = truthy s

abbrev is_enabled_text : Text → Bool
is_enabled_text s = contains (lower s) (codes "1" ∷ codes "true" ∷ codes "yes" ∷ codes "on" ∷ [])

-- _decode_enabled_flag
unfoldable pub decode_enabled_flag : Option Value → Bool
unfolding truthy get text_eq contains lower
decode_enabled_flag none = false
decode_enabled_flag (some (Value.flag b)) = b
decode_enabled_flag (some (Value.raw_text s)) = is_enabled_text s
decode_enabled_flag (some (Value.json (Backend.object payload))) =
    truthy_or_false (get payload (codes "enabled"))
decode_enabled_flag (some (Value.json (Backend.scalar (Scalar.boolean b)))) = b
decode_enabled_flag (some (Value.json (Backend.scalar _))) = false

abbrev pub kill_switch_key : Text → Text
kill_switch_key p = p ++ codes ":control:kill_switch"

abbrev pub pause_prefix : Text → Text
pause_prefix p = p ++ codes ":control:pause:"

abbrev pub contract_key : Text → Text → Text
contract_key p id = pause_prefix p ++ (codes "contract:" ++ id)

abbrev pub symbol_key : Text → Text → Text
symbol_key p symbol = pause_prefix p ++ (codes "symbol:" ++ symbol)

abbrev pub shard_key : Text → Text → Text
shard_key p shard = pause_prefix p ++ (codes "shard:" ++ shard)

-- is_global_kill_switch_enabled
unfoldable pub is_global_kill_switch_enabled : Text → Backend → Bool
is_global_kill_switch_enabled p b = decode_enabled_flag (get_value b (kill_switch_key p))

-- is_contract_paused
unfoldable pub is_contract_paused : Text → Backend → Text → Bool
is_contract_paused p b id = decode_enabled_flag (get_value b (contract_key p id))

-- is_symbol_paused
unfoldable pub is_symbol_paused : Text → Backend → Text → Bool
is_symbol_paused p b symbol = decode_enabled_flag (get_value b (symbol_key p symbol))

abbrev pub revocation_key : Text → Text → Text
revocation_key p id = p ++ (codes ":control:revoked:contract:" ++ id)

-- RedisContractRevocationStore.revoke_contract, at the instant `now`
unfoldable pub revoke_contract : Text → Backend → Text → ℕ → ℕ → Backend
revoke_contract p b id revision now = set_value b (revocation_key p id) (
    Value.json (
      Backend.object (
        (codes "revision", Scalar.number revision)
        ∷ (codes "revoked_at", Scalar.instant now)
        ∷ [])))

abbrev is_present : Option Value → Bool
is_present none = false
is_present (some v) = true

-- RedisContractRevocationStore.is_contract_revoked
unfoldable pub is_contract_revoked : Text → Backend → Text → Bool
is_contract_revoked p b id = is_present (get_value b (revocation_key p id))
