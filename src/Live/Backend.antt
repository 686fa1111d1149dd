-- ===== src/Live/Backend.antt =====
-- src/app/live/assignments.py, the key-value store `InMemoryRedisBackend`, and the values that
-- its clients keep there.
pub mod Laws
use web_enigma.Base.{ℕ, Bool, if◌then◌else◌, Option, none, some, List, [], ◌∷◌}
use web_enigma.Base.Texts.{Text, starts_with}
use web_enigma.Base.TextSet.{TextSet, add, of_list}
use web_enigma.Base.Dict.{Dict, get, put, remove, keys, text_key}

-- A value inside a JSON object. `instant` is a string that `datetime.isoformat` wrote, `nested`
-- an array or an object of so many entries.
pub data Scalar : Type 0 where
  null : Scalar
  boolean : Bool → Scalar
  number : ℕ → Scalar
  string : Text → Scalar
  instant : ℕ → Scalar
  nested : ℕ → Scalar

pub data Json : Type 0 where
  scalar : Scalar → Json
  object : Dict Text Scalar → Json

-- A value of the store: a `bool`, a text that `json.loads` reads, or one that it refuses.
pub data Value : Type 0 where
  flag : Bool → Value
  json : Json → Value
  raw_text : Text → Value

pub record Backend : Type 0 where
  pub values : Dict Text Value
  pub sets : Dict Text TextSet

abbrev pub empty : Backend
empty = record { values = []; sets = [] }

-- InMemoryRedisBackend.get
unfoldable pub get_value : Backend → Text → Option Value
get_value b key = get b.values key

-- InMemoryRedisBackend.set
unfoldable pub set_value : Backend → Text → Value → Backend
set_value b key value = record b { values = put b.values key value }

-- InMemoryRedisBackend.delete
unfoldable pub delete : Backend → Text → Backend
delete b key = record b { values = remove b.values key; sets = remove b.sets key }

-- InMemoryRedisBackend.set_members
unfoldable pub set_members : Backend → Text → List Text → Backend
set_members b key members = record b { sets = put b.sets key (of_list members) }

abbrev or_empty : Option TextSet → TextSet
or_empty none = []
or_empty (some s) = s

-- InMemoryRedisBackend.get_members
unfoldable pub get_members : Backend → Text → TextSet
get_members b key = or_empty (get b.sets key)

-- The increasing list of the keys of both dictionaries.
add_all : List Text → TextSet → TextSet
add_all [] s = s
add_all (k ∷ ks) s = add k (add_all ks s)

select : Text → List Text → List Text
select prefix [] = []
select prefix (k ∷ ks) =
    let rest = select prefix ks in if starts_with k prefix then k ∷ rest else rest

-- InMemoryRedisBackend.scan_keys(f"{prefix}*")
unfoldable pub scan_prefix : Backend → Text → List Text
unfolding add_all starts_with select
scan_prefix b prefix = select prefix (add_all (keys b.values) (of_list (keys b.sets)))
