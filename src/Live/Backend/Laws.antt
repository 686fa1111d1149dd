-- ===== src/Live/Backend/Laws.antt =====
-- What a client of the store may rely on: each write is seen at its own key and nowhere else.
use web_enigma.Base.{◌≡◌, refl, true, false, ◌||◌, if◌then◌else◌, none, some, List, [], ◌∷◌, arith}
use web_enigma.Base.Texts.{Text, starts_with, text_eq, text_eq_iff}
use web_enigma.Base.TextSet.{TextSet, of_list, contains, contains-add}
use web_enigma.Base.Dict.{Dict, get, keys, get-put, get-remove, text_key}
use web_enigma.Live.Backend.{
  Backend, Value, get_value, set_value, delete, set_members, get_members, scan_prefix, add_all,
  select,
}

module _ (b : Backend) where
  pub get_value-set_value :
      (k j : Text) (v : Value)
      → get_value (set_value b k v) j ≡ (if text_eq k j then some v else get_value b j)
  unfolding get_value set_value
  get_value-set_value k j v = get-put b.values k j v

  pub get_value-delete :
      (k j : Text) → get_value (delete b k) j ≡ (if text_eq k j then none else get_value b j)
  unfolding get_value delete
  get_value-delete k j = get-remove b.values k j

  pub get_value-set_members :
      (k j : Text) (xs : List Text) → get_value (set_members b k xs) j ≡ get_value b j
  unfolding get_value set_members
  get_value-set_members k j xs = refl

  pub get_members-set_value :
      (k j : Text) (v : Value) → get_members (set_value b k v) j ≡ get_members b j
  unfolding get_members set_value
  get_members-set_value k j v = refl

  pub get_members-set_members :
      (k j : Text) (xs : List Text)
      → get_members (set_members b k xs) j ≡ (if text_eq k j then of_list xs else get_members b j)
  unfolding get_members set_members
  get_members-set_members k j xs = ground (arith, get-put b.sets k j (of_list xs))

  pub get_members-delete :
      (k j : Text) → get_members (delete b k) j ≡ (if text_eq k j then [] else get_members b j)
  unfolding get_members delete
  get_members-delete k j = ground (arith, get-remove b.sets k j)

pub ruleset backend_laws = (
  get_value-set_value, get_value-delete, get_value-set_members, get_members-set_value,
  get_members-set_members, get_members-delete,
)

contains-select :
    (x p : Text) (ks : List Text)
    → contains x (select p ks) ≡ (if starts_with x p then contains x ks else false)
unfolding contains select
contains-select x p [] = ground arith
contains-select x p (k ∷ ks) = ground (arith, contains-select x p ks, text_eq_iff x k)

contains-add_all :
    (x : Text) (ks : List Text) (s : TextSet)
    → contains x (add_all ks s) ≡ (contains x ks || contains x s)
unfolding contains add_all
contains-add_all x [] s = refl
contains-add_all x (k ∷ ks) s =
    ground (arith, contains-add_all x ks s, contains-add x k (add_all ks s))

contains-keys :
    {V : Type 0} (d : Dict Text V) (x : Text) (v : V)
    → get d x ≡ some v
    → contains x (keys d) ≡ true
unfolding contains keys get
contains-keys [] x v g = cc
contains-keys ((k, w) ∷ d) x v g =
    ground (arith, contains-keys d x v, text_eq_iff x k, text_eq_iff k x)

-- A scan finds every key of the prefix that holds a value.
pub scan_prefix_complete :
    (b : Backend) (p x : Text) (v : Value)
    → starts_with x p ≡ true
    → get_value b x ≡ some v
    → contains x (scan_prefix b p) ≡ true
unfolding scan_prefix get_value
scan_prefix_complete b p x v h g =
    rw (contains-select, h, contains-add_all, contains-keys b.values x v g) refl

-- A scan finds keys of the prefix alone.
pub scan_prefix_sound :
    (b : Backend) (p x : Text) → contains x (scan_prefix b p) ≡ true → starts_with x p ≡ true
unfolding scan_prefix
scan_prefix_sound b p x h =
    ground (arith, contains-select x p (add_all (keys b.values) (of_list (keys b.sets))))
