-- ===== src/Live/Leases/Laws.antt =====
-- src/app/live/leases.py: what a write or a deletion under a lease key does to the leases that
-- are read, and to the other keys of the store.
use web_enigma.Base.{◌≡◌, true, false, if◌then◌else◌, none, some, inl, inr, Bool-cases}
use web_enigma.Base.Texts.{
  Text, starts_with, strip_prefix?-append, text_eq, text_eq-append, text_eq_iff,
}
use web_enigma.Base.Result.{ok}
use web_enigma.Live.Backend.{Backend, delete}
use web_enigma.Live.Backend.Laws.{get_value-set_value, get_value-delete}
use web_enigma.Live.Leases.Payload.{LeaseRecord, lease_of_value, lease_of_value-json}
use web_enigma.Live.Leases.{lease_prefix, lease_key, get_symbol_lease, write_lease}

pub text_eq-lease_key : (p k j : Text) → text_eq (lease_key p k) (lease_key p j) ≡ text_eq k j
unfolding lease_key
text_eq-lease_key p k j = text_eq-append (lease_prefix p) k j

module _ (p : Text) (b : Backend) (k : Text) where
  pub get_symbol_lease-write_lease :
      (l : LeaseRecord) (j : Text)
      → get_symbol_lease p (write_lease p b k l) j
        ≡ (if text_eq k j then ok (some l) else get_symbol_lease p b j)
  unfolding get_symbol_lease
  get_symbol_lease-write_lease l j =
      rw (get_value-set_value, text_eq-lease_key)
        (elim (Bool-cases (text_eq k j)) [ inl e ↦ rw e (lease_of_value-json l) | inr e ↦ rw e ])

  pub get_symbol_lease-delete :
      (j : Text)
      → get_symbol_lease p (delete b (lease_key p k)) j
        ≡ (if text_eq k j then ok none else get_symbol_lease p b j)
  unfolding get_symbol_lease lease_of_value
  get_symbol_lease-delete j =
      rw (get_value-delete, text_eq-lease_key)
        (elim (Bool-cases (text_eq k j)) [ inl e ↦ rw e | inr e ↦ rw e ])

-- A key that is no lease key.
abbrev pub IsOtherKey : Text → Text → Type 0
IsOtherKey p key = starts_with key (lease_prefix p) ≡ false

pub lease_key-starts_with : (p k : Text) → starts_with (lease_key p k) (lease_prefix p) ≡ true
unfolding starts_with lease_key
lease_key-starts_with p k = rw (strip_prefix?-append (lease_prefix p) k, starts_with)

pub lease_key-ne-other : (p k key : Text) → IsOtherKey p key → text_eq (lease_key p k) key ≡ false
lease_key-ne-other p k key h = elim (Bool-cases (text_eq (lease_key p k) key)) [
  | inl e ↦ cc ((text_eq_iff (lease_key p k) key).0 e, lease_key-starts_with p k)
  | inr e ↦ e
]
