-- ===== src/Live/Leases/Active.antt =====
-- src/app/live/leases.py, `list_active_leases`: a scan of the lease keys.
use mathlib.Core.List.{Mem, mem-cons_self, mem-cons_of_mem}
use web_enigma.Base.{
  ℕ, ◌<◌, ◌≡◌, refl, ap, ◌∙◌, true, ltb, if◌then◌else◌, Option, none, some, List, [], ◌∷◌, arith,
  inl, inr, Bool-cases, Option-cases,
}
use web_enigma.Base.Lists.{All}
use web_enigma.Base.TextSet.{contains}
use web_enigma.Base.Texts.{Text, strip_prefix?, strip_prefix?-append, text_eq, text_eq_iff}
use web_enigma.Base.Result.{Result, ok, ◌>>=◌}
use web_enigma.Live.Backend.{Backend, get_value, scan_prefix}
use web_enigma.Live.Backend.Laws.{scan_prefix_complete}
use web_enigma.Live.Leases.Payload.{LeaseRecord, lease_of_value}
use web_enigma.Live.Leases.{lease_prefix, lease_key, get_symbol_lease}
use web_enigma.Live.Leases.Laws.{lease_key-starts_with}
use web_enigma.Live.Leases.Exclusion.{Table, Refines}

abbrev or_whole : Text → Option Text → Text
or_whole s none = s
or_whole s (some rest) = rest

-- s.removeprefix(p)
remove_prefix : Text → Text → Text
remove_prefix s p = or_whole s (strip_prefix? p s)

abbrev add_active : Option LeaseRecord → ℕ → List LeaseRecord → List LeaseRecord
add_active none now leases = leases
add_active (some l) now leases = if ltb now l.expires_at then l ∷ leases else leases

-- The loop over the scanned keys.
collect_active : Text → Backend → ℕ → List Text → Result (List LeaseRecord)
unfolding remove_prefix
collect_active p b now [] = ok []
collect_active p b now (key ∷ keys) = do
  lease ← get_symbol_lease p b (remove_prefix key (lease_prefix p))
  leases ← collect_active p b now keys
  ok (add_active lease now leases)

-- RedisLeaseStore.list_active_leases
unfoldable pub list_active_leases : Text → Backend → ℕ → Result (List LeaseRecord)
unfolding collect_active
list_active_leases p b now = collect_active p b now (scan_prefix b (lease_prefix p))

-- The same loop over a table of leases, where nothing can be raised.
table_active : Text → Table → ℕ → List Text → List LeaseRecord
table_active p t now [] = []
table_active p t now (key ∷ keys) =
    add_active (t (remove_prefix key (lease_prefix p))) now (table_active p t now keys)

collect_active-eq :
    (p : Text) (b : Backend) (t : Table) (now : ℕ) (keys : List Text)
    → Refines p b t
    → collect_active p b now keys ≡ ok (table_active p t now keys)
unfolding collect_active table_active
collect_active-eq p b t now [] h = refl
collect_active-eq p b t now (key ∷ keys) h =
    rw (h (remove_prefix key (lease_prefix p)), collect_active-eq p b t now keys h)

-- An entry of the table that has not run out.
abbrev pub IsActive : Table → ℕ → LeaseRecord → Type 0
IsActive t now l = (j : Text) × (t j ≡ some l) × (now < l.expires_at)

add_active-All :
    (t : Table) (now : ℕ) (j : Text) (o : Option LeaseRecord) (ls : List LeaseRecord)
    → t j ≡ o
    → All (IsActive t now) ls
    → All (IsActive t now) (add_active o now ls)
add_active-All t now j none ls e h = h
add_active-All t now j (some l) ls e h = elim (Bool-cases (ltb now l.expires_at)) [
  | inl live ↦ rw live ((j, e, ground arith), h)
  | inr over ↦ rw over h
]

table_active-All :
    (p : Text) (t : Table) (now : ℕ) (keys : List Text)
    → All (IsActive t now) (table_active p t now keys)
unfolding table_active
table_active-All p t now [] = tt
table_active-All p t now (key ∷ keys) =
    add_active-All t now (remove_prefix key (lease_prefix p)) _ _ refl
      (table_active-All p t now keys)

remove_prefix-lease_key : (p j : Text) → remove_prefix (lease_key p j) (lease_prefix p) ≡ j
unfolding remove_prefix lease_key
remove_prefix-lease_key p j = rw strip_prefix?-append

mem-add_active_self :
    (o : Option LeaseRecord) (now : ℕ) (l : LeaseRecord) (ls : List LeaseRecord)
    → o ≡ some l
    → now < l.expires_at
    → Mem l (add_active o now ls)
mem-add_active_self o now l ls e h =
    rw e (let live : ltb now l.expires_at ≡ true = ground arith in rw live mem-cons_self)

mem-add_active :
    (o : Option LeaseRecord) (now : ℕ) (l : LeaseRecord) (ls : List LeaseRecord)
    → Mem l ls
    → Mem l (add_active o now ls)
mem-add_active none now l ls m = m
mem-add_active (some k) now l ls m = elim (Bool-cases (ltb now k.expires_at)) [
  | inl live ↦ rw live (mem-cons_of_mem k m)
  | inr over ↦ rw over m
]

table_active-complete :
    (p : Text) (t : Table) (now : ℕ) (keys : List Text) (j : Text) (l : LeaseRecord)
    → contains (lease_key p j) keys ≡ true
    → t j ≡ some l
    → now < l.expires_at
    → Mem l (table_active p t now keys)
unfolding table_active contains
table_active-complete p t now [] j l c e h = cc
table_active-complete p t now (key ∷ keys) j l c e h =
    elim (Bool-cases (text_eq (lease_key p j) key)) [
      | inl same ↦
          rw (← (text_eq_iff (lease_key p j) key).0 same, remove_prefix-lease_key)
            (mem-add_active_self (t j) now l _ e h)
      | inr other ↦
          mem-add_active (t (remove_prefix key (lease_prefix p))) now l _
            (table_active-complete p t now keys j l (ground arith) e h)
    ]

stored_lease-has_value :
    (p : Text) (b : Backend) (j : Text) (l : LeaseRecord)
    → get_symbol_lease p b j ≡ ok (some l)
    → contains (lease_key p j) (scan_prefix b (lease_prefix p)) ≡ true
unfolding get_symbol_lease lease_of_value
stored_lease-has_value p b j l e = elim (Option-cases (get_value b (lease_key p j))) [
  | inl missing ↦ cc (ap lease_of_value missing)
  | inr (v, found) ↦
      scan_prefix_complete b (lease_prefix p) (lease_key p j) v (lease_key-starts_with p j) found
]

-- The scan returns, lists leases of the store that have not run out at `now`, and leaves none out.
pub list_active_leases-exact :
    (p : Text) (b : Backend) (t : Table) (now : ℕ)
    → Refines p b t
    → (ls : List LeaseRecord) × (list_active_leases p b now ≡ ok ls)
      × All (IsActive t now) ls
      × ((j : Text) (l : LeaseRecord) → t j ≡ some l → now < l.expires_at → Mem l ls)
unfolding list_active_leases
list_active_leases-exact p b t now h = (
  table_active p t now (scan_prefix b (lease_prefix p)),
  collect_active-eq p b t now (scan_prefix b (lease_prefix p)) h,
  table_active-All p t now (scan_prefix b (lease_prefix p)),
  λ j l e live.
      table_active-complete p t now (scan_prefix b (lease_prefix p)) j l
        (stored_lease-has_value p b j l (h j ∙ ap ok e)) e live,
)
