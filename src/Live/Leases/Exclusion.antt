-- ===== src/Live/Leases/Exclusion.antt =====
-- src/app/live/leases.py: the store refines a table of leases, one for each symbol, and a lease
-- that has not run out stays with its worker.
use web_enigma.Base.{
  ◌<◌, ◌≡◌, refl, ap, ◌∙◌, ◌≢◌, Bool, true, false, if◌then◌else◌, Option, none, some, List, [], ◌∷◌,
  arith, inl, inr, Bool-cases, Option-cases,
}
use web_enigma.Base.Lists.{All}
use web_enigma.Base.Texts.{Text, text_eq, text_eq_iff}
use web_enigma.Base.Result.{Result, ok, ◌>>=◌}
use web_enigma.Live.Backend.{Backend, delete}
use web_enigma.Live.Leases.Payload.{LeaseRecord}
use web_enigma.Live.Leases.{
  LeaseAcquireRequest, LeaseRenewRequest, get_symbol_lease, is_held, acquire_symbol_lease,
  acquire_after_read, renew_symbol_lease, renew_after_read, release_symbol_lease,
  release_after_read, requested_lease, renewed_lease, write_lease, lease_key,
}
use web_enigma.Live.Leases.Laws.{get_symbol_lease-write_lease, get_symbol_lease-delete}

pub data LeaseCall : Type 0 where
  acquires : LeaseAcquireRequest → LeaseCall
  renews : LeaseRenewRequest → LeaseCall
  releases : Text → Text → LeaseCall

pub data LeaseReply : Type 0 where
  acquired renewed : Bool → LeaseReply
  released : LeaseReply

-- A call on the store, with the flag of its result.
unfoldable pub call : Text → Backend → LeaseCall → Result (Backend × LeaseReply)
call p b (acquires r) = do done ← acquire_symbol_lease p b r; ok (done.0, acquired done.1.acquired)
call p b (renews r) = do done ← renew_symbol_lease p b r; ok (done.0, renewed done.1.renewed)
call p b (releases k w) = do b' ← release_symbol_lease p b k w; ok (b', released)

pub run_calls : Text → Backend → List LeaseCall → Result (Backend × List LeaseReply)
run_calls p b [] = ok (b, [])
run_calls p b (c ∷ cs) = do
  done ← call p b c
  rest ← run_calls p done.0 cs
  ok (rest.0, done.1 ∷ rest.1)

-- The abstract view: the lease of each symbol.
abbrev pub Table : Type 0
Table = Text → Option LeaseRecord

abbrev pub update : Table → Text → Option LeaseRecord → Table
update t k v j = if text_eq k j then v else t j

abbrev renew_entry : Table → LeaseRenewRequest → Option LeaseRecord → Table × LeaseReply
renew_entry t r none = (t, renewed false)
renew_entry t r (some l) =
    if text_eq l.worker_id r.worker_id
    then (update t r.symbol_key (some (renewed_lease l r)), renewed true)
    else (t, renewed false)

abbrev pub release_entry : Table → Text → Text → Option LeaseRecord → Table
release_entry t k w none = t
release_entry t k w (some l) = if text_eq l.worker_id w then update t k none else t

pub table_call : Table → LeaseCall → Table × LeaseReply
table_call t (acquires r) =
    if is_held (t r.symbol_key) r.leased_at
    then (t, acquired false)
    else (update t r.symbol_key (some (requested_lease r)), acquired true)
table_call t (renews r) = renew_entry t r (t r.symbol_key)
table_call t (releases k w) = (release_entry t k w (t k), released)

pub run_table : Table → List LeaseCall → Table × List LeaseReply
run_table t [] = (t, [])
run_table t (c ∷ cs) =
    let rest = run_table (table_call t c).0 cs in (rest.0, (table_call t c).1 ∷ rest.1)

-- The store holds the table: every symbol's lease can be read, and is the table's.
abbrev pub Refines : Text → Backend → Table → Type 0
Refines p b t = (j : Text) → get_symbol_lease p b j ≡ ok (t j)

-- The call returns, with the reply and the new table that the abstract call gives.
abbrev Implements : Text → Backend → Table → LeaseCall → Type 0
Implements p b t c =
    (b' : Backend) × (call p b c ≡ ok (b', (table_call t c).1)) × Refines p b' (table_call t c).0

module _ (p : Text) (b : Backend) (t : Table) (h : Refines p b t) where
  pub write-Refines :
      (k : Text) (l : LeaseRecord) → Refines p (write_lease p b k l) (update t k (some l))
  write-Refines k l j = rw (get_symbol_lease-write_lease, h j) (ground arith)

  pub delete-Refines : (k : Text) → Refines p (delete b (lease_key p k)) (update t k none)
  delete-Refines k j = rw (get_symbol_lease-delete, h j) (ground arith)

  acquire-Implements : (r : LeaseAcquireRequest) → Implements p b t (acquires r)
  unfolding call table_call acquire_symbol_lease acquire_after_read
  acquire-Implements r = elim (Bool-cases (is_held (t r.symbol_key) r.leased_at)) [
    | inl e ↦ (b, rw (h r.symbol_key, e), rw e h)
    | inr e ↦ (
      write_lease p b r.symbol_key (requested_lease r),
      rw (h r.symbol_key, e),
      rw e (write-Refines r.symbol_key (requested_lease r)),
    )
  ]

  renew-Implements : (r : LeaseRenewRequest) → Implements p b t (renews r)
  unfolding call table_call renew_symbol_lease renew_after_read
  renew-Implements r = elim (Option-cases (t r.symbol_key)) [
    | inl e ↦ (b, rw (h r.symbol_key, e), rw e h)
    | inr (l, e) ↦ elim (Bool-cases (text_eq l.worker_id r.worker_id)) [
      | inl own ↦ (
        write_lease p b r.symbol_key (renewed_lease l r),
        rw (h r.symbol_key, e, own),
        rw (e, own) (write-Refines r.symbol_key (renewed_lease l r)),
      )
      | inr other ↦ (b, rw (h r.symbol_key, e, other), rw (e, other) h)
    ]
  ]

  release-Implements : (k w : Text) → Implements p b t (releases k w)
  unfolding call table_call release_symbol_lease release_after_read
  release-Implements k w = elim (Option-cases (t k)) [
    | inl e ↦ (b, rw (h k, e), rw e h)
    | inr (l, e) ↦ elim (Bool-cases (text_eq l.worker_id w)) [
      | inl own ↦ (delete b (lease_key p k), rw (h k, e, own), rw (e, own) (delete-Refines k))
      | inr other ↦ (b, rw (h k, e, other), rw (e, other) h)
    ]
  ]

  -- A call on the store is the call on the table.
  pub call-Implements : (c : LeaseCall) → Implements p b t c
  call-Implements (acquires r) = acquire-Implements r
  call-Implements (renews r) = renew-Implements r
  call-Implements (releases k w) = release-Implements k w

-- From a store that holds a table of leases, every history of acquire, renew and release calls
-- returns, gives the replies of the same calls on the table, and leaves a store that holds the
-- resulting table.
pub run_calls-Refines :
    (p : Text) (cs : List LeaseCall) (b : Backend) (t : Table)
    → Refines p b t
    → (b' : Backend) × (run_calls p b cs ≡ ok (b', (run_table t cs).1))
      × Refines p b' (run_table t cs).0
unfolding run_calls run_table
run_calls-Refines p [] b t h = (b, refl, h)
run_calls-Refines p (c ∷ cs) b t h =
    let (b', e, h') = call-Implements p b t h c in
    let (b'', e', h'') = run_calls-Refines p cs b' (table_call t c).0 h' in (b'', rw (e, e'), h'')

-- A call that cannot take the lease `l` from its worker: an acquisition dated before the lease
-- runs out, or a renewal or release by another worker.
abbrev pub Foreign : LeaseRecord → LeaseCall → Type 0
Foreign l (acquires r) = r.leased_at < l.expires_at
Foreign l (renews r) = r.worker_id ≢ l.worker_id
Foreign l (releases k w) = w ≢ l.worker_id

table_call-keeps :
    (t : Table) (k : Text) (l : LeaseRecord) (c : LeaseCall)
    → t k ≡ some l
    → Foreign l c
    → (table_call t c).0 k ≡ some l
unfolding table_call is_held
table_call-keeps t k l (acquires r) h f = ground (arith, text_eq_iff r.symbol_key k)
table_call-keeps t k l (renews r) h f =
    ground (arith, text_eq_iff r.symbol_key k, text_eq_iff l.worker_id r.worker_id)
table_call-keeps t k l (releases j w) h f =
    ground (arith, text_eq_iff j k, text_eq_iff l.worker_id w)

run_table-keeps :
    (t : Table) (k : Text) (l : LeaseRecord) (cs : List LeaseCall)
    → t k ≡ some l
    → All (Foreign l) cs
    → (run_table t cs).0 k ≡ some l
unfolding run_table
run_table-keeps t k l [] h f = h
run_table-keeps t k l (c ∷ cs) h f =
    run_table-keeps (table_call t c).0 k l cs (table_call-keeps t k l c h f.0) f.1

-- Mutual exclusion: while calls cannot take it (each acquisition is dated before the lease runs
-- out, each renewal and release comes from another worker), a stored lease is still the stored
-- lease of its symbol after any history of calls.
pub run_calls-keeps_live_lease :
    (p : Text) (cs : List LeaseCall) (b : Backend) (t : Table) (k : Text) (l : LeaseRecord)
    → Refines p b t
    → t k ≡ some l
    → All (Foreign l) cs
    → (b' : Backend) × (run_calls p b cs ≡ ok (b', (run_table t cs).1))
      × (get_symbol_lease p b' k ≡ ok (some l))
run_calls-keeps_live_lease p cs b t k l h e f =
    let (b', ran, h') = run_calls-Refines p cs b t h in
    (b', ran, h' k ∙ ap ok (run_table-keeps t k l cs e f))
