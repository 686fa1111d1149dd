-- ===== src/Live/Worker/Stores.antt =====
-- src/app/live/worker.py: what the worker's calls of the lease store and its heartbeats do to the
-- table of leases that the store holds.
use mathlib.Core.List.{append_assoc}
use web_enigma.Base.{
  ◌≡◌, refl, false, not, if◌then◌else◌, Option, some, ◌++◌, arith, inl, inr, Bool-cases,
  Option-cases,
}
use web_enigma.Base.Texts.{Text, codes, text_eq, text_eq-append}
use web_enigma.Base.Result.{ok}
use web_enigma.Live.Backend.{Backend, Value, set_value, delete}
use web_enigma.Live.Backend.Laws.{get_value-set_value, get_value-delete}
use web_enigma.Live.Leases.Payload.{LeaseRecord}
use web_enigma.Live.Leases.{
  LeaseAcquireRequest, LeaseAcquireResult, lease_key, get_symbol_lease, is_held,
  acquire_symbol_lease, acquire_after_read, release_symbol_lease, release_after_read,
  requested_lease,
}
use web_enigma.Live.Leases.Exclusion.{
  Table, Refines, update, release_entry, write-Refines, delete-Refines,
}
use web_enigma.Live.Controls.{
  is_symbol_paused, is_global_kill_switch_enabled, symbol_key, kill_switch_key,
}
use web_enigma.Live.Assignments.{
  WorkerHeartbeat, heartbeat_key, set_worker_heartbeat, clear_worker_heartbeat,
}

lease_key-ne-symbol_key : (p k j : Text) → text_eq (lease_key p k) (symbol_key p j) ≡ false
unfolding lease_key text_eq
lease_key-ne-symbol_key p k j = rw (
  append_assoc p (codes ":lease:symbol:") k,
  append_assoc p (codes ":control:pause:") (codes "symbol:" ++ j),
  text_eq-append,
)

lease_key-ne-kill_switch_key : (p k : Text) → text_eq (lease_key p k) (kill_switch_key p) ≡ false
unfolding lease_key text_eq
lease_key-ne-kill_switch_key p k = rw (append_assoc p (codes ":lease:symbol:") k, text_eq-append)

-- The kill switch and the pause flags of the symbols are as they were.
abbrev pub SameControls : Text → Backend → Backend → Type 0
SameControls p b b' =
    ((j : Text) → is_symbol_paused p b' j ≡ is_symbol_paused p b j)
    × (is_global_kill_switch_enabled p b' ≡ is_global_kill_switch_enabled p b)

set-SameControls :
    (p : Text) (b : Backend) (k : Text) (v : Value)
    → SameControls p b (set_value b (lease_key p k) v)
unfolding is_symbol_paused is_global_kill_switch_enabled
set-SameControls p b k v = (
  (λ j. rw (get_value-set_value, lease_key-ne-symbol_key) refl),
  rw (get_value-set_value, lease_key-ne-kill_switch_key) refl,
)

delete-SameControls :
    (p : Text) (b : Backend) (k : Text) → SameControls p b (delete b (lease_key p k))
unfolding is_symbol_paused is_global_kill_switch_enabled
delete-SameControls p b k = (
  (λ j. rw (get_value-delete, lease_key-ne-symbol_key) refl),
  rw (get_value-delete, lease_key-ne-kill_switch_key) refl,
)

module _ (p : Text) (b : Backend) (t : Table) (h : Refines p b t) where
  acquire_after_read-Refines :
      (r : LeaseAcquireRequest)
      → Refines p (acquire_after_read p b r (t r.symbol_key)).0 (
          if is_held (t r.symbol_key) r.leased_at
          then t
          else update t r.symbol_key (some (requested_lease r)))
  unfolding acquire_after_read
  acquire_after_read-Refines r = elim (Bool-cases (is_held (t r.symbol_key) r.leased_at)) [
    | inl e ↦ rw e h
    | inr e ↦ rw e (write-Refines p b t h r.symbol_key (requested_lease r))
  ]

  acquire_after_read-SameControls :
      (r : LeaseAcquireRequest) (e : Option LeaseRecord)
      → SameControls p b (acquire_after_read p b r e).0
  unfolding acquire_after_read
  acquire_after_read-SameControls r e = elim (Bool-cases (is_held e r.leased_at)) [
    | inl held ↦ rw (held, acquire_after_read) ((λ j. refl), refl)
    | inr free ↦ rw (free, acquire_after_read) (set-SameControls p b r.symbol_key _)
  ]

  pub acquire_symbol_lease_lem :
      (r : LeaseAcquireRequest)
      → (b' : Backend) × (result : LeaseAcquireResult) × (acquire_symbol_lease p b r
          ≡ ok (b', result))
        × (result.acquired ≡ not (is_held (t r.symbol_key) r.leased_at))
        × Refines p b' (
            if is_held (t r.symbol_key) r.leased_at
            then t
            else update t r.symbol_key (some (requested_lease r)))
        × SameControls p b b'
  unfolding acquire_symbol_lease acquire_after_read
  acquire_symbol_lease_lem r = (
    (acquire_after_read p b r (t r.symbol_key)).0,
    (acquire_after_read p b r (t r.symbol_key)).1,
    rw (h r.symbol_key),
    ground arith,
    acquire_after_read-Refines r,
    acquire_after_read-SameControls r (t r.symbol_key),
  )

  pub release_symbol_lease_lem :
      (k worker_id : Text)
      → (b' : Backend) × (release_symbol_lease p b k worker_id ≡ ok b')
        × Refines p b' (release_entry t k worker_id (t k))
        × SameControls p b b'
  unfolding release_symbol_lease release_after_read
  release_symbol_lease_lem k worker_id = elim (Option-cases (t k)) [
    | inl e ↦ (b, rw (h k, e), rw e h, ((λ j. refl), refl))
    | inr (l, e) ↦ elim (Bool-cases (text_eq l.worker_id worker_id)) [
      | inl own ↦ (
        delete b (lease_key p k),
        rw (h k, e, own),
        rw (e, own) (delete-Refines p b t h k),
        delete-SameControls p b k,
      )
      | inr other ↦ (b, rw (h k, e, other), rw (e, other) h, ((λ j. refl), refl))
    ]
  ]

heartbeat_key-ne-lease_key : (p id k : Text) → text_eq (heartbeat_key p id) (lease_key p k) ≡ false
unfolding heartbeat_key lease_key text_eq
heartbeat_key-ne-lease_key p id k = rw (append_assoc p (codes ":lease:symbol:") k, text_eq-append)

module _ (p : Text) (b : Backend) (t : Table) (h : Refines p b t) where
  pub set_worker_heartbeat-Refines :
      (beat : WorkerHeartbeat) → Refines p (set_worker_heartbeat p b beat) t
  unfolding set_worker_heartbeat get_symbol_lease
  set_worker_heartbeat-Refines beat j = rw (get_value-set_value, heartbeat_key-ne-lease_key) (h j)

  pub clear_worker_heartbeat-Refines : (id : Text) → Refines p (clear_worker_heartbeat p b id) t
  unfolding clear_worker_heartbeat get_symbol_lease
  clear_worker_heartbeat-Refines id j = rw (get_value-delete, heartbeat_key-ne-lease_key) (h j)
