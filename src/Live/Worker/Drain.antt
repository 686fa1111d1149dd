-- ===== src/Live/Worker/Drain.antt =====
-- src/app/live/worker.py, `drain`.
use web_enigma.Base.{
  ◌≡◌, ◌≢◌, refl, sym, subst, ◌∙◌, true, false, not, ◌&&◌, none, some, List, [], ◌∷◌, ℕ, arith, inl,
  inr, Bool-cases,
}
use web_enigma.Base.Texts.{Text, text_eq, text_eq_iff, text_eq_refl}
use web_enigma.Base.TextSet.{contains, discard, contains-discard}
use web_enigma.Base.Result.{ok}
use web_enigma.Live.Backend.{get_value}
use web_enigma.Live.Backend.Laws.{get_value-delete}
use web_enigma.Live.Leases.Payload.{LeaseRecord}
use web_enigma.Live.Leases.Exclusion.{Table, Refines, release_entry}
use web_enigma.Live.Assignments.{heartbeat_key, clear_worker_heartbeat}
use web_enigma.Live.Assignments
use web_enigma.Live.Worker.{
  Worker, drain, drain_symbols, register_heartbeat, record_event, worker_draining,
}
use web_enigma.Live.Worker.Stores.{
  release_symbol_lease_lem, set_worker_heartbeat-Refines, clear_worker_heartbeat-Refines,
}
use web_enigma.Live.Worker.Turn.{IsMine}
use web_enigma.Live.Worker.Release.{
  release_entry-foreign, release_entry_other, release_entry_self, release_entry_gone,
}

-- From the table `t` to `t'`, the leases of the worker on the symbols `ks` are gone, and those of
-- the other workers are as they were.
abbrev pub GivesUp : Text → Table → List Text → Table → Type 0
GivesUp id t ks t' =
    ((k : Text) → contains k ks ≡ true → IsMine id (t k) → t' k ≡ none)
    × ((k : Text) (l : LeaseRecord) → t k ≡ some l → l.worker_id ≢ id → t' k ≡ some l)
    × ((k : Text) → t k ≡ none → t' k ≡ none)

GivesUp-step :
    (id : Text) (t : Table) (k : Text) (ks : List Text) (t' : Table)
    → GivesUp id (release_entry t k id (t k)) ks t'
    → GivesUp id t (k ∷ ks) t'
unfolding contains
GivesUp-step id t k ks t' (freed, foreign, gone) = (
  (λ j listed mine. elim (Bool-cases (text_eq k j)) [
    | inl same ↦
        let e = (text_eq_iff k j).0 same in
        subst (λ x. t' x ≡ none) e
          (gone k (release_entry_self t k id (subst (λ x. IsMine id (t x)) (sym e) mine)))
    | inr other ↦
        freed j (ground (arith, text_eq_iff j k, text_eq_iff k j))
          (subst (IsMine id) (sym (release_entry_other t k id j other)) mine)
  ]),
  (λ j l e other. foreign j l (release_entry-foreign t k id j l e other) other),
  λ j e. gone j (release_entry_gone t k id j e),
)

drain_symbols-GivesUp :
    (w : Worker) (t : Table) (ks : List Text)
    → Refines w.key_prefix w.store t
    → (w' : Worker) × (t' : Table) × (drain_symbols w ks ≡ ok w')
      × Refines w'.key_prefix w'.store t'
      × (w'.key_prefix ≡ w.key_prefix)
      × (w'.worker_id ≡ w.worker_id)
      × (w'.is_draining ≡ w.is_draining)
      × ((k : Text)
          → contains k w'.owned_symbols ≡ (contains k w.owned_symbols && not (contains k ks)))
      × GivesUp w.worker_id t ks t'
unfolding drain_symbols contains
drain_symbols-GivesUp w t [] h = (
  w,
  t,
  refl,
  h,
  refl,
  refl,
  refl,
  (λ k. ground arith),
  ((λ k c mine. cc), (λ k l e other. e), λ k e. e),
)
drain_symbols-GivesUp w t (k ∷ ks) h =
    let (b', ran, h', _) = release_symbol_lease_lem w.key_prefix w.store t h k w.worker_id in
    let u = record w { store = b'; owned_symbols = discard k w.owned_symbols } in
    let (w', t', ran', refines, prefix, id, draining, owned, gives) =
      drain_symbols-GivesUp u (release_entry t k w.worker_id (t k)) ks h' in
    (
      w',
      t',
      rw ran ran',
      refines,
      prefix,
      id,
      draining,
      (λ j. owned j ∙ ground (arith, contains-discard j k w.owned_symbols)),
      GivesUp-step w.worker_id t k ks t' gives,
    )

-- From a store that holds a table of leases, the drain returns. The worker is then draining and
-- owns no symbol and no contract; no symbol that it owned is leased to it any more, the leases of
-- the other workers are as they were, and its heartbeat is gone from the store.
pub drain_lem :
    (now : ℕ) (w : Worker) (t : Table)
    → Refines w.key_prefix w.store t
    → (w' : Worker) × (t' : Table) × (drain now w ≡ ok w')
      × Refines w'.key_prefix w'.store t'
      × (w'.is_draining ≡ true)
      × ((k : Text) → contains k w'.owned_symbols ≡ false)
      × (w'.owned_contracts ≡ [])
      × GivesUp w.worker_id t w.owned_symbols t'
      × (get_value w'.store (heartbeat_key w.key_prefix w.worker_id) ≡ none)
unfolding drain register_heartbeat clear_worker_heartbeat
drain_lem now w t h =
    let u =
      record_event (register_heartbeat now (record w { is_draining = true }) Assignments.draining)
        (worker_draining w.owned_symbols) in
    let (d, t', ran, refines, prefix, id, draining, owned, gives) =
      drain_symbols-GivesUp u t w.owned_symbols
        (set_worker_heartbeat-Refines w.key_prefix w.store t h _) in
    (
      record d {
        owned_contracts = [];
        store = clear_worker_heartbeat d.key_prefix d.store d.worker_id;
      },
      t',
      rw ran refl,
      clear_worker_heartbeat-Refines d.key_prefix d.store t' refines d.worker_id,
      draining,
      (λ k. owned k ∙ ground arith),
      refl,
      gives,
      rw (prefix, id, get_value-delete, text_eq_refl) refl,
    )
