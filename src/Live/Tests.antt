-- ===== src/Live/Tests.antt =====
-- Concrete runs of the live runtime: one symbol, two workers, one shard or two.
use mathlib.Core.Bool.{false≢true}
use mathlib.Core.List.{Mem}
use web_enigma.Base.{
  ℕ, ◌+◌, ◌%◌, ◌≤◌, ◌<◌, ◌==◌, ◌≡◌, ◌≢◌, refl, true, false, not, ◌&&◌, ◌||◌, none, some, List, [],
  ◌∷◌, arith,
}
use web_enigma.Base.Lists.{All}
use web_enigma.Base.Texts.{Text, codes, text_eq, text_eq_iff, text_eq_refl}
use web_enigma.Base.TextSet.{TextSet, contains}
use web_enigma.Base.Dict.{Dict, get, put, IsUnique, nat_key, text_key}
use web_enigma.Base.Result.{ok}
use web_enigma.Live.Backend.{Backend, empty, get_value, set_value}
use web_enigma.Live.Leases.Payload.{LeaseRecord, lease_of_value}
use web_enigma.Live.Leases.{
  LeaseAcquireRequest, LeaseAcquireResult, acquire_symbol_lease, LeaseRenewRequest, lease_key,
  get_symbol_lease, is_held, acquire_after_read, requested_lease, write_lease,
}
use web_enigma.Live.Controls.{is_global_kill_switch_enabled, is_symbol_paused}
use web_enigma.Live.Worker.{Worker, release_unassigned_symbols, iterate}
use web_enigma.Live.Worker.Turn.{Turn, OwnsLeases}
use web_enigma.Live.Worker.Release.{release_unassigned_symbols-ReleasedAll}
use web_enigma.Live.Worker.Iteration.{iterate_lem}
use web_enigma.Live.Leases.Exclusion.{
  LeaseCall, acquires, renews, releases, run_calls, run_table, Table, Refines, update,
  write-Refines, run_calls-Refines, run_calls-keeps_live_lease,
}
use web_enigma.Live.Leases.Active.{IsActive, list_active_leases, list_active_leases-exact}
use web_enigma.Live.Leases.Race.{acquire_race}
use web_enigma.Live.Assignments.{
  TradingContractSnapshot, compute_assignments, get_assignment_version, version_of,
  publish_assignments_for_contracts, get_shard_assignments,
}
use web_enigma.Live.Assignments.Partition.{Spread, compute_assignments-Spread}
use web_enigma.Live.Assignments.Publish.{has_symbol, publish_assignments_for_contracts-reads}

abbrev pub prefix : Text
prefix = codes "ta"

abbrev pub aapl : Text
aapl = codes "AAPL"

abbrev request : Text → ℕ → LeaseAcquireRequest
request worker at = record {
  worker_id = worker;
  pod_name = codes "pod";
  shard_id = 0;
  symbol_key = aapl;
  assignment_version = 1;
  leased_at = at;
  expires_at = at + 20;
}

abbrev renewal : Text → ℕ → LeaseRenewRequest
renewal worker at = record {
  worker_id = worker;
  symbol_key = aapl;
  assignment_version = 1;
  leased_at = at;
  expires_at = at + 20;
}

abbrev no_leases : Table
no_leases j = none

empty-Refines : Refines prefix empty no_leases
unfolding get_symbol_lease lease_of_value get_value get
empty-Refines j = refl

-- A store in which worker `w1` holds AAPL until 30.
abbrev held_lease : LeaseRecord
held_lease = requested_lease (request (codes "w1") 10)

abbrev pub held_store : Backend
held_store = write_lease prefix empty aapl held_lease

abbrev pub held_table : Table
held_table = update no_leases aapl (some held_lease)

pub held_store-Refines : Refines prefix held_store held_table
held_store-Refines = write-Refines prefix empty no_leases empty-Refines aapl held_lease

held_table-aapl : held_table aapl ≡ some held_lease
held_table-aapl = rw text_eq_refl

version_read : get_assignment_version prefix held_store ≡ ok 0
unfolding get_assignment_version version_of get_value set_value lease_key get put text_eq
version_read = refl

-- While `w1` holds the lease, `w2` asks for it, tries to renew it and to release it.
abbrev rival_calls : List LeaseCall
rival_calls =
    acquires (request (codes "w2") 20)
    ∷ renews (renewal (codes "w2") 21)
    ∷ releases aapl (codes "w2")
    ∷ []

w2-ne-w1 : codes "w2" ≢ codes "w1"
unfolding text_eq
w2-ne-w1 e = absurd (false≢true ((text_eq_iff (codes "w2") (codes "w1")).1 e))

run_calls-Refines_example :
    (b' : Backend) × (run_calls prefix held_store rival_calls
      ≡ ok (b', (run_table held_table rival_calls).1))
    × Refines prefix b' (run_table held_table rival_calls).0
run_calls-Refines_example =
    run_calls-Refines prefix rival_calls held_store held_table held_store-Refines

run_calls-keeps_live_lease_example :
    (b' : Backend) × (run_calls prefix held_store rival_calls
      ≡ ok (b', (run_table held_table rival_calls).1))
    × (get_symbol_lease prefix b' aapl ≡ ok (some held_lease))
run_calls-keeps_live_lease_example =
    run_calls-keeps_live_lease prefix rival_calls held_store held_table aapl held_lease
      held_store-Refines held_table-aapl (omega arith, (w2-ne-w1, (w2-ne-w1, tt)))

list_active_leases-exact_example :
    (ls : List LeaseRecord) × (list_active_leases prefix held_store 15 ≡ ok ls)
    × All (IsActive held_table 15) ls
    × ((j : Text) (l : LeaseRecord) → held_table j ≡ some l → 15 < l.expires_at → Mem l ls)
list_active_leases-exact_example =
    list_active_leases-exact prefix held_store held_table 15 held_store-Refines

acquire_race_example :
    let r = request (codes "w1") 10 in
    let s = request (codes "w2") 11 in
    let first = acquire_after_read prefix empty r none in
    let second = acquire_after_read prefix first.0 s none in
    (first.1.acquired ≡ true)
    × (second.1.acquired ≡ true)
    × (get_symbol_lease prefix second.0 aapl ≡ ok (some (requested_lease s)))
    × (acquire_symbol_lease prefix empty r ≡ ok first)
    × ((refusal : LeaseAcquireResult) × (acquire_symbol_lease prefix first.0 s
          ≡ ok (first.0, refusal))
        × (refusal.acquired ≡ false))
unfolding is_held
acquire_race_example =
    acquire_race prefix empty (request (codes "w1") 10) (request (codes "w2") 11) none
      (empty-Refines aapl) refl refl refl (omega arith)

-- The first characters stand for the digest.
abbrev pub first_code : Text → ℕ
first_code [] = 0
first_code (c ∷ s) = c

abbrev pub two_contracts : List TradingContractSnapshot
two_contracts =
    record { contract_id = codes "c1"; symbol = codes "aapl" }
    ∷ record { contract_id = codes "c2"; symbol = codes "MSFT" }
    ∷ []

compute_assignments-Spread_example :
    (d : Dict ℕ TextSet) × (compute_assignments first_code (aapl ∷ codes "MSFT" ∷ []) 2 ≡ ok d)
    × Spread first_code 2 d (λ k. contains k (aapl ∷ codes "MSFT" ∷ []))
    × IsUnique d
compute_assignments-Spread_example =
    compute_assignments-Spread first_code 2 (aapl ∷ codes "MSFT" ∷ []) (omega arith)

publish_assignments_for_contracts-reads_example :
    (b' : Backend) × (publish_assignments_for_contracts first_code prefix empty two_contracts 2
      ≡ ok (b', 0 + 1))
    × (get_assignment_version prefix b' ≡ ok (0 + 1))
    × ((shard : ℕ) (k : Text)
        → shard < 2
        → contains k (get_shard_assignments prefix b' shard)
          ≡ (has_symbol k two_contracts && first_code k % 2 == shard))
    × ((shard : ℕ)
        → 2 ≤ shard
        → get_shard_assignments prefix b' shard ≡ get_shard_assignments prefix empty shard)
unfolding get_assignment_version version_of get_value get
publish_assignments_for_contracts-reads_example =
    publish_assignments_for_contracts-reads first_code prefix empty two_contracts 2 0 (omega arith)
      refl

abbrev pub worker : Worker
worker = record {
  key_prefix = prefix;
  worker_id = codes "w1";
  pod_name = codes "pod";
  shard_id = 0;
  lease_ttl_seconds = 20;
  assignment_version = 0;
  assigned_symbols = [];
  owned_symbols = aapl ∷ [];
  owned_contracts = [];
  is_draining = false;
  store = held_store;
  events = [];
}

release_unassigned_symbols-ReleasedAll_example :
    (w' : Worker) × (t' : Table) × (release_unassigned_symbols worker ≡ ok w')
    × Turn 15 worker held_table w' t'
    × ((k : Text)
        → contains k w'.owned_symbols
          ≡ (contains k worker.owned_symbols && contains k worker.assigned_symbols))
    × (OwnsLeases worker held_table
        → (k : Text) → contains k worker.owned_symbols ≡ true
        → contains k worker.assigned_symbols ≡ false
        → t' k ≡ none)
    × ((k : Text) → contains k worker.assigned_symbols ≡ true → t' k ≡ held_table k)
release_unassigned_symbols-ReleasedAll_example =
    release_unassigned_symbols-ReleasedAll 15 worker held_table held_store-Refines

iterate_lem_example :
    (w' : Worker) × (t' : Table) × (iterate 15 16 none worker ≡ ok w')
    × Refines w'.key_prefix w'.store t'
    × (w'.assigned_symbols ≡ get_shard_assignments prefix held_store 0)
    × ((k : Text)
        → contains k w'.owned_symbols ≡ (
            contains k w'.assigned_symbols
            && (contains k worker.owned_symbols
                || not (is_global_kill_switch_enabled prefix held_store)
                  && not (is_symbol_paused prefix held_store k)
                  && not (is_held (held_table k) 15))))
    × ((k : Text) (l : LeaseRecord)
        → held_table k ≡ some l
        → l.worker_id ≢ codes "w1"
        → 15 < l.expires_at
        → t' k ≡ some l)
    × (OwnsLeases worker held_table → OwnsLeases w' t')
    × (OwnsLeases worker held_table
        → (k : Text) → contains k worker.owned_symbols ≡ true
        → contains k w'.assigned_symbols ≡ false
        → t' k ≡ none)
    × ((k : Text)
        → contains k worker.owned_symbols ≡ true
        → contains k w'.assigned_symbols ≡ true
        → t' k ≡ held_table k)
iterate_lem_example = iterate_lem 15 16 0 none worker held_table held_store-Refines version_read
