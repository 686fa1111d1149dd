-- ===== src/Live/Leases/Race.antt =====
-- src/app/live/leases.py, `acquire_symbol_lease` as two requests to Redis, a read and a write,
-- between which another worker's may fall.
use web_enigma.Base.{◌<◌, ◌≡◌, refl, arith, true, false, Option, some}
use web_enigma.Base.Texts.{Text, text_eq_refl}
use web_enigma.Base.Result.{ok}
use web_enigma.Live.Backend.{Backend}
use web_enigma.Live.Leases.Payload.{LeaseRecord}
use web_enigma.Live.Leases.{
  LeaseAcquireRequest, LeaseAcquireResult, acquire_symbol_lease, is_held, acquire_after_read,
  requested_lease, get_symbol_lease,
}
use web_enigma.Live.Leases.Laws.{get_symbol_lease-write_lease}

-- Two workers ask for the lease of a symbol, which the store has as `e` and which has run out for both.
-- If both read it before either writes, both are told that they acquired the lease, and the store
-- keeps the second one's. If they ask one after the other, while the first one's lease lives, the
-- first one gets the same answer and the second one is refused and changes nothing.
pub acquire_race :
    (p : Text) (b : Backend) (r s : LeaseAcquireRequest) (e : Option LeaseRecord)
    → get_symbol_lease p b r.symbol_key ≡ ok e
    → s.symbol_key ≡ r.symbol_key
    → is_held e r.leased_at ≡ false
    → is_held e s.leased_at ≡ false
    → s.leased_at < r.expires_at
    → let first = acquire_after_read p b r e in
      let second = acquire_after_read p first.0 s e in
      (first.1.acquired ≡ true)
      × (second.1.acquired ≡ true)
      × (get_symbol_lease p second.0 r.symbol_key ≡ ok (some (requested_lease s)))
      × (acquire_symbol_lease p b r ≡ ok first)
      × ((refusal : LeaseAcquireResult) × (acquire_symbol_lease p first.0 s ≡ ok (first.0, refusal))
          × (refusal.acquired ≡ false))
unfolding acquire_after_read acquire_symbol_lease is_held
acquire_race p b r s e read same free_r free_s live =
    let first = acquire_after_read p b r e in
    let taken : acquire_symbol_lease p b r ≡ ok first = rw (read, acquire_symbol_lease) refl in
    let kept : get_symbol_lease p first.0 s.symbol_key ≡ ok (some (requested_lease r)) =
      rw (free_r, same, get_symbol_lease-write_lease, text_eq_refl) refl in
    let alive : is_held (some (requested_lease r)) s.leased_at ≡ true = ground (arith, live) in
    (
      rw free_r refl,
      rw free_s refl,
      rw (free_r, free_s, same, get_symbol_lease-write_lease, text_eq_refl) refl,
      taken,
      (
        (acquire_after_read p first.0 s (some (requested_lease r))).1,
        rw (kept, alive, acquire_symbol_lease) refl,
        rw alive refl,
      ),
    )
