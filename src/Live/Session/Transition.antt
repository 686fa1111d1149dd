-- ===== src/Live/Session/Transition.antt =====
-- src/app/live/session.py: the next transition is where the phase changes next.
use web_enigma.Base.{ℕ, ◌+◌, ◌*◌, ◌≤◌, ◌<◌, ◌≡◌, ◌≢◌, arith}
use web_enigma.Live.Session.{
  WallClockSessionCalendar, at_time, open_dt, close_dt, pre_open_dt, drain_end, get_phase,
  next_transition,
}

-- The warm-up, the session and the drain lie within one day; the session and the drain, which the
-- configuration bounds, take a minute at least.
pub record IsDaily (c : WallClockSessionCalendar) : Type 0 where
  pub warms_up : c.pre_open_warmup_minutes ≤ c.open_hour * 60 + c.open_minute
  pub opens : c.open_hour * 60 + c.open_minute < c.close_hour * 60 + c.close_minute
  pub lingers : 1 ≤ c.drain_timeout_minutes
  pub drains : c.close_hour * 60 + c.close_minute + c.drain_timeout_minutes ≤ 1440

module _ (c : WallClockSessionCalendar) (daily : IsDaily c) (current : ℕ) where
  next_transition-later : current < next_transition c current
  unfolding next_transition pre_open_dt open_dt close_dt drain_end at_time
  next_transition-later =
      let a = daily.warms_up in let b = daily.opens in let d = daily.drains in ground arith

  get_phase-constant :
      (t : ℕ) → current ≤ t → t < next_transition c current → get_phase c t ≡ get_phase c current
  unfolding next_transition get_phase pre_open_dt open_dt close_dt drain_end at_time
  get_phase-constant t h k =
      let a = daily.warms_up in let b = daily.opens in let d = daily.drains in ground arith

  get_phase-next_transition : get_phase c (next_transition c current) ≢ get_phase c current
  unfolding next_transition get_phase pre_open_dt open_dt close_dt drain_end at_time
  get_phase-next_transition e =
      let a = daily.warms_up in
      let b = daily.opens in let d = daily.drains in let l = daily.lingers in ground arith

  -- For a calendar whose warm-up, session and drain lie within one day, the next transition is
  -- later than now; the phase is the present one at every time from now until it, and another one
  -- at it.
  pub next_transition_lem :
      (current < next_transition c current)
      × ((t : ℕ)
          → current ≤ t
          → t < next_transition c current
          → get_phase c t ≡ get_phase c current)
      × (get_phase c (next_transition c current) ≢ get_phase c current)
  next_transition_lem = (next_transition-later, get_phase-constant, get_phase-next_transition)
