-- ===== src/Live/Session.antt =====
-- src/app/live/session.py, `WallClockSessionCalendar`. A local time is the number of microseconds
-- that the wall clock of the market's zone shows since midnight of the first day; the conversion
-- of an instant, `astimezone`, is the caller's. The code raises where the warm-up starts before
-- that midnight.
pub mod Transition
use web_enigma.Base.{ℕ, ◌+◌, ◌-◌, ◌*◌, ◌/◌, ltb, leb, Bool, ◌&&◌, if◌then◌else◌, Option, some}

pub data SessionPhase : Type 0 where
  pre_open is_open draining is_closed : SessionPhase

pub record WallClockSessionCalendar : Type 0 where
  pub open_hour : ℕ
  pub open_minute : ℕ
  pub close_hour : ℕ
  pub close_minute : ℕ
  pub pre_open_warmup_minutes : ℕ
  pub drain_timeout_minutes : ℕ

abbrev pub minutes : ℕ → ℕ
minutes n = n * 60000000

-- A day, in microseconds.
abbrev pub day : ℕ
day = 86400000000

-- current.replace(hour=h, minute=m, second=0, microsecond=0)
unfoldable pub at_time : ℕ → ℕ → ℕ → ℕ
at_time h m current = current / day * day + minutes (h * 60 + m)

module _ (c : WallClockSessionCalendar) (current : ℕ) where
  unfoldable pub open_dt : ℕ
  open_dt = at_time c.open_hour c.open_minute current

  unfoldable pub close_dt : ℕ
  close_dt = at_time c.close_hour c.close_minute current

  unfoldable pub pre_open_dt : ℕ
  pre_open_dt = open_dt - minutes c.pre_open_warmup_minutes

  unfoldable pub drain_end : ℕ
  drain_end = close_dt + minutes c.drain_timeout_minutes

  -- get_phase
  unfoldable pub get_phase : SessionPhase
  get_phase =
      if leb pre_open_dt current && ltb current open_dt
      then pre_open
      else if leb open_dt current && ltb current close_dt
      then is_open
      else if leb close_dt current && ltb current drain_end
      then draining
      else is_closed

  -- next_transition
  unfoldable pub next_transition : ℕ
  next_transition =
      if ltb current pre_open_dt
      then pre_open_dt
      else if ltb current open_dt
      then open_dt
      else if ltb current close_dt
      then close_dt
      else if ltb current drain_end
      then drain_end
      else pre_open_dt + day
