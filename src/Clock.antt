-- ===== src/Clock.antt =====
-- The calendar of Kernel/time.c. The registers of the real time clock are read by assembly; what they
-- hold is the argument `Registers`.
pub mod Laws
pub mod Ticks
mod Tests
use tp2_so_2025q.Base.{
  ℕ, ◌+◌, ◌-◌, ◌*◌, ◌/◌, ◌%◌, Bool, not, ◌&&◌, ◌||◌, ltb, leb, ◌==◌, if◌then◌else◌,
}

-- One byte each. Bit 1 of `format` says 24 hours, bit 2 says binary.
pub record Registers : Type 0 where
  pub seconds : ℕ
  pub minutes : ℕ
  pub hours : ℕ
  pub day_week : ℕ
  pub day_month : ℕ
  pub month : ℕ
  pub year : ℕ
  pub format : ℕ

pub record Time : Type 0 where
  pub hour : ℕ
  pub min : ℕ
  pub sec : ℕ

pub record Date : Type 0 where
  pub day_week : ℕ
  pub day_month : ℕ
  pub month : ℕ
  pub year : ℕ

-- `format & 2` and `format & 4`, as tests for 0.
abbrev pub twelve_hours : ℕ → Bool
twelve_hours format = format / 2 % 2 == 0

abbrev pub is_bcd : ℕ → Bool
is_bcd format = format / 4 % 2 == 0

-- `(x & 0xF) + ((x / 16) * 10)`.
abbrev pub from_bcd : ℕ → ℕ
from_bcd x = x % 16 + x / 16 * 10

abbrev pub to_byte : ℕ → ℕ
to_byte x = x % 256

-- The hour in 24 hours: the top bit says afternoon.
unfoldable pub full_day_hour : ℕ → ℕ → ℕ
full_day_hour format hour =
    if twelve_hours format && not (hour / 128 % 2 == 0) then (hour % 128 + 12) % 24 else hour

-- From UTC to UTC-3.
unfoldable pub local_hour : ℕ → ℕ
local_hour hour = if leb 3 hour then hour - 3 else hour + 21

unfoldable pub decode : ℕ → ℕ → ℕ
decode format x = if is_bcd format then to_byte (from_bcd x) else x

unfoldable pub format_time : Registers → Time
unfolding full_day_hour local_hour decode
format_time r = record {
  hour = local_hour (decode r.format (full_day_hour r.format r.hours));
  min = decode r.format r.minutes;
  sec = decode r.format r.seconds;
}

unfoldable pub calculate_month_last_day : ℕ → ℕ → ℕ
calculate_month_last_day month year =
    if month == 2
    then if (year % 4 == 0) || (not (year % 100 == 0) || (year % 400 == 0)) then 29 else 28
    else if ((month % 2 == 0) && ltb month 8) || ((month % 2 == 1) && ltb 8 month)
    then 30
    else 31

-- The date of the day before.
unfoldable pub step_back : Date → Date
unfolding calculate_month_last_day
step_back d =
    let year = if (d.day_month == 1) && (d.month == 1) then d.year - 1 else d.year in
    let month =
      if not (d.day_month == 1) then d.month else if d.month == 1 then 12 else d.month - 1 in
    record {
      day_week = (d.day_week + 5) % 7 + 1;
      day_month = if d.day_month == 1 then calculate_month_last_day month year else d.day_month - 1;
      month = month;
      year = year;
    }

-- The hour is tested as it stands in its register.
unfoldable pub format_date : Registers → Date
unfolding step_back decode
format_date r =
    let year = if is_bcd r.format then from_bcd r.year else r.year in
    let d : Date = record {
      day_week = r.day_week;
      day_month = decode r.format r.day_month;
      month = decode r.format r.month;
      year = year + 2000 + 0;
    } in
    if ltb r.hours 3 then step_back d else d
