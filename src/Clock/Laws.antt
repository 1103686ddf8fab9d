-- ===== src/Clock/Laws.antt =====
-- What the calendar shows for registers that hold a true time.
use tp2_so_2025q.Base.{
  ℕ, inl, inr, Bool-cases, ==→eq, sym, subst, ◌+◌, ◌-◌, ◌*◌, ◌/◌, ◌%◌, ◌≤◌, ◌<◌, ◌≡◌, refl, true,
  false, not, ◌&&◌, ◌||◌, arith, ltb, leb, ◌==◌, if◌then◌else◌,
}
use tp2_so_2025q.Clock.{
  Registers, Date, twelve_hours, is_bcd, from_bcd, full_day_hour, local_hour, decode, format_time,
  calculate_month_last_day, step_back, format_date,
}

-- A number below 100 as two decimal digits in a byte.
abbrev pub to_bcd : ℕ → ℕ
to_bcd n = n / 10 * 16 + n % 10

abbrev pub encoded : ℕ → ℕ → ℕ
encoded format n = if is_bcd format then to_bcd n else n

decode-encoded : (format n : ℕ) → n < 100 → decode format (encoded format n) ≡ n
unfolding decode
decode-encoded format n h = ground arith

-- On a clock that counts 24 hours, in either code, `format_time` shows the minutes and seconds, and the
-- hour three hours back, going round at midnight.
pub format_time_lem :
    (r : Registers) (h m s : ℕ)
    → h < 24
    → m < 60
    → s < 60
    → twelve_hours r.format ≡ false
    → r.hours ≡ encoded r.format h
    → r.minutes ≡ encoded r.format m
    → r.seconds ≡ encoded r.format s
    → format_time r ≡ record { hour = (h + 21) % 24; min = m; sec = s }
unfolding format_time full_day_hour local_hour
format_time_lem r h m s hh hm hs full eh em es =
    let shown : (if leb 3 h then h - 3 else h + 21) ≡ (h + 21) % 24 = ground arith in
    rw
      (
        full,
        eh,
        em,
        es,
        decode-encoded r.format h (omega arith),
        decode-encoded r.format m (omega arith),
        decode-encoded r.format s (omega arith),
        shown,
      )
      refl

-- The length of a month by the calendar, the year's February given.
abbrev pub month_length : ℕ → ℕ → ℕ
month_length february month =
    if month == 2
    then february
    else if (month == 4) || ((month == 6) || ((month == 9) || (month == 11)))
    then 30
    else 31

-- The months get the length that the calendar gives them, and February has 29 days in every year.
pub calculate_month_last_day_lem :
    (month year : ℕ)
    → 1 ≤ month
    → month ≤ 12
    → calculate_month_last_day month year ≡ month_length 29 month
unfolding calculate_month_last_day
calculate_month_last_day_lem month year low high = ground arith

-- On a clock that counts twice 12 hours in decimal digits, the hours from 4 to 9 in the afternoon are
-- shown six hours too early: 12 is added to the digits before they are decoded.
pub afternoon_lem :
    (r : Registers) (h : ℕ)
    → 4 ≤ h
    → h ≤ 9
    → twelve_hours r.format ≡ true
    → is_bcd r.format ≡ true
    → r.hours ≡ 128 + to_bcd h
    → (format_time r).hour + 6 ≡ (h + 12 + 21) % 24
unfolding format_time full_day_hour local_hour decode
afternoon_lem r h low high half bcd eh = ground arith

pub record IsDate (february : ℕ) (d : Date) : Type 0 where
  pub week : (1 ≤ d.day_week) × (d.day_week ≤ 7)
  pub month : (1 ≤ d.month) × (d.month ≤ 12)
  pub day : (1 ≤ d.day_month) × (d.day_month ≤ month_length february d.month)
  pub year : (2000 ≤ d.year) × (d.year < 2100)

-- The day after, by the calendar, where February has 29 days.
abbrev pub next_day : Date → Date
next_day d =
    let last = d.day_month == month_length 29 d.month in
    record {
      day_week = d.day_week % 7 + 1;
      day_month = if last then 1 else d.day_month + 1;
      month = if not last then d.month else if d.month == 12 then 1 else d.month + 1;
      year = if last && (d.month == 12) then d.year + 1 else d.year;
    }

week_back : (w : ℕ) → 1 ≤ w → w ≤ 7 → ((w + 5) % 7 + 1) % 7 + 1 ≡ w
week_back w low high = omega arith

-- The day before a day that is not the first of its month.
next_day_in_month :
    (d : Date) → IsDate 29 d → (d.day_month == 1) ≡ false → next_day (step_back d) ≡ d
unfolding step_back
next_day_in_month d v later =
    let week : ((d.day_week + 5) % 7 + 1) % 7 + 1 ≡ d.day_week =
      week_back d.day_week v.week.0 v.week.1 in
    let inside : (d.day_month - 1 == month_length 29 d.month) ≡ false = ground (arith, v.day.1) in
    let again : d.day_month - 1 + 1 ≡ d.day_month = ground arith in
    rw (later, step_back, inside, again, week) refl

-- The day before the first of January, and of another month.
next_day_new_year :
    (d : Date) → IsDate 29 d → d.day_month ≡ 1 → d.month ≡ 1 → next_day (step_back d) ≡ d
unfolding step_back calculate_month_last_day
next_day_new_year d v first january =
    let week : ((d.day_week + 5) % 7 + 1) % 7 + 1 ≡ d.day_week =
      week_back d.day_week v.week.0 v.week.1 in
    let again : d.year - 1 + 1 ≡ d.year = omega (arith, v.year.0) in
    let back : d ≡ record d { day_month = 1; month = 1 } =
      λ t. record d { day_month = first t; month = january t } in
    subst (λ e. next_day (step_back e) ≡ e) (sym back) (rw (again, week) refl)

next_day_new_month :
    (d : Date) → IsDate 29 d → d.day_month ≡ 1 → (d.month == 1) ≡ false → next_day (step_back d) ≡ d
unfolding step_back
next_day_new_month d v first later =
    let week : ((d.day_week + 5) % 7 + 1) % 7 + 1 ≡ d.day_week =
      week_back d.day_week v.week.0 v.week.1 in
    let length : calculate_month_last_day (d.month - 1) d.year ≡ month_length 29 (d.month - 1) =
      calculate_month_last_day_lem (d.month - 1) d.year (ground (arith, v.month.0))
        (omega (arith, v.month.1)) in
    let whole : (month_length 29 (d.month - 1) == month_length 29 (d.month - 1)) ≡ true =
      ground arith in
    let here : (d.month - 1 == 12) ≡ false = ground (arith, v.month.1) in
    let again : d.month - 1 + 1 ≡ d.month = ground (arith, v.month.0) in
    let back : d ≡ record d { day_month = 1 } = λ t. record d { day_month = first t } in
    subst (λ e. next_day (step_back e) ≡ e) (sym back)
      (rw (later, step_back, length, whole, here, again, week) refl)

next_day-step_back : (d : Date) → IsDate 29 d → next_day (step_back d) ≡ d
next_day-step_back d v = elim (Bool-cases (d.day_month == 1)) [
  | inr later ↦ next_day_in_month d v later
  | inl first ↦ elim (Bool-cases (d.month == 1)) [
    | inl january ↦ next_day_new_year d v (==→eq d.day_month 1 first) (==→eq d.month 1 january)
    | inr other ↦ next_day_new_month d v (==→eq d.day_month 1 first) other
  ]
]

format_date_shown :
    (r : Registers) (d : Date)
    → IsDate 29 d
    → r.day_week ≡ d.day_week
    → r.day_month ≡ encoded r.format d.day_month
    → r.month ≡ encoded r.format d.month
    → r.year ≡ encoded r.format (d.year - 2000)
    → format_date r ≡ (if ltb r.hours 3 then step_back d else d)
unfolding format_date
format_date_shown r d v ew ed em ey =
    let day : decode r.format r.day_month ≡ d.day_month =
      rw ed (decode-encoded r.format d.day_month (ground (arith, v.day))) in
    let month : decode r.format r.month ≡ d.month =
      rw em (decode-encoded r.format d.month (omega (arith, v.month))) in
    let year : (if is_bcd r.format then from_bcd r.year else r.year) + 2000 + 0 ≡ d.year =
      ground (arith, v.year) in
    rw (format_date, day, month, year, ew) refl

-- `format_date` compares the hours register, as it is, with 3: where the register is not below 3 it
-- shows the registers' date, and else the day of which that is the next one, in a calendar where
-- every February has 29 days.
pub format_date_lem :
    (r : Registers) (d : Date)
    → IsDate 29 d
    → r.day_week ≡ d.day_week
    → r.day_month ≡ encoded r.format d.day_month
    → r.month ≡ encoded r.format d.month
    → r.year ≡ encoded r.format (d.year - 2000)
    → (if ltb r.hours 3 then next_day (format_date r) else format_date r) ≡ d
format_date_lem r d v ew ed em ey = elim (Bool-cases (ltb r.hours 3)) [
  | inl early ↦ rw (early, format_date_shown r d v ew ed em ey, early) (next_day-step_back d v)
  | inr late ↦ rw (late, format_date_shown r d v ew ed em ey, late) refl
]
