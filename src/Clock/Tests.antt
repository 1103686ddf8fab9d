-- ===== src/Clock/Tests.antt =====
-- A quarter to three in the night of the first of March 2024, in decimal digits.
use tp2_so_2025q.Base.{◌+◌, ◌≡◌, refl, some, [], ◌∷◌, arith}
use tp2_so_2025q.Clock.{Registers, Date, format_time, format_date}
use tp2_so_2025q.Clock.Ticks.{sleep, counting, sleep_exact}
use tp2_so_2025q.Clock.Laws.{IsDate, next_day, format_time_lem, format_date_lem, afternoon_lem}

abbrev night : Registers
night = record {
  seconds = 0x30;
  minutes = 0x45;
  hours = 0x02;
  day_week = 6;
  day_month = 0x01;
  month = 0x03;
  year = 0x24;
  format = 2;
}

abbrev first_of_march : Date
first_of_march = record { day_week = 6; day_month = 1; month = 3; year = 2024 }

-- The hour is 5 in the afternoon, and the clock counts twice 12 hours.
abbrev afternoon : Registers
afternoon = record night { hours = 0x85; format = 0 }

february_29 : format_date night ≡ record { day_week = 5; day_month = 29; month = 2; year = 2024 }
unfolding format_date
february_29 = refl

first_of_march-IsDate : IsDate 29 first_of_march
first_of_march-IsDate = record {
  week = (omega arith, omega arith);
  month = (omega arith, omega arith);
  day = (omega arith, omega arith);
  year = (omega arith, omega arith);
}

format_time_lem_example : format_time night ≡ record { hour = 23; min = 45; sec = 30 }
format_time_lem_example =
    format_time_lem night 2 45 30 (omega arith) (omega arith) (omega arith) refl refl refl refl

format_date_lem_example : next_day (format_date night) ≡ first_of_march
format_date_lem_example =
    format_date_lem night first_of_march first_of_march-IsDate refl refl refl refl

afternoon_lem_example : (format_time afternoon).hour + 6 ≡ 14
afternoon_lem_example = afternoon_lem afternoon 5 (omega arith) (omega arith) refl refl refl

slept_five_seconds : sleep 5 0 (1000 ∷ counting 90 1000 []) ≡ some []
slept_five_seconds = sleep_exact 1000 5 [] (omega arith) (omega arith) (omega arith)

-- A unit of 1: the seconds are thousandths, which take no more than one tick here.
slept_milliseconds : sleep 50 1 (1000 ∷ 1000 ∷ 1001 ∷ 1002 ∷ []) ≡ some (1002 ∷ [])
unfolding sleep
slept_milliseconds = refl
