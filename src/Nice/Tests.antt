-- ===== src/Nice/Tests.antt =====
-- `be_nice` on the sample kernel.
use tp2_so_2025q.Base.{ℕ, ◌-◌, ◌*◌, ◌^◌, ◌≡◌, refl, ◌⊎◌, true, some, arith, is_negative, neg}
use tp2_so_2025q.Text.{strcmp}
use tp2_so_2025q.System.{put_pcb}
use tp2_so_2025q.System.Run.{done}
use tp2_so_2025q.System.Process.{Pcb, quantum}
use tp2_so_2025q.System.Sample.{kernel, lock, job}
use tp2_so_2025q.Nice.{be_nice, int_to_priority, get_max_time_for_priority}
use tp2_so_2025q.Nice.Laws.{be_nice-Granted, Granted}

nice_job :
    be_nice 2 0 (kernel lock)
    ≡ done 0 (
        put_pcb
          (kernel lock)
          2
          (some (record job { my_prio = int_to_priority 0; my_max_time = 1250 })))
unfolding be_nice get_max_time_for_priority strcmp
nice_job = refl

nice_idle : be_nice 0 0 (kernel lock) ≡ done (neg 2) (kernel lock)
unfolding be_nice strcmp
nice_idle = refl

be_nice-Granted_example :
    ((p : Pcb) × Granted (kernel lock) 2 1 p
      × (be_nice 2 1 (kernel lock)
          ≡ done 0 (
              put_pcb (kernel lock) 2 (
                some (record p {
                  my_prio = int_to_priority 1;
                  my_max_time = quantum * 5 ^ (4 - 1);
                })))))
    ⊎ ((r : ℕ) × (be_nice 2 1 (kernel lock) ≡ done r (kernel lock))
        × (is_negative r ≡ true)
        × ((p : Pcb) → ¬ Granted (kernel lock) 2 1 p))
be_nice-Granted_example = be_nice-Granted (kernel lock) 2 1 (omega arith) (omega arith)
