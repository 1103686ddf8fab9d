-- ===== src/Scheduler/Quantum.antt =====
-- How long a process keeps the CPU.
use tp2_so_2025q.Base.{
  ℕ, zero, suc, ◌+◌, ◌^◌, ◌<◌, ◌≡◌, true, false, arith, ◌==◌, if◌then◌else◌, add32,
}
use tp2_so_2025q.Text.{strcmp}
use tp2_so_2025q.System.Process.{State, Pcb}
use tp2_so_2025q.Scheduler.{tick, idle_name}

-- The block after `n` timer ticks in a row.
pub run_ticks : ℕ → ℕ → Pcb → Pcb
unfolding tick
run_ticks zero rsp p = p
run_ticks (suc n) rsp p = (tick rsp (run_ticks n rsp p)).0

-- A process on the CPU that does not give it up and has time left.
pub record IsEager (p : Pcb) : Type 0 where
  pub runs : p.state ≡ State.running
  pub eager : p.yielding ≡ false
  pub some_time : p.time_used < p.my_max_time
  pub in_range : p.my_max_time < 2 ^ 31

pub record After (n : ℕ) (p q : Pcb) : Type 0 where
  pub runs : q.state ≡ State.running
  pub used : q.time_used ≡ p.time_used + n
  pub eager : q.yielding ≡ false
  pub quota : q.my_max_time ≡ p.my_max_time
  pub named : q.name ≡ p.name
  pub switches : q.changes ≡ p.changes

run_ticks-After :
    (n rsp : ℕ) (p : Pcb)
    → IsEager p
    → p.time_used + n < p.my_max_time
    → After n p (run_ticks n rsp p)
unfolding run_ticks tick
run_ticks-After zero rsp p f h = ground arith
run_ticks-After (suc n) rsp p f h = ground (arith, run_ticks-After n rsp p f)

-- A running process that does not yield keeps the CPU for exactly as many ticks as its `time_used` is
-- below `my_max_time`, which is all of them if none is used: at each earlier tick it stays and stays
-- running, with one tick more used, and at that tick it leaves, is counted as changed, starts again from no time
-- used, and is ready, or blocked if it is the idle process.
pub quantum_exact :
    (n rsp : ℕ) (p : Pcb)
    → IsEager p
    → p.time_used + n < p.my_max_time
    → let (q, stays) = tick rsp (run_ticks n rsp p) in
      (stays ≡ (if suc (p.time_used + n) == p.my_max_time then false else true))
      × (q.state ≡ (
          if stays
          then State.running
          else if strcmp p.name idle_name == 0
          then State.blocked
          else State.ready))
      × (q.time_used ≡ (if stays then suc (p.time_used + n) else 0))
      × (q.changes ≡ (if stays then p.changes else add32 p.changes 1))
unfolding tick
quantum_exact n rsp p f h = ground (arith, run_ticks-After n rsp p f h)
