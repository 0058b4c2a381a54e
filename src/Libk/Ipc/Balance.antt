-- ===== src/Libk/Ipc/Balance.antt =====
-- When the loops of the semaphore end.
use limix.Base.{ℕ, ◌+◌, ◌%◌, ◌^◌, ◌<◌, ◌≡◌, arith, not, ◌==◌, ltb}
use limix.Libk.Ipc.{
  add_count, block_on_waits, block_on_count_waits, unblock, Waiters, stale, WaitStep, load_block_on,
  store_block_on, load_block_on_count, store_block_on_count, leave_block_on, leave_block_on_count,
  load_unblock, store_unblock, WaitsReached, here, next,
}

-- The counter is what was asked for less the calls of unblock.
abbrev Counted : Waiters → ℕ → ℕ → Type 0
Counted s asked freed = (s.semaphore < 2 ^ 64) × ((s.semaphore + freed) % 2 ^ 64 ≡ asked % 2 ^ 64)

-- A store that is not stale had loaded what the counter still is.
stale-current : (v : ℕ) (s : Waiters) → stale v s ≡ 0 → v ≡ s.semaphore
stale-current v s e = ground (arith, e)

WaitStep-Counted :
    {s : Waiters} {a f l : ℕ} {u : Waiters} (asked freed : ℕ)
    → WaitStep s a f l u
    → l ≡ 0
    → Counted s asked freed
    → Counted u (asked + a) (freed + f)
unfolding add_count unblock
WaitStep-Counted asked freed (load_block_on t s p) z h = (h.0, omega arith)
WaitStep-Counted asked freed (store_block_on t v s p) z h =
    let e = stale-current v s z in (omega arith, omega arith)
WaitStep-Counted asked freed (load_block_on_count t count s p) z h = (h.0, omega arith)
WaitStep-Counted asked freed (store_block_on_count t v count s p) z h =
    let e = stale-current v s z in (omega arith, omega arith)
WaitStep-Counted asked freed (leave_block_on t s p w) z h = (h.0, omega arith)
WaitStep-Counted asked freed (leave_block_on_count t s p w) z h = (h.0, omega arith)
WaitStep-Counted asked freed (load_unblock t s p) z h = (h.0, omega arith)
WaitStep-Counted asked freed (store_unblock t v s p) z h =
    let e = stale-current v s z in (omega arith, omega arith)

WaitsReached-Counted :
    {start s : Waiters} {asked freed lost : ℕ}
    → start.semaphore ≡ 0
    → WaitsReached start asked freed lost s
    → lost ≡ 0
    → Counted s asked freed
WaitsReached-Counted zero here none_lost = (omega (arith, zero), omega (arith, zero))
WaitsReached-Counted zero (next {asked} {freed} {lost} {a} {f} {l} r st) none_lost =
    WaitStep-Counted asked freed st (omega (arith, none_lost))
      (WaitsReached-Counted zero r (omega (arith, none_lost)))

-- From a semaphore of 0, in a run whose loads and stores come in any order in which no store is
-- stale (the counter never changes between the load and the store of a `+=` or a `-=`), with fewer
-- than 2 ^ 63 asked for and fewer than 2 ^ 63 calls of unblock, both counted at their stores: the
-- loop of block_on goes on exactly while the calls of unblock are not as many as were asked for, and
-- that of block_on_count exactly while they are fewer.
pub WaitsReached-waits :
    {start s : Waiters} {asked freed lost : ℕ}
    → start.semaphore ≡ 0
    → WaitsReached start asked freed lost s
    → lost ≡ 0
    → asked < 2 ^ 63
    → freed < 2 ^ 63
    → (block_on_waits s.semaphore ≡ not (asked == freed))
      × (block_on_count_waits s.semaphore ≡ ltb freed asked)
unfolding block_on_waits block_on_count_waits
WaitsReached-waits zero r none_lost a f = ground (arith, WaitsReached-Counted zero r none_lost)
