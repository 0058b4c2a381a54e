-- ===== src/Libk/Ipc.antt =====
-- libk/src/kipc/semaphore: calls of several threads on one semaphore. Each load and
-- each store of the counter is a step of its own; a semaphore_t is a 64-bit pattern.
pub mod Balance
mod Tests
use limix.Base.{ℕ, ◌+◌, ◌-◌, ◌%◌, ◌^◌, Bool, true, false, not, ◌&&◌, ◌==◌, ◌≡◌, ltb, if◌then◌else◌}

-- `*s += count`
unfoldable pub add_count : ℕ → ℕ → ℕ
add_count count s = (s + count) % 2 ^ 64

-- `while (*s)`
unfoldable pub block_on_waits : ℕ → Bool
block_on_waits s = not (s == 0)

-- `while (*s > 0)`, for a signed number
unfoldable pub block_on_count_waits : ℕ → Bool
block_on_count_waits s = ltb 0 s && ltb s (2 ^ 63)

unfoldable pub unblock : ℕ → ℕ
unblock s = (s + 2 ^ 64 - 1) % 2 ^ 64

-- Where a thread, or the handler of an interrupt, is: in none of the functions, between the load and
-- the store of a `+=` or a `-=` with the value it has loaded, or in the loop of block_on or of
-- block_on_count.
pub data Waiting : Type 0 where
  outside : Waiting
  loaded_in_block_on : (v : ℕ) → Waiting
  loaded_in_block_on_count : (v count : ℕ) → Waiting
  loaded_in_unblock : (v : ℕ) → Waiting
  in_block_on in_block_on_count : Waiting

pub record Waiters : Type 0 where
  pub semaphore : ℕ
  pub place : ℕ → Waiting

abbrev pub at_place : ℕ → Waiting → Waiters → ℕ → Waiting
at_place t p s u = if u == t then p else s.place u

-- A store is stale where the counter is no longer what was loaded: it undoes the stores in between.
abbrev pub stale : ℕ → Waiters → ℕ
stale v s = if s.semaphore == v then 0 else 1

-- What a step adds: to what the threads have asked for, to the calls of unblock that have stored,
-- and to the stale stores.
pub data WaitStep : Waiters → ℕ → ℕ → ℕ → Waiters → Type 0 where
  load_block_on :
      (t : ℕ) (s : Waiters)
      → s.place t ≡ outside
      → WaitStep s 0 0 0 (record s { place = at_place t (loaded_in_block_on s.semaphore) s })
  store_block_on :
      (t v : ℕ) (s : Waiters)
      → s.place t ≡ loaded_in_block_on v
      → WaitStep s 1 0
          (stale v s)
          (record { semaphore = add_count 1 v; place = at_place t in_block_on s })
  load_block_on_count :
      (t count : ℕ) (s : Waiters)
      → s.place t ≡ outside
      → WaitStep s 0 0 0
          (record s { place = at_place t (loaded_in_block_on_count s.semaphore count) s })
  store_block_on_count :
      (t v count : ℕ) (s : Waiters)
      → s.place t ≡ loaded_in_block_on_count v count
      → WaitStep s count 0
          (stale v s)
          (record { semaphore = add_count count v; place = at_place t in_block_on_count s })
  leave_block_on :
      (t : ℕ) (s : Waiters)
      → s.place t ≡ in_block_on
      → block_on_waits s.semaphore ≡ false
      → WaitStep s 0 0 0 (record s { place = at_place t outside s })
  leave_block_on_count :
      (t : ℕ) (s : Waiters)
      → s.place t ≡ in_block_on_count
      → block_on_count_waits s.semaphore ≡ false
      → WaitStep s 0 0 0 (record s { place = at_place t outside s })
  load_unblock :
      (t : ℕ) (s : Waiters)
      → s.place t ≡ outside
      → WaitStep s 0 0 0 (record s { place = at_place t (loaded_in_unblock s.semaphore) s })
  store_unblock :
      (t v : ℕ) (s : Waiters)
      → s.place t ≡ loaded_in_unblock v
      → WaitStep s 0 1 (stale v s) (record { semaphore = unblock v; place = at_place t outside s })

-- The sums over the steps so far.
pub data WaitsReached (start : Waiters) : ℕ → ℕ → ℕ → Waiters → Type 0 where
  here : WaitsReached start 0 0 0 start
  next :
      {asked freed lost a f l : ℕ} {s u : Waiters}
      → WaitsReached start asked freed lost s
      → WaitStep s a f l u
      → WaitsReached start (asked + a) (freed + f) (lost + l) u
