-- ===== src/Libk/Ipc/Tests.antt =====
-- Two threads that wait for one call of unblock each, and a handler that calls it.
use limix.Base.{◌≡◌, refl, arith, not, ◌==◌, ltb, true, false}
use limix.Libk.Ipc.{
  add_count, block_on_waits, block_on_count_waits, unblock, outside, loaded_in_block_on,
  loaded_in_block_on_count, loaded_in_unblock, Waiters, at_place, load_block_on, store_block_on,
  load_block_on_count, store_block_on_count, load_unblock, store_unblock, WaitsReached, here, next,
  in_block_on, in_block_on_count,
}
use limix.Libk.Ipc.Balance.{WaitsReached-waits}

abbrev at_rest : Waiters
at_rest = record { semaphore = 0; place = λ t. outside }

abbrev one_loaded : Waiters
one_loaded = record { semaphore = 0; place = at_place 7 (loaded_in_block_on 0) at_rest }

abbrev one_waits : Waiters
one_waits = record { semaphore = 1; place = at_place 7 in_block_on one_loaded }

abbrev two_loaded : Waiters
two_loaded = record { semaphore = 1; place = at_place 8 (loaded_in_block_on_count 1 1) one_waits }

abbrev two_wait : Waiters
two_wait = record { semaphore = 2; place = at_place 8 in_block_on_count two_loaded }

abbrev handled : Waiters
handled = record { semaphore = 2; place = at_place 9 (loaded_in_unblock 2) two_wait }

abbrev one_freed : Waiters
one_freed = record { semaphore = 1; place = at_place 9 outside handled }

one_waiting : WaitsReached at_rest 1 0 0 one_waits
unfolding add_count
one_waiting = next (next here (load_block_on 7 at_rest refl)) (store_block_on 7 0 one_loaded refl)

two_waiting : WaitsReached at_rest 2 0 0 two_wait
unfolding add_count
two_waiting =
    next {asked = 1} {freed = 0} {lost = 0}
      (next {asked = 1} {freed = 0} {lost = 0} one_waiting (load_block_on_count 8 1 one_waits refl))
      (store_block_on_count 8 1 1 two_loaded refl)

run : WaitsReached at_rest 2 1 0 one_freed
unfolding unblock
run =
    next {asked = 2} {freed = 0} {lost = 0}
      (next {asked = 2} {freed = 0} {lost = 0} two_waiting (load_unblock 9 two_wait refl))
      (store_unblock 9 2 handled refl)

WaitsReached-waits_example :
    (block_on_waits one_freed.semaphore ≡ not (2 == 1))
    × (block_on_count_waits one_freed.semaphore ≡ ltb 1 2)
WaitsReached-waits_example = WaitsReached-waits refl run refl (omega arith) (omega arith)

-- Two threads that load the counter before either stores: two are asked for, and the counter is 1.
abbrev both_loaded : Waiters
both_loaded = record { semaphore = 0; place = at_place 8 (loaded_in_block_on 0) one_loaded }

abbrev first_stored : Waiters
first_stored = record { semaphore = 1; place = at_place 7 in_block_on both_loaded }

abbrev second_stored : Waiters
second_stored = record { semaphore = 1; place = at_place 8 in_block_on first_stored }

lost_update : WaitsReached at_rest 2 0 1 second_stored
unfolding add_count
lost_update =
    next {asked = 1} {freed = 0} {lost = 0}
      (next {asked = 0} {freed = 0} {lost = 0}
        (next {asked = 0} {freed = 0} {lost = 0}
          (next {asked = 0} {freed = 0} {lost = 0} here (load_block_on 7 at_rest refl))
          (load_block_on 8 one_loaded refl))
        (store_block_on 7 0 both_loaded refl))
      (store_block_on 8 0 first_stored refl)

-- A call of unblock too many: block_on waits for a counter of -1, block_on_count does not.
block_on_waits-unblock : block_on_waits (add_count 1 (unblock (unblock 0))) ≡ true
unfolding block_on_waits add_count unblock
block_on_waits-unblock = refl

block_on_count_waits-unblock : block_on_count_waits (add_count 1 (unblock (unblock 0))) ≡ false
unfolding block_on_count_waits add_count unblock
block_on_count_waits-unblock = refl
