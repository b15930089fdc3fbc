-- ===== src/Muduo/LoopThreadPool/Tests.antt =====
-- Three loops, numbered from 10.
use linux_os.Base.{ℕ, ◌+◌, ◌%◌, ◌≡◌, refl, [], ◌∷◌, some, arith, get_elem?}
use linux_os.Muduo.LoopThreadPool.{
  LoopThreadPool, after_calls, get_next_loop_thread, get_next_loop_thread-round_robin,
}

abbrev three_loops : LoopThreadPool ℕ
three_loops = record {
  threads_size = 3;
  thread_index = 0;
  base_loop = 9;
  loops = 10 ∷ 11 ∷ 12 ∷ [];
}

get_next_loop_thread-test : (get_next_loop_thread (after_calls 2 three_loops)).0 ≡ some 10
unfolding get_next_loop_thread after_calls
get_next_loop_thread-test = refl

get_next_loop_thread-round_robin_example :
    (loop : ℕ) × ((get_next_loop_thread (after_calls 4 three_loops)).0 ≡ some loop)
    × (get_elem? three_loops.loops ((three_loops.thread_index + 5) % three_loops.threads_size)
        ≡ some loop)
get_next_loop_thread-round_robin_example =
    get_next_loop_thread-round_robin 4 three_loops
      record { started = refl; some_thread = omega arith; in_range = omega arith }
