-- ===== src/Checks/Lifecycle.antt =====
-- The life of the pool: a run of Start and Stop, and the theorems at its states.
use background_tasks.Base.{◌≡◌, ◌≤◌, refl, ◌+◌, ◌⊎◌, ◌↔◌, true, none, [], length}
use background_tasks.Pool.Workers.{Reach}
use background_tasks.Pool.Lifecycle.{
  AdaptiveWorkerPool, new_adaptive_worker_pool, start_pool, Later, now, inside, outside,
  start_called, start_spawns, start_spawned, start_launches, start_returns, stop_called,
  stop_signalled, stop_graceful, worker_turn, worker_done, loop_turn, loop_done, poll, get_task,
  count_in, worker_launched, task_done, see_cancel, decrement, leave_map, LoopTurn,
}
use background_tasks.Base.Places.{here, first}
use background_tasks.Pool.Lifecycle.Counts.{Later-waited, running_workers}
use background_tasks.Pool.Lifecycle.View.{Later-Reach, view}
use background_tasks.Pool.Lifecycle.Stop.{Inside, still, onward, work, CanMove, stop_ends}
use background_tasks.Pool.Lifecycle.Restart.{engaged, restart_is_dead}

-- Start with one worker, which then asks the queue for a task and gets one.
abbrev running : (s : AdaptiveWorkerPool) × Later (new_adaptive_worker_pool 1) s
unfolding start_pool
running = (
  _,
  inside
      (inside
        (outside
          (outside
            (outside
              (outside
                (outside
                  (inside
                    (inside (outside (outside now start_called) (start_spawns "a" tt here))
                      (worker_turn count_in here))
                    (worker_launched here))
                  (start_spawned refl here))
                (start_launches here))
              (start_launches here))
            (start_launches here))
          (start_returns first))
        (worker_turn (poll refl refl) here))
      (worker_turn get_task here),
)

-- Stop cancels the context, and the worker ends its task.
abbrev stopping : (s : AdaptiveWorkerPool) × Later (new_adaptive_worker_pool 1) s
unfolding start_pool
stopping = (_, outside running.1 stop_called)

abbrev task_ended : (s : AdaptiveWorkerPool) × Inside stopping.0 1 s
unfolding stopping
task_ended = (_, onward still (worker_turn task_done here))

stop_ends_example : (1 ≤ work stopping.0) × ((task_ended.0.wait_group ≡ 0) ⊎ CanMove task_ended.0)
unfolding stopping
stop_ends_example = stop_ends stopping.1 refl task_ended.1

-- Worker and loops leave, and Stop returns with all of them gone.
abbrev stopped : (s : AdaptiveWorkerPool) × Later (new_adaptive_worker_pool 1) s
unfolding stopping
stopped = (
  _,
  outside
      (outside
        (inside
          (inside
            (inside
              (inside
                (inside
                  (inside
                    (inside
                      (inside
                        (inside
                          (inside (inside stopping.1 (worker_turn task_done here))
                            (worker_turn (see_cancel refl) here))
                          (worker_turn decrement here))
                        (worker_turn leave_map here))
                      (worker_done first))
                    (loop_turn (LoopTurn.see_cancel refl) here))
                  (loop_done first))
                (loop_turn (LoopTurn.see_cancel refl) here))
              (loop_done first))
            (loop_turn (LoopTurn.see_cancel refl) here))
          (loop_done first))
        (stop_signalled tt here))
      (stop_graceful refl first),
)

Later-waited_example :
    (stopping.0.wait_group ≡ running_workers stopping.0.workers + length stopping.0.loops)
    × ((stopping.0.wait_group ≡ 0)
        ↔ ((running_workers stopping.0.workers ≡ 0) × (stopping.0.loops ≡ [])))
Later-waited_example = Later-waited stopping.1

Later-Reach_example : Reach 1 (view stopping.0)
Later-Reach_example = Later-Reach stopping.1

-- Start is called again and spawns a worker.
abbrev restarted : (s : AdaptiveWorkerPool) × Later stopped.0 s
unfolding start_pool stopped
restarted = (_, outside (outside now start_called) (start_spawns "b" tt here))

restart_is_dead_example :
    ((start_pool stopped.0).1 ≡ none) × (restarted.0.cancelled ≡ true) × (engaged restarted.0 ≡ 0)
unfolding stopped
restart_is_dead_example = restart_is_dead stopped.1 refl refl refl restarted.1
