-- ===== src/Messaging/Announces.antt =====
-- What a MessagingTaskQueue announces (messaging_adapter.go).
use background_tasks.Base.{
  ◌+◌, ◌≡◌, inl, inr, Bool, Option, none, some, List, [], ◌∷◌, ◌++◌, subst, String, Time, Duration,
  Option-cases, if◌then◌else◌,
}
use background_tasks.Task.{BackgroundTask, ResourceRequirements}
use background_tasks.Queue.{
  Reply, returned, raised, panicked, then_reply, TaskQueue, Op, enqueues, dequeues, peeks, requeues,
  buries, counts_pending, counts_running, counts_depth,
}
use background_tasks.Queue
use background_tasks.Events.{
  BackgroundTaskEvent, TaskEventType, created, started, retrying, dead_letter,
  new_background_task_event,
}
use background_tasks.Events.Messages.{
  publish_task_created, publish_task_started, publish_task_retrying, publish_task_dead_letter,
}
use background_tasks.Messaging.{
  MessagingTaskQueue, Stamp, enqueue, dequeue, requeue, move_to_dead_letter, call, run,
}
use background_tasks.Messaging.Notices.{
  Notice, Took, count_notices, taken_on, is_on, after_publish-Took, Took-nothing, Took-trans,
}
use background_tasks.Messaging.Refines.{IsLive, Reply-cases, call-Agrees, on_delegate}

abbrev pub on_return : {A : Type 0} → Reply A → (A → List Notice) → List Notice
on_return (returned a) f = f a
on_return (raised e) f = []
on_return panicked f = []

abbrev pub about : TaskEventType → Option BackgroundTask → List Notice
about kind none = []
about kind (some t) = (kind, t.id) ∷ []

module _ {D : Type 0} (tq : TaskQueue D) (find : D → String → Option BackgroundTask) where
  -- What a call is worth announcing, read off the delegate alone: a task that was enqueued or
  -- dequeued, and one that was given back or buried, if it can be found.
  abbrev pub news : D → Op → Time → List Notice
  news d (enqueues t) now = let (_, t', r) = tq.enqueue d t now in on_return r λ _. about created t'
  news d (dequeues worker req) now = on_return (tq.dequeue d worker req now).1 (about started)
  news d (requeues id delay) now =
      on_return (tq.requeue d id delay now).1 λ _. about retrying (find d id)
  news d (buries id reason) now =
      on_return (tq.move_to_dead_letter d id reason now).1 λ _. about dead_letter (find d id)
  news d _ now = []

  pub all_news : D → List (Op × Time) → List Notice
  all_news d [] = []
  all_news d ((op, now) ∷ ops) = news d op now ++ all_news (Queue.call tq d op now).0 ops

  module _ (answer : BackgroundTaskEvent → Option String) (f : Notice → Bool) where
    enqueue-Took :
        (q : MessagingTaskQueue D) (t : Option BackgroundTask) (st : Stamp)
        → IsLive q.publisher
        → Took f q.publisher
            (enqueue tq find answer q t st).0.publisher
            (news q.delegate (enqueues t) st.now)
    unfolding enqueue publish_task_created new_background_task_event
    enqueue-Took q t st live = elim (Reply-cases (tq.enqueue q.delegate t st.now).2) [
      | inl (tt, e) ↦ elim (Option-cases (tq.enqueue q.delegate t st.now).1) [
        | inl missing ↦ absurd (tq.enqueue_nil q.delegate st.now t e missing)
        | inr (made, kept) ↦
            rw (e, kept, enqueue) (after_publish-Took answer f _ _ q.publisher _ live)
      ]
      | inr (inl (msg, e)) ↦ rw (e, enqueue) (Took-nothing f q.publisher live)
      | inr (inr e) ↦ rw (e, enqueue) (Took-nothing f q.publisher live)
    ]

    dequeue-Took :
        (q : MessagingTaskQueue D) (worker : String) (req : ResourceRequirements) (st : Stamp)
        → IsLive q.publisher
        → Took f q.publisher
            (dequeue tq find answer q worker req st).0.publisher
            (news q.delegate (dequeues worker req) st.now)
    unfolding dequeue publish_task_started new_background_task_event
    dequeue-Took q worker req st live =
        elim (Reply-cases (tq.dequeue q.delegate worker req st.now).1) [
          | inl (none, e) ↦ rw (e, dequeue) (Took-nothing f q.publisher live)
          | inl (some t, e) ↦ rw (e, dequeue) (after_publish-Took answer f _ _ q.publisher _ live)
          | inr (inl (msg, e)) ↦ rw (e, dequeue) (Took-nothing f q.publisher live)
          | inr (inr e) ↦ rw (e, dequeue) (Took-nothing f q.publisher live)
        ]

    requeue-Took :
        (q : MessagingTaskQueue D) (id : String) (delay : Duration) (st : Stamp)
        → IsLive q.publisher
        → Took f q.publisher
            (requeue tq find answer q id delay st).0.publisher
            (news q.delegate (requeues id delay) st.now)
    unfolding requeue publish_task_retrying new_background_task_event
    requeue-Took q id delay st live = elim (Reply-cases (tq.requeue q.delegate id delay st.now).1) [
      | inl (tt, e) ↦ elim (Option-cases (find q.delegate id)) [
        | inl missing ↦ rw (e, missing, requeue) (Took-nothing f q.publisher live)
        | inr (t, found) ↦
            rw (e, found, requeue) (after_publish-Took answer f _ _ q.publisher _ live)
      ]
      | inr (inl (msg, e)) ↦ rw (e, requeue) (Took-nothing f q.publisher live)
      | inr (inr e) ↦ rw (e, requeue) (Took-nothing f q.publisher live)
    ]

    dead_letter-Took :
        (q : MessagingTaskQueue D) (id reason : String) (st : Stamp)
        → IsLive q.publisher
        → Took f q.publisher
            (move_to_dead_letter tq find answer q id reason st).0.publisher
            (news q.delegate (buries id reason) st.now)
    unfolding move_to_dead_letter publish_task_dead_letter new_background_task_event
    dead_letter-Took q id reason st live =
        elim (Reply-cases (tq.move_to_dead_letter q.delegate id reason st.now).1) [
          | inl (tt, e) ↦ elim (Option-cases (find q.delegate id)) [
            | inl missing ↦ rw (e, missing, move_to_dead_letter) (Took-nothing f q.publisher live)
            | inr (t, found) ↦
                rw (e, found, move_to_dead_letter)
                  (after_publish-Took answer f _ _ q.publisher _ live)
          ]
          | inr (inl (msg, e)) ↦ rw (e, move_to_dead_letter) (Took-nothing f q.publisher live)
          | inr (inr e) ↦ rw (e, move_to_dead_letter) (Took-nothing f q.publisher live)
        ]

    call-Took :
        (q : MessagingTaskQueue D) (op : Op) (st : Stamp)
        → IsLive q.publisher
        → Took f q.publisher (call tq find answer q op st).0.publisher (news q.delegate op st.now)
    call-Took q (enqueues t) st live = enqueue-Took q t st live
    call-Took q (dequeues worker req) st live = dequeue-Took q worker req st live
    call-Took q (peeks n) st live = Took-nothing f q.publisher live
    call-Took q (requeues id delay) st live = requeue-Took q id delay st live
    call-Took q (buries id reason) st live = dead_letter-Took q id reason st live
    call-Took q counts_pending st live = Took-nothing f q.publisher live
    call-Took q counts_running st live = Took-nothing f q.publisher live
    call-Took q counts_depth st live = Took-nothing f q.publisher live

    run-Took :
        (q : MessagingTaskQueue D) (calls : List (Op × Stamp))
        → IsLive q.publisher
        → Took f q.publisher
            (run tq find answer q calls).0.publisher
            (all_news q.delegate (on_delegate calls))
    unfolding run all_news
    run-Took q [] live = Took-nothing f q.publisher live
    run-Took q ((op, st) ∷ calls) live =
        let (same, reply, live') = call-Agrees tq find answer q op st live in
        let rest = run-Took (call tq find answer q op st).0 calls live' in
        Took-trans (call-Took q op st live) (
          subst
            (λ d.
              Took f (call tq find answer q op st).0.publisher
                (run tq find answer (call tq find answer q op st).0 calls).0.publisher
                (all_news d (on_delegate calls)))
            same rest)

    -- Over any calls the publisher takes on exactly the news of the delegate, each once: if
    -- publishing is on, the notices of every kind and task that it holds or has handed over grow by
    -- those in the news; if it is off, none is taken on.
    pub run_announces :
        (q : MessagingTaskQueue D) (calls : List (Op × Stamp))
        → IsLive q.publisher
        → taken_on f (run tq find answer q calls).0.publisher
          ≡ taken_on f q.publisher
            + (if is_on q.publisher
                then count_notices f (all_news q.delegate (on_delegate calls))
                else 0)
    run_announces q calls live = (run-Took q calls live).taken
