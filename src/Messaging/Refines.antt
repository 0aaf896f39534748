-- ===== src/Messaging/Refines.antt =====
-- A MessagingTaskQueue answers as its delegate does (messaging_adapter.go).
use background_tasks.Base.{
  ◌≡◌, refl, ap, ◌⊎◌, inl, inr, false, Option, none, some, List, [], ◌∷◌, map, String, Time,
  Duration, arith, Option-cases,
}
use background_tasks.Task.{BackgroundTask, ResourceRequirements}
use background_tasks.Queue.{
  Reply, returned, raised, panicked, then_reply, TaskQueue, Op, enqueues, dequeues, peeks, requeues,
  buries, counts_pending, counts_running, counts_depth, Result, nothing, task,
}
use background_tasks.Queue
use background_tasks.Events.{BackgroundTaskEvent}
use background_tasks.Events.Publisher.{TaskEventPublisher, publish, do_publish}
use background_tasks.Events.Messages.{
  publish_task_created, publish_task_started, publish_task_retrying, publish_task_dead_letter,
}
use background_tasks.Messaging.{
  MessagingTaskQueue, Stamp, after_publish, enqueue, dequeue, requeue, move_to_dead_letter, call,
  run,
}

pub Reply-cases :
    {A : Type 0} (r : Reply A)
    → ((a : A) × (r ≡ returned a)) ⊎ (((e : String) × (r ≡ raised e)) ⊎ (r ≡ panicked))
Reply-cases (returned a) = inl (a, refl)
Reply-cases (raised e) = inr (inl (e, refl))
Reply-cases panicked = inr (inr refl)

-- The publisher has not been stopped.
abbrev pub IsLive : TaskEventPublisher → Type 0
IsLive p = p.stopped ≡ false

-- The same calls, at the same instants, without the publisher.
abbrev pub on_delegate : List (Op × Stamp) → List (Op × Time)
on_delegate = map λ c. (c.0, c.1.now)

module _ {D : Type 0} where
  -- The call has left the delegate in `d` and replied `r`, with a publisher that still runs.
  abbrev pub Agrees : {A : Type 0} → D → Reply A → MessagingTaskQueue D × Reply A → Type 0
  Agrees d r (q, r') = (q.delegate ≡ d) × (r' ≡ r) × IsLive q.publisher

  after_publish-Agrees :
      {A : Type 0} (answer : BackgroundTaskEvent → Option String) (d : D) (a : A)
      (p : TaskEventPublisher) (e : Option BackgroundTaskEvent)
      → IsLive p
      → Agrees d (returned a) (after_publish d a (publish answer p e))
  unfolding publish do_publish
  after_publish-Agrees answer d a p e live = ground arith

module _ {D : Type 0} (tq : TaskQueue D) (find : D → String → Option BackgroundTask)
    (answer : BackgroundTaskEvent → Option String) where
  enqueue-Agrees :
      (q : MessagingTaskQueue D) (t : Option BackgroundTask) (st : Stamp)
      → IsLive q.publisher
      → let (d, _, r) = tq.enqueue q.delegate t st.now in
        let (q', _, r') = enqueue tq find answer q t st in Agrees d r (q', r')
  unfolding enqueue publish_task_created
  enqueue-Agrees q t st live = elim (Reply-cases (tq.enqueue q.delegate t st.now).2) [
    | inl (tt, e) ↦ elim (Option-cases (tq.enqueue q.delegate t st.now).1) [
      | inl missing ↦ absurd (tq.enqueue_nil q.delegate st.now t e missing)
      | inr (made, kept) ↦
          rw (e, kept, enqueue) (after_publish-Agrees answer _ _ q.publisher _ live)
    ]
    | inr (inl (msg, e)) ↦ rw (e, enqueue) (refl, refl, live)
    | inr (inr e) ↦ rw (e, enqueue) (refl, refl, live)
  ]

  dequeue-Agrees :
      (q : MessagingTaskQueue D) (worker : String) (req : ResourceRequirements) (st : Stamp)
      → IsLive q.publisher
      → let (d, r) = tq.dequeue q.delegate worker req st.now in
        Agrees d r (dequeue tq find answer q worker req st)
  unfolding dequeue publish_task_started
  dequeue-Agrees q worker req st live =
      elim (Reply-cases (tq.dequeue q.delegate worker req st.now).1) [
        | inl (none, e) ↦ rw (e, dequeue) (refl, refl, live)
        | inl (some t, e) ↦ rw (e, dequeue) (after_publish-Agrees answer _ _ q.publisher _ live)
        | inr (inl (msg, e)) ↦ rw (e, dequeue) (refl, refl, live)
        | inr (inr e) ↦ rw (e, dequeue) (refl, refl, live)
      ]

  requeue-Agrees :
      (q : MessagingTaskQueue D) (id : String) (delay : Duration) (st : Stamp)
      → IsLive q.publisher
      → let (d, r) = tq.requeue q.delegate id delay st.now in
        Agrees d r (requeue tq find answer q id delay st)
  unfolding requeue publish_task_retrying
  requeue-Agrees q id delay st live = elim (Reply-cases (tq.requeue q.delegate id delay st.now).1) [
    | inl (tt, e) ↦ elim (Option-cases (find q.delegate id)) [
      | inl missing ↦ rw (e, missing, requeue) (refl, refl, live)
      | inr (t, found) ↦ rw (e, found, requeue) (after_publish-Agrees answer _ _ q.publisher _ live)
    ]
    | inr (inl (msg, e)) ↦ rw (e, requeue) (refl, refl, live)
    | inr (inr e) ↦ rw (e, requeue) (refl, refl, live)
  ]

  dead_letter-Agrees :
      (q : MessagingTaskQueue D) (id reason : String) (st : Stamp)
      → IsLive q.publisher
      → let (d, r) = tq.move_to_dead_letter q.delegate id reason st.now in
        Agrees d r (move_to_dead_letter tq find answer q id reason st)
  unfolding move_to_dead_letter publish_task_dead_letter
  dead_letter-Agrees q id reason st live =
      elim (Reply-cases (tq.move_to_dead_letter q.delegate id reason st.now).1) [
        | inl (tt, e) ↦ elim (Option-cases (find q.delegate id)) [
          | inl missing ↦ rw (e, missing, move_to_dead_letter) (refl, refl, live)
          | inr (t, found) ↦
              rw (e, found, move_to_dead_letter)
                (after_publish-Agrees answer _ _ q.publisher _ live)
        ]
        | inr (inl (msg, e)) ↦ rw (e, move_to_dead_letter) (refl, refl, live)
        | inr (inr e) ↦ rw (e, move_to_dead_letter) (refl, refl, live)
      ]

  pub call-Agrees :
      (q : MessagingTaskQueue D) (op : Op) (st : Stamp)
      → IsLive q.publisher
      → let (d, r) = Queue.call tq q.delegate op st.now in Agrees d r (call tq find answer q op st)
  call-Agrees q (enqueues t) st live =
      let (same, reply, live') = enqueue-Agrees q t st live in
      (same, ap (λ x. then_reply x (λ _. nothing)) reply, live')
  call-Agrees q (dequeues worker req) st live =
      let (same, reply, live') = dequeue-Agrees q worker req st live in
      (same, ap (λ x. then_reply x task) reply, live')
  call-Agrees q (peeks n) st live = (refl, refl, live)
  call-Agrees q (requeues id delay) st live =
      let (same, reply, live') = requeue-Agrees q id delay st live in
      (same, ap (λ x. then_reply x (λ _. nothing)) reply, live')
  call-Agrees q (buries id reason) st live =
      let (same, reply, live') = dead_letter-Agrees q id reason st live in
      (same, ap (λ x. then_reply x (λ _. nothing)) reply, live')
  call-Agrees q counts_pending st live = (refl, refl, live)
  call-Agrees q counts_running st live = (refl, refl, live)
  call-Agrees q counts_depth st live = (refl, refl, live)

  -- A MessagingTaskQueue refines its delegate: while its publisher is not stopped, no sequence of
  -- calls tells it from the delegate. The replies are those of the delegate, and so is the state
  -- behind them, whatever the publisher's configuration and the answers of the EventPublisher.
  pub run_refines :
      (q : MessagingTaskQueue D) (calls : List (Op × Stamp))
      → IsLive q.publisher
      → let (q', replies) = run tq find answer q calls in
        (q'.delegate, replies) ≡ Queue.run tq q.delegate (on_delegate calls)
  unfolding run Queue.run
  run_refines q [] live = refl
  run_refines q ((op, st) ∷ calls) live =
      let (same, reply, live') = call-Agrees q op st live in
      let rest = run_refines (call tq find answer q op st).0 calls live' in
      ground (arith, same, reply, rest)
