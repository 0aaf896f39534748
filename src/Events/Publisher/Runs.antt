-- ===== src/Events/Publisher/Runs.antt =====
-- No event is lost or doubled between Publish and the EventPublisher (events.go).
use background_tasks.Base.{
  ℕ, suc, ◌+◌, ◌≡◌, refl, sym, ◌∙◌, ◌⊎◌, inl, inr, Bool, true, false, ◌&&◌, Option, none, some,
  List, [], ◌∷◌, ◌++◌, String, arith, if◌then◌else◌,
}
use background_tasks.Events.{BackgroundTaskEvent}
use background_tasks.Events.Publisher.{
  TaskEventPublisher, TaskEventPublisherConfig, Loop, absent, receiving, returned, handing, done,
  new_task_event_publisher, as_list, do_publish, publish, start, stop, set_enabled, loop_step,
  is_absent,
}

module _ (answer : BackgroundTaskEvent → Option String) where
  -- The events that Publish takes on: none while publishing is off or without a publisher.
  abbrev pub accepted : TaskEventPublisher → Option BackgroundTaskEvent → List BackgroundTaskEvent
  accepted p e = if p.enabled && p.has_publisher then as_list e else []

  -- What can happen to a publisher; the list holds the events taken on so far, in order.
  pub data Run : List BackgroundTaskEvent → TaskEventPublisher → Type 0 where
    created :
        (has : Bool) (c : Option TaskEventPublisherConfig) → Run [] (new_task_event_publisher has c)
    published :
        {es : List BackgroundTaskEvent} {p q : TaskEventPublisher} {err : Option String}
        → Run es p
        → (e : Option BackgroundTaskEvent) → publish answer p e ≡ (q, done err)
        → Run (es ++ accepted p e) q
    started :
        {es : List BackgroundTaskEvent} {p : TaskEventPublisher}
        → Run es p
        → is_absent p.loop ≡ true
        → Run es (start p)
    stopped :
        {es : List BackgroundTaskEvent} {p q : TaskEventPublisher}
        → Run es p
        → stop p ≡ (q, done none)
        → Run es q
    switched :
        {es : List BackgroundTaskEvent} {p : TaskEventPublisher}
        → Run es p
        → (b : Bool) → Run es (set_enabled p b)
    looped :
        {es : List BackgroundTaskEvent} {p q : TaskEventPublisher}
        → Run es p
        → loop_step p ≡ some q
        → Run es q

-- How many events of a list satisfy `f`.
unfoldable pub count_of : (BackgroundTaskEvent → Bool) → List BackgroundTaskEvent → ℕ
count_of f [] = 0
count_of f (e ∷ es) = let n = count_of f es in if f e then suc n else n

unfoldable pub count_waiting : (BackgroundTaskEvent → Bool) → List (Option BackgroundTaskEvent) → ℕ
count_waiting f [] = 0
count_waiting f (e ∷ es) = count_of f (as_list e) + count_waiting f es

abbrev pub in_hand : (BackgroundTaskEvent → Bool) → Loop → ℕ
in_hand f (handing e) = count_of f (as_list e)
in_hand f _ = 0

count_of-append :
    (f : BackgroundTaskEvent → Bool) (xs ys : List BackgroundTaskEvent)
    → count_of f (xs ++ ys) ≡ count_of f xs + count_of f ys
unfolding count_of
count_of-append f [] ys = omega arith
count_of-append f (x ∷ xs) ys = ground (arith, count_of-append f xs ys)

count_waiting-append :
    (f : BackgroundTaskEvent → Bool) (xs : List (Option BackgroundTaskEvent))
    (e : Option BackgroundTaskEvent)
    → count_waiting f (xs ++ e ∷ []) ≡ count_waiting f xs + count_of f (as_list e)
unfolding count_waiting
count_waiting-append f [] e = omega arith
count_waiting-append f (x ∷ xs) e = omega (arith, count_waiting-append f xs e)

-- Events handed over, in the hands of the goroutine, and in the channel.
abbrev pub held : (BackgroundTaskEvent → Bool) → TaskEventPublisher → ℕ
held f p = count_of f p.calls + in_hand f p.loop + count_waiting f p.buffer

pub in_hand-cases :
    (l : Loop)
    → ((e : Option BackgroundTaskEvent) × (l ≡ handing e))
      ⊎ ((l ≡ absent) ⊎ ((l ≡ receiving) ⊎ (l ≡ returned)))
in_hand-cases absent = inr (inl refl)
in_hand-cases receiving = inr (inr (inl refl))
in_hand-cases returned = inr (inr (inr refl))
in_hand-cases (handing e) = inl (e, refl)

-- The channel is closed and empty once the goroutine has returned.
abbrev pub Drained : TaskEventPublisher → Type 0
Drained p = p.loop ≡ returned → (p.buffer ≡ []) × (p.stopped ≡ true)

module _ (answer : BackgroundTaskEvent → Option String) where
  -- A call that returns did nothing, handed the event over, or put it into the channel.
  pub publish_cases :
      (p q : TaskEventPublisher) (e : Option BackgroundTaskEvent) (err : Option String)
      → publish answer p e ≡ (q, done err)
      → ((p.enabled && p.has_publisher ≡ false) × (q ≡ p))
        ⊎ (((p.enabled && p.has_publisher ≡ true) × (q ≡ record p { calls = p.calls ++ as_list e }))
            ⊎ ((p.enabled && p.has_publisher ≡ true)
                × (p.stopped ≡ false)
                × (q ≡ record p { buffer = p.buffer ++ e ∷ [] })))
  unfolding publish do_publish
  publish_cases p q e err h = ground arith

  pub publish_kept :
      (f : BackgroundTaskEvent → Bool) (p q : TaskEventPublisher) (e : Option BackgroundTaskEvent)
      (err : Option String)
      → publish answer p e ≡ (q, done err)
      → held f q ≡ held f p + count_of f (accepted answer p e)
  unfolding count_of
  publish_kept f p q e err h = elim (publish_cases p q e err h) [
    | inl (off, same) ↦ rw (same, off) omega arith
    | inr (inl (on, same)) ↦ rw (same, on) (omega (arith, count_of-append f p.calls (as_list e)))
    | inr (inr (on, still, same)) ↦ rw (same, on) (omega (arith, count_waiting-append f p.buffer e))
  ]

  start_kept :
      (f : BackgroundTaskEvent → Bool) (p : TaskEventPublisher)
      → is_absent p.loop ≡ true
      → held f (start p) ≡ held f p
  unfolding start
  start_kept f p h = ground arith

  stop_kept :
      (f : BackgroundTaskEvent → Bool) (p q : TaskEventPublisher)
      → stop p ≡ (q, done none)
      → held f q ≡ held f p
  unfolding stop
  stop_kept f p q h = ground arith

  loop_kept :
      (f : BackgroundTaskEvent → Bool) (p q : TaskEventPublisher)
      → loop_step p ≡ some q
      → held f q ≡ held f p
  unfolding loop_step count_waiting
  loop_kept f p q h = elim (in_hand-cases p.loop) [
    | inl (e, at) ↦ ground (arith, at, count_of-append f p.calls (as_list e))
    | inr none_in_hand ↦ ground arith
  ]

  -- Whatever the calls and the goroutine do in between, each event that Publish has taken on is in
  -- one place once: handed to the EventPublisher, in the hands of the goroutine, or in the channel.
  pub Run-kept :
      {es : List BackgroundTaskEvent} {p : TaskEventPublisher}
      → Run answer es p
      → (f : BackgroundTaskEvent → Bool) → count_of f es ≡ held f p
  unfolding set_enabled count_of count_waiting
  Run-kept (created has c) f = refl
  Run-kept (published {es} {p} {q} {err} r e h) f =
      count_of-append f es (accepted answer p e)
      ∙ omega (arith, Run-kept r f, publish_kept f p q e err h)
  Run-kept (started {es} {p} r h) f = Run-kept r f ∙ sym (start_kept f p h)
  Run-kept (stopped {es} {p} {q} r h) f = Run-kept r f ∙ sym (stop_kept f p q h)
  Run-kept (switched r b) f = Run-kept r f
  Run-kept (looped {es} {p} {q} r h) f = Run-kept r f ∙ sym (loop_kept f p q h)

  pub Run-Drained :
      {es : List BackgroundTaskEvent} {p : TaskEventPublisher} → Run answer es p → Drained p
  unfolding publish do_publish start stop set_enabled loop_step
  Run-Drained (created has c) = λ h. ground arith
  Run-Drained (published {es} {p} {q} {err} r e h) = let i = Run-Drained r in ground arith
  Run-Drained (started {es} {p} r h) = let i = Run-Drained r in ground arith
  Run-Drained (stopped {es} {p} {q} r h) = let i = Run-Drained r in ground arith
  Run-Drained (switched r b) = Run-Drained r
  Run-Drained (looped {es} {p} {q} r h) = let i = Run-Drained r in ground arith
