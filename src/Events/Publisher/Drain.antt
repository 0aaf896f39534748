-- ===== src/Events/Publisher/Drain.antt =====
-- Stop empties the channel, and what a publisher does after it (events.go).
use background_tasks.Base.{
  ◌≡◌, refl, inl, inr, Bool, true, false, Option, none, some, List, [], ◌∷◌, ◌++◌, String, arith,
}
use background_tasks.Events.{BackgroundTaskEvent}
use background_tasks.Events.Publisher.Runs.{
  Run, looped, count_of, count_waiting, held, in_hand-cases, Run-kept, Run-Drained,
}
use background_tasks.Events.Publisher.{
  TaskEventPublisher, absent, receiving, returned, handing, as_list, stop, loop_step, is_absent,
}

-- The goroutine leads from `p` to `q`, with no call in between.
pub data GoesOn : TaskEventPublisher → TaskEventPublisher → Type 0 where
  ends : {p : TaskEventPublisher} → GoesOn p p
  goes : {p q r : TaskEventPublisher} → loop_step p ≡ some q → GoesOn q r → GoesOn p r

-- The goroutine can go on until it returns.
abbrev CanEnd : TaskEventPublisher → Type 0
CanEnd p = (q : TaskEventPublisher) × GoesOn p q × (q.loop ≡ returned)

module _ (answer : BackgroundTaskEvent → Option String) where
  step_end :
      (p : TaskEventPublisher)
      → p.loop ≡ receiving
      → p.buffer ≡ []
      → p.stopped ≡ true
      → loop_step p ≡ some (record p { loop = returned })
  unfolding loop_step
  step_end p l b s = ground arith

  step_receive :
      (p : TaskEventPublisher) (e : Option BackgroundTaskEvent)
      (rest : List (Option BackgroundTaskEvent))
      → p.loop ≡ receiving
      → p.buffer ≡ e ∷ rest
      → loop_step p ≡ some (record p { loop = handing e; buffer = rest })
  unfolding loop_step
  step_receive p e rest l b = ground arith

  step_hand :
      (p : TaskEventPublisher) (e : Option BackgroundTaskEvent)
      → p.loop ≡ handing e
      → loop_step p ≡ some (record p { loop = receiving; calls = p.calls ++ as_list e })
  unfolding loop_step
  step_hand p e l = ground arith

  drain :
      (waiting : List (Option BackgroundTaskEvent)) (p : TaskEventPublisher)
      → p.loop ≡ receiving
      → p.buffer ≡ waiting
      → p.stopped ≡ true
      → CanEnd p
  drain [] p l b s = (record p { loop = returned }, goes (step_end p l b s) ends, refl)
  drain (e ∷ rest) p l b s =
      let p₁ : TaskEventPublisher = record p { loop = handing e; buffer = rest } in
      let p₂ : TaskEventPublisher = record p₁ { loop = receiving; calls = p₁.calls ++ as_list e } in
      let (q, on, end) = drain rest p₂ refl refl s in
      (q, goes (step_receive p e rest l b) (goes (step_hand p₁ e refl) on), end)

  can_end :
      {es : List BackgroundTaskEvent} {p : TaskEventPublisher}
      → Run answer es p
      → p.stopped ≡ true
      → is_absent p.loop ≡ false
      → CanEnd p
  can_end {es} {p} r s on = elim (in_hand-cases p.loop) [
    | inl (e, at) ↦
        let (q, onward, end) =
          drain p.buffer (record p { loop = receiving; calls = p.calls ++ as_list e }) refl refl
            s in
        (q, goes (step_hand p e at) onward, end)
    | inr (inl missing) ↦ ground arith
    | inr (inr (inl at)) ↦ drain p.buffer p at refl s
    | inr (inr (inr at)) ↦ (p, ends, at)
  ]

  -- No call comes in between.
  GoesOn-Run :
      {es : List BackgroundTaskEvent} {p q : TaskEventPublisher}
      → GoesOn p q
      → Run answer es p
      → Run answer es q
  GoesOn-Run ends r = r
  GoesOn-Run (goes step on) r = GoesOn-Run on (looped r step)

  all_handed :
      {es : List BackgroundTaskEvent} {q : TaskEventPublisher}
      → Run answer es q
      → q.loop ≡ returned
      → (f : BackgroundTaskEvent → Bool) → count_of f es ≡ count_of f q.calls
  unfolding count_waiting
  all_handed {es} {q} run end f =
      let empty : q.buffer ≡ [] = (Run-Drained answer run end).0 in
      let kept : count_of f es ≡ held f q = Run-kept answer run f in
      ground (arith, kept, empty, end)

  -- After Stop the goroutine, if it was started, goes on from there by its own steps alone to its end,
  -- and there each event that Publish has taken on has been handed to the EventPublisher once.
  pub stop_drains :
      {es : List BackgroundTaskEvent} {p : TaskEventPublisher}
      → Run answer es p
      → p.stopped ≡ true
      → is_absent p.loop ≡ false
      → (q : TaskEventPublisher) × GoesOn p q
        × (q.loop ≡ returned)
        × ((f : BackgroundTaskEvent → Bool) → count_of f es ≡ count_of f q.calls)
  stop_drains {es} {p} r s on =
      let (q, onward, end) = can_end r s on in
      (q, onward, end, λ f. all_handed (GoesOn-Run onward r) end f)

-- Without Start nothing empties the channel: the events in it are never handed over, also when the
-- publisher is stopped.
pub unstarted_keeps :
    (p : TaskEventPublisher)
    → p.loop ≡ absent
    → (loop_step p ≡ none) × (loop_step (stop p).0 ≡ none)
unfolding loop_step stop
unstarted_keeps p h = ground arith
