-- ===== src/Messaging/Notices.antt =====
-- Events of a publisher as notices, counted with the ones it still holds (messaging_adapter.go).
use background_tasks.Base.{
  ℕ, ◌+◌, ◌≡◌, refl, sym, ◌∙◌, ◌⊎◌, inl, inr, Bool, ◌&&◌, Option, some, List, [], ◌∷◌, ◌++◌, subst,
  String, arith, if◌then◌else◌,
}
use background_tasks.Events.{BackgroundTaskEvent, TaskEventType}
use background_tasks.Events.Publisher.{TaskEventPublisher, Outcome, publish, do_publish}
use background_tasks.Events.Publisher.Runs.{held, count_of, publish_kept}
use background_tasks.Messaging.{after_publish}
use background_tasks.Messaging.Refines.{IsLive}

-- The kind of an event and the id of its task.
abbrev pub Notice : Type 0
Notice = TaskEventType × String

abbrev pub notice : BackgroundTaskEvent → Notice
notice e = (e.event_type, e.task_id)

pub count_notices : (Notice → Bool) → List Notice → ℕ
count_notices f [] = 0
count_notices f (n ∷ ns) = (if f n then 1 else 0) + count_notices f ns

pub count_notices-append :
    (f : Notice → Bool) (xs ys : List Notice)
    → count_notices f (xs ++ ys) ≡ count_notices f xs + count_notices f ys
unfolding count_notices
count_notices-append f [] ys = omega arith
count_notices-append f (x ∷ xs) ys = omega (arith, count_notices-append f xs ys)

-- The notices that a publisher has taken on.
abbrev pub taken_on : (Notice → Bool) → TaskEventPublisher → ℕ
taken_on f p = held (λ e. f (notice e)) p

abbrev pub is_on : TaskEventPublisher → Bool
is_on p = p.enabled && p.has_publisher

-- From `p` to `p'` the notices `ns` were taken on, if publishing is on.
pub record Took (f : Notice → Bool) (p p' : TaskEventPublisher) (ns : List Notice) : Type 0 where
  pub live : IsLive p'
  pub same : is_on p' ≡ is_on p
  pub taken : taken_on f p' ≡ taken_on f p + (if is_on p then count_notices f ns else 0)

pub publish_settles :
    (answer : BackgroundTaskEvent → Option String) (p : TaskEventPublisher)
    (e : Option BackgroundTaskEvent)
    → IsLive p
    → (err : Option String) × (publish answer p e ≡ ((publish answer p e).0, Outcome.done err))
unfolding publish do_publish
publish_settles answer p e live = elim (outcome (publish answer p e).1) [
  | inl (err, h) ↦ (err, ground arith)
  | inr h ↦ ground arith
]
  where
    outcome :
        (o : Outcome) → ((err : Option String) × (o ≡ Outcome.done err)) ⊎ (o ≡ Outcome.panicked)
    outcome (Outcome.done err) = inl (err, refl)
    outcome Outcome.panicked = inr refl

taken_by_publish :
    (answer : BackgroundTaskEvent → Option String) (f : Notice → Bool) (p : TaskEventPublisher)
    (e : BackgroundTaskEvent)
    → IsLive p
    → taken_on f (publish answer p (some e)).0
      ≡ taken_on f p + (if is_on p then (if f (notice e) then 1 else 0) + 0 else 0)
unfolding count_of
taken_by_publish answer f p e live =
    let (err, h) = publish_settles answer p (some e) live in
    let kept =
      publish_kept answer (λ x. f (notice x)) p (publish answer p (some e)).0 (some e) err h in
    kept ∙ ground arith

pub publish-Took :
    (answer : BackgroundTaskEvent → Option String) (f : Notice → Bool) (p : TaskEventPublisher)
    (e : BackgroundTaskEvent)
    → IsLive p
    → Took f p (publish answer p (some e)).0 (notice e ∷ [])
unfolding publish do_publish count_notices count_of
publish-Took answer f p e live = record {
  live = ground arith;
  same = ground arith;
  taken = taken_by_publish answer f p e live;
}

pub after_publish-Took :
    {D A : Type 0} (answer : BackgroundTaskEvent → Option String) (f : Notice → Bool) (d : D)
    (a : A) (p : TaskEventPublisher) (e : BackgroundTaskEvent)
    → IsLive p
    → Took f p (after_publish d a (publish answer p (some e))).0.publisher (notice e ∷ [])
after_publish-Took answer f d a p e live =
    subst (λ p'. Took f p p' (notice e ∷ [])) (sym (kept d a (publish answer p (some e))))
      (publish-Took answer f p e live)
  where
    kept :
        {D A : Type 0} (d : D) (a : A) (out : TaskEventPublisher × Outcome)
        → (after_publish d a out).0.publisher ≡ out.0
    kept d a (p, Outcome.panicked) = refl
    kept d a (p, Outcome.done err) = refl

pub Took-nothing : (f : Notice → Bool) (p : TaskEventPublisher) → IsLive p → Took f p p []
unfolding count_notices
Took-nothing f p live = record { live = live; same = refl; taken = ground arith }

add_taken :
    (on on' : Bool) (before after last first later all : ℕ)
    → on' ≡ on
    → after ≡ before + (if on then first else 0)
    → last ≡ after + (if on' then later else 0)
    → all ≡ first + later
    → last ≡ before + (if on then all else 0)
add_taken on on' before after last first later all same taken moved split = ground arith

pub Took-trans :
    {f : Notice → Bool} {p q r : TaskEventPublisher} {ns ms : List Notice}
    → Took f p q ns
    → Took f q r ms
    → Took f p r (ns ++ ms)
Took-trans a b = record {
  live = b.live;
  same = b.same ∙ a.same;
  taken = add_taken _ _ _ _ _ _ _ _ a.same a.taken b.taken (count_notices-append _ _ _);
}
