-- ===== src/Messaging/Executor/Laws.antt =====
-- What the wrapper of an executor adds to it (messaging_adapter.go): the publisher hears of the
-- progress and the end of the task.
use background_tasks.Base.{
  suc, ◌+◌, if◌then◌else◌, ◌≡◌, refl, sym, ◌∙◌, Bool, true, Option, none, some, List, [], ◌∷◌, ◌++◌,
  String, Option-cases, subst, ap, inl, inr,
}
use background_tasks.Task.{BackgroundTask, TaskStatus, Float64}
use background_tasks.Queue.{Reply, returned}
use background_tasks.Report.{
  Report, progress, heartbeat, checkpoint, metrics, log, Program, finish, look, edit, report,
  Reporter, execute, execute-report,
}
use background_tasks.Events.{BackgroundTaskEvent, TaskEventType, new_background_task_event}
use background_tasks.Events
use background_tasks.Events.Publisher.{TaskEventPublisher, publish}
use background_tasks.Events.Messages.{
  publish_task_progress, publish_task_completed, publish_task_failed,
}
use background_tasks.Messaging.Refines.{IsLive}
use background_tasks.Messaging.Notices.{
  Notice, notice, Took, count_notices, taken_on, is_on, publish_settles, publish-Took, Took-nothing,
  Took-trans,
}
use background_tasks.Messaging.Executor.{
  Messaging, Stamps, reply_of, report_progress, messaging_reporter, conclude, wrapped_execute,
  after_execute,
}

-- What a report writes into the task on its way to the delegate.
abbrev pub task_written : Report → BackgroundTask → BackgroundTask
task_written (progress percent message) t = record t {
  progress = percent;
  progress_message = some message;
}
task_written _ t = t

module _ {S : Type 0} (delegate : S → Report → S × Option String) where
  -- The delegate reporter without the wrapper, with the progress that is reported written into the
  -- task.
  abbrev pub alone : Reporter S
  alone s t r = let (s', err) = delegate s r in (s', task_written r t, returned err)

  abbrev pub accepted : BackgroundTask → Report → Option String → List Notice
  accepted t (progress percent message) none = (Events.progress, t.id) ∷ []
  accepted t _ _ = []

  -- One notice for a progress report that the delegate accepts, and one for the end, each with the id
  -- that the task has then.
  unfoldable pub news : Program → S → BackgroundTask → List Notice
  news (finish none) s t = (Events.completed, t.id) ∷ []
  news (finish (some msg)) s t = (Events.failed, t.id) ∷ []
  news (look k) s t = news (k t) s t
  news (edit f p) s t = news p s (f t)
  news (report r k) s t =
      let (s', err) = delegate s r in accepted t r err ++ news (k err) s' (task_written r t)

-- The task behind Execute, if the executor has left it as `t` and returned `err`.
abbrev pub concluded : Float64 → BackgroundTask → Option String → BackgroundTask
concluded hundred t none = record t { status = TaskStatus.completed; progress = hundred }
concluded hundred t (some msg) = record t { status = TaskStatus.failed; last_error = some msg }

abbrev pub concluded_by : Float64 → BackgroundTask → Reply (Option String) → BackgroundTask
concluded_by hundred t (returned err) = concluded hundred t err
concluded_by hundred t _ = t

module _ {S : Type 0} (delegate : S → Report → S × Option String)
    (answer : BackgroundTaskEvent → Option String) (stamps : Stamps) (hundred : Float64)
    (f : Notice → Bool) where
  -- A run that began with the publisher `p` took on the notices `ns` and ended in the state and the
  -- reply of `ref`, which is its counterpart without the wrapper.
  record Follows (p : TaskEventPublisher) (ns : List Notice) (ref : S × Reply (Option String))
      (s' : Messaging S) (reply : Reply (Option String)) : Type 0 where
    same : s'.inner ≡ ref.0
    replied : reply ≡ ref.1
    took : Took f p s'.publisher ns

  publish-Follows :
      (s : Messaging S) (e : BackgroundTaskEvent) (err : Option String)
      → IsLive s.publisher
      → let out = publish answer s.publisher (some e) in
        Follows s.publisher
          (notice e ∷ [])
          (s.inner, returned err)
          (record s { publisher = out.0; made = suc s.made })
          (reply_of out.1 err)
  publish-Follows s e err live = record {
    same = refl;
    replied = let (msg, h) = publish_settles answer s.publisher (some e) live in rw h refl;
    took = publish-Took answer f s.publisher e live;
  }

  conclude-Follows :
      (s : Messaging S) (t : BackgroundTask) (err : Option String)
      → IsLive s.publisher
      → let (s', t', reply) = conclude delegate answer stamps hundred s t err in
        Follows s.publisher (news delegate (finish err) s.inner t) (s.inner, returned err) s' reply
        × (t' ≡ concluded hundred t err)
  unfolding conclude news publish_task_completed publish_task_failed new_background_task_event
  conclude-Follows s t none live = (publish-Follows s _ none live, refl)
  conclude-Follows s t (some msg) live = (publish-Follows s _ (some msg) live, refl)

  unchanged :
      (s : Messaging S) (reply : Reply (Option String))
      → IsLive s.publisher
      → Follows s.publisher [] (s.inner, reply) s reply
  unchanged s reply live = record {
    same = refl;
    replied = refl;
    took = Took-nothing f s.publisher live;
  }

  -- One report through the wrapper.
  report-Follows :
      (s : Messaging S) (t : BackgroundTask) (r : Report)
      → IsLive s.publisher
      → let (inner, err) = delegate s.inner r in
        let (s', t', reply) = messaging_reporter delegate answer stamps hundred s t r in
        Follows s.publisher (accepted delegate t r err) (inner, returned err) s' reply
        × (t' ≡ task_written r t)
  unfolding messaging_reporter report_progress publish_task_progress new_background_task_event
  report-Follows s t (progress percent message) live =
      elim (Option-cases (delegate s.inner (progress percent message)).1) [
        | inl e ↦ rw (e, messaging_reporter, report_progress) (publish-Follows _ _ none live, refl)
        | inr (msg, e) ↦ rw (e, messaging_reporter, report_progress) (unchanged _ _ live, refl)
      ]
  report-Follows s t heartbeat live = (unchanged _ _ live, refl)
  report-Follows s t (checkpoint d) live = (unchanged _ _ live, refl)
  report-Follows s t (metrics d) live = (unchanged _ _ live, refl)
  report-Follows s t (log level message fields) live = (unchanged _ _ live, refl)

  Follows-then :
      {p : TaskEventPublisher} {ns ms : List Notice} {ref ref' : S × Reply (Option String)}
      {s s' : Messaging S} {reply reply' : Reply (Option String)}
      → Follows p ns ref s reply
      → Follows s.publisher ms ref' s' reply'
      → Follows p (ns ++ ms) ref' s' reply'
  Follows-then a b = record { same = b.same; replied = b.replied; took = Took-trans a.took b.took }

  -- The run `w` with the wrapper, against the run of the program without it.
  abbrev Matches :
      TaskEventPublisher
      → Program
      → S
      → BackgroundTask
      → Messaging S × BackgroundTask × Reply (Option String)
      → Type 0
  Matches p program inner t w =
      let (inner', t', reply) = execute (alone delegate) program inner t in
      Follows p (news delegate program inner t) (inner', reply) w.0 w.2
      × (w.1 ≡ concluded_by hundred t' reply)

  wrapped_execute-Matches :
      (program : Program) (s : Messaging S) (t : BackgroundTask)
      → IsLive s.publisher
      → Matches s.publisher program s.inner t
          (wrapped_execute delegate answer stamps hundred program s t)
  unfolding wrapped_execute execute news
  wrapped_execute-Matches (finish err) s t live = conclude-Follows s t err live
  wrapped_execute-Matches (look k) s t live = wrapped_execute-Matches (k t) s t live
  wrapped_execute-Matches (edit g p) s t live = wrapped_execute-Matches p s (g t) live
  wrapped_execute-Matches (report r k) s t live =
      let err = (delegate s.inner r).1 in
      let (s', t', reply) = messaging_reporter delegate answer stamps hundred s t r in
      let (first, as_written) = report-Follows s t r live in
      let w = wrapped_execute delegate answer stamps hundred (k err) s' t' in
      let rest : Matches s'.publisher (k err) s'.inner t' w =
        wrapped_execute-Matches (k err) s' t' first.took.live in
      let moved : Matches s'.publisher (k err) (delegate s.inner r).0 (task_written r t) w =
        subst (λ u. Matches s'.publisher (k err) (delegate s.inner r).0 u w) as_written
          (subst (λ inner. Matches s'.publisher (k err) inner t' w) first.same rest) in
      let step = ap (after_execute delegate answer stamps hundred) (
        execute-report (messaging_reporter delegate answer stamps hundred) r k s s' t t' err
          (ap (λ x. (s', t', x)) first.replied)) in
      subst (λ v. Matches s.publisher (report r k) s.inner t v) (sym step)
        (Follows-then first moved.0, moved.1)

  -- With a publisher that has not been stopped and publishing on, one run of Execute has it take on
  -- one progress event for each progress report that the delegate accepts and one event for the
  -- end, completed without an error and failed with one, each with the id that the task has at that
  -- moment, and nothing else: so says the count of the notices for which `f` holds, for every `f`. The
  -- executor may look at its task and edit it as it likes.
  pub wrapped_execute_announces :
      (program : Program) (s : Messaging S) (t : BackgroundTask)
      → IsLive s.publisher
      → is_on s.publisher ≡ true
      → taken_on f (wrapped_execute delegate answer stamps hundred program s t).0.publisher
        ≡ taken_on f s.publisher + count_notices f (news delegate program s.inner t)
  wrapped_execute_announces program s t live on =
      let took = (wrapped_execute-Matches program s t live).0.took in
      let grown = count_notices f (news delegate program s.inner t) in
      took.taken ∙ ap (λ b. taken_on f s.publisher + (if b then grown else 0)) on

module _ {S : Type 0} (delegate : S → Report → S × Option String)
    (answer : BackgroundTaskEvent → Option String) (stamps : Stamps) (hundred : Float64) where
  -- With a publisher that has not been stopped, the wrapper adds to a run only writes into the
  -- task: of each progress that is reported, and of the end. Against the executor with the delegate
  -- reporter, where the progress that is reported is written into the task too, the delegate ends in
  -- the same state, the executor's error, or none, is returned as it is, and the task is as the executor
  -- left it but for the end: completed with full progress, or failed with the error.
  pub wrapped_execute_transparent :
      (program : Program) (s : Messaging S) (t : BackgroundTask)
      → IsLive s.publisher
      → let (inner, t0, reply) = execute (alone delegate) program s.inner t in
        let (s', t', reply') = wrapped_execute delegate answer stamps hundred program s t in
        (s'.inner ≡ inner) × (reply' ≡ reply) × (t' ≡ concluded_by hundred t0 reply)
  wrapped_execute_transparent program s t live =
      let (follows, ended) =
        wrapped_execute-Matches delegate answer stamps hundred (λ n. true) program s t live in
      (follows.same, follows.replied, ended)
