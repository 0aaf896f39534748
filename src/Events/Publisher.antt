-- ===== src/Events/Publisher.antt =====
-- TaskEventPublisher (events.go): Publish with its bounded channel, the goroutine that empties it,
-- and Stop. `answer` is what the EventPublisher behind it returns for an event; `calls` are the
-- events that it was called with, in order. A nil event is `none`.
pub mod Runs
pub mod Drain
use background_tasks.Base.{
  ℕ, zero, ◌≡◌, ℤ, pos, negsuc, pos_part, ltb_ℤ, Bool, true, false, not, ◌&&◌, ◌||◌, Option, none,
  some, List, [], ◌∷◌, ◌++◌, String, length, ltb, if◌then◌else◌,
}
use background_tasks.Events.{BackgroundTaskEvent}

pub record TaskEventPublisherConfig : Type 0 where
  pub enabled : Bool
  pub async_publish : Bool
  pub buffer_size : ℤ

abbrev pub default_task_event_publisher_config : TaskEventPublisherConfig
default_task_event_publisher_config = record {
  enabled = true;
  async_publish = true;
  buffer_size = pos 1000;
}

-- The goroutine of Start: not there, at its select or range, between a receive and the call of
-- doPublish, and returned.
pub data Loop : Type 0 where
  absent receiving returned : Loop
  handing : Option BackgroundTaskEvent → Loop

-- `capacity` is `none` where publishCh is nil. `stopped`: stopCh and publishCh are closed.
pub record TaskEventPublisher : Type 0 where
  pub has_publisher : Bool
  pub enabled : Bool
  pub async_publish : Bool
  pub capacity : Option ℕ
  pub buffer : List (Option BackgroundTaskEvent)
  pub stopped : Bool
  pub loop : Loop
  pub calls : List BackgroundTaskEvent

-- What a call comes to: it panics, or returns an error or nil.
pub data Outcome : Type 0 where
  panicked : Outcome
  done : Option String → Outcome

abbrev or_default : Option TaskEventPublisherConfig → TaskEventPublisherConfig
or_default none = default_task_event_publisher_config
or_default (some c) = c

abbrev pub new_task_event_publisher : Bool → Option TaskEventPublisherConfig → TaskEventPublisher
new_task_event_publisher has_publisher config =
    let c = or_default config in
    record {
      has_publisher = has_publisher;
      enabled = c.enabled;
      async_publish = c.async_publish;
      capacity =
          if c.async_publish && ltb_ℤ (pos 0) c.buffer_size
          then some (pos_part c.buffer_size)
          else none;
      buffer = [];
      stopped = false;
      loop = absent;
      calls = [];
    }

abbrev pub as_list : Option BackgroundTaskEvent → List BackgroundTaskEvent
as_list none = []
as_list (some e) = e ∷ []

module _ (answer : BackgroundTaskEvent → Option String) where
  abbrev pub answer_to : Option BackgroundTaskEvent → Option String
  answer_to none = none
  answer_to (some e) = answer e

  unfoldable pub do_publish :
      TaskEventPublisher → Option BackgroundTaskEvent → TaskEventPublisher × Outcome
  do_publish p e = (record p { calls = p.calls ++ as_list e }, done (answer_to e))

  -- The send of the select panics on a closed channel, and goes to `default` on a full one.
  unfoldable pub publish :
      TaskEventPublisher → Option BackgroundTaskEvent → TaskEventPublisher × Outcome
  publish p e =
      if not p.enabled || not p.has_publisher
      then (p, done none)
      else if not p.async_publish
      then do_publish p e
      else elim p.capacity [
        | none ↦ do_publish p e
        | some n ↦
            if p.stopped
            then (p, panicked)
            else if ltb (length p.buffer) n
            then (record p { buffer = p.buffer ++ e ∷ [] }, done none)
            else do_publish p e
      ]

-- Start is called once at most, as its goroutine is the only one.
abbrev pub is_absent : Loop → Bool
is_absent absent = true
is_absent _ = false

unfoldable pub start : TaskEventPublisher → TaskEventPublisher
start p =
    if not p.async_publish
    then p
    else elim p.capacity [ none ↦ p | some n ↦ record p { loop = receiving } ]

-- Stop up to its wait for the goroutine; a second close of stopCh panics.
unfoldable pub stop : TaskEventPublisher → TaskEventPublisher × Outcome
stop p = if p.stopped then (p, panicked) else (record p { stopped = true }, done none)

unfoldable pub set_enabled : TaskEventPublisher → Bool → TaskEventPublisher
set_enabled p b = record p { enabled = b }

-- The next move of asyncPublishLoop, where it can make one. Before and after Stop it receives from
-- the same channel, and it returns when that is closed and empty.
unfoldable pub loop_step : TaskEventPublisher → Option TaskEventPublisher
loop_step p = elim p.loop [
  | absent ↦ none
  | returned ↦ none
  | handing e ↦ some (record p { loop = receiving; calls = p.calls ++ as_list e })
  | receiving ↦ elim p.buffer [
    | [] ↦ if p.stopped then some (record p { loop = returned }) else none
    | e ∷ rest ↦ some (record p { loop = handing e; buffer = rest })
  ]
]
