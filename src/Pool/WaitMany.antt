-- ===== src/Pool/WaitMany.antt =====
-- WaitForMultiple (worker_pool.go): a goroutine for each id waits for its task, and the results are
-- put into a map in the order in which they arrive.
pub mod Laws
use background_tasks.Base.{
  ℕ, get_elem?, ◌≡◌, Option, none, some, List, [], ◌∷◌, String, Duration, insert,
}
use background_tasks.Task.{BackgroundTask}
use background_tasks.Pool.Wait.{WaitError, OutputOutcome, out_waiting, out_panicked, out_returned}

pub record WaitResult : Type 0 where
  pub task : Option BackgroundTask
  pub output : Option (List ℕ)
  pub duration : Duration
  pub error : Option WaitError

-- What a goroutine sends once WaitForCompletionWithOutput has returned, `duration` after its start.
unfoldable pub sent : Duration → OutputOutcome → Option WaitResult
sent duration (out_returned task output error) =
    some (record { task = task; output = output; duration = duration; error = error })
sent duration out_waiting = none
sent duration out_panicked = none

abbrev pub Arrivals : Type 0
Arrivals = List (String × WaitResult)

module _ (ids : List String) (waits : ℕ → Duration × OutputOutcome) where
  -- The message of the goroutine of the id at position `i`, whose wait takes and ends as `waits i` says.
  unfoldable pub message_of : ℕ → Option (String × WaitResult)
  message_of i = elim (get_elem? ids i) [
    | none ↦ none
    | some id ↦ elim (sent (waits i).0 (waits i).1) [ none ↦ none | some r ↦ some (id, r) ]
  ]

  -- The messages on the channel, which has room for all of them, if the goroutines come to send in
  -- this order.
  unfoldable pub sent_messages : List ℕ → Arrivals
  sent_messages [] = []
  sent_messages (i ∷ order) =
      let later = sent_messages order in elim (message_of i) [ none ↦ later | some m ↦ m ∷ later ]

-- The loop that receives one message for each id; `none` if it waits for ever.
unfoldable pub receive : List String → Arrivals → Arrivals → Option Arrivals
receive [] channel results = some results
receive (_ ∷ ids) [] results = none
receive (_ ∷ ids) ((id, r) ∷ channel) results = receive ids channel (insert id r results)

-- The map that is returned, if the goroutines come to send in the order `order`.
unfoldable pub wait_for_multiple :
    List String → (ℕ → Duration × OutputOutcome) → List ℕ → Option Arrivals
wait_for_multiple ids waits order = receive ids (sent_messages ids waits order) []
