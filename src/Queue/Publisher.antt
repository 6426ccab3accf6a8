-- ===== src/Queue/Publisher.antt =====
-- common/queue/publisher.go: the goroutine of a publisher, an event at a time. `answered` is the result
-- of the library's call at hand, true where it is not an error; `takes` is the receive of a message
-- from `Publish`; `closes` is a call of `Close`, at any time; `sees_closed` is the receive from the
-- closed channel. An event that cannot happen changes nothing.
pub mod Once
use dice_server.Prelude.{
  ℕ, String, Bool, true, false, Option, none, some, List, [], ◌∷◌, ◌++◌, if◌then◌else◌,
}

pub record RawMessage : Type 0 where
  pub body : String
  pub content_type : String

-- Where the goroutine stands: before `QueueDeclare`, in the `select`, before `Publish`, returned.
pub data Phase : Type 0 where
  declaring waiting : Phase
  sending : RawMessage → Phase
  finished : Phase

-- `last_msg` is the variable of `loop` that `keepPublishing` gets a pointer to. `taken` are the messages
-- that `Publish` has handed over, `attempts` the calls of the library's `Publish` and their results.
pub record Publisher : Type 0 where
  pub phase : Phase
  pub closed : Bool
  pub last_msg : Option RawMessage
  pub taken : List RawMessage
  pub attempts : List (RawMessage × Bool)

pub data Event : Type 0 where
  answered : Bool → Event
  takes : RawMessage → Event
  closes sees_closed : Event

unfoldable pub new_publisher : Publisher
new_publisher = record {
  phase = declaring;
  closed = false;
  last_msg = none;
  taken = [];
  attempts = [];
}

-- The head of the loop in `keepPublishing`.
unfoldable pub next_message : Option RawMessage → Phase
next_message none = waiting
next_message (some msg) = sending msg

-- The `select` of `loop` behind an error.
unfoldable pub after_error : Publisher → Publisher
after_error p = record p { phase = if p.closed then finished else declaring }

-- The end of a round in `keepPublishing`. On an error it assigns `lastMsg = &msg`, its own parameter,
-- which is then lost: `last_msg` stays.
unfoldable pub after_publish : RawMessage → Bool → Publisher → Publisher
unfolding after_error next_message
after_publish msg true p = record p {
  phase = next_message p.last_msg;
  attempts = p.attempts ++ (msg, true) ∷ [];
}
after_publish msg false p = after_error (record p { attempts = p.attempts ++ (msg, false) ∷ [] })

-- `Close`.
unfoldable pub close : Publisher → Publisher
close p = record p { closed = true }

unfoldable pub step_in : Phase → Event → Publisher → Publisher
unfolding after_error after_publish next_message close
step_in phase closes p = close p
step_in declaring (answered true) p = record p { phase = next_message p.last_msg }
step_in declaring (answered false) p = after_error p
step_in waiting (takes msg) p = record p { phase = sending msg; taken = p.taken ++ msg ∷ [] }
step_in waiting sees_closed p = if p.closed then record p { phase = finished } else p
step_in (sending msg) (answered ok) p = after_publish msg ok p
step_in phase e p = p

unfoldable pub step : Event → Publisher → Publisher
unfolding step_in
step e p = step_in p.phase e p

unfoldable pub run : List Event → Publisher → Publisher
unfolding step
run [] p = p
run (e ∷ es) p = run es (step e p)
