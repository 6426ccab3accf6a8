-- ===== src/Queue/Consumer.antt =====
-- common/queue/consumer.go: the goroutine of a consumer, an event at a time. `A` is what is delivered.
-- `answered` is the result of the library's call at hand, true where it is not an error; `arrives` and
-- `drained` are a delivery and the end of the library's channel; `forwarded_on` is that someone receives
-- from `Consume()`; `closes` is a call of `Close`, `sees_closed` the receive from the closed channel. An
-- event that cannot happen changes nothing.
pub mod Order
use dice_server.Prelude.{ℕ, ◌+◌, Bool, true, false, List, [], ◌∷◌, ◌++◌, if◌then◌else◌}

module _ (A : Type 0) where
  -- Before `exclusive`, `declareQueue`, `Qos` and `Consume`; in the `select`; in `cons.msgs <- msg`;
  -- returned.
  pub data Phase : Type 0 where
    opening declaring limiting subscribing listening : Phase
    forwarding : A → Phase
    finished : Phase

  -- `received` and `forwarded` are the deliveries in and out; `subscribed` and `canceled` count the calls
  -- of `Consume` that succeeded and those of `Cancel`; `exclusives` the channels that were opened.
  pub record Consumer : Type 0 where
    pub qos : Bool
    pub phase : Phase
    pub closed : Bool
    pub received : List A
    pub forwarded : List A
    pub subscribed : ℕ
    pub canceled : ℕ
    pub exclusives : ℕ

  pub data Event : Type 0 where
    answered : Bool → Event
    arrives : A → Event
    drained forwarded_on closes sees_closed : Event

module _ {A : Type 0} where
  -- The head of `listen`.
  unfoldable pub first_phase : Bool → Phase A
  first_phase true = opening
  first_phase false = declaring

  unfoldable pub new_consumer : Bool → Consumer A
  unfolding first_phase
  new_consumer qos = record {
    qos = qos;
    phase = first_phase qos;
    closed = false;
    received = [];
    forwarded = [];
    subscribed = 0;
    canceled = 0;
    exclusives = 0;
  }

  -- The `select` of `loop` behind an error of `listen`.
  unfoldable pub after_error : Consumer A → Consumer A
  unfolding first_phase
  after_error c = record c { phase = if c.closed then finished else first_phase c.qos }

  -- `Close`.
  unfoldable pub close : Consumer A → Consumer A
  close c = record c { closed = true }

  -- The deferred `Cancel`.
  unfoldable pub cancel : Consumer A → Consumer A
  cancel c = record c { canceled = c.canceled + 1 }

  -- An answer that is not an error.
  unfoldable pub go_on : Phase A → Consumer A → Consumer A
  go_on opening c = record c { phase = declaring; exclusives = c.exclusives + 1 }
  go_on declaring c = record c { phase = if c.qos then limiting else subscribing }
  go_on limiting c = record c { phase = subscribing }
  go_on subscribing c = record c { phase = listening; subscribed = c.subscribed + 1 }
  go_on listening c = c
  go_on (forwarding msg) c = c
  go_on finished c = c

  unfoldable pub fail : Phase A → Consumer A → Consumer A
  unfolding after_error
  fail opening c = after_error c
  fail declaring c = after_error c
  fail limiting c = after_error c
  fail subscribing c = after_error c
  fail listening c = c
  fail (forwarding msg) c = c
  fail finished c = c

  -- The `select` of `listen`, and the send in it.
  unfoldable pub listen : Event A → Consumer A → Consumer A
  unfolding after_error cancel close
  listen (arrives msg) c = record c { phase = forwarding msg; received = c.received ++ msg ∷ [] }
  listen drained c = after_error (cancel c)
  listen sees_closed c = if c.closed then record (cancel c) { phase = finished } else c
  listen (answered ok) c = c
  listen forwarded_on c = c
  listen closes c = close c

  unfoldable pub hand_on : A → Event A → Consumer A → Consumer A
  unfolding close
  hand_on msg forwarded_on c = record c { phase = listening; forwarded = c.forwarded ++ msg ∷ [] }
  hand_on msg closes c = close c
  hand_on msg (answered ok) c = c
  hand_on msg (arrives m) c = c
  hand_on msg drained c = c
  hand_on msg sees_closed c = c

  -- In the calls of the library before the `select`.
  unfoldable pub prepare : Phase A → Event A → Consumer A → Consumer A
  unfolding go_on fail close
  prepare phase (answered true) c = go_on phase c
  prepare phase (answered false) c = fail phase c
  prepare phase closes c = close c
  prepare phase (arrives msg) c = c
  prepare phase drained c = c
  prepare phase forwarded_on c = c
  prepare phase sees_closed c = c

  unfoldable pub step_in : Phase A → Event A → Consumer A → Consumer A
  unfolding prepare listen hand_on
  step_in listening e c = listen e c
  step_in (forwarding msg) e c = hand_on msg e c
  step_in opening e c = prepare opening e c
  step_in declaring e c = prepare declaring e c
  step_in limiting e c = prepare limiting e c
  step_in subscribing e c = prepare subscribing e c
  step_in finished e c = prepare finished e c

  unfoldable pub step : Event A → Consumer A → Consumer A
  unfolding step_in
  step e c = step_in c.phase e c

  unfoldable pub run : List (Event A) → Consumer A → Consumer A
  unfolding step
  run [] c = c
  run (e ∷ es) c = run es (step e c)
