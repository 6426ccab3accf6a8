-- ===== src/Queue/Consumer/Order.antt =====
-- What a consumer hands on, and its subscriptions (common/queue/consumer.go).
use mathlib.Core.List.{append-nil}
use dice_server.Prelude.{
  ℕ, ◌+◌, ◌≡◌, refl, sym, ap, ◌∙◌, Bool, true, false, List, [], ◌∷◌, ◌++◌, if◌then◌else◌, if_intro,
  arith,
}
use dice_server.Queue.Consumer.{
  Phase, opening, declaring, limiting, subscribing, listening, forwarding, finished, Consumer,
  Event, answered, arrives, drained, forwarded_on, closes, sees_closed, first_phase, new_consumer,
  after_error, cancel, close, go_on, fail, prepare, listen, hand_on, step_in, step, run,
}

module _ {A : Type 0} where
  -- What has been received and not yet been handed on.
  abbrev pub in_hand : Phase A → List A
  in_hand opening = []
  in_hand declaring = []
  in_hand limiting = []
  in_hand subscribing = []
  in_hand listening = []
  in_hand (forwarding msg) = msg ∷ []
  in_hand finished = []

  -- Whether there is a subscription.
  abbrev pub active : Phase A → ℕ
  active opening = 0
  active declaring = 0
  active limiting = 0
  active subscribing = 0
  active listening = 1
  active (forwarding msg) = 1
  active finished = 0

  pub record IsOrderly (c : Consumer A) : Type 0 where
    pub in_order : c.forwarded ++ in_hand c.phase ≡ c.received
    pub balanced : c.subscribed ≡ c.canceled + active c.phase

  -- A phase with nothing at hand and no subscription.
  abbrev IsIdle : Phase A → Type 0
  IsIdle phase = (in_hand phase ≡ []) × (active phase ≡ 0)

  -- The invariant where the phase is known.
  abbrev Balances : Phase A → Consumer A → Type 0
  Balances phase c =
      (c.forwarded ++ in_hand phase ≡ c.received) × (c.subscribed ≡ c.canceled + active phase)

  at_phase : (phase : Phase A) (c : Consumer A) → c.phase ≡ phase → IsOrderly c → Balances phase c
  at_phase phase c at o = (
    ap (λ x. c.forwarded ++ in_hand x) (sym at) ∙ o.in_order,
    o.balanced ∙ ap (λ x. c.canceled + active x) at,
  )

  first_phase-IsIdle : (qos : Bool) → IsIdle (first_phase qos)
  unfolding first_phase
  first_phase-IsIdle true = (refl, refl)
  first_phase-IsIdle false = (refl, refl)

  -- To an idle phase, with nothing at hand and no subscription before.
  to_idle :
      (c : Consumer A) (phase : Phase A)
      → IsIdle phase
      → Balances finished c
      → IsOrderly (record c { phase = phase })
  to_idle c phase (none_in, none_on) (e, n) = record {
    in_order = ap (λ l. c.forwarded ++ l) none_in ∙ e;
    balanced = n ∙ ap (λ k. c.canceled + k) (sym none_on);
  }

  after_error-IsOrderly : (c : Consumer A) → Balances finished c → IsOrderly (after_error c)
  unfolding after_error
  after_error-IsOrderly c b =
      to_idle c (if c.closed then finished else first_phase c.qos)
        (if_intro IsIdle c.closed _ _ (refl, refl) (first_phase-IsIdle c.qos)) b

  go_on-IsOrderly :
      (phase : Phase A) (c : Consumer A) → c.phase ≡ phase → IsOrderly c → IsOrderly (go_on phase c)
  unfolding go_on
  go_on-IsOrderly opening c at o =
      let (e, n) = at_phase opening c at o in record { in_order = e; balanced = n }
  go_on-IsOrderly declaring c at o =
      to_idle c (if c.qos then limiting else subscribing)
        (if_intro IsIdle c.qos _ _ (refl, refl) (refl, refl)) (at_phase declaring c at o)
  go_on-IsOrderly limiting c at o = to_idle c subscribing (refl, refl) (at_phase limiting c at o)
  go_on-IsOrderly subscribing c at o =
      let (e, n) = at_phase subscribing c at o in record { in_order = e; balanced = omega arith }
  go_on-IsOrderly listening c at o = o
  go_on-IsOrderly (forwarding msg) c at o = o
  go_on-IsOrderly finished c at o = o

  fail-IsOrderly :
      (phase : Phase A) (c : Consumer A) → c.phase ≡ phase → IsOrderly c → IsOrderly (fail phase c)
  unfolding fail
  fail-IsOrderly opening c at o = after_error-IsOrderly c (at_phase opening c at o)
  fail-IsOrderly declaring c at o = after_error-IsOrderly c (at_phase declaring c at o)
  fail-IsOrderly limiting c at o = after_error-IsOrderly c (at_phase limiting c at o)
  fail-IsOrderly subscribing c at o = after_error-IsOrderly c (at_phase subscribing c at o)
  fail-IsOrderly listening c at o = o
  fail-IsOrderly (forwarding msg) c at o = o
  fail-IsOrderly finished c at o = o

  close-IsOrderly : (c : Consumer A) → IsOrderly c → IsOrderly (close c)
  unfolding close
  close-IsOrderly c o = record { in_order = o.in_order; balanced = o.balanced }

  canceled_once : (c : Consumer A) → Balances listening c → Balances finished (cancel c)
  unfolding cancel
  canceled_once c (e, n) = (e, omega arith)

  listen-IsOrderly :
      (e : Event A) (c : Consumer A) → c.phase ≡ listening → IsOrderly c → IsOrderly (listen e c)
  unfolding listen
  listen-IsOrderly (arrives msg) c at o =
      let (e, n) = at_phase listening c at o in
      record { in_order = ap (λ l. l ++ msg ∷ []) (sym (append-nil c.forwarded) ∙ e); balanced = n }
  listen-IsOrderly drained c at o =
      after_error-IsOrderly (cancel c) (canceled_once c (at_phase listening c at o))
  listen-IsOrderly sees_closed c at o =
      if_intro IsOrderly c.closed _ _
        (to_idle (cancel c) finished (refl, refl) (canceled_once c (at_phase listening c at o))) o
  listen-IsOrderly (answered ok) c at o = o
  listen-IsOrderly forwarded_on c at o = o
  listen-IsOrderly closes c at o = close-IsOrderly c o

  hand_on-IsOrderly :
      (msg : A) (e : Event A) (c : Consumer A)
      → c.phase ≡ forwarding msg
      → IsOrderly c
      → IsOrderly (hand_on msg e c)
  unfolding hand_on
  hand_on-IsOrderly msg forwarded_on c at o =
      let (e, n) = at_phase (forwarding msg) c at o in
      record { in_order = append-nil (c.forwarded ++ msg ∷ []) ∙ e; balanced = n }
  hand_on-IsOrderly msg (answered ok) c at o = o
  hand_on-IsOrderly msg (arrives m) c at o = o
  hand_on-IsOrderly msg drained c at o = o
  hand_on-IsOrderly msg closes c at o = close-IsOrderly c o
  hand_on-IsOrderly msg sees_closed c at o = o

  prepare-IsOrderly :
      (phase : Phase A) (e : Event A) (c : Consumer A)
      → c.phase ≡ phase
      → IsOrderly c
      → IsOrderly (prepare phase e c)
  unfolding prepare
  prepare-IsOrderly phase (answered true) c at o = go_on-IsOrderly phase c at o
  prepare-IsOrderly phase (answered false) c at o = fail-IsOrderly phase c at o
  prepare-IsOrderly phase closes c at o = close-IsOrderly c o
  prepare-IsOrderly phase (arrives msg) c at o = o
  prepare-IsOrderly phase drained c at o = o
  prepare-IsOrderly phase forwarded_on c at o = o
  prepare-IsOrderly phase sees_closed c at o = o

  step_in-IsOrderly :
      (phase : Phase A) (e : Event A) (c : Consumer A)
      → c.phase ≡ phase
      → IsOrderly c
      → IsOrderly (step_in phase e c)
  unfolding step_in
  step_in-IsOrderly listening e c at o = listen-IsOrderly e c at o
  step_in-IsOrderly (forwarding msg) e c at o = hand_on-IsOrderly msg e c at o
  step_in-IsOrderly opening e c at o = prepare-IsOrderly opening e c at o
  step_in-IsOrderly declaring e c at o = prepare-IsOrderly declaring e c at o
  step_in-IsOrderly limiting e c at o = prepare-IsOrderly limiting e c at o
  step_in-IsOrderly subscribing e c at o = prepare-IsOrderly subscribing e c at o
  step_in-IsOrderly finished e c at o = prepare-IsOrderly finished e c at o

  run-IsOrderly : (es : List (Event A)) (c : Consumer A) → IsOrderly c → IsOrderly (run es c)
  unfolding run step
  run-IsOrderly [] c o = o
  run-IsOrderly (e ∷ es) c o = run-IsOrderly es (step e c) (step_in-IsOrderly c.phase e c refl o)

-- Over any run of a consumer, what is received from it is what the broker delivered, in order and each
-- delivery once, but for at most one that is at hand; and every subscription but the one that is
-- running has been canceled, however it ended.
pub run-new_consumer-IsOrderly :
    {A : Type 0} (qos : Bool) (es : List (Event A)) → IsOrderly (run es (new_consumer {A = A} qos))
unfolding new_consumer
run-new_consumer-IsOrderly true es =
    run-IsOrderly es _ (record { in_order = refl; balanced = refl })
run-new_consumer-IsOrderly false es =
    run-IsOrderly es _ (record { in_order = refl; balanced = refl })
