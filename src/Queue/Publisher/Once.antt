-- ===== src/Queue/Publisher/Once.antt =====
-- How often a publisher tries a message (common/queue/publisher.go).
use mathlib.Core.List.{append-nil}
use dice_server.Prelude.{
  ◌≡◌, refl, sym, ap, ◌∙◌, Bool, true, false, none, List, [], ◌∷◌, ◌++◌, map, if_intro, arith,
}
use dice_server.Queue.Publisher.{
  RawMessage, Phase, declaring, waiting, sending, finished, Publisher, Event, answered, takes,
  closes, sees_closed, new_publisher, next_message, step_in, step, run,
}

-- The message that is taken and not yet tried.
abbrev pub in_flight : Phase → List RawMessage
in_flight declaring = []
in_flight waiting = []
in_flight (sending msg) = msg ∷ []
in_flight finished = []

abbrev pub tried : List (RawMessage × Bool) → List RawMessage
tried attempts = map (λ a. a.0) attempts

-- The messages that were taken are those that were tried, each once and in order, and the one at hand.
pub record IsOnce (p : Publisher) : Type 0 where
  pub once : tried p.attempts ++ in_flight p.phase ≡ p.taken
  pub none_kept : p.last_msg ≡ none

tried-append :
    (xs : List (RawMessage × Bool)) (msg : RawMessage) (ok : Bool)
    → tried (xs ++ (msg, ok) ∷ []) ≡ tried xs ++ msg ∷ []
tried-append [] msg ok = refl
tried-append (x ∷ xs) msg ok = ap (◌∷◌ x.0) (tried-append xs msg ok)

at_phase :
    (phase : Phase) (p : Publisher)
    → p.phase ≡ phase
    → IsOnce p
    → tried p.attempts ++ in_flight phase ≡ p.taken
at_phase phase p at o = ap (λ x. tried p.attempts ++ in_flight x) (sym at) ∙ o.once

lost :
    (msg : RawMessage) (p : Publisher)
    → p.phase ≡ sending msg
    → IsOnce p
    → tried (p.attempts ++ (msg, false) ∷ []) ++ [] ≡ p.taken
lost msg p at o =
    append-nil (tried (p.attempts ++ (msg, false) ∷ []))
    ∙ tried-append p.attempts msg false
    ∙ at_phase (sending msg) p at o

step_in-IsOnce :
    (phase : Phase) (e : Event) (p : Publisher)
    → p.phase ≡ phase
    → IsOnce p
    → IsOnce (step_in phase e p)
unfolding step_in
step_in-IsOnce phase closes p at o = record { once = o.once; none_kept = o.none_kept }
step_in-IsOnce declaring (answered true) p at o = ground (arith, at_phase declaring p at o)
step_in-IsOnce declaring (answered false) p at o = ground (arith, at_phase declaring p at o)
step_in-IsOnce declaring (takes msg) p at o = ground arith
step_in-IsOnce declaring sees_closed p at o = ground arith
step_in-IsOnce waiting (answered ok) p at o = ground arith
step_in-IsOnce waiting (takes msg) p at o = record {
  once = ap (λ l. l ++ msg ∷ []) (sym (append-nil (tried p.attempts)) ∙ at_phase waiting p at o);
  none_kept = o.none_kept;
}
step_in-IsOnce waiting sees_closed p at o = ground (arith, at_phase waiting p at o)
step_in-IsOnce (sending msg) (answered true) p at o = record {
  once =
      rw (o.none_kept, next_message)
        (append-nil (tried (p.attempts ++ (msg, true) ∷ []))
          ∙ tried-append p.attempts msg true
          ∙ at_phase (sending msg) p at o);
  none_kept = o.none_kept;
}
step_in-IsOnce (sending msg) (answered false) p at o = record {
  once =
      if_intro (λ x. tried (p.attempts ++ (msg, false) ∷ []) ++ in_flight x ≡ p.taken) p.closed _ _
        (lost msg p at o) (lost msg p at o);
  none_kept = o.none_kept;
}
step_in-IsOnce (sending msg) (takes msg') p at o = ground arith
step_in-IsOnce (sending msg) sees_closed p at o = ground arith
step_in-IsOnce finished (answered ok) p at o = ground arith
step_in-IsOnce finished (takes msg) p at o = ground arith
step_in-IsOnce finished sees_closed p at o = ground arith

run-IsOnce : (es : List Event) (p : Publisher) → IsOnce p → IsOnce (run es p)
unfolding run step
run-IsOnce [] p o = o
run-IsOnce (e ∷ es) p o = run-IsOnce es (step e p) (step_in-IsOnce p.phase e p refl o)

-- However the broker answers and whenever `Close` comes, the messages that a publisher was given are, in
-- order, those that it has tried to publish, each exactly once, and at most one that is at hand: a
-- message whose publishing failed is not tried again.
pub run-new_publisher-IsOnce : (es : List Event) → IsOnce (run es new_publisher)
unfolding new_publisher
run-new_publisher-IsOnce es = run-IsOnce es new_publisher (record { once = refl; none_kept = refl })
