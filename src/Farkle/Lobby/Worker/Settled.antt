-- ===== src/Farkle/Lobby/Worker/Settled.antt =====
-- What the worker does with its deliveries (game/farkle/internal/lobby/worker.go).
use mathlib.Core.List.{append_assoc, append-nil}
use dice_server.Prelude.{
  ◌≡◌, refl, sym, ◌∙◌, Bool, true, false, Option, none, some, List, [], ◌∷◌, ◌++◌,
}
use dice_server.Connect.{CreateFarkleRequest}
use dice_server.Farkle.Lobby.Worker.{
  WorkerLog, WorkerEvent, delivery, queue_closed, shutting_down, Worker, working, stopped,
  worker_loop,
}

abbrev pub log_of : Worker → WorkerLog
log_of (working log) = log
log_of (stopped err log) = log

abbrev pub is_some : Option CreateFarkleRequest → Bool
is_some none = false
is_some (some request) = true

-- The deliveries up to the end of the messages or the server, or the first that cannot be settled.
abbrev pub handled : List WorkerEvent → List (Option CreateFarkleRequest)
handled [] = []
handled (delivery body true ∷ es) = body ∷ handled es
handled (delivery body false ∷ es) = body ∷ []
handled (queue_closed ∷ es) = []
handled (shutting_down ∷ es) = []

abbrev pub verdicts : List (Option CreateFarkleRequest) → List (Option CreateFarkleRequest × Bool)
verdicts [] = []
verdicts (body ∷ bodies) = (body, is_some body) ∷ verdicts bodies

abbrev pub readable : List (Option CreateFarkleRequest) → List CreateFarkleRequest
readable [] = []
readable (none ∷ bodies) = readable bodies
readable (some request ∷ bodies) = request ∷ readable bodies

-- The worker's log, from the one before.
pub record IsSettled (es : List WorkerEvent) (before after : WorkerLog) : Type 0 where
  pub settled : after.settled ≡ before.settled ++ verdicts (handled es)
  pub started : after.started ≡ before.started ++ readable (handled es)

-- The worker settles each delivery that it handles once and in order: it acknowledges those that can be
-- read and refuses the others, and starts a lobby for exactly those that can be read. It handles the
-- deliveries up to the end of the queue or the server, or the first that cannot be settled, that one
-- included.
pub worker_loop-IsSettled :
    (es : List WorkerEvent) (log : WorkerLog) → IsSettled es log (log_of (worker_loop es log))
unfolding worker_loop
worker_loop-IsSettled [] log = record {
  settled = sym (append-nil log.settled);
  started = sym (append-nil log.started);
}
worker_loop-IsSettled (queue_closed ∷ es) log = record {
  settled = sym (append-nil log.settled);
  started = sym (append-nil log.started);
}
worker_loop-IsSettled (shutting_down ∷ es) log = record {
  settled = sym (append-nil log.settled);
  started = sym (append-nil log.started);
}
worker_loop-IsSettled (delivery none false ∷ es) log = record {
  settled = refl;
  started = sym (append-nil log.started);
}
worker_loop-IsSettled (delivery (some request) false ∷ es) log = record {
  settled = refl;
  started = refl;
}
worker_loop-IsSettled (delivery none true ∷ es) log =
    let log' = record log { settled = log.settled ++ (none, false) ∷ [] } in
    let s = worker_loop-IsSettled es log' in
    record {
      settled = s.settled ∙ append_assoc log.settled ((none, false) ∷ []) (verdicts (handled es));
      started = s.started;
    }
worker_loop-IsSettled (delivery (some request) true ∷ es) log =
    let log' : WorkerLog = record {
      settled = log.settled ++ (some request, true) ∷ [];
      started = log.started ++ request ∷ [];
    } in
    let s = worker_loop-IsSettled es log' in
    record {
      settled =
          s.settled ∙ append_assoc log.settled ((some request, true) ∷ []) (verdicts (handled es));
      started = s.started ∙ append_assoc log.started (request ∷ []) (readable (handled es));
    }
