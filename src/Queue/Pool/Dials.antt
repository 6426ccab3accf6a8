-- ===== src/Queue/Pool/Dials.antt =====
-- What `newConnection` does with the connection that it dials (common/queue/connection.go).
use mathlib.Core.Path.{subst}
use dice_server.Prelude.{
  ℕ, zero, suc, ◌+◌, ◌≡◌, ◌⊎◌, inl, inr, refl, String, Bool, true, false, ◌||◌, Option, none, some,
  List, [], ◌∷◌, ◌++◌, ◌==◌, set, ==_iff, arith,
}
use dice_server.Queue.Amqp.{Handle, Call, dialed, opened, closed, Amqp, answer, grant}
use dice_server.Queue.Channel.{Channel, new_channel}
use dice_server.Queue.Channel
use dice_server.Queue.Connection.{
  Connection, nil_channels, give_up, after_channel, make_channels, use_dialed, redial, setup, made,
  new_connection,
}
use dice_server.Queue.Connection.Ready.{is_nil}
use dice_server.Queue.Pool.Log.{
  was_dialed, was_closed, Extends, nothing, Extends-refl, Extends-trans, was_closed-append,
  append-Extends,
}

opened-Extends :
    (conn : Handle) (r : Bool × Amqp) (c : Channel)
    → Extends nothing r.1.log (Channel.made (Channel.open_inner (grant (opened conn.id) r) c)).1.log
unfolding Channel.made Channel.open_inner
opened-Extends conn (false, w) c = Extends-refl nothing w.log
opened-Extends conn (true, w) c =
    append-Extends nothing w.log (opened conn.id w.next_id) (λ i h. absurd (cc))

new_channel-Extends : (conn : Handle) (w : Amqp) → Extends nothing w.log (new_channel conn w).1.log
unfolding new_channel
new_channel-Extends conn w = opened-Extends conn (answer w) (record { inner = none })

-- What the loop over the channels leaves: an error closes the connection, otherwise it is kept.
record IsTidy (conn : Handle) (rc : Connection) (log : List Call)
    (r : Option String × Connection × Amqp) : Type 0 where
  grows : Extends nothing log r.2.log
  cleaned : is_nil r.0 ≡ false → was_closed conn.id r.2.log ≡ true
  kept : is_nil r.0 ≡ true → r.1.inner ≡ rc.inner

after_channel-IsTidy :
    (rest : Connection → Amqp → Option String × Connection × Amqp) (conn : Handle) (i : ℕ)
    (rc : Connection) (log : List Call) (made : Option Channel × Amqp)
    → Extends nothing log made.1.log
    → ((rc' : Connection) (w : Amqp) → IsTidy conn rc' w.log (rest rc' w))
    → IsTidy conn rc log (after_channel rest conn i rc made)
unfolding after_channel give_up
after_channel-IsTidy rest conn i rc log (none, w) grows next = record {
  grows =
      Extends-trans nothing log w.log (w.log ++ closed conn.id ∷ []) grows
        (append-Extends nothing w.log (closed conn.id) (λ i h. absurd (cc)));
  cleaned = λ bad. ground (arith, was_closed-append w.log (closed conn.id) conn.id);
  kept = λ ok. cc;
}
after_channel-IsTidy rest conn i rc log (some c, w) grows next =
    let rc' = record rc { channels = set rc.channels i (some c) } in
    let t = next rc' w in
    record {
      grows = Extends-trans nothing log w.log (rest rc' w).2.log grows t.grows;
      cleaned = t.cleaned;
      kept = t.kept;
    }

make_channels-IsTidy :
    (n i : ℕ) (conn : Handle) (rc : Connection) (w : Amqp)
    → IsTidy conn rc w.log (make_channels n i conn rc w)
unfolding make_channels
make_channels-IsTidy zero i conn rc w = record {
  grows = Extends-refl nothing w.log;
  cleaned = λ bad. cc;
  kept = λ ok. refl;
}
make_channels-IsTidy (suc n) i conn rc w =
    after_channel-IsTidy (make_channels n (i + 1) conn) conn i rc w.log (new_channel conn w)
      (new_channel-Extends conn w) (λ rc' w'. make_channels-IsTidy n (i + 1) conn rc' w')

abbrev pub has_id : ℕ → Option Handle → Bool
has_id i none = false
has_id i (some h) = h.id == i

-- Whether one of the connections holds the one with the id.
abbrev pub owns : ℕ → List Connection → Bool
owns i [] = false
owns i (rc ∷ rcs) = has_id i rc.inner || owns i rcs

-- What `newConnection` dials is closed where it fails, and held where it does not.
pub record IsDealt (log : List Call) (r : Option Connection × Amqp) : Type 0 where
  pub keeps : (i : ℕ) → was_closed i log ≡ true → was_closed i r.1.log ≡ true
  pub failed :
      (i : ℕ)
      → r.0 ≡ none
      → was_dialed i r.1.log ≡ true
      → (was_dialed i log ≡ true) ⊎ (was_closed i r.1.log ≡ true)
  pub held :
      (i : ℕ) (rc : Connection)
      → r.0 ≡ some rc
      → was_dialed i r.1.log ≡ true
      → (was_dialed i log ≡ true) ⊎ (has_id i rc.inner ≡ true)

made-IsDealt :
    (log : List Call) (id : ℕ) (r : Option String × Connection × Amqp)
    → Extends (λ i. id == i) log r.2.log
    → (is_nil r.0 ≡ false → was_closed id r.2.log ≡ true)
    → (is_nil r.0 ≡ true → r.1.inner ≡ some (record { id = id; is_closed = false }))
    → IsDealt log (made r)
unfolding made
made-IsDealt log id (none, rc, w) grows cleaned kept = record {
  keeps = grows.keeps;
  failed = λ i e. cc;
  held = λ i rc' e h. elim (grows.dials_few i h) [
    | inl old ↦ inl old
    | inr own ↦ inr (ground (arith, kept refl))
  ];
}
made-IsDealt log id (some err, rc, w) grows cleaned kept = record {
  keeps = grows.keeps;
  failed = λ i e h. elim (grows.dials_few i h) [
    | inl old ↦ inl old
    | inr own ↦ inr (subst (λ j. was_closed j w.log ≡ true) ((==_iff id i).0 own) (cleaned refl))
  ];
  held = λ i rc' e. cc;
}

-- A dial that fails logs nothing; one that succeeds is followed by the loop over the channels.
dialed-IsDealt :
    (rc : Connection) (answered : Bool × Amqp)
    → IsDealt answered.1.log (made (use_dialed (grant dialed answered) rc))
unfolding use_dialed made
dialed-IsDealt rc (false, w) = record {
  keeps = λ i h. h;
  failed = λ i e h. inl h;
  held = λ i rc' e. cc;
}
dialed-IsDealt rc (true, w) =
    let conn : Handle = record { id = w.next_id; is_closed = false } in
    let rc' = record rc { inner = some conn; cursor = 0 } in
    let w' = record w { next_id = w.next_id + 1; log = w.log ++ dialed w.next_id ∷ [] } in
    let t = make_channels-IsTidy rc.channel_count 0 conn rc' w' in
    made-IsDealt w.log w.next_id (make_channels rc.channel_count 0 conn rc' w')
      (Extends-trans (λ i. w.next_id == i) w.log w'.log
        (make_channels rc.channel_count 0 conn rc' w').2.log
        (append-Extends (λ i. w.next_id == i) w.log (dialed w.next_id) (λ i h. h)) t.grows)
      t.cleaned t.kept

pub new_connection-IsDealt : (channels : ℕ) (w : Amqp) → IsDealt w.log (new_connection channels w)
unfolding new_connection setup redial
new_connection-IsDealt channels w =
    dialed-IsDealt
      (record {
        channel_count = channels;
        inner = none;
        channels = nil_channels channels;
        cursor = 0;
      })
      (answer w)
