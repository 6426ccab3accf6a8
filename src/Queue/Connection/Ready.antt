-- ===== src/Queue/Connection/Ready.antt =====
-- What a connection has after `setup` (common/queue/connection.go).
use mathlib.Core.Path.{subst}
use dice_server.Prelude.{
  ℕ, zero, suc, ◌+◌, ◌≤◌, ◌<◌, ◌≡◌, refl, ap, sym, ◌∙◌, inl, inr, Bool-cases, String, Bool, true,
  false, Option, none, some, List, [], ◌∷◌, ◌++◌, ◌&&◌, ltb, ◌==◌, length, get_elem?, set,
  length-set, get_elem?-set, arith,
}
use dice_server.Queue.Amqp.{Handle, Amqp, answer, grant, dialed, shut_all, is_open, close_open}
use dice_server.Queue.Channel.{Channel, new_channel}
use dice_server.Queue.Connection.{
  Connection, nil_channels, give_up, after_channel, make_channels, use_dialed, redial, setup, made,
  new_connection, is_ready,
}

abbrev pub is_nil : Option String → Bool
is_nil none = true
is_nil (some err) = false

-- The first k slots hold a channel.
abbrev pub IsFilled : ℕ → List (Option Channel) → Type 0
IsFilled k chs = (j : ℕ) → j < k → (c : Channel) × (get_elem? chs j ≡ some (some c))

set-IsFilled :
    (k i : ℕ) (chs : List (Option Channel)) (c : Channel)
    → IsFilled k chs
    → IsFilled k (set chs i (some c))
set-IsFilled k i chs c f j small = elim (Bool-cases (i == j && ltb j (length chs))) [
  | inl here ↦ (c, get_elem?-set chs i j (some c) ∙ (rw here))
  | inr there ↦ let (d, e) = f j small in (d, get_elem?-set chs i j (some c) ∙ rw there e)
]

set-IsFilled_suc :
    (i : ℕ) (chs : List (Option Channel)) (c : Channel)
    → i < length chs
    → IsFilled i chs
    → IsFilled (i + 1) (set chs i (some c))
set-IsFilled_suc i chs c room f j small = elim (Bool-cases (i == j)) [
  | inl here ↦ (c, get_elem?-set chs i j (some c) ∙ ground arith)
  | inr there ↦ set-IsFilled i i chs c f j (ground arith)
]

-- What `setup` leaves of a connection `rc` when n channels are still to be made, from the index i: it
-- is ready exactly if there was no error, and then its channels are there; none becomes nil.
pub record IsSetUp (n i : ℕ) (rc : Connection) (r : Option String × Connection × Amqp)
    : Type 0 where
  pub ready : is_ready r.1 ≡ is_nil r.0
  pub same_count : r.1.channel_count ≡ rc.channel_count
  pub same_length : length r.1.channels ≡ length rc.channels
  pub keeps : (k : ℕ) → IsFilled k rc.channels → IsFilled k r.1.channels
  pub fills :
      r.0 ≡ none
      → i + n ≤ length rc.channels
      → IsFilled i rc.channels
      → IsFilled (i + n) r.1.channels

after_channel-IsSetUp :
    (n i : ℕ) (rest : Connection → Amqp → Option String × Connection × Amqp) (conn : Handle)
    (rc : Connection) (made : Option Channel × Amqp)
    → rc.inner ≡ some conn
    → ((rc' : Connection) (w : Amqp) → rc'.inner ≡ some conn → IsSetUp n (i + 1) rc' (rest rc' w))
    → IsSetUp (suc n) i rc (after_channel rest conn i rc made)
unfolding after_channel give_up is_ready
after_channel-IsSetUp n i rest conn rc (none, w) e next = record {
  ready = rw e refl;
  same_count = refl;
  same_length = refl;
  keeps = λ k f. f;
  fills = λ bad. cc;
}
after_channel-IsSetUp n i rest conn rc (some c, w) e next =
    let rc' = record rc { channels = set rc.channels i (some c) } in
    let l = next rc' w e in
    record {
      ready = l.ready;
      same_count = l.same_count;
      same_length = l.same_length ∙ length-set rc.channels i (some c);
      keeps = λ k f. l.keeps k (set-IsFilled k i rc.channels c f);
      fills = λ ok room f j small.
          l.fills ok (omega (arith, length-set rc.channels i (some c)))
            (set-IsFilled_suc i rc.channels c (omega arith) f) j (omega arith);
    }

make_channels-IsSetUp :
    (n i : ℕ) (conn : Handle) (rc : Connection) (w : Amqp)
    → conn.is_closed ≡ false
    → rc.inner ≡ some conn
    → IsSetUp n i rc (make_channels n i conn rc w)
unfolding make_channels is_ready
make_channels-IsSetUp zero i conn rc w up e = record {
  ready = rw e (rw up refl);
  same_count = refl;
  same_length = refl;
  keeps = λ k f. f;
  fills = λ ok room f j small. f j (omega arith);
}
make_channels-IsSetUp (suc n) i conn rc w up e =
    after_channel-IsSetUp n i (make_channels n (i + 1) conn) conn rc (new_channel conn w) e
      (λ rc' w' e'. make_channels-IsSetUp n (i + 1) conn rc' w' up e')

shut_all-is_open : (h : Option Handle) → is_open (shut_all h) ≡ false
shut_all-is_open none = refl
shut_all-is_open (some h) = refl

failed-IsSetUp :
    (rc : Connection) (err : String) (w : Amqp)
    → IsSetUp rc.channel_count 0 rc (some err, record rc { inner = shut_all rc.inner }, w)
unfolding is_ready
failed-IsSetUp rc err w = record {
  ready = shut_all-is_open rc.inner;
  same_count = refl;
  same_length = refl;
  keeps = λ k f. f;
  fills = λ bad. cc;
}

use_dialed-IsSetUp :
    (rc : Connection) (answered : Bool × Amqp)
    → IsSetUp rc.channel_count 0 rc
        (use_dialed (grant dialed answered) (record rc { inner = shut_all rc.inner }))
unfolding use_dialed
use_dialed-IsSetUp rc (false, w) = failed-IsSetUp rc "failed to dial rabbitmq" w
use_dialed-IsSetUp rc (true, w) =
    let conn : Handle = record { id = w.next_id; is_closed = false } in
    let l =
      make_channels-IsSetUp rc.channel_count 0 conn (record rc { inner = some conn; cursor = 0 })
        (record w { next_id = w.next_id + 1; log = w.log ++ dialed w.next_id ∷ [] }) refl refl in
    record {
      ready = l.ready;
      same_count = l.same_count;
      same_length = l.same_length;
      keeps = l.keeps;
      fills = l.fills;
    }

redial-IsSetUp :
    (rc : Connection) (closed : Bool × Amqp) → IsSetUp rc.channel_count 0 rc (redial closed rc)
unfolding redial
redial-IsSetUp rc (false, w) = failed-IsSetUp rc "failed to close previous connection" w
redial-IsSetUp rc (true, w) = use_dialed-IsSetUp rc (answer w)

pub setup-IsSetUp : (rc : Connection) (w : Amqp) → IsSetUp rc.channel_count 0 rc (setup rc w)
unfolding setup
setup-IsSetUp rc w = redial-IsSetUp rc (close_open rc.inner w)

-- All channels are there, as many as were asked for.
pub record IsWhole (rc : Connection) : Type 0 where
  pub count : length rc.channels ≡ rc.channel_count
  pub filled : IsFilled rc.channel_count rc.channels

pub setup-IsWhole : (rc : Connection) (w : Amqp) → IsWhole rc → IsWhole (setup rc w).1
setup-IsWhole rc w h =
    let l = setup-IsSetUp rc w in
    record {
      count = l.same_length ∙ h.count ∙ sym l.same_count;
      filled = λ j small. l.keeps rc.channel_count h.filled j (omega (arith, l.same_count));
    }

length-nil_channels : (n : ℕ) → length (nil_channels n) ≡ n
unfolding nil_channels
length-nil_channels zero = refl
length-nil_channels (suc n) = ap suc (length-nil_channels n)

-- What `newConnection` makes.
pub record IsNew (channel_count : ℕ) (rc : Connection) : Type 0 where
  pub asked : rc.channel_count ≡ channel_count
  pub whole : IsWhole rc
  pub ready : is_ready rc ≡ true

made-IsNew :
    (channel_count : ℕ) (start rc : Connection) (w : Amqp) (r : Option String × Connection × Amqp)
    → start.channel_count ≡ channel_count
    → length start.channels ≡ channel_count
    → IsSetUp start.channel_count 0 start r
    → made r ≡ (some rc, w)
    → IsNew channel_count rc
unfolding made
made-IsNew channel_count start rc w (none, rc', w') count size l e =
    let same : rc' ≡ rc = ground arith in
    subst (IsNew channel_count) same (record {
      asked = l.same_count ∙ count;
      whole = record {
        count = l.same_length ∙ size ∙ sym count ∙ sym l.same_count;
        filled = λ j small.
            l.fills refl (omega (arith, size, count)) (λ i none_yet. absurd (omega arith)) j
              (omega (arith, l.same_count));
      };
      ready = l.ready;
    })
made-IsNew channel_count start rc w (some err, rc', w') count size l e = absurd (ground arith)

pub new_connection-IsNew :
    (channel_count : ℕ) (w w' : Amqp) (rc : Connection)
    → new_connection channel_count w ≡ (some rc, w')
    → IsNew channel_count rc
unfolding new_connection
new_connection-IsNew channel_count w w' rc e =
    made-IsNew channel_count _ rc w' _ refl (length-nil_channels channel_count)
      (setup-IsSetUp
        (record {
          channel_count = channel_count;
          inner = none;
          channels = nil_channels channel_count;
          cursor = 0;
        })
        w)
      e
