-- ===== src/Queue/Declaration/Apart.antt =====
-- Which queues share a name (game/farkle/connect/queue.go).
use text.Mathlib.TextEquality.{eq_iff}
use text.Mathlib.TextLemmas.{append_assoc, append_inj, append_cancel_left}
use Prim.Native.String.{count, ◌++◌}
use dice_server.Prelude.{◌≡◌, ◌≢◌, refl, sym, ap, ◌∙◌, String, false, str_eq, arith}
use dice_server.Connect.{Uuid}
use dice_server.Queue.Declaration.{
  create_lobby_queue, accept_lobby_queue, join_lobby_queue, joined_lobby_queue,
}

-- The queues that the program declares.
pub data GameQueue : Type 0 where
  creates : GameQueue
  accepts joins joined_by : Uuid → GameQueue

-- Texts whose beginnings differ at the same length differ.
begin_apart :
    (p q u v s t : String) → count p ≡ count q → str_eq p q ≡ false → (p ++ u) ++ s ≢ (q ++ v) ++ t
begin_apart p q u v s t long other e =
    let same : p ≡ q =
      (append_inj {s₁ = p} {s₂ = q} (sym (append_assoc p u s) ∙ e ∙ append_assoc q v t) long).0 in
    ground (arith, other, (eq_iff p q).1 same)

abbrev pub queue_name : (Uuid → String) → GameQueue → String
queue_name uuid_string creates = create_lobby_queue.name
queue_name uuid_string (accepts g) = (accept_lobby_queue uuid_string g).name
queue_name uuid_string (joins g) = (join_lobby_queue uuid_string g).name
queue_name uuid_string (joined_by g) = (joined_lobby_queue uuid_string g).name

-- No two queues that the program declares share a name: a name says what the queue is for, and of which
-- game. This rests on different ids having different texts.
pub queue_name-injective :
    (uuid_string : Uuid → String)
    → ((g h : Uuid) → uuid_string g ≡ uuid_string h → g ≡ h)
    → (q r : GameQueue) → queue_name uuid_string q ≡ queue_name uuid_string r
    → q ≡ r
unfolding create_lobby_queue accept_lobby_queue join_lobby_queue joined_lobby_queue
queue_name-injective id inj creates creates e = refl
queue_name-injective id inj (accepts g) (accepts h) e =
    ap accepts (inj g h (append_cancel_left "/farkle/accept/" (id g) (id h) e))
queue_name-injective id inj (joins g) (joins h) e =
    ap joins (inj g h (append_cancel_left "/farkle/join/" (id g) (id h) e))
queue_name-injective id inj (joined_by g) (joined_by h) e =
    ap joined_by (inj g h (append_cancel_left "/farkle/joined/" (id g) (id h) e))
queue_name-injective id inj creates (accepts h) e =
    absurd (begin_apart "/farkle/c" "/farkle/a" "" "ccept/" "reate" (id h) refl refl e)
queue_name-injective id inj creates (joins h) e =
    absurd (begin_apart "/farkle/c" "/farkle/j" "" "oin/" "reate" (id h) refl refl e)
queue_name-injective id inj creates (joined_by h) e =
    absurd (begin_apart "/farkle/c" "/farkle/j" "" "oined/" "reate" (id h) refl refl e)
queue_name-injective id inj (accepts g) creates e =
    absurd (begin_apart "/farkle/a" "/farkle/c" "ccept/" "" (id g) "reate" refl refl e)
queue_name-injective id inj (joins g) creates e =
    absurd (begin_apart "/farkle/j" "/farkle/c" "oin/" "" (id g) "reate" refl refl e)
queue_name-injective id inj (joined_by g) creates e =
    absurd (begin_apart "/farkle/j" "/farkle/c" "oined/" "" (id g) "reate" refl refl e)
queue_name-injective id inj (accepts g) (joins h) e =
    absurd (begin_apart "/farkle/a" "/farkle/j" "ccept/" "oin/" (id g) (id h) refl refl e)
queue_name-injective id inj (accepts g) (joined_by h) e =
    absurd (begin_apart "/farkle/a" "/farkle/j" "ccept/" "oined/" (id g) (id h) refl refl e)
queue_name-injective id inj (joins g) (accepts h) e =
    absurd (begin_apart "/farkle/j" "/farkle/a" "oin/" "ccept/" (id g) (id h) refl refl e)
queue_name-injective id inj (joined_by g) (accepts h) e =
    absurd (begin_apart "/farkle/j" "/farkle/a" "oined/" "ccept/" (id g) (id h) refl refl e)
queue_name-injective id inj (joins g) (joined_by h) e =
    absurd (begin_apart "/farkle/join/" "/farkle/joine" "" "d/" (id g) (id h) refl refl e)
queue_name-injective id inj (joined_by g) (joins h) e =
    absurd (begin_apart "/farkle/joine" "/farkle/join/" "d/" "" (id g) (id h) refl refl e)
