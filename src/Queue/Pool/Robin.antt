-- ===== src/Queue/Pool/Robin.antt =====
-- The search for a connection ends (common/queue/pool.go).
use mathlib.Core.Path.{subst}
use native.Mathlib.Nat.{mod-lt, mod-eq_of_lt, mod-add-mod}
use native.Mathlib.Decide.{dec_lt}
use dice_server.Prelude.{
  ℕ, zero, suc, ◌+◌, ◌-◌, ◌*◌, ◌%◌, ◌≤◌, ◌<◌, ◌≡◌, refl, sym, ap, ◌∙◌, true, false, ◌==◌,
  if◌then◌else◌, if_elim, arith,
}
use dice_server.Queue.Connection.{u32_mod, next_index}
use dice_server.Queue.Pool.{Readiness, Search, found, searching, zero_division, connection}

-- The index j comes up after d steps from the cursor.
abbrev Comes : ℕ → ℕ → ℕ → ℕ → Type 0
Comes count cursor j d = (cursor + d) % u32_mod % count ≡ j

mod-add_self : (j count : ℕ) → j < count → (j + count) % count ≡ j
mod-add_self j count small = grind arith

unwrapped :
    (count cursor d s : ℕ)
    → cursor + d < u32_mod
    → cursor % count + d ≡ s
    → (cursor + d) % u32_mod % count ≡ s % count
unwrapped count cursor d s room e =
    ap (λ x. x % count) (mod-eq_of_lt room)
    ∙ sym (mod-add-mod cursor count d)
    ∙ ap (λ x. x % count) e

Comes-unwrapped :
    (count cursor j : ℕ)
    → j < count
    → cursor + count < u32_mod
    → (d : ℕ) × (1 ≤ d) × (d < 2 * count) × Comes count cursor j d
Comes-unwrapped count cursor j small room =
    let r_small : cursor % count < count = mod-lt cursor (omega arith) in
    elim (dec_lt (cursor % count) j) [
      | yes above ↦ (
        j - cursor % count,
        omega arith,
        omega arith,
        unwrapped count cursor (j - cursor % count) j (omega arith) (omega arith)
            ∙ mod-eq_of_lt small,
      )
      | no below ↦ (
        j + count - cursor % count,
        omega arith,
        omega arith,
        unwrapped count cursor (j + count - cursor % count) (j + count) (omega arith) (omega arith)
            ∙ mod-add_self j count small,
      )
    ]

Comes-wrapped :
    (count cursor j : ℕ)
    → j < count
    → count ≤ u32_mod
    → cursor < u32_mod
    → u32_mod ≤ cursor + count
    → (d : ℕ) × (1 ≤ d) × (d < 2 * count) × Comes count cursor j d
Comes-wrapped count cursor j small fits inside full =
    let back : (cursor + (u32_mod - cursor + j)) % u32_mod ≡ j = omega arith in
    (u32_mod - cursor + j, omega arith, omega arith, ap (λ x. x % count) back ∙ mod-eq_of_lt small)

comes :
    (count cursor j : ℕ)
    → j < count
    → count ≤ u32_mod
    → cursor < u32_mod
    → (d : ℕ) × (1 ≤ d) × (d < 2 * count) × Comes count cursor j d
comes count cursor j small fits inside = elim (dec_lt (cursor + count) u32_mod) [
  | yes room ↦ Comes-unwrapped count cursor j small room
  | no full ↦ Comes-wrapped count cursor j small fits inside (omega arith)
]

-- A connection in range that was ready at one of the looks from `look` up to `end`.
abbrev pub IsFound : ℕ → Readiness → ℕ → ℕ → Search → Type 0
IsFound count ready look end (found i cursor) =
    (i < count)
    × (cursor < u32_mod)
    × ((seen : ℕ) × (look ≤ seen) × (seen < end) × (ready seen i ≡ true))
IsFound count ready look end (searching cursor) = ⊥
IsFound count ready look end zero_division = ⊥

weaken-IsFound :
    (count : ℕ) (ready : Readiness) (look look' end end' : ℕ) (s : Search)
    → look ≤ look'
    → end' ≤ end
    → IsFound count ready look' end' s
    → IsFound count ready look end s
weaken-IsFound count ready look look' end end' (found i cursor) lo hi
      (small, inside, (seen, from, to, up)) =
    (small, inside, (seen, omega arith, omega arith, up))
weaken-IsFound count ready look look' end end' (searching cursor) lo hi f = f
weaken-IsFound count ready look look' end end' zero_division lo hi f = f

-- What the loop does behind a look that found nothing: either the index j is still to come, or this
-- was it.
still-Comes :
    (d count j look cursor : ℕ) (ready : Readiness)
    → ((later : ℕ) → look ≤ later → ready later j ≡ true)
    → Comes count cursor j (suc d)
    → ready look ((cursor + 1) % u32_mod % count) ≡ false
    → (d' : ℕ) × (d ≡ suc d') × Comes count ((cursor + 1) % u32_mod) j (suc d')
still-Comes zero count j look cursor ready up c down = absurd (
    let e : ready look j ≡ false = sym (ap (ready look) c) ∙ down in
    let e' : ready look j ≡ true = up look (omega arith) in cc)
still-Comes (suc d) count j look cursor ready up c down =
    let same : ((cursor + 1) % u32_mod + suc d) % u32_mod ≡ (cursor + suc (suc d)) % u32_mod =
      omega arith in
    (d, refl, ap (λ x. x % count) same ∙ c)

-- What a look comes to, at the cursor that it moves on from.
abbrev look_from : ℕ → ℕ → Readiness → (ℕ → ℕ) → ℕ → ℕ → Search
look_from fuel count ready others look cursor =
    let i = (cursor + 1) % u32_mod % count in
    let rest = connection fuel count ready others (look + 1) ((cursor + 1) % u32_mod) in
    if count == 0
    then zero_division
    else if ready look i
    then found i ((cursor + 1) % u32_mod)
    else rest

one_look :
    (fuel count look cursor from : ℕ) (ready : Readiness) (others : ℕ → ℕ)
    → cursor + others look ≡ from
    → connection (suc fuel) count ready others look cursor
      ≡ look_from fuel count ready others look from
unfolding connection next_index
one_look fuel count look cursor from ready others e = ap (look_from fuel count ready others look) e

-- A look either finds a connection, or the rest of the search does.
look_from-IsFound :
    (fuel count j look cursor : ℕ) (ready : Readiness) (others : ℕ → ℕ)
    → j < count
    → (ready look ((cursor + 1) % u32_mod % count) ≡ false
        → IsFound count ready
            (look + 1)
            (look + 1 + fuel)
            (connection fuel count ready others (look + 1) ((cursor + 1) % u32_mod)))
    → IsFound count ready look (look + suc fuel) (look_from fuel count ready others look cursor)
look_from-IsFound fuel count j look cursor ready others small rest =
    let i = (cursor + 1) % u32_mod % count in
    let i_small : i < count = mod-lt ((cursor + 1) % u32_mod) (omega arith) in
    if_elim (IsFound count ready look (look + suc fuel)) (count == 0) _ _
      (λ none_there. absurd (ground arith))
      (λ _.
        if_elim (IsFound count ready look (look + suc fuel)) (ready look i) _ _
          (λ here. (i_small, omega arith, (look, omega arith, omega arith, here)))
          (λ down.
            weaken-IsFound count ready look (look + 1) (look + suc fuel) (look + 1 + fuel)
              (connection fuel count ready others (look + 1) ((cursor + 1) % u32_mod)) (omega arith)
              (omega arith) (rest down)))

connection_within :
    (fuel d count j look cursor : ℕ) (ready : Readiness) (others : ℕ → ℕ)
    → j < count
    → suc d ≤ fuel
    → ((later : ℕ) → look ≤ later → ready later j ≡ true)
    → ((later : ℕ) → look ≤ later → others later ≡ 0)
    → Comes count cursor j (suc d)
    → IsFound count ready look (look + fuel) (connection fuel count ready others look cursor)
connection_within zero d count j look cursor ready others small enough up calm c =
    absurd (omega arith)
connection_within (suc fuel) d count j look cursor ready others small enough up calm c =
    subst (IsFound count ready look (look + suc fuel))
      (sym (
        one_look fuel count look cursor cursor ready others
          (omega (arith, calm look (omega arith)))))
      (look_from-IsFound fuel count j look cursor ready others small (λ down.
        let (d', e, c') = still-Comes d count j look cursor ready up c down in
        connection_within fuel d' count j (look + 1) ((cursor + 1) % u32_mod) ready others small
          (omega arith) (λ later h. up later (omega arith)) (λ later h. calm later (omega arith))
          c'))

connection_calm :
    (count j look cursor : ℕ) (ready : Readiness) (others : ℕ → ℕ)
    → j < count
    → count < u32_mod
    → cursor < u32_mod
    → ((later : ℕ) → ready later j ≡ true)
    → ((later : ℕ) → look ≤ later → others later ≡ 0)
    → IsFound count ready look
        (look + (2 * count - 1))
        (connection (2 * count - 1) count ready others look cursor)
connection_calm count j look cursor ready others small fits inside up calm =
    let (d, low, high, c) = comes count cursor j small (omega arith) inside in
    let e : suc (d - 1) ≡ d = omega arith in
    connection_within (2 * count - 1) (d - 1) count j look cursor ready others small (omega arith)
      (λ later h. up later) calm (rw e c)

connection_busy :
    (busy fuel count j look cursor : ℕ) (ready : Readiness) (others : ℕ → ℕ)
    → j < count
    → count < u32_mod
    → cursor < u32_mod
    → ((later : ℕ) → ready later j ≡ true)
    → ((later : ℕ) → look + busy ≤ later → others later ≡ 0)
    → fuel ≡ busy + (2 * count - 1)
    → IsFound count ready look (look + fuel) (connection fuel count ready others look cursor)
connection_busy zero fuel count j look cursor ready others small fits inside up calm e =
    let same : 2 * count - 1 ≡ fuel = omega arith in
    subst (λ n. IsFound count ready look (look + n) (connection n count ready others look cursor))
      same
      (connection_calm count j look cursor ready others small fits inside up
        (λ later h. calm later (omega arith)))
connection_busy (suc busy) zero count j look cursor ready others small fits inside up calm e =
    absurd (omega arith)
connection_busy (suc busy) (suc fuel) count j look cursor ready others small fits inside up calm e =
    let from = cursor + others look in
    subst (IsFound count ready look (look + suc fuel))
      (sym (one_look fuel count look cursor from ready others refl))
      (look_from-IsFound fuel count j look from ready others small (λ down.
        connection_busy busy fuel count j (look + 1) ((from + 1) % u32_mod) ready others small fits
          (mod-lt (from + 1) (omega arith)) up (λ later h. calm later (omega arith)) (omega arith)))

-- With one of the connections ready from now on, whatever the others do meanwhile and wherever the
-- cursor stands, the wrap-around of its 32 bits included, the search ends, and it finds a connection
-- that was ready when it looked. If other searches move the cursor before some of its first looks, as
-- often as they like, then it ends fewer than twice as many looks behind these as there are
-- connections; without a look from which on they do not, nothing is said.
pub connection-IsFound :
    (busy count j cursor : ℕ) (ready : Readiness) (others : ℕ → ℕ)
    → j < count
    → count < u32_mod
    → cursor < u32_mod
    → ((look : ℕ) → ready look j ≡ true)
    → ((look : ℕ) → busy ≤ look → others look ≡ 0)
    → IsFound count ready 0
        (busy + (2 * count - 1))
        (connection (busy + (2 * count - 1)) count ready others 0 cursor)
connection-IsFound busy count j cursor ready others small fits inside up calm =
    weaken-IsFound count ready 0 0 (busy + (2 * count - 1)) (0 + (busy + (2 * count - 1)))
      (connection (busy + (2 * count - 1)) count ready others 0 cursor) (omega arith) (omega arith)
      (connection_busy busy (busy + (2 * count - 1)) count j 0 cursor ready others small fits inside
        up (λ look h. calm look (omega arith)) refl)
