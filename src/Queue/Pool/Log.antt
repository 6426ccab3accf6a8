-- ===== src/Queue/Pool/Log.antt =====
-- What a log of calls says about the connections (the AMQP library, under common/queue).
use dice_server.Prelude.{
  ℕ, ◌≡◌, ◌⊎◌, inl, inr, refl, Bool, true, false, ◌||◌, List, [], ◌∷◌, ◌++◌, ◌==◌, arith,
}
use dice_server.Queue.Amqp.{Call, dialed, opened, closed}

abbrev pub dials : ℕ → Call → Bool
dials i (dialed j) = j == i
dials i (opened c j) = false
dials i (closed j) = false

abbrev pub closes : ℕ → Call → Bool
closes i (dialed j) = false
closes i (opened c j) = false
closes i (closed j) = j == i

abbrev pub any : (Call → Bool) → List Call → Bool
any p [] = false
any p (c ∷ cs) = p c || any p cs

abbrev pub was_dialed : ℕ → List Call → Bool
was_dialed i log = any (dials i) log

abbrev pub was_closed : ℕ → List Call → Bool
was_closed i log = any (closes i) log

pub any-append : (p : Call → Bool) (xs ys : List Call) → any p (xs ++ ys) ≡ any p xs || any p ys
any-append p [] ys = refl
any-append p (x ∷ xs) ys = ground (arith, any-append p xs ys)

-- From one log to a later one: what was closed stays so, and what is dialed is among `may_dial`.
pub record Extends (may_dial : ℕ → Bool) (log log' : List Call) : Type 0 where
  pub keeps : (i : ℕ) → was_closed i log ≡ true → was_closed i log' ≡ true
  pub dials_few :
      (i : ℕ) → was_dialed i log' ≡ true → (was_dialed i log ≡ true) ⊎ (may_dial i ≡ true)

abbrev pub nothing : ℕ → Bool
nothing i = false

pub Extends-refl : (p : ℕ → Bool) (log : List Call) → Extends p log log
Extends-refl p log = record { keeps = λ i h. h; dials_few = λ i h. inl h }

pub Extends-trans :
    (p : ℕ → Bool) (a b c : List Call) → Extends p a b → Extends nothing b c → Extends p a c
Extends-trans p a b c f g = record {
  keeps = λ i h. g.keeps i (f.keeps i h);
  dials_few = λ i h. elim (g.dials_few i h) [ inl e ↦ f.dials_few i e | inr e ↦ absurd (cc) ];
}

pub was_closed-append :
    (log : List Call) (call : Call) (i : ℕ)
    → was_closed i (log ++ call ∷ []) ≡ was_closed i log || closes i call
was_closed-append log call i = ground (arith, any-append (closes i) log (call ∷ []))

pub append-Extends :
    (p : ℕ → Bool) (log : List Call) (call : Call)
    → ((i : ℕ) → dials i call ≡ true → p i ≡ true)
    → Extends p log (log ++ call ∷ [])
append-Extends p log call few = record {
  keeps = λ i h. ground (arith, was_closed-append log call i);
  dials_few = λ i h. ground (arith, any-append (dials i) log (call ∷ []), few i);
}
