-- ===== src/Log/Laws.antt =====
-- Which messages reach the handler.
use libnitrokey.Prelude.{ℕ, ◌≤◌, ◌≡◌, ◌<◌, ◌⊎◌, inl, inr, arith, none, some, ◌++◌}
use libnitrokey.Prelude.Int.{ℤ, pos, negsuc}
use libnitrokey.Prelude.Bytes.{Bytes}
use libnitrokey.Log.{Loglevel, error, level_number, level_of, Log, clamp, set_loglevel, print}

-- The level of the message is at most the number.
pub AtMost : Loglevel → ℤ → Type 0
AtMost lvl (pos n) = level_number lvl ≤ n
AtMost lvl (negsuc n) = ⊥

level_number-level_of : (n : ℕ) → n ≤ 5 → level_number (level_of n) ≡ n
unfolding level_number level_of
level_number-level_of n h = ground arith

level_number-le : (lvl : Loglevel) → level_number lvl ≤ 5
unfolding level_number
level_number-le lvl = ground arith

clamp-le : (loglevel : ℤ) → clamp loglevel ≤ 5
unfolding clamp
clamp-le (pos n) = omega arith
clamp-le (negsuc n) = omega arith

error_number : (lvl : Loglevel) → level_number lvl ≡ 0 → lvl ≡ error
unfolding level_number
error_number lvl h = ground arith

-- Whether a message is among those up to the number.
at_most :
    (loglevel : ℤ) (lvl : Loglevel)
    → AtMost lvl loglevel ⊎ (lvl ≡ error)
    → level_number lvl ≤ clamp loglevel
unfolding AtMost clamp
at_most (pos n) lvl (inl h) = omega (arith, level_number-le lvl)
at_most (negsuc n) lvl (inl h) = absurd h
at_most loglevel lvl (inr e) = rw e (unfold level_number in omega arith)

above :
    (loglevel : ℤ) (lvl : Loglevel)
    → (AtMost lvl loglevel → ⊥)
    → (lvl ≡ error → ⊥)
    → clamp loglevel < level_number lvl
unfolding AtMost clamp
above (pos n) lvl h e = ground (arith, h, level_number-le lvl)
above (negsuc n) lvl h e = ground (arith, e, error_number lvl)

printed :
    (h : ℕ) (logstr : Bytes) (lvl : Loglevel) (l : Log)
    → l.handler ≡ some h
    → level_number lvl ≤ level_number l.loglevel
    → print logstr lvl l ≡ some (record { handler = h; text = l.log_prefix ++ logstr; level = lvl })
unfolding print
printed h logstr lvl l e le = ground arith

dropped :
    (logstr : Bytes) (lvl : Loglevel) (l : Log)
    → level_number l.loglevel < level_number lvl
    → print logstr lvl l ≡ none
unfolding print
dropped logstr lvl l lt = ground arith

-- After `set_loglevel` with any number, a message is passed to the handler, behind the prefix and
-- with its level, when its level is at most that number or is `ERROR`, and else it is dropped.
pub print-set_loglevel :
    (loglevel : ℤ) (h : ℕ) (logstr : Bytes) (lvl : Loglevel) (l : Log)
    → l.handler ≡ some h
    → ((AtMost lvl loglevel ⊎ (lvl ≡ error))
        → print logstr lvl (set_loglevel loglevel l)
          ≡ some (record { handler = h; text = l.log_prefix ++ logstr; level = lvl }))
      × ((AtMost lvl loglevel → ⊥)
          → (lvl ≡ error → ⊥)
          → print logstr lvl (set_loglevel loglevel l) ≡ none)
unfolding set_loglevel
print-set_loglevel loglevel h logstr lvl l e =
    let level : level_number (level_of (clamp loglevel)) ≡ clamp loglevel =
      level_number-level_of (clamp loglevel) (clamp-le loglevel) in
    (
      (λ k. printed h logstr lvl (set_loglevel loglevel l) e (rw level (at_most loglevel lvl k))),
      (λ k j. dropped logstr lvl (set_loglevel loglevel l) (rw level (above loglevel lvl k j))),
    )
