-- ===== src/Calls/Binds.antt =====
-- Chains of the interpreter's methods (fuel-vm/src/interpreter) that succeed,
-- and what holds after them.
use fuel_vm.Prelude.{◌≡◌, ap, ◌∙◌, subst}
use fuel_vm.Outcome.{Result, ok, err}
use fuel_vm.Calls.{Interpreter, Handler, pure, ◌>>=◌}

module _ {A B : Type 0} where
  unfoldable pub then_run : (A → Handler B) → Result A × Interpreter → Result B × Interpreter
  then_run f (r, s) = elim r [ ok a ↦ f a s | err e ↦ (err e, s) ]

  -- A step that succeeds, and the rest from its result
  pub bind_ok :
      (m : Handler A) (f : A → Handler B) (s : Interpreter) {a : A} {t : Interpreter}
      {r : Result B × Interpreter}
      → m s ≡ (ok a, t)
      → f a t ≡ r
      → (m >>= f) s ≡ r
  unfolding then_run
  bind_ok m f s e g = ap (then_run f) e ∙ g

abbrev pub Ended : {A : Type 0} → (A → Interpreter → Type 0) → Result A × Interpreter → Type 0
Ended P (ok a, t) = P a t
Ended P (err e, t) = Unit

-- If `m` succeeds from `s`, its value and the state satisfy `P`.
pub record Ends {A : Type 0} (P : A → Interpreter → Type 0) (m : Handler A) (s : Interpreter)
    : Type 0 where
  pub ends : Ended P (m s)

module _ {A B : Type 0} where
  ended :
      (P : A → Interpreter → Type 0) (Q : B → Interpreter → Type 0) (f : A → Handler B)
      (q : Result A × Interpreter)
      → Ended P q
      → ((a : A) (t : Interpreter) → P a t → Ends Q (f a) t)
      → Ended Q (then_run f q)
  unfolding then_run
  ended P Q f (ok a, t) h k = (k a t h).ends
  ended P Q f (err e, t) h k = tt

  pub Ends-bind :
      {P : A → Interpreter → Type 0} {Q : B → Interpreter → Type 0} {m : Handler A}
      {f : A → Handler B} {s : Interpreter}
      → Ends P m s
      → ((a : A) (t : Interpreter) → P a t → Ends Q (f a) t)
      → Ends Q (m >>= f) s
  unfolding then_run
  Ends-bind {P} {Q} {m} {f} {s} h k = record { ends = ended P Q f (m s) h.ends k }

pub Ends-ok :
    {A : Type 0} {P : A → Interpreter → Type 0} {m : Handler A} {s : Interpreter} {a : A}
    → Ends P m s
    → (m s).0 ≡ ok a
    → P a (m s).1
Ends-ok {A} {P} {m} {s} {a} h e = subst (λ (r : Result A). Ended P (r, (m s).1)) e h.ends

pub pure-Ends :
    {A : Type 0} {P : A → Interpreter → Type 0} (a : A) (s : Interpreter)
    → P a s
    → Ends P (pure a) s
pure-Ends a s h = record { ends = h }

weaker :
    {A : Type 0} (P Q : A → Interpreter → Type 0) (r : Result A × Interpreter)
    → ((a : A) (t : Interpreter) → P a t → Q a t)
    → Ended P r
    → Ended Q r
weaker P Q (ok a, t) h e = h a t e
weaker P Q (err x, t) h e = tt

pub Ends-map :
    {A : Type 0} {P Q : A → Interpreter → Type 0} {m : Handler A} {s : Interpreter}
    → ((a : A) (t : Interpreter) → P a t → Q a t)
    → Ends P m s
    → Ends Q m s
Ends-map {P = P} {Q = Q} {m = m} {s = s} h e = record { ends = weaker P Q (m s) h e.ends }
