-- ===== src/Context/Cancelling.antt =====
-- Which contexts of common/pole_ctx.go are done after one of them is cancelled.
use pole.Prelude.{
  ℕ, ◌≤◌, Bool, true, false, ◌==◌, ◌||◌, Option, none, some, [], ◌∷◌, length, ◌≡◌, refl, ap, ◌∙◌,
  arith, inl, inr, if◌then◌else◌,
}
use pole.Prelude.Tests.{Bool-cases}
use pole.Context.{ContextPole, Contexts, from_parent, change, cancel, is_done}
use pole.Context.Chains.{length-change}

module _ {V : Type 0} where
  -- Whether the context `c` is `d` or is above it.
  unfoldable pub is_under : ℕ → ℕ → Contexts V → Bool
  is_under c d [] = false
  is_under c d (ctx ∷ cs) =
      let here = is_under c d cs in
      let above = from_parent ctx.parent false (λ p. is_under c p cs) in
      if length cs == d then d == c || above else here

  not_under_parent :
      (c : ℕ) (o : Option ℕ) (cs : Contexts V)
      → ((p : ℕ) → is_under c p cs ≡ false)
      → from_parent o false (λ p. is_under c p cs) ≡ false
  not_under_parent c none cs h = refl
  not_under_parent c (some p) cs h = h p

  not_under : (c : ℕ) (cs : Contexts V) → length cs ≤ c → (d : ℕ) → is_under c d cs ≡ false
  unfolding is_under
  not_under c [] lt d = refl
  not_under c (ctx ∷ cs) lt d =
      let rest = not_under c cs (omega (arith, lt)) in
      ground (arith, lt, rest d, not_under_parent c ctx.parent cs rest)

  cancel_here :
      (c : ℕ) (ctx : ContextPole V) (cs : Contexts V)
      → (length cs == c) ≡ true
      → cancel V c (ctx ∷ cs) ≡ record ctx { cancelled = true } ∷ cs
  unfolding cancel change
  cancel_here c ctx cs e = rw (e, change) refl

  cancel_below :
      (c : ℕ) (ctx : ContextPole V) (cs : Contexts V)
      → (length cs == c) ≡ false
      → cancel V c (ctx ∷ cs) ≡ ctx ∷ cancel V c cs
  unfolding cancel change
  cancel_below c ctx cs e = rw (e, change) refl

  done_parent :
      (c : ℕ) (o : Option ℕ) (cs : Contexts V)
      → ((p : ℕ) → is_done V p (cancel V c cs) ≡ (is_done V p cs || is_under c p cs))
      → from_parent o false (λ p. is_done V p (cancel V c cs))
        ≡ (from_parent o false (λ p. is_done V p cs) || from_parent o false (λ p. is_under c p cs))
  done_parent c none cs h = refl
  done_parent c (some p) cs h = h p

  done_here :
      (c : ℕ) (ctx : ContextPole V) (cs : Contexts V) (d : ℕ)
      → (length cs == c) ≡ true
      → is_done V d (record ctx { cancelled = true } ∷ cs)
        ≡ (is_done V d (ctx ∷ cs) || is_under c d (ctx ∷ cs))
  unfolding is_done is_under
  done_here c ctx cs d e = ground (arith, e, not_under c cs (ground (arith, e)) d)

  done_below :
      (c : ℕ) (ctx : ContextPole V) (cs : Contexts V) (d : ℕ)
      → (length cs == c) ≡ false
      → ((p : ℕ) → is_done V p (cancel V c cs) ≡ (is_done V p cs || is_under c p cs))
      → is_done V d (ctx ∷ cancel V c cs) ≡ (is_done V d (ctx ∷ cs) || is_under c d (ctx ∷ cs))
  unfolding is_done is_under cancel
  done_below c ctx cs d e h = ground (
    arith,
    e,
    h d,
    done_parent c ctx.parent cs h,
    length-change (λ x. record x { cancelled = true }) c cs,
  )

  -- After a cancellation exactly those contexts are done that were, or that are the cancelled context
  -- or below it.
  pub is_done-cancel :
      (c : ℕ) (cs : Contexts V) (d : ℕ)
      → is_done V d (cancel V c cs) ≡ (is_done V d cs || is_under c d cs)
  unfolding is_done is_under cancel change
  is_done-cancel c [] d = refl
  is_done-cancel c (ctx ∷ cs) d = elim (Bool-cases (length cs == c)) [
    | inl e ↦ ap (is_done V d) (cancel_here c ctx cs e) ∙ done_here c ctx cs d e
    | inr e ↦
        ap (is_done V d) (cancel_below c ctx cs e) ∙ done_below c ctx cs d e (is_done-cancel c cs)
  ]
