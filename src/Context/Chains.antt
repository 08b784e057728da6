-- ===== src/Context/Chains.antt =====
-- Which contexts of common/pole_ctx.go see a value that is written to one of them.
use pole.Prelude.{
  ℕ, ◌≤◌, Bool, true, false, ◌==◌, ◌&&◌, ◌||◌, not, Option, none, some, [], ◌∷◌, length, Text,
  lookup, insert, lookup-insert, str_eq, ◌≡◌, refl, ap, ◌∙◌, arith, inl, inr, if◌then◌else◌,
}
use pole.Prelude.Tests.{Bool-cases}
use pole.Context.{ContextPole, Contexts, from_parent, change, write_value, value_of}

module _ {V : Type 0} where
  abbrev pub has_key : Option (Option V) → Bool
  has_key none = false
  has_key (some v) = true

  -- Whether the context `c` is `d`, or the first above it that is reached by contexts without the key.
  unfoldable pub reaches : Text → ℕ → ℕ → Contexts V → Bool
  reaches key c d [] = false
  reaches key c d (ctx ∷ cs) =
      let here = reaches key c d cs in
      let above = from_parent ctx.parent false (λ p. reaches key c p cs) in
      if length cs == d then d == c || (not (has_key (lookup key ctx.values)) && above) else here

  pub length-change :
      (f : ContextPole V → ContextPole V) (c : ℕ) (cs : Contexts V)
      → length (change V f c cs) ≡ length cs
  unfolding change
  length-change f c [] = refl
  length-change f c (ctx ∷ cs) = ground (arith, length-change f c cs)

  -- A context that was not made is reached by none.
  unreached_parent :
      (key : Text) (c : ℕ) (o : Option ℕ) (cs : Contexts V)
      → ((p : ℕ) → reaches key c p cs ≡ false)
      → from_parent o false (λ p. reaches key c p cs) ≡ false
  unreached_parent key c none cs h = refl
  unreached_parent key c (some p) cs h = h p

  unreached :
      (key : Text) (c : ℕ) (cs : Contexts V) → length cs ≤ c → (d : ℕ) → reaches key c d cs ≡ false
  unfolding reaches
  unreached key c [] lt d = refl
  unreached key c (ctx ∷ cs) lt d =
      let rest = unreached key c cs (omega (arith, lt)) in
      ground (arith, lt, rest d, unreached_parent key c ctx.parent cs rest)

  written : Text → Option V → ContextPole V → ContextPole V
  written k v ctx = record ctx { values = insert k v ctx.values }

  write_here :
      (k : Text) (v : Option V) (c : ℕ) (ctx : ContextPole V) (cs : Contexts V)
      → (length cs == c) ≡ true
      → write_value V k v c (ctx ∷ cs) ≡ written k v ctx ∷ cs
  unfolding write_value change written
  write_here k v c ctx cs e = rw (e, change) refl

  write_below :
      (k : Text) (v : Option V) (c : ℕ) (ctx : ContextPole V) (cs : Contexts V)
      → (length cs == c) ≡ false
      → write_value V k v c (ctx ∷ cs) ≡ ctx ∷ write_value V k v c cs
  unfolding write_value change
  write_below k v c ctx cs e = rw (e, change) refl

  -- What a write changes at a context.
  Seen : Text → Text → Option V → ℕ → Contexts V → ℕ → Type 0
  Seen key k v c cs d =
      value_of V key d (write_value V k v c cs)
      ≡ (if str_eq k key && reaches key c d cs then v else value_of V key d cs)

  written_parent :
      (key k : Text) (v : Option V) (c : ℕ) (o : Option ℕ) (cs : Contexts V)
      → ((p : ℕ) → Seen key k v c cs p)
      → from_parent o none (λ p. value_of V key p (write_value V k v c cs)) ≡ (
          if str_eq k key && from_parent o false (λ p. reaches key c p cs)
          then v
          else from_parent o none (λ p. value_of V key p cs))
  unfolding Seen
  written_parent key k v c none cs h = ground arith
  written_parent key k v c (some p) cs h = h p

  written_here :
      (key k : Text) (v : Option V) (c : ℕ) (ctx : ContextPole V) (cs : Contexts V) (d : ℕ)
      → (length cs == c) ≡ true
      → value_of V key d (written k v ctx ∷ cs)
        ≡ (if str_eq k key && reaches key c d (ctx ∷ cs) then v else value_of V key d (ctx ∷ cs))
  unfolding value_of written reaches
  written_here key k v c ctx cs d e =
      ground (arith, e, lookup-insert k key v ctx.values, unreached key c cs (ground (arith, e)) d)

  written_below :
      (key k : Text) (v : Option V) (c : ℕ) (ctx : ContextPole V) (cs : Contexts V) (d : ℕ)
      → (length cs == c) ≡ false
      → ((p : ℕ) → Seen key k v c cs p)
      → value_of V key d (ctx ∷ write_value V k v c cs)
        ≡ (if str_eq k key && reaches key c d (ctx ∷ cs) then v else value_of V key d (ctx ∷ cs))
  unfolding value_of reaches Seen write_value
  written_below key k v c ctx cs d e h = ground (
    arith,
    e,
    h d,
    written_parent key k v c ctx.parent cs h,
    length-change (λ x. record x { values = insert k v x.values }) c cs,
  )

  -- After a write to a context, exactly those contexts have the new value for the key that are the context
  -- or reach it by parents without the key; every other value is what it was.
  pub value_of-write_value :
      (key k : Text) (v : Option V) (c : ℕ) (cs : Contexts V) (d : ℕ)
      → value_of V key d (write_value V k v c cs)
        ≡ (if str_eq k key && reaches key c d cs then v else value_of V key d cs)
  unfolding value_of write_value change reaches Seen
  value_of-write_value key k v c [] d = ground arith
  value_of-write_value key k v c (ctx ∷ cs) d = elim (Bool-cases (length cs == c)) [
    | inl e ↦ ap (value_of V key d) (write_here k v c ctx cs e) ∙ written_here key k v c ctx cs d e
    | inr e ↦
        ap (value_of V key d) (write_below k v c ctx cs e)
        ∙ written_below key k v c ctx cs d e (value_of-write_value key k v c cs)
  ]
