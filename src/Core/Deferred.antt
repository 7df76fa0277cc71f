-- ===== src/Core/Deferred.antt =====
-- vm/js/core.js: when deferred callbacks are run.
use u_fork.Prelude.{
  ◌≡◌, refl, sym, ap, subst, ◌∙◌, Bool, true, false, List, [], ◌∷◌, ◌++◌, append_assoc,
  if◌then◌else◌, ℕ,
}
use u_fork.Prelude.Int.{ℤ}
use u_fork.Ufork.Raw.{to_uint32}
use u_fork.Core.Calls.{
  Outcome, Call, Core, returned, threw, goes_on, pure, ◌>>=◌, ◌>>◌, for_each, u_defer, begin_call,
  end_call, wrap_call, wrap_wasm_call,
}

append-empty : {A : Type 0} (xs : List A) → xs ++ [] ≡ xs
append-empty [] = refl
append-empty (x ∷ xs) = ap (λ r. x ∷ r) (append-empty xs)

-- What a sequence of two calls returned.
>>=-eq-returned :
    {S A B : Type 0} (m : Call S A) (f : A → Call S B) (s : S) {b : B} {s'' : S}
    → (m >>= f) s ≡ returned b s''
    → (a : A) × (s' : S) × (m s ≡ returned a s') × (f a s' ≡ returned b s'')
unfolding ◌>>=◌
>>=-eq-returned {S} {A} {B} m f s {b} {s''} h = from (m s) refl h
  where
    from :
        (o : Outcome S A)
        → m s ≡ o
        → goes_on f o ≡ returned b s''
        → (a : A) × (s' : S) × (m s ≡ returned a s') × (f a s' ≡ returned b s'')
    from (returned a s') e h = (a, s', e, h)
    from (threw s') e h = absurd (cc h)

pub state_of : {S A : Type 0} {a b : A} {s t : S} → returned a s ≡ returned b t → s ≡ t
state_of h = cc h

-- No call is in progress, and no callback waits.
pub record IsIdle {M C F : Type 0} (core : Core M C F) : Type 0 where
  pub no_call : core.wasm_call_in_progress ≡ false
  pub no_callback : core.deferred_queue ≡ []

-- A call from an idle core that returns leaves the core idle.
abbrev pub KeepsIdle : {M C F A : Type 0} → Call (Core M C F) A → Type 0
KeepsIdle {M} {C} {F} {A} call =
    (core core' : Core M C F) (a : A) → IsIdle core → call core ≡ returned a core' → IsIdle core'

goes_on-pure :
    {S : Type 0} (o : Outcome S (Unit {0})) (result : ℤ)
    → goes_on (λ r. pure (to_uint32 r)) (goes_on (λ _. pure result) o)
      ≡ goes_on (λ _. pure (to_uint32 result)) o
goes_on-pure (returned _ s) result = refl
goes_on-pure (threw s) result = refl

module _ {M C F : Type 0} where
  -- What an export does from one core to another that defers these callbacks: between the calls of
  -- `u_defer` it changes what it will, but the queue and the flag that a call is in progress.
  pub data Defers : Core M C F → List C → Core M C F → Type 0 where
    over : {core : Core M C F} → Defers core [] core
    changes :
        {core core1 core2 : Core M C F} {callbacks : List C}
        → core1.wasm_call_in_progress ≡ core.wasm_call_in_progress
        → core1.deferred_queue ≡ core.deferred_queue
        → Defers core1 callbacks core2
        → Defers core callbacks core2
    defers :
        {core core1 core2 : Core M C F} {callback : C} {callbacks : List C}
        → u_defer callback core ≡ returned tt core1
        → Defers core1 callbacks core2
        → Defers core (callback ∷ callbacks) core2

  u_defer_queue :
      (callback : C) (core core1 : Core M C F)
      → u_defer callback core ≡ returned tt core1
      → core1.deferred_queue ≡ core.deferred_queue ++ callback ∷ []
  unfolding u_defer
  u_defer_queue callback core core1 h = decided core.wasm_call_in_progress h
    where
      decided :
          (b : Bool)
          → (if b
              then returned tt
                  (record core { deferred_queue = core.deferred_queue ++ callback ∷ [] })
              else threw core)
            ≡ returned tt core1
          → core1.deferred_queue ≡ core.deferred_queue ++ callback ∷ []
      decided true h = ap (λ (c : Core M C F). c.deferred_queue) (sym (state_of h))
      decided false h = absurd (cc h)

  Defers-queue :
      {core core' : Core M C F} {callbacks : List C}
      → Defers core callbacks core'
      → core'.deferred_queue ≡ core.deferred_queue ++ callbacks
  Defers-queue {core} over = sym (append-empty core.deferred_queue)
  Defers-queue {core} {core'} {callbacks} (changes flag queue rest) =
      Defers-queue rest ∙ ap (λ cs. cs ++ callbacks) queue
  Defers-queue {core} (defers {core1} {callback = callback} {callbacks = callbacks} h rest) =
      Defers-queue rest
      ∙ ap (λ cs. cs ++ callbacks) (u_defer_queue callback core core1 h)
      ∙ append_assoc core.deferred_queue (callback ∷ []) callbacks

  -- Whatever an export that returns does to the rest of the core between the callbacks that it
  -- defers: they are run after it in their order, on the core that it left, with no call in
  -- progress and no callback waiting; then its result is returned, without a sign. The core was
  -- idle before.
  pub wrap_wasm_call-u_defer :
      (perform : C → Call (Core M C F) (Unit {0})) (export : Call (Core M C F) ℤ)
      (callbacks : List C) (result : ℤ) (core core' : Core M C F)
      → IsIdle core
      → export (record core { wasm_call_in_progress = true }) ≡ returned result core'
      → Defers (record core { wasm_call_in_progress = true }) callbacks core'
      → wrap_wasm_call perform export core
        ≡ (for_each perform callbacks >>= λ _. pure (to_uint32 result))
            (record core' { wasm_call_in_progress = false; deferred_queue = [] })
  unfolding wrap_wasm_call wrap_call ◌>>=◌ ◌>>◌ begin_call end_call
  wrap_wasm_call-u_defer perform export callbacks result core core' idle exported deferred =
      let after : Outcome (Core M C F) ℤ → Outcome (Core M C F) ℕ = λ o.
        goes_on (λ r. pure (to_uint32 r))
          (goes_on (λ r. end_call >>= λ cs. for_each perform cs >>= λ _. pure r) o) in
      let left = record core' { wasm_call_in_progress = false; deferred_queue = [] } in
      ap after exported
      ∙ goes_on-pure (for_each perform core'.deferred_queue left) result
      ∙ ap (λ cs. goes_on (λ _. pure (to_uint32 result)) (for_each perform cs left))
          (Defers-queue deferred ∙ ap (λ cs. cs ++ callbacks) idle.no_callback)

  for_each-KeepsIdle :
      (perform : C → Call (Core M C F) (Unit {0}))
      → ((callback : C) → KeepsIdle (perform callback))
      → (callbacks : List C) → KeepsIdle (for_each perform callbacks)
  unfolding for_each
  for_each-KeepsIdle perform keeps [] core core' a idle h = subst IsIdle (state_of h) idle
  for_each-KeepsIdle perform keeps (callback ∷ callbacks) core core' a idle h =
      let (_, core1, e1, h1) = >>=-eq-returned (perform callback) _ core h in
      for_each-KeepsIdle perform keeps callbacks core1 core' a
        (keeps callback core core1 tt idle e1) h1

  callbacks-IsIdle :
      (perform : C → Call (Core M C F) (Unit {0})) (core core' : Core M C F) (result result' : ℤ)
      → ((callback : C) → KeepsIdle (perform callback))
      → (end_call >>= λ callbacks. for_each perform callbacks >>= λ _. pure result) core
        ≡ returned result' core'
      → IsIdle core'
  unfolding end_call ◌>>=◌
  callbacks-IsIdle perform core core' result result' keeps h =
      let core1 : Core M C F = record core { wasm_call_in_progress = false; deferred_queue = [] } in
      let (a, core2, e2, h2) =
        >>=-eq-returned (for_each perform core.deferred_queue) (λ _. pure result) core1
          {b = result'} {s'' = core'} h in
      subst IsIdle (state_of h2) (
        for_each-KeepsIdle perform keeps core.deferred_queue core1 core2 a
          (record { no_call = refl; no_callback = refl }) e2)

  -- Whatever an export does: when the wrapped call returns, no call is in progress and no callback
  -- waits, if each callback leaves an idle core so.
  pub wrap_wasm_call-IsIdle :
      (perform : C → Call (Core M C F) (Unit {0})) (export : Call (Core M C F) ℤ)
      (core core' : Core M C F) (result : ℕ)
      → ((callback : C) → KeepsIdle (perform callback))
      → wrap_wasm_call perform export core ≡ returned result core'
      → IsIdle core'
  unfolding wrap_wasm_call wrap_call ◌>>◌
  wrap_wasm_call-IsIdle perform export core core' result keeps h =
      let (result32, core1, e1, h1) = >>=-eq-returned (wrap_call perform export) _ core h in
      let (_, core2, e2, h2) = >>=-eq-returned begin_call _ core e1 in
      let (given, core3, e3, h3) = >>=-eq-returned export _ core2 h2 in
      subst IsIdle (state_of h1) (callbacks-IsIdle perform core3 core1 given result32 keeps h3)
