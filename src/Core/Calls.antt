-- ===== src/Core/Calls.antt =====
-- vm/js/core.js: calls of the WebAssembly machine, and the callbacks that wait for their end. What
-- the machine's exports do is a parameter: an export is a call that may defer callbacks.
use Prim.Native.String.{String}
use u_fork.Prelude.{ℕ, Bool, true, false, List, [], ◌∷◌, ◌++◌, if◌then◌else◌}
use u_fork.Prelude.Int.{ℤ}
use u_fork.Ufork.Raw.{to_uint32}

-- What a call does to the state: it returns, or throws, and what it changed stays changed.
pub data Outcome (S A : Type 0) : Type 0 where
  returned : A → S → Outcome S A
  threw : S → Outcome S A

abbrev pub Call : Type 0 → Type 0 → Type 0
Call S A = S → Outcome S A

module _ {S : Type 0} where
  abbrev pub pure : {A : Type 0} → A → Call S A
  pure a s = returned a s

  abbrev pub throw : {A : Type 0} → Call S A
  throw s = threw s

  abbrev pub goes_on : {A B : Type 0} → (A → Call S B) → Outcome S A → Outcome S B
  goes_on f (returned a s) = f a s
  goes_on f (threw s) = threw s

  infixl 1 ◌>>=◌ ◌>>◌
  unfoldable pub ◌>>=◌ : {A B : Type 0} → Call S A → (A → Call S B) → Call S B
  (m >>= f) s = goes_on f (m s)

  unfoldable pub ◌>>◌ : {A B : Type 0} → Call S A → Call S B → Call S B
  m >> k = m >>= λ _. k

  -- `forEach` of an action.
  unfoldable pub for_each : {A : Type 0} → (A → Call S (Unit {0})) → List A → Call S (Unit {0})
  for_each action [] = pure tt
  for_each action (item ∷ items) = action item >>= λ _. for_each action items

-- The variables of make_core. `M` is the machine without its memory, `C` the callbacks, and `F` the
-- functions that devices give to the machine.
pub record Core (M C F : Type 0) : Type 0 where
  pub machine : M
  -- The bytes of the machine's memory, and where the two banks begin.
  pub memory : List ℕ
  pub initial_rom_ofs : ℕ
  pub initial_ram_ofs : ℕ
  pub boot_caps_dict : List (ℕ × ℕ)
  pub wasm_caps : List (String × F)
  pub on_dispose_callbacks : List C
  pub wasm_call_in_progress : Bool
  pub deferred_queue : List C

module _ {M C F : Type 0} where
  unfoldable pub u_defer : C → Call (Core M C F) (Unit {0})
  u_defer callback core =
      if core.wasm_call_in_progress
      then returned tt (record core { deferred_queue = core.deferred_queue ++ callback ∷ [] })
      else threw core

  unfoldable pub begin_call : Call (Core M C F) (Unit {0})
  begin_call core = returned tt (record core { wasm_call_in_progress = true })

  unfoldable pub end_call : Call (Core M C F) (List C)
  end_call core =
      returned core.deferred_queue
        (record core { wasm_call_in_progress = false; deferred_queue = [] })

  module _ (perform : C → Call (Core M C F) (Unit {0})) where
    -- An export whose result is not a number.
    unfoldable pub wrap_call : {A : Type 0} → Call (Core M C F) A → Call (Core M C F) A
    wrap_call export = do
      begin_call
      result ← export
      callbacks ← end_call
      for_each perform callbacks
      pure result

    -- `result >>> 0`
    unfoldable pub wrap_wasm_call : Call (Core M C F) ℤ → Call (Core M C F) ℕ
    wrap_wasm_call export = do result ← wrap_call export; pure (to_uint32 result)
