-- ===== src/Ucode/Compiler/States.antt =====
-- fpga/ucode/ucode.js: what `compile` keeps while it reads a text, and how a step of it ends.
use u_fork.Prelude.{◌≡◌, refl, ℕ, zero, suc, Bool, false, ◌||◌, List, [], ◌∷◌, ◌++◌}
use u_fork.Ucode.Compiler.Streams.{Place, Stream}
use u_fork.Ucode.Compiler.Table.{Word}
use u_fork.Ucode.Compiler.Codes.{uc_is_auto}

-- The messages of the errors, with the names and numbers in them.
pub data Message : Type 0 where
  redefined_word : List ℕ → Message
  unused_word : List ℕ → Message
  invalid_data_allocation : Message
  invalid_constant : List ℕ → Message
  no_index_at : ℕ → Message
  exit_from_loop : ℕ → Message
  unknown_word : List ℕ → Message

pub record Error : Type 0 where
  pub message : Message
  pub place : Place

abbrev pub error : Stream → Message → Error
error stream message = record { message = message; place = stream.place }

-- `tail_ctx`
pub data Tail : Type 0 where
  tail_none : Tail
  tail_eval : Tail
  tail_call : Tail
  tail_data : Tail

-- `tail_ctx === TAIL_DATA`
abbrev pub if_data : {A : Type 0} → Tail → A → A → A
if_data tail_data first second = first
if_data tail_none first second = second
if_data tail_eval first second = second
if_data tail_call first second = second

pub if_data_cases :
    {A : Type 0} (Q : A → Type 0) (tail : Tail) (first second : A)
    → (tail ≡ tail_data → Q first)
    → Q second
    → Q (if_data tail first second)
if_data_cases Q tail_data first second h k = h refl
if_data_cases Q tail_none first second h k = k
if_data_cases Q tail_eval first second h k = k
if_data_cases Q tail_call first second h k = k

-- `ctrl_ctx` has its top first.
pub record State : Type 0 where
  pub stream : Stream
  pub prog : List ℕ
  pub ctrl_ctx : List ℕ
  pub tail_ctx : Tail
  pub words : List (List ℕ × Word)
  pub unused : List (List ℕ × Error)

-- `stuck` is a loop that is out of fuel.
pub data Outcome (A : Type 0) : Type 0 where
  done : A → Outcome A
  failed : Error → Outcome A
  thrown : Outcome A
  stuck : Outcome A

abbrev pub and_then : {A B : Type 0} → Outcome A → (A → Outcome B) → Outcome B
and_then (done a) next = next a
and_then (failed e) next = failed e
and_then thrown next = thrown
and_then stuck next = stuck

-- Of a step that ends with a state, the state has `Q`; `Stuck` is what being out of fuel means.
abbrev pub Ensures : {A : Type 0} → Type 0 → (A → Type 0) → Outcome A → Type 0
Ensures Stuck Q (done a) = Q a
Ensures Stuck Q (failed e) = Unit {0}
Ensures Stuck Q thrown = Unit {0}
Ensures Stuck Q stuck = Stuck

pub Ensures-and_then :
    {A B : Type 0} (Stuck : Type 0) (Q : A → Type 0) (R : B → Type 0) (o : Outcome A)
    (next : A → Outcome B)
    → Ensures Stuck Q o
    → ((a : A) → Q a → Ensures Stuck R (next a))
    → Ensures Stuck R (and_then o next)
Ensures-and_then Stuck Q R (done a) next h k = k a h
Ensures-and_then Stuck Q R (failed e) next h k = tt
Ensures-and_then Stuck Q R thrown next h k = tt
Ensures-and_then Stuck Q R stuck next h k = h

-- `ctrl_ctx.pop()`: from an empty stack `undefined`, which every use reads as 0.
abbrev pub top : List ℕ → ℕ
top [] = 0
top (word ∷ ctrl) = word

abbrev pub popped : List ℕ → List ℕ
popped [] = []
popped (word ∷ ctrl) = ctrl

-- `ctrl_ctx.some(uc_is_auto)`
abbrev pub some_auto : List ℕ → Bool
some_auto [] = false
some_auto (word ∷ ctrl) = uc_is_auto word || some_auto ctrl

-- `prog[addr] = word`: at the end it appends. Behind the end it leaves a hole, which is read as 0.
unfoldable pub store_at : ℕ → ℕ → List ℕ → List ℕ
store_at zero word [] = word ∷ []
store_at zero word (old ∷ prog) = word ∷ prog
store_at (suc addr) word [] = 0 ∷ store_at addr word []
store_at (suc addr) word (old ∷ prog) = old ∷ store_at addr word prog

-- `prog.push(word)`
unfoldable pub push : ℕ → List ℕ → List ℕ
push word prog = prog ++ word ∷ []

-- `prog.pop()`
unfoldable pub without_end : List ℕ → List ℕ
without_end [] = []
without_end (word ∷ []) = []
without_end (word ∷ next ∷ prog) = word ∷ without_end (next ∷ prog)
