-- ===== src/Core.antt =====
-- vm/js/core.js: the core's memory by pointers, and lists of quads. The two banks are the arrays that
-- u_rom and u_ram take from the memory of the WebAssembly machine. Warnings are not modelled.
pub mod Pairs
pub mod Calls
pub mod Deferred
pub mod Host
use u_fork.Prelude.{
  ℕ, zero, suc, ◌+◌, Bool, ltb, ◌==◌, ◌&&◌, not, if◌then◌else◌, List, [], ◌∷◌, Option, none, some,
}
use u_fork.Prelude.Int.{ℤ, pos, negsuc}
use u_fork.Ufork.Constants.{
  undef_raw, instr_t, pair_t, free_t, vm_if, vm_jump, vm_end, quad_rom_max, quad_ram_max,
}
use u_fork.Ufork.Raw.{is_ram, is_rom, is_ptr, rawofs}
use u_fork.Ufork.Memory.{
  Completion, returns, throws, ◌>>=◌, Quad, Fields, read_quad, write_quad, defined,
}

pub record Banks : Type 0 where
  pub rom : List ℕ
  pub ram : List ℕ

unfoldable pub u_read_quad : Banks → ℕ → Completion (Option Quad)
u_read_quad banks ptr =
    if is_ram ptr
    then (if ltb (rawofs ptr) quad_ram_max then read_quad banks.ram (rawofs ptr) else returns none)
    else if is_rom ptr
    then (if ltb (rawofs ptr) quad_rom_max then read_quad banks.rom (rawofs ptr) else returns none)
    else returns none

abbrev pub with_ram : Banks → List ℕ → Completion Banks
with_ram banks ram = returns (record banks { ram = ram })

abbrev pub with_rom : Banks → List ℕ → Completion Banks
with_rom banks rom = returns (record banks { rom = rom })

unfoldable pub u_write_quad : Banks → ℕ → Fields → Completion Banks
u_write_quad banks ptr quad =
    if is_ram ptr
    then (if ltb (rawofs ptr) quad_ram_max
        then write_quad banks.ram (rawofs ptr) quad >>= with_ram banks
        else returns banks)
    else if is_rom ptr
    then (if ltb (rawofs ptr) quad_rom_max
        then write_quad banks.rom (rawofs ptr) quad >>= with_rom banks
        else returns banks)
    else returns banks

-- A field of `undefined`, the quad of a pointer out of bounds, throws.
unfoldable pub quad_at : Banks → ℕ → Completion Quad
quad_at banks ptr = u_read_quad banks ptr >>= defined

abbrev pub if_pair : Quad → Option Quad
if_pair quad = if quad.t == pair_t then some quad else none

-- The pair at a list's pointer, or `none` where u_nth returns `UNDEF_RAW`.
unfoldable pub pair_at : Banks → ℕ → Completion (Option Quad)
pair_at banks list_ptr =
    if not (is_ptr list_ptr)
    then returns none
    else (quad_at banks list_ptr >>= λ quad. returns (if_pair quad))

abbrev pub on_pair : (Quad → Completion ℕ) → Option Quad → Completion ℕ
on_pair f none = returns undef_raw
on_pair f (some pair) = f pair

-- u_nth of k + 1, and of -(k + 1).
unfoldable pub nth_car : Banks → ℕ → ℕ → Completion ℕ
nth_car banks zero list_ptr = pair_at banks list_ptr >>= on_pair (λ pair. returns pair.x)
nth_car banks (suc k) list_ptr = pair_at banks list_ptr >>= on_pair (λ pair. nth_car banks k pair.y)

unfoldable pub nth_cdr : Banks → ℕ → ℕ → Completion ℕ
nth_cdr banks zero list_ptr = pair_at banks list_ptr >>= on_pair (λ pair. returns pair.y)
nth_cdr banks (suc k) list_ptr = pair_at banks list_ptr >>= on_pair (λ pair. nth_cdr banks k pair.y)

unfoldable pub u_nth : Banks → ℕ → ℤ → Completion ℕ
u_nth banks list_ptr (pos zero) = returns list_ptr
u_nth banks list_ptr (pos (suc k)) = nth_car banks k list_ptr
u_nth banks list_ptr (negsuc k) = nth_cdr banks k list_ptr

abbrev pub next_of : Quad → ℕ
next_of quad =
    if quad.t == instr_t
    then (if not (quad.x == vm_if) && not (quad.x == vm_jump) && not (quad.x == vm_end)
        then quad.z
        else undef_raw)
    else if quad.t == pair_t
    then quad.y
    else quad.z

unfoldable pub u_next : Banks → ℕ → Completion ℕ
u_next banks ptr =
    if is_ptr ptr then (quad_at banks ptr >>= λ quad. returns (next_of quad)) else returns undef_raw

abbrev pub prepended : ℕ → Option (List ℕ) → Completion (Option (List ℕ))
prepended ptr none = returns none
prepended ptr (some ptrs) = returns (some (ptr ∷ ptrs))

-- On fuel: `none` if the traversal, which a cycle keeps from ending, goes on.
unfoldable pub u_flatten : ℕ → Banks → ℕ → Completion (Option (List ℕ))
u_flatten zero banks ptr = returns none
u_flatten (suc fuel) banks ptr =
    if is_ptr ptr && ltb free_t (rawofs ptr)
    then (u_next banks ptr >>= λ next. u_flatten fuel banks next >>= prepended ptr)
    else returns (some [])
