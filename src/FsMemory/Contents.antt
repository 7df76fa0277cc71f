-- ===== src/FsMemory/Contents.antt =====
-- vm/js/fs_memory.js: what a write does to the bytes of the files.
use u_fork.Prelude.{
  ℕ, ◌+◌, ◌-◌, ◌≤◌, ◌≡◌, ◌≢◌, refl, ap, ◌∙◌, ◌++◌, some, length, take, drop, length-append,
  length-take, length-drop, take-length_append, drop-length_append, append_assoc, arith,
}
use u_fork.FsMemory.{Bytes, Files, slice, concat_bytes, store}

-- The bytes of a file once `bytes` are written at `position`.
abbrev pub overwritten : ℕ → Bytes → Bytes → Bytes
unfolding slice concat_bytes
overwritten position bytes file =
    concat_bytes (concat_bytes (slice file 0 position) bytes) (drop (position + length bytes) file)

slice_zero : (p : ℕ) (file : Bytes) → slice file 0 p ≡ take p file
unfolding slice
slice_zero p file = ap (λ n. take n file) (omega arith)

module _ (p : ℕ) (bytes file : Bytes) (h : p ≤ length file) where
  prefix_length : length (take p file) ≡ p
  prefix_length = omega (arith, length-take p file)

  pub overwritten_parts :
      overwritten p bytes file ≡ take p file ++ (bytes ++ drop (p + length bytes) file)
  unfolding concat_bytes slice
  overwritten_parts =
      ap (λ front. (front ++ bytes) ++ drop (p + length bytes) file) (slice_zero p file)
      ∙ append_assoc (take p file) bytes (drop (p + length bytes) file)

  pub take-overwritten : take p (overwritten p bytes file) ≡ take p file
  take-overwritten = rw overwritten_parts (take-length_append (take p file) _ prefix_length)

  pub drop-overwritten : drop p (overwritten p bytes file) ≡ bytes ++ drop (p + length bytes) file
  drop-overwritten = rw overwritten_parts (drop-length_append (take p file) _ prefix_length)

  pub length-overwritten :
      length (overwritten p bytes file) ≡ p + length bytes + (length file - (p + length bytes))
  length-overwritten = rw overwritten_parts (
      omega (
        arith,
        length-append (take p file) (bytes ++ drop (p + length bytes) file),
        length-append bytes (drop (p + length bytes) file),
        length-drop (p + length bytes) file,
        prefix_length,
      ))

module _ {Href : Type 0} (href_discrete : (a b : Href) → Dec (a ≡ b)) where
  pub store_self :
      (href : Href) (bytes : Bytes) (files : Files Href)
      → store href_discrete href bytes files href ≡ some bytes
  unfolding store
  store_self href bytes files =
      elim (href_discrete href href)
        as (λ d. elim d [ yes _ ↦ some bytes | no _ ↦ files href ] ≡ some bytes) [
          | yes _ ↦ refl
          | no n ↦ absurd (n refl)
        ]

  pub store_ne :
      {href other : Href} (bytes : Bytes) (files : Files Href)
      → href ≢ other
      → store href_discrete href bytes files other ≡ files other
  unfolding store
  store_ne {href} {other} bytes files ne =
      elim (href_discrete href other)
        as (λ d. elim d [ yes _ ↦ some bytes | no _ ↦ files other ] ≡ files other) [
          | yes e ↦ absurd (ne e)
          | no _ ↦ refl
        ]
