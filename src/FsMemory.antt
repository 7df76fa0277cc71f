-- ===== src/FsMemory.antt =====
-- vm/js/fs_memory.js (and lib/concat_bytes.js): files held in memory. A handle is the closure that
-- `open` returns; it has its own position, and all handles share the files. `new URL(url).href`
-- belongs to the platform and is a parameter.
pub mod Calls
pub mod Contents
pub mod Handles
use u_fork.Prelude.{
  ℕ, ◌+◌, ◌-◌, ◌≡◌, ◌≤◌, ◌^◌, Bool, true, false, ltb, leb, if◌then◌else◌, List, [], ◌++◌, Option,
  none, some, length, take, drop,
}
use u_fork.Prelude.Int.{ℤ, pos, negsuc}

abbrev pub Bytes : Type 0
Bytes = List ℕ

-- The errors that the requestors report.
pub data Error : Type 0 where
  bad_url : Error
  no_such_file : Error
  file_closed : Error
  bad_offset : Error

pub data Reply (A : Type 0) : Type 0 where
  replies : A → Reply A
  fails : Error → Reply A

unfoldable pub concat_bytes : Bytes → Bytes → Bytes
concat_bytes a b = a ++ b

-- `bytes.slice(from, to)` with no negative index.
unfoldable pub slice : Bytes → ℕ → ℕ → Bytes
slice bytes start end = take (end - start) (drop start bytes)

-- `Number.isSafeInteger` of a number that is an integer, or none for any other value.
unfoldable pub is_safe_integer : Option ℤ → Bool
is_safe_integer none = false
is_safe_integer (some (pos n)) = ltb n (2 ^ 53)
is_safe_integer (some (negsuc n)) = ltb (n + 1) (2 ^ 53)

-- Where `seek` puts the position, and whether the offset was within the file.
unfoldable pub sought : ℤ → ℕ → ℕ × Bool
sought (negsuc _) size = (0, false)
sought (pos offset) size = if ltb size offset then (size, false) else (offset, true)

-- `Href` is the type of hrefs; `none` is the `undefined` of a missing file.
abbrev pub Files : Type 0 → Type 0
Files Href = Href → Option Bytes

unfoldable pub no_files : {Href : Type 0} → Files Href
no_files href = none

pub record Handle (Href : Type 0) : Type 0 where
  pub href : Href
  pub position : ℕ
  pub is_open : Bool

-- The bytes of a file; a handle's file exists, and a missing one is read as an empty one here.
abbrev pub bytes_of : Option Bytes → Bytes
bytes_of none = []
bytes_of (some bytes) = bytes

module _ {Href : Type 0} where
  abbrev pub contents : Handle Href → Files Href → Bytes
  contents h files = bytes_of (files h.href)

  abbrev pub handle_at : Href → Handle Href
  handle_at href = record { href = href; position = 0; is_open = true }

  module _ {Url : Type 0} (href_of : Url → Option Href) where
    -- `false` is `none`, and a file's size is `some`.
    unfoldable pub stat : Url → Files Href → Reply (Option ℕ)
    stat file_url files = elim (href_of file_url) [
      | none ↦ fails bad_url
      | some href ↦ elim (files href) [
        | none ↦ replies none
        | some bytes ↦ replies (some (length bytes))
      ]
    ]

  -- The end of the file is `none`. A size is not negative.
  unfoldable pub read : ℕ → Handle Href → Files Href → Reply (Option Bytes) × Handle Href
  unfolding slice
  read size h files =
      let file = contents h files in
      let bytes = slice file h.position (h.position + size) in
      if h.is_open
      then (if leb (length file) h.position
          then (replies none, h)
          else (replies (some bytes), record h { position = h.position + length bytes }))
      else (fails file_closed, h)

  unfoldable pub seek : Option ℤ → Handle Href → Files Href → Reply Bool × Handle Href
  unfolding is_safe_integer sought
  seek offset h files =
      if h.is_open
      then (if is_safe_integer offset
          then seek_to offset h (length (contents h files))
          else (fails bad_offset, h))
      else (fails file_closed, h)
    where
      seek_to : Option ℤ → Handle Href → ℕ → Reply Bool × Handle Href
      seek_to none h size = (fails bad_offset, h)
      seek_to (some ofs) h size =
          (replies (sought ofs size).1, record h { position = (sought ofs size).0 })

  unfoldable pub close : Handle Href → Handle Href
  close h = record h { is_open = false }

module _ {Href : Type 0} (href_discrete : (a b : Href) → Dec (a ≡ b)) where
  unfoldable pub store : Href → Bytes → Files Href → Files Href
  store href bytes files other = elim (href_discrete href other) [
    | yes _ ↦ some bytes
    | no _ ↦ files other
  ]

  unfoldable pub write : Bytes → Handle Href → Files Href → Reply ℕ × Handle Href × Files Href
  unfolding store concat_bytes slice
  write bytes h files =
      let file = contents h files in
      if h.is_open
      then (
        replies (length bytes),
        record h { position = h.position + length bytes },
        store h.href
            (concat_bytes (concat_bytes (slice file 0 h.position) bytes)
              (drop (h.position + length bytes) file))
            files,
      )
      else (fails file_closed, h, files)

  abbrev pub open_file : Bool → Href → Option Bytes → Files Href → Reply (Handle Href) × Files Href
  open_file create href (some bytes) files = (replies (handle_at href), files)
  open_file true href none files = (replies (handle_at href), store href [] files)
  open_file false href none files = (fails no_such_file, files)

  abbrev pub open_href : Bool → Option Href → Files Href → Reply (Handle Href) × Files Href
  open_href create none files = (fails bad_url, files)
  open_href create (some href) files = open_file create href (files href) files

  module _ {Url : Type 0} (href_of : Url → Option Href) where
    unfoldable pub open_url : Bool → Url → Files Href → Reply (Handle Href) × Files Href
    unfolding store
    open_url create file_url files = open_href create (href_of file_url) files
