-- ===== src/FsMemory/Calls.antt =====
-- vm/js/fs_memory.js: writes and reads of one open handle.
use u_fork.Prelude.{
  ℕ, zero, suc, ◌+◌, ◌-◌, ◌≤◌, ◌<◌, ◌^◌, ◌≡◌, ◌≢◌, refl, sym, ap, ◌∙◌, true, false, leb, ltb, [],
  ◌++◌, Option, none, some, length, take, drop, max, take-append-drop-length, length-take,
  length-drop, take-length_append, drop_all, drop-drop, ◌⊎◌, inl, inr, arith,
}
use u_fork.Prelude.Int.{pos}
use u_fork.FsMemory.{
  Bytes, Files, Handle, Reply, replies, fails, slice, store, bytes_of, read, write, seek,
}
use u_fork.FsMemory.Contents.{
  overwritten, overwritten_parts, drop-overwritten, length-overwritten, store_self, store_ne,
}

slice_length : (p size : ℕ) (file : Bytes) → slice file p (p + size) ≡ take size (drop p file)
unfolding slice
slice_length p size file = ap (λ n. take n (drop p file)) (omega arith)

-- An open handle.
abbrev pub opened : {Href : Type 0} → Href → ℕ → Handle Href
opened href position = record { href = href; position = position; is_open = true }

module _ {Href : Type 0} (href : Href) where
  pub read_more :
      (size p : ℕ) (files : Files Href)
      → p < length (bytes_of (files href))
      → read size (opened href p) files ≡ (
        replies (some (take size (drop p (bytes_of (files href))))),
        opened href (p + length (take size (drop p (bytes_of (files href))))),
      )
  unfolding read
  read_more size p files lt = rw (more p (length (bytes_of (files href))) lt) (
      ap (λ bytes. (replies (some bytes), opened href (p + length bytes)))
        (slice_length p size (bytes_of (files href))))
    where
      more : (a n : ℕ) → a < n → leb n a ≡ false
      more a n lt = ground arith

  pub read_end :
      (size p : ℕ) (files : Files Href)
      → length (bytes_of (files href)) ≤ p
      → read size (opened href p) files ≡ (replies none, opened href p)
  unfolding read
  read_end size p files le = rw (at_end p (length (bytes_of (files href))) le) refl
    where
      at_end : (a n : ℕ) → n ≤ a → leb n a ≡ true
      at_end a n le = ground arith

  seek_within :
      (offset p : ℕ) (files : Files Href)
      → offset < 2 ^ 53
      → offset ≤ length (bytes_of (files href))
      → seek (some (pos offset)) (opened href p) files ≡ (replies true, opened href offset)
  unfolding seek
  seek_within offset p files small le =
      rw (safe offset small) (rw (within offset (length (bytes_of (files href))) le) refl)
    where
      safe : (n : ℕ) → n < 2 ^ 53 → ltb n (2 ^ 53) ≡ true
      safe n lt = ground arith

      within : (a b : ℕ) → a ≤ b → ltb b a ≡ false
      within a b le = ground arith

  -- Reads of `size` bytes up to the end of the file, on fuel: `none` if it runs out.
  abbrev joined :
      Reply (Option Bytes)
      → Handle Href
      → Option (Bytes × Handle Href)
      → Option (Bytes × Handle Href)
  joined (fails e) h rest = none
  joined (replies none) h rest = some ([], h)
  joined (replies (some bytes)) h none = none
  joined (replies (some bytes)) h (some (rest, h')) = some (bytes ++ rest, h')

  abbrev pub read_all : ℕ → ℕ → Handle Href → Files Href → Option (Bytes × Handle Href)
  read_all zero size h files = none
  read_all (suc fuel) size h files =
      let (reply, h') = read size h files in
      let rest = read_all fuel size h' files in joined reply h' rest

  -- Successive reads of any size but 0 through an open handle reach the end of the file within as
  -- many calls as bytes are left, and one more; together they give the file from the position on.
  pub read_all-drop :
      (fuel size p : ℕ) (files : Files Href)
      → 0 < size
      → p ≤ length (bytes_of (files href))
      → length (bytes_of (files href)) - p < fuel
      → read_all fuel size (opened href p) files
        ≡ some (drop p (bytes_of (files href)), opened href (length (bytes_of (files href))))
  read_all-drop zero size p files some_size le enough = absurd (omega arith)
  read_all-drop (suc fuel) size p files some_size le enough = elim (cases p (length file) le) [
    | inl lt ↦
        let chunk = take size (drop p file) in
        let (some_left, fits) = progress p lt in
        rw (read_more size p files lt) (
          rw
            (read_all-drop fuel size (p + length chunk) files some_size fits
              (omega (arith, some_left)))
            (ap (λ r. some (r, opened href (length file)))
              (ap (λ r. chunk ++ r) (sym (drop-drop p (length chunk) file))
                ∙ take-append-drop-length size (drop p file))))
    | inr e ↦
        rw (read_end size p files (omega arith))
          (rw (drop_all p file (omega arith)) (ap (λ q. some ([], opened href q)) e))
  ]
    where
      file : Bytes
      file = bytes_of (files href)

      cases : (a b : ℕ) → a ≤ b → (a < b) ⊎ (a ≡ b)
      cases a b h = ground arith

      progress :
          (a : ℕ)
          → a < length file
          → (0 < length (take size (drop a file)))
            × (a + length (take size (drop a file)) ≤ length file)
      progress a lt = (
        omega (arith, length-take size (drop a file), length-drop a file),
        omega (arith, length-take size (drop a file), length-drop a file),
      )

  seek_read :
      (bytes rest : Bytes) (p q : ℕ) (files : Files Href) (file : Bytes)
      → files href ≡ some file
      → drop p file ≡ bytes ++ rest
      → p + length bytes ≤ length file
      → p < 2 ^ 53
      → 0 < length bytes
      → let (found, h) = seek (some (pos p)) (opened href q) files in
        (found ≡ replies true)
        × (read (length bytes) h files ≡ (replies (some bytes), opened href (p + length bytes)))
  seek_read bytes rest p q files file e d fits small some_bytes =
      let whole = ap bytes_of e in
      let size = ap length whole in
      rw (seek_within p q files small (omega arith)) (
        refl,
        rw (read_more (length bytes) p files (omega arith)) (
            ap (λ r. (replies (some r), opened href (p + length r)))
              (ap (λ f. take (length bytes) (drop p f)) whole
                ∙ (ap (take (length bytes)) d ∙ take-length_append bytes rest refl))),
      )

  module _ (href_discrete : (a b : Href) → Dec (a ≡ b)) where
    write_opened :
        (bytes : Bytes) (p : ℕ) (files : Files Href)
        → write href_discrete bytes (opened href p) files ≡ (
          replies (length bytes),
          opened href (p + length bytes),
          store href_discrete href (overwritten p bytes (bytes_of (files href))) files,
        )
    unfolding write
    write_opened bytes p files = refl

    -- A write through an open handle at a position within a file replaces the bytes from there
    -- on, lengthens the file if it must, replies their number and moves behind them; any other
    -- file stays as it was.
    pub write_explained :
        (bytes : Bytes) (p : ℕ) (files : Files Href) (other : Href)
        → p ≤ length (bytes_of (files href))
        → href ≢ other
        → let file = bytes_of (files href) in
          let (reply, h, files') = write href_discrete bytes (opened href p) files in
          let file' = bytes_of (files' href) in
          (reply ≡ replies (length bytes))
          × (h ≡ opened href (p + length bytes))
          × (file' ≡ take p file ++ (bytes ++ drop (p + length bytes) file))
          × (length file' ≡ max (length file) (p + length bytes))
          × (files' other ≡ files other)
    write_explained bytes p files other le ne = rw (write_opened bytes p files) (
        rw (store_self href_discrete href (overwritten p bytes (bytes_of (files href))) files) (
          refl,
          refl,
          overwritten_parts p bytes (bytes_of (files href)) le,
          omega (arith, length-overwritten p bytes (bytes_of (files href)) le),
          store_ne href_discrete (overwritten p bytes (bytes_of (files href))) files ne,
        ))

    -- What is written through an open handle, one byte at least and at a position within the file
    -- below 2^53, is read back after a seek to where it was written.
    pub write_seek_read :
        (bytes : Bytes) (p : ℕ) (files : Files Href)
        → p ≤ length (bytes_of (files href))
        → p < 2 ^ 53
        → 0 < length bytes
        → let (_, h, files') = write href_discrete bytes (opened href p) files in
          let (found, h) = seek (some (pos p)) h files' in
          (found ≡ replies true)
          × (read (length bytes) h files' ≡ (replies (some bytes), opened href (p + length bytes)))
    write_seek_read bytes p files le small some_bytes = rw (write_opened bytes p files) (
        seek_read bytes (drop (p + length bytes) file) p (p + length bytes)
          (store href_discrete href (overwritten p bytes file) files) (overwritten p bytes file)
          (store_self href_discrete href (overwritten p bytes file) files)
          (drop-overwritten p bytes file le) (omega (arith, length-overwritten p bytes file le))
          small some_bytes)
      where
        file : Bytes
        file = bytes_of (files href)
