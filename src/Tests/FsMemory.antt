-- ===== src/Tests/FsMemory.antt =====
-- vm/js/fs_memory.js on a file of four bytes.
use native.Mathlib.Decide.{ℕ_discrete}
use mathlib.Core.Option.{none-ne-some}
use u_fork.Prelude.{ℕ, ◌+◌, ◌≡◌, refl, true, false, [], ◌∷◌, Option, none, some, length, arith}
use u_fork.Prelude.Int.{pos, negsuc}
use u_fork.FsMemory.{
  Files, replies, fails, no_such_file, file_closed, bad_offset, no_files, store, bytes_of, read,
  write, seek, close, open_url, stat,
}
use u_fork.FsMemory.Calls.{opened, read_all, read_all-drop, write_explained, write_seek_read}
use u_fork.FsMemory.Handles.{
  World, IsReady, Grows, opens, writes, stays, goes_on, with_handle, Steps-IsReady,
}

abbrev files : Files ℕ
unfolding store no_files
files = store ℕ_discrete 7 (10 ∷ 11 ∷ 12 ∷ 13 ∷ []) no_files

abbrev href_of : ℕ → Option ℕ
href_of url = some (url + 5)

handle_runs :
    (open_url ℕ_discrete href_of true 2 files ≡ (replies (opened 7 0), files))
    × (open_url ℕ_discrete href_of false 3 files ≡ (fails no_such_file, files))
    × (stat href_of 2 files ≡ replies (some 4))
    × (stat href_of 4 files ≡ replies none)
    × (read 3 (opened 7 2) files ≡ (replies (some (12 ∷ 13 ∷ [])), opened 7 4))
    × (read 3 (opened 7 4) files ≡ (replies none, opened 7 4))
    × (seek (some (negsuc 4)) (opened 7 3) files ≡ (replies false, opened 7 0))
    × (seek (some (pos 9)) (opened 7 3) files ≡ (replies false, opened 7 4))
    × (seek none (opened 7 3) files ≡ (fails bad_offset, opened 7 3))
    × (read 1 (close (opened 7 3)) files ≡ (fails file_closed, close (opened 7 3)))
unfolding files ℕ_discrete open_url stat read seek close
handle_runs = (refl, refl, refl, refl, refl, refl, refl, refl, refl, refl)

read_all-drop_example : read_all 7 5 2 (opened 7 1) files ≡ some (11 ∷ 12 ∷ 13 ∷ [], opened 7 4)
unfolding files ℕ_discrete
read_all-drop_example = read_all-drop 7 5 2 1 files (omega arith) (omega arith) (omega arith)

write_explained_example :
    let (reply, h, files') = write ℕ_discrete (20 ∷ 21 ∷ []) (opened 7 3) files in
    (reply ≡ replies 2)
    × (h ≡ opened 7 5)
    × (bytes_of (files' 7) ≡ 10 ∷ 11 ∷ 12 ∷ 20 ∷ 21 ∷ [])
    × (length (bytes_of (files' 7)) ≡ 5)
    × (files' 8 ≡ none)
unfolding files ℕ_discrete
write_explained_example =
    write_explained 7 ℕ_discrete (20 ∷ 21 ∷ []) 3 files 8 (omega arith) (λ e. absurd (omega arith))

write_seek_read_example :
    let (_, h, files') = write ℕ_discrete (20 ∷ 21 ∷ []) (opened 7 1) files in
    let (found, h) = seek (some (pos 1)) h files' in
    (found ≡ replies true) × (read 2 h files' ≡ (replies (some (20 ∷ 21 ∷ [])), opened 7 3))
unfolding files ℕ_discrete
write_seek_read_example =
    write_seek_read 7 ℕ_discrete (20 ∷ 21 ∷ []) 1 files (omega arith) (omega arith) (omega arith)

abbrev start : World ℕ
start = record { files = files; handles = [] }

start-IsReady : IsReady start
start-IsReady i h e = absurd (none-ne-some h e)

-- The file is opened twice, and the first handle writes to it.
abbrev shared : World ℕ
unfolding files ℕ_discrete open_url
shared = record { files = files; handles = opened 7 0 ∷ opened 7 0 ∷ [] }

abbrev after_write : World ℕ
unfolding shared
after_write =
    with_handle 1 (write ℕ_discrete (20 ∷ []) (opened 7 0) files).1
      (write ℕ_discrete (20 ∷ []) (opened 7 0) files).2 shared

Steps-IsReady_example : IsReady after_write × Grows files after_write.files
unfolding after_write files ℕ_discrete open_url
Steps-IsReady_example =
    Steps-IsReady ℕ_discrete href_of {w = start} {w' = after_write} start-IsReady (
      goes_on (goes_on (goes_on stays (opens true 2)) (opens true 2))
        (writes 1 (20 ∷ []) (opened 7 0) refl))
