-- ===== src/FsMemory/Handles.antt =====
-- vm/js/fs_memory.js: any sequence of calls on any number of handles, which share the files.
use u_fork.Prelude.{
  ℕ, zero, suc, ◌+◌, ◌-◌, ◌≤◌, ◌≡◌, refl, sym, ap, ◌∙◌, true, false, leb, Bool, List, [], ◌∷◌,
  Option, none, some, inl, inr, length, drop, set, get_elem?, length-take, length-drop,
  get_elem?-set_cases, if_cases, if_both, arith,
}
use mathlib.Core.Option.{none-ne-some}
use u_fork.Prelude.Int.{ℤ, pos, negsuc}
use u_fork.FsMemory.{
  Bytes, Files, Handle, Reply, replies, fails, store, bytes_of, contents, handle_at, read, write,
  seek, sought, close, open_file, open_href, open_url, slice, is_safe_integer,
}
use u_fork.FsMemory.Contents.{overwritten, length-overwritten, store_self, store_ne}

-- The files, and the handles that calls of `open` have returned.
pub record World (Href : Type 0) : Type 0 where
  pub files : Files Href
  pub handles : List (Handle Href)

sought_le : (ofs : ℤ) (size : ℕ) → (sought ofs size).0 ≤ size
unfolding sought
sought_le (negsuc n) size = omega arith
sought_le (pos n) size = ground arith

module _ {Href : Type 0} where
  -- A handle's file exists, and its position is within the file or at its end.
  abbrev pub Fits : Files Href → Handle Href → Type 0
  Fits files h = (bytes : Bytes) × (files h.href ≡ some bytes) × (h.position ≤ length bytes)

  abbrev pub IsReady : World Href → Type 0
  IsReady w = (i : ℕ) (h : Handle Href) → get_elem? w.handles i ≡ some h → Fits w.files h

  -- No file is lost or becomes shorter.
  abbrev pub Grows : Files Href → Files Href → Type 0
  Grows files files' =
      (href : Href) (bytes : Bytes)
      → files href ≡ some bytes
      → (bytes' : Bytes) × (files' href ≡ some bytes') × (length bytes ≤ length bytes')

  Grows-refl : (files : Files Href) → Grows files files
  Grows-refl files href bytes e = (bytes, e, omega arith)

  Fits-Grows :
      {files files' : Files Href} (h : Handle Href)
      → Grows files files'
      → Fits files h
      → Fits files' h
  Fits-Grows h grows (bytes, e, le) =
      let (bytes', e', longer) = grows h.href bytes e in (bytes', e', omega (arith, longer))

  read-Fits :
      (size : ℕ) (h : Handle Href) (files : Files Href)
      → Fits files h
      → Fits files (read size h files).1
  unfolding read slice
  read-Fits size h files (bytes, e, le) =
      if_cases (λ (r : Reply (Option Bytes) × Handle Href). Fits files r.1) h.is_open
        (λ _.
          if_cases (λ (r : Reply (Option Bytes) × Handle Href). Fits files r.1)
            (leb (length (contents h files)) h.position) (λ _. (bytes, e, le))
            (λ lt. (
              bytes,
              e,
              omega (
                arith,
                ap (λ o. length (bytes_of o)) e,
                length-take (h.position + size - h.position) (drop h.position (contents h files)),
                length-drop h.position (contents h files),
              ),
            )))
        (λ _. (bytes, e, le))

  seek-Fits :
      (offset : Option ℤ) (h : Handle Href) (files : Files Href)
      → Fits files h
      → Fits files (seek offset h files).1
  unfolding seek is_safe_integer
  seek-Fits none h files fits =
      if_both (λ (r : Reply Bool × Handle Href). Fits files r.1) h.is_open fits fits
  seek-Fits (some ofs) h files (bytes, e, le) =
      if_both (λ (r : Reply Bool × Handle Href). Fits files r.1) h.is_open
        (if_both (λ (r : Reply Bool × Handle Href). Fits files r.1) (is_safe_integer (some ofs))
          (
            bytes,
            e,
            omega
                (arith, sought_le ofs (length (contents h files)), ap (λ o. length (bytes_of o)) e),
          )
          (bytes, e, le))
        (bytes, e, le)

  -- The world behind a call of `open`, which may have returned a handle.
  abbrev pub with_opened : Reply (Handle Href) × Files Href → List (Handle Href) → World Href
  with_opened (replies h, files) handles = record { files = files; handles = h ∷ handles }
  with_opened (fails e, files) handles = record { files = files; handles = handles }

  abbrev pub with_handle : ℕ → Handle Href → Files Href → World Href → World Href
  with_handle i h files w = record { files = files; handles = set w.handles i h }

module _ {Href : Type 0} (href_discrete : (a b : Href) → Dec (a ≡ b)) where
  store-Grows :
      (href : Href) (new : Bytes) (files : Files Href)
      → ((bytes : Bytes) → files href ≡ some bytes → length bytes ≤ length new)
      → Grows files (store href_discrete href new files)
  store-Grows href new files longer other bytes e = elim (href_discrete href other) [
    | yes same ↦ (
      new,
      ap (store href_discrete href new files) (sym same) ∙ store_self href_discrete href new files,
      longer bytes (ap files same ∙ e),
    )
    | no ne ↦ (bytes, store_ne href_discrete new files ne ∙ e, omega arith)
  ]

  written : Bytes → Handle Href → Files Href → Bytes
  written bytes h files = overwritten h.position bytes (contents h files)

  write-Grows :
      (bytes : Bytes) (h : Handle Href) (files : Files Href)
      → Fits files h
      → Grows files (write href_discrete bytes h files).2
  unfolding write
  write-Grows bytes h files (file, e, le) =
      if_both (λ (r : Reply ℕ × Handle Href × Files Href). Grows files r.2) h.is_open
        (store-Grows h.href (overwritten h.position bytes (contents h files)) files (λ old e'.
          omega (
            arith,
            length-overwritten h.position bytes (contents h files)
                (omega (arith, ap (λ o. length (bytes_of o)) e)),
            ap (λ o. length (bytes_of o)) e',
          )))
        (Grows-refl files)

  write-Fits :
      (bytes : Bytes) (h : Handle Href) (files : Files Href)
      → Fits files h
      → Fits (write href_discrete bytes h files).2 (write href_discrete bytes h files).1
  unfolding write
  write-Fits bytes h files (file, e, le) =
      if_both (λ (r : Reply ℕ × Handle Href × Files Href). Fits r.2 r.1) h.is_open
        (
          overwritten h.position bytes (contents h files),
          store_self href_discrete h.href (overwritten h.position bytes (contents h files)) files,
          omega (
            arith,
            length-overwritten h.position bytes (contents h files)
                (omega (arith, ap (λ o. length (bytes_of o)) e)),
          ),
        )
        (file, e, le)

  open_file-Grows :
      (create : Bool) (href : Href) (found : Option Bytes) (files : Files Href)
      → files href ≡ found
      → Grows files (open_file href_discrete create href found files).1
  open_file-Grows create href (some bytes) files e = Grows-refl files
  open_file-Grows true href none files e =
      store-Grows href [] files (λ bytes e'. absurd (none-ne-some bytes (sym e ∙ e')))
  open_file-Grows false href none files e = Grows-refl files

  module _ {Url : Type 0} (href_of : Url → Option Href) where
    -- One call, of `open` or of a method of the handle `i`.
    pub data Step (w : World Href) : World Href → Type 0 where
      opens :
          (create : Bool) (url : Url)
          → Step w (with_opened (open_url href_discrete href_of create url w.files) w.handles)
      reads :
          (i size : ℕ) (h : Handle Href)
          → get_elem? w.handles i ≡ some h
          → Step w (with_handle i (read size h w.files).1 w.files w)
      writes :
          (i : ℕ) (bytes : Bytes) (h : Handle Href)
          → get_elem? w.handles i ≡ some h
          → Step w (
              with_handle i
                (write href_discrete bytes h w.files).1
                (write href_discrete bytes h w.files).2
                w)
      seeks :
          (i : ℕ) (offset : Option ℤ) (h : Handle Href)
          → get_elem? w.handles i ≡ some h
          → Step w (with_handle i (seek offset h w.files).1 w.files w)
      closes :
          (i : ℕ) (h : Handle Href)
          → get_elem? w.handles i ≡ some h
          → Step w (with_handle i (close h) w.files w)

    pub data Steps (w : World Href) : World Href → Type 0 where
      stays : Steps w w
      goes_on : {w' w'' : World Href} → Steps w w' → Step w' w'' → Steps w w''

  -- A new handle, or a handle's new state, that fits leaves the world ready.
  added_IsReady :
      (h : Handle Href) (files : Files Href) (w : World Href)
      → IsReady w
      → Grows w.files files
      → Fits files h
      → IsReady (record { files = files; handles = h ∷ w.handles })
  added_IsReady h files w ready grows fits zero h' e = rw (← replaced e) fits
    where
      replaced : some h ≡ some h' → h ≡ h'
      replaced p = ap (λ o. elim o [ none ↦ h | some a ↦ a ]) p
  added_IsReady h files w ready grows fits (suc i) h' e = Fits-Grows h' grows (ready i h' e)

  moved_IsReady :
      (i : ℕ) (h : Handle Href) (files : Files Href) (w : World Href)
      → IsReady w
      → Grows w.files files
      → Fits files h
      → IsReady (with_handle i h files w)
  moved_IsReady i h files w ready grows fits j h' e =
      elim (get_elem?-set_cases w.handles i j h h' e) [
        | inl same ↦ rw same fits
        | inr kept ↦ Fits-Grows h' grows (ready j h' kept)
      ]

  open_file-IsReady :
      (create : Bool) (href : Href) (found : Option Bytes) (w : World Href)
      → w.files href ≡ found
      → IsReady w
      → IsReady (with_opened (open_file href_discrete create href found w.files) w.handles)
  open_file-IsReady create href (some bytes) w e ready =
      added_IsReady (handle_at href) w.files w ready (Grows-refl w.files) (bytes, e, omega arith)
  open_file-IsReady true href none w e ready =
      added_IsReady (handle_at href) (store href_discrete href [] w.files) w ready
        (open_file-Grows true href none w.files e)
        ([], store_self href_discrete href [] w.files, omega arith)
  open_file-IsReady false href none w e ready = ready

  open_href-explained :
      (create : Bool) (found : Option Href) (w : World Href)
      → IsReady w
      → let opened = open_href href_discrete create found w.files in
        IsReady (with_opened opened w.handles) × Grows w.files opened.1
  open_href-explained create none w ready = (ready, Grows-refl w.files)
  open_href-explained create (some href) w ready = (
    open_file-IsReady create href (w.files href) w refl ready,
    open_file-Grows create href (w.files href) w.files refl,
  )

  with_opened-files :
      (opened : Reply (Handle Href) × Files Href) (handles : List (Handle Href))
      → (with_opened opened handles).files ≡ opened.1
  with_opened-files (replies h, files) handles = refl
  with_opened-files (fails e, files) handles = refl

  module _ {Url : Type 0} (href_of : Url → Option Href) where
    open_url-explained :
        (create : Bool) (url : Url) (w : World Href)
        → IsReady w
        → let opened = open_url href_discrete href_of create url w.files in
          IsReady (with_opened opened w.handles) × Grows w.files opened.1
    unfolding open_url
    open_url-explained create url w ready = open_href-explained create (href_of url) w ready

    Step-IsReady :
        {w w' : World Href} → IsReady w → Step href_of w w' → IsReady w' × Grows w.files w'.files
    unfolding close
    Step-IsReady {w} ready (opens create url) =
        let (ready', grows) = open_url-explained create url w ready in
        (
          ready',
          rw (with_opened-files (open_url href_discrete href_of create url w.files) w.handles)
              grows,
        )
    Step-IsReady {w} ready (reads i size h e) = (
      moved_IsReady i (read size h w.files).1 w.files w ready (Grows-refl w.files)
          (read-Fits size h w.files (ready i h e)),
      Grows-refl w.files,
    )
    Step-IsReady {w} ready (writes i bytes h e) = (
      moved_IsReady i (write href_discrete bytes h w.files).1
          (write href_discrete bytes h w.files).2 w ready
          (write-Grows bytes h w.files (ready i h e)) (write-Fits bytes h w.files (ready i h e)),
      write-Grows bytes h w.files (ready i h e),
    )
    Step-IsReady {w} ready (seeks i offset h e) = (
      moved_IsReady i (seek offset h w.files).1 w.files w ready (Grows-refl w.files)
          (seek-Fits offset h w.files (ready i h e)),
      Grows-refl w.files,
    )
    Step-IsReady {w} ready (closes i h e) = (
      moved_IsReady i (close h) w.files w ready (Grows-refl w.files) (ready i h e),
      Grows-refl w.files,
    )

    -- Whatever calls are made on whatever handles, in whatever order: from a ready world on, each
    -- handle's file exists and holds its position, and no file is lost or becomes shorter.
    pub Steps-IsReady :
        {w w' : World Href} → IsReady w → Steps href_of w w' → IsReady w' × Grows w.files w'.files
    Steps-IsReady {w} ready stays = (ready, Grows-refl w.files)
    Steps-IsReady {w} ready (goes_on {w' = middle} steps step) =
        let (ready', grows) = Steps-IsReady ready steps in
        let (ready'', grows') = Step-IsReady ready' step in
        (
          ready'',
          λ href bytes e.
              let (bytes', e', longer) = grows href bytes e in
              let (bytes'', e'', longer') = grows' href bytes' e' in
              (bytes'', e'', omega (arith, longer, longer')),
        )
