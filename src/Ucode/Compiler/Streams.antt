-- ===== src/Ucode/Compiler/Streams.antt =====
-- fpga/ucode/ucode.js: make_stream, the stream of a text's characters that tracks its place, and
-- next_token. A text is the list of its code points.
use u_fork.Prelude.{
  ℕ, ◌+◌, Bool, true, false, ◌&&◌, ◌==◌, leb, if◌then◌else◌, List, [], ◌∷◌, Option, none, some,
}
use Prim.Native.Char.{code}
use Prim.Native.String.{String}

-- The code points of a literal.
abbrev pub codes : String → List ℕ
codes String.[] = []
codes (String.◌∷◌ c s) = code c ∷ codes s

abbrev pub same : List ℕ → List ℕ → Bool
same [] [] = true
same [] (d ∷ ds) = false
same (c ∷ cs) [] = false
same (c ∷ cs) (d ∷ ds) = (c == d) && same cs ds

-- `pos` counts UTF-16 code units, `line` starts from 1.
pub record Place : Type 0 where
  pub pos : ℕ
  pub line : ℕ

pub record Stream : Type 0 where
  pub rest : List ℕ
  pub place : Place

abbrev pub make_stream : List ℕ → Stream
make_stream text = record { rest = text; place = record { pos = 0; line = 1 } }

-- The place behind a character.
unfoldable pub passed : ℕ → Place → Place
passed cp place = record {
  pos = place.pos + (if leb cp 0xFFFF then 1 else 2);
  line = place.line + (if cp == 10 then 1 else 0);
}

unfoldable pub next_char : Stream → Option ℕ × Stream
next_char stream = read stream.rest stream.place
  where
    read : List ℕ → Place → Option ℕ × Stream
    read [] place = (none, record { rest = []; place = place })
    read (cp ∷ rest) place = (some cp, record { rest = rest; place = passed cp place })

-- A token and the stream behind it.
pub record Lexed : Type 0 where
  pub token : List ℕ
  pub stream : Stream

-- "collect non-whitespace": the space behind the token is read, too.
unfoldable pub collect_token : List ℕ → Place → Lexed
collect_token [] place = record { token = []; stream = record { rest = []; place = place } }
collect_token (cp ∷ rest) place = elim (leb cp 32) [
  | true ↦ record { token = []; stream = record { rest = rest; place = passed cp place } }
  | false ↦
      let more = collect_token rest (passed cp place) in
      record { token = cp ∷ more.token; stream = more.stream }
]

-- "skip whitespace"
unfoldable pub skip_space : List ℕ → Place → Lexed
skip_space [] place = record { token = []; stream = record { rest = []; place = place } }
skip_space (cp ∷ rest) place = elim (leb cp 32) [
  | true ↦ skip_space rest (passed cp place)
  | false ↦ collect_token (cp ∷ rest) place
]

unfoldable pub next_token : Stream → Lexed
next_token stream = skip_space stream.rest stream.place
