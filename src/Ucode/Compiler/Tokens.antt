-- ===== src/Ucode/Compiler/Tokens.antt =====
-- fpga/ucode/ucode.js: next_token takes the characters of a token from the text, none of them a line feed.
use u_fork.Prelude.{
  ℕ, suc, ◌+◌, ◌≤◌, ◌≡◌, refl, Bool, true, false, leb, ◌==◌, ◌==◌, List, [], ◌∷◌, length, arith,
}
use u_fork.Ucode.Compiler.Streams.{
  Place, passed, Stream, Lexed, collect_token, skip_space, next_token,
}
use u_fork.Ucode.Compiler.Lines.{IsLine, literal, IsLine-cons}

-- The characters of a token and those left behind it.
abbrev pub size : Lexed → ℕ
size lexed = length lexed.token + length lexed.stream.rest

collect_token-size : (rest : List ℕ) (place : Place) → size (collect_token rest place) ≤ length rest
unfolding collect_token
collect_token-size [] place = omega arith
collect_token-size (cp ∷ rest) place =
    collected (leb cp 32) (collect_token-size rest (passed cp place))
  where
    collected :
        (b : Bool)
        → size (collect_token rest (passed cp place)) ≤ length rest
        → size (elim b [
          | true ↦ record { token = []; stream = record { rest = rest; place = passed cp place } }
          | false ↦
              let more = collect_token rest (passed cp place) in
              record { token = cp ∷ more.token; stream = more.stream }
        ])
          ≤ suc (length rest)
    collected true h = omega arith
    collected false h = omega (arith, h)

skip_space-size : (rest : List ℕ) (place : Place) → size (skip_space rest place) ≤ length rest
unfolding skip_space
skip_space-size [] place = omega arith
skip_space-size (cp ∷ rest) place = skipped (leb cp 32) (skip_space-size rest (passed cp place))
  where
    skipped :
        (b : Bool)
        → size (skip_space rest (passed cp place)) ≤ length rest
        → size (elim b [
          | true ↦ skip_space rest (passed cp place)
          | false ↦ collect_token (cp ∷ rest) place
        ])
          ≤ suc (length rest)
    skipped true h = omega (arith, h)
    skipped false h = collect_token-size (cp ∷ rest) place

pub next_token-size : (s : Stream) → size (next_token s) ≤ length s.rest
unfolding next_token
next_token-size s = skip_space-size s.rest s.place

collect_token-IsLine : (rest : List ℕ) (place : Place) → IsLine (collect_token rest place).token
unfolding collect_token
collect_token-IsLine [] place = literal refl
collect_token-IsLine (cp ∷ rest) place =
    collected (leb cp 32) refl (collect_token-IsLine rest (passed cp place))
  where
    shown : (cp : ℕ) → leb cp 32 ≡ false → (cp == 10) ≡ false
    shown cp h = ground arith

    collected :
        (b : Bool)
        → leb cp 32 ≡ b
        → IsLine (collect_token rest (passed cp place)).token
        → IsLine
            (elim b as (λ _. Lexed) [
              | true ↦ record {
                token = [];
                stream = record { rest = rest; place = passed cp place };
              }
              | false ↦
                  let more = collect_token rest (passed cp place) in
                  record { token = cp ∷ more.token; stream = more.stream }
            ]).token
    collected true e h = literal refl
    collected false e h = IsLine-cons cp _ (shown cp e) h

skip_space-IsLine : (rest : List ℕ) (place : Place) → IsLine (skip_space rest place).token
unfolding skip_space
skip_space-IsLine [] place = literal refl
skip_space-IsLine (cp ∷ rest) place = skipped (leb cp 32) (skip_space-IsLine rest (passed cp place))
  where
    skipped :
        (b : Bool)
        → IsLine (skip_space rest (passed cp place)).token
        → IsLine
            (elim b as (λ _. Lexed) [
              | true ↦ skip_space rest (passed cp place)
              | false ↦ collect_token (cp ∷ rest) place
            ]).token
    skipped true h = h
    skipped false h = collect_token-IsLine (cp ∷ rest) place

pub next_token-IsLine : (s : Stream) → IsLine (next_token s).token
unfolding next_token
next_token-IsLine s = skip_space-IsLine s.rest s.place
