-- ===== src/Support/Format/Tests.antt =====
-- Tests of lib/stdio.cc: the format string "%d%c" stands at 100.
use shmily.Base.{ℕ, ◌^◌, ◌-◌, ◌≡◌, refl, List, [], ◌∷◌, some, arith, ◌==◌, if◌then◌else◌}
use shmily.Support.Text.{IsString}
use shmily.Support.Format.{digit, itoa, text_at, put_signed, vsprintf}
use shmily.Support.Format.Pieces.{Piece, dec, char, encode, Rendered, vsprintf-render}

abbrev pieces : List Piece
pieces = dec (2 ^ 32 - 42) ∷ char b'!' ∷ []

abbrev memory : ℕ → ℕ
memory a =
    if a == 100
    then b'%'
    else if a == 101
    then b'd'
    else if a == 102
    then b'%'
    else if a == 103
    then b'c'
    else 0

abbrev words : ℕ → ℕ
words i = if i == 0 then 2 ^ 32 - 42 else b'!'

format : IsString memory 100 (encode pieces)
format = (
  refl,
  λ e. absurd (omega arith),
  (
    refl,
    λ e. absurd (omega arith),
    (refl, λ e. absurd (omega arith), (refl, λ e. absurd (omega arith), refl)),
  ),
)

written : vsprintf 9 memory 100 words 0 [] ≡ some (b'-' ∷ b'4' ∷ b'2' ∷ b'!' ∷ [])
unfolding vsprintf put_signed itoa digit text_at
written = refl

vsprintf-render_example :
    (out : List ℕ) × (vsprintf 9 memory 100 words 0 [] ≡ some out) × Rendered pieces out
vsprintf-render_example =
    vsprintf-render memory words 1 9 100 0 pieces [] format (refl, omega arith, (refl, tt))
      (omega arith)
