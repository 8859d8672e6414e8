-- ===== src/Support/Text/Tests.antt =====
-- Tests of lib/string.cc: at 0 stands the text "42", and at 10 the text "4".
use shmily.Base.{ℕ, ◌≡◌, refl, [], ◌∷◌, some, arith, ◌==◌, if◌then◌else◌}
use shmily.Support.Text.{string2int, IsString}
use shmily.Support.Text.Number.{string2int-decimal}

abbrev memory : ℕ → ℕ
memory a =
    if a == 0
    then b'4'
    else if a == 1
    then b'2'
    else if a == 10
    then b'4'
    else if a == 21
    then 7
    else if a == 22
    then 9
    else 0

text_42 : IsString memory 0 (b'4' ∷ b'2' ∷ [])
text_42 = (refl, λ e. absurd (omega arith), (refl, λ e. absurd (omega arith), refl))

text_4 : IsString memory 10 (b'4' ∷ [])
text_4 = (refl, λ e. absurd (omega arith), refl)

string2int-decimal_example : string2int 9 memory 0 ≡ some 42
string2int-decimal_example =
    string2int-decimal 9 memory 0 (b'4' ∷ b'2' ∷ []) text_42 (omega arith) (omega arith)
      (λ i h. (ground arith, ground arith))
