-- ===== src/Support/Format.antt =====
-- lib/stdio.cc: numbers as text, and the format strings of `printf`. A buffer that is written
-- through a moving pointer is the list of the bytes written so far.
pub mod Digits
pub mod Pieces
mod Tests
use shmily.Base.{
  ℕ, zero, suc, ◌+◌, ◌-◌, ◌*◌, ◌/◌, ◌%◌, ◌^◌, ◌≤◌, ◌<◌, Bool, true, false, not, Option, none, some,
  List, [], ◌∷◌, ◌++◌, ◌==◌, ltb, if◌then◌else◌, sub32,
}

unfoldable pub digit : ℕ → ℕ
digit remainder = if ltb remainder 10 then remainder + b'0' else remainder - 10 + b'A'

-- The recursion of `itoa`; 32 rounds are enough for every 32-bit number and every base from 2 on.
unfoldable pub itoa : ℕ → ℕ → List ℕ → ℕ → List ℕ
unfolding digit
itoa zero val buf base = buf
itoa (suc k) val buf base =
    let remainder = val % base in
    let multiples = val / base in
    let higher = itoa k multiples buf base in
    (if not (multiples == 0) then higher else buf) ++ (digit remainder ∷ [])

-- The bytes of the text at `p`, as `strcpy` and `strlen` see it.
unfoldable pub text_at : ℕ → (ℕ → ℕ) → ℕ → Option (List ℕ)
text_at zero m p = none
text_at (suc k) m p =
    let rest = text_at k m (p + 1) in
    if m p == 0 then some [] else elim rest [ none ↦ none | some cs ↦ some (m p ∷ cs) ]

-- `%d`: the argument is the pattern of an `int`.
unfoldable pub put_signed : ℕ → List ℕ → List ℕ
unfolding itoa
put_signed arg dst =
    if ltb arg (2 ^ 31) then itoa 32 arg dst 10 else itoa 32 (sub32 0 arg) (dst ++ b'-' ∷ []) 10

-- The loop of `vsprintf`, from the character at `src` on, with the next argument at index `arg` of
-- the words `args` on the stack. A `%` before any other character than `s`, `c`, `d` and `x` is
-- passed over, and the loop goes on with that character.
unfoldable pub vsprintf : ℕ → (ℕ → ℕ) → ℕ → (ℕ → ℕ) → ℕ → List ℕ → Option (List ℕ)
unfolding text_at put_signed
vsprintf zero m src args arg dst = none
vsprintf (suc k) m src args arg dst =
    let c = m src in
    let d = m (src + 1) in
    let plain = vsprintf k m (src + 1) args arg (dst ++ c ∷ []) in
    let text : Option (List ℕ) = elim (text_at k m (args arg)) [
      | none ↦ none
      | some cs ↦ vsprintf k m (src + 2) args (arg + 1) (dst ++ cs)
    ] in
    let char = vsprintf k m (src + 2) args (arg + 1) (dst ++ (args arg % 256) ∷ []) in
    let signed = vsprintf k m (src + 2) args (arg + 1) (put_signed (args arg) dst) in
    let hex = vsprintf k m (src + 2) args (arg + 1) (itoa 32 (args arg) dst 16) in
    let skip = vsprintf k m (src + 1) args arg dst in
    if c == 0
    then some dst
    else if not (c == b'%')
    then plain
    else if d == b's'
    then text
    else if d == b'c'
    then char
    else if d == b'd'
    then signed
    else if d == b'x'
    then hex
    else skip
