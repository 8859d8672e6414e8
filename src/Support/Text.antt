-- ===== src/Support/Text.antt =====
-- lib/string.h and lib/string.cc over memory, a function from addresses to bytes. The loops over a
-- text take rounds, and give `none` where these do not suffice.
pub mod Copy
pub mod Compare
pub mod Number
mod Tests
use shmily.Base.{
  ℕ, zero, suc, ◌+◌, ◌-◌, ◌*◌, ◌%◌, ◌^◌, ◌≤◌, ◌<◌, ◌≡◌, ◌≢◌, Bool, true, false, not, ◌&&◌, Option,
  none, some, List, [], ◌∷◌, ◌==◌, ltb, if◌then◌else◌, add32, sub32, mul32, minus_one, update,
}

unfoldable pub memcpy : ℕ → ℕ → ℕ → (ℕ → ℕ) → ℕ → ℕ
memcpy dst src zero m = m
memcpy dst src (suc cnt) m = memcpy (dst + 1) (src + 1) cnt (update m dst (m src))

unfoldable pub memset : ℕ → ℕ → ℕ → (ℕ → ℕ) → ℕ → ℕ
memset dst val zero m = m
memset dst val (suc cnt) m = memset (dst + 1) val cnt (update m dst val)

-- `while (*src) *dst++ = *src++;`: the NUL at the end is not copied.
unfoldable pub strcpy : ℕ → ℕ → ℕ → (ℕ → ℕ) → Option (ℕ → ℕ)
strcpy zero dst src m = none
strcpy (suc k) dst src m =
    let rest = strcpy k (dst + 1) (src + 1) (update m dst (m src)) in
    if m src == 0 then some m else rest

unfoldable pub strlen_from : ℕ → (ℕ → ℕ) → ℕ → ℕ → Option ℕ
strlen_from zero m str l = none
strlen_from (suc k) m str l =
    let rest = strlen_from k m (str + 1) (add32 l 1) in if m str == 0 then some l else rest

unfoldable pub strlen : ℕ → (ℕ → ℕ) → ℕ → Option ℕ
unfolding strlen_from
strlen fuel m str = strlen_from fuel m str 0

-- `true` for equal texts, unlike the function of that name in C.
unfoldable pub strcmp : ℕ → (ℕ → ℕ) → ℕ → ℕ → Option Bool
strcmp zero m str1 str2 = none
strcmp (suc k) m str1 str2 =
    let rest = strcmp k m (str1 + 1) (str2 + 1) in
    if not (m str1 == 0) && (not (m str2 == 0) && (m str1 == m str2))
    then rest
    else some ((m str1 == 0) && (m str2 == 0))

-- A `char` is signed: the pattern of the `int` that it is widened to.
abbrev pub widen : ℕ → ℕ
widen c = if ltb c 128 then c else c + 2 ^ 32 - 256

-- The loop of `string2int`: `i` counts down from the last digit, `t` is the weight.
unfoldable pub weigh : (ℕ → ℕ) → ℕ → ℕ → ℕ → ℕ → ℕ
weigh m buf zero t ret = ret
weigh m buf (suc i) t ret =
    weigh m buf i (mul32 t 10) (add32 ret (mul32 (sub32 (widen (m (buf + i))) 48) t))

-- `l` is an `int`: of a text of 2 ^ 31 bytes or more the loop reads nothing.
unfoldable pub string2int : ℕ → (ℕ → ℕ) → ℕ → Option ℕ
unfolding strlen weigh
string2int fuel m buf = elim (strlen fuel m buf) [
  | none ↦ none
  | some l ↦
      some (if l == minus_one then minus_one else if ltb l (2 ^ 31) then weigh m buf l 1 0 else 0)
]

-- At `p` stand the bytes `cs`, none of them NUL, and then a NUL.
abbrev pub IsString : (ℕ → ℕ) → ℕ → List ℕ → Type 0
IsString m p [] = m p ≡ 0
IsString m p (c ∷ cs) = (m p ≡ c) × (c ≢ 0) × IsString m (p + 1) cs
