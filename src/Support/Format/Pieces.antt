-- ===== src/Support/Format/Pieces.antt =====
-- What a format string means, and that `vsprintf` writes that.
use mathlib.Core.List.{append_assoc, append-nil}
use shmily.Base.{
  ◌-◌, ◌^◌, refl, ap, ◌∙◌, true, false, ltb, if◌then◌else◌, sub32, dec_lt, ℕ, zero, suc, ◌+◌, ◌%◌,
  ◌<◌, ◌≡◌, ◌≢◌, List, [], ◌∷◌, ◌++◌, some, arith, ==_iff, ==_ne, length,
}
use shmily.Support.Text.{IsString}
use shmily.Support.Format.Digits.{Writes, itoa-Writes}
use shmily.Support.Format.{itoa, text_at, put_signed, vsprintf}

pub data Piece : Type 0 where
  lit : ℕ → Piece
  text : List ℕ → Piece
  char dec hex : ℕ → Piece

-- The characters of the format string.
abbrev pub encode : List Piece → List ℕ
encode [] = []
encode (lit c ∷ ps) = c ∷ encode ps
encode (text cs ∷ ps) = b'%' ∷ b's' ∷ encode ps
encode (char w ∷ ps) = b'%' ∷ b'c' ∷ encode ps
encode (dec w ∷ ps) = b'%' ∷ b'd' ∷ encode ps
encode (hex w ∷ ps) = b'%' ∷ b'x' ∷ encode ps

-- The sign and the absolute value of an `int` with the pattern `w`, in two's complement.
abbrev pub sign : ℕ → List ℕ
sign w = if ltb w (2 ^ 31) then [] else b'-' ∷ []

abbrev pub magnitude : ℕ → ℕ
magnitude w = if ltb w (2 ^ 31) then w else 2 ^ 32 - w

-- `out` is what the pieces mean: a `%d` stands for the decimal digits of the number, with a minus
-- if it is negative, and a `%x` for the hexadecimal digits of the word.
abbrev pub Rendered : List Piece → List ℕ → Type 0
Rendered [] out = out ≡ []
Rendered (lit c ∷ ps) out = (rest : List ℕ) × (out ≡ c ∷ rest) × Rendered ps rest
Rendered (text cs ∷ ps) out = (rest : List ℕ) × (out ≡ cs ++ rest) × Rendered ps rest
Rendered (char w ∷ ps) out = (rest : List ℕ) × (out ≡ w % 256 ∷ rest) × Rendered ps rest
Rendered (dec w ∷ ps) out =
    (cs rest : List ℕ) × (out ≡ (sign w ++ cs) ++ rest)
    × Writes 10 (magnitude w) cs
    × Rendered ps rest
Rendered (hex w ∷ ps) out =
    (cs rest : List ℕ) × (out ≡ cs ++ rest) × Writes 16 w cs × Rendered ps rest

-- The words on the stack are those of the pieces, in order; a number has 32 bits, and a text fewer
-- than `room` bytes.
abbrev pub Supplied : (ℕ → ℕ) → (ℕ → ℕ) → ℕ → ℕ → List Piece → Type 0
Supplied m args room arg [] = Unit {0}
Supplied m args room arg (lit c ∷ ps) = (c ≢ b'%') × Supplied m args room arg ps
Supplied m args room arg (text cs ∷ ps) =
    IsString m (args arg) cs × (length cs < room) × Supplied m args room (arg + 1) ps
Supplied m args room arg (char w ∷ ps) = (args arg ≡ w) × Supplied m args room (arg + 1) ps
Supplied m args room arg (dec w ∷ ps) =
    (args arg ≡ w) × (w < 2 ^ 32) × Supplied m args room (arg + 1) ps
Supplied m args room arg (hex w ∷ ps) =
    (args arg ≡ w) × (w < 2 ^ 32) × Supplied m args room (arg + 1) ps

text_at-IsString :
    (fuel : ℕ) (m : ℕ → ℕ) (p : ℕ) (cs : List ℕ)
    → IsString m p cs
    → length cs < fuel
    → text_at fuel m p ≡ some cs
unfolding text_at
text_at-IsString zero m p cs s f = absurd (omega arith)
text_at-IsString (suc k) m p [] s f = rw ((==_iff (m p) 0).1 s)
text_at-IsString (suc k) m p (c ∷ cs) s f = ground (arith, text_at-IsString k m (p + 1) cs s.2)

put_signed-Writes :
    (w : ℕ) (dst : List ℕ)
    → w < 2 ^ 32
    → (cs : List ℕ) × (put_signed w dst ≡ dst ++ (sign w ++ cs)) × Writes 10 (magnitude w) cs
unfolding put_signed
put_signed-Writes w dst h = elim (dec_lt w (2 ^ 31)) [
  | yes lt ↦
      let test : ltb w (2 ^ 31) ≡ true = ground arith in
      rw test (itoa-Writes 32 w 10 dst (omega arith) (omega arith) (omega arith) h)
  | no ge ↦
      let test : ltb w (2 ^ 31) ≡ false = ground arith in
      let size : sub32 0 w ≡ 2 ^ 32 - w = omega arith in
      let (cs, e, written) =
        itoa-Writes 32 (2 ^ 32 - w) 10 (dst ++ b'-' ∷ []) (omega arith) (omega arith) (omega arith)
          (omega arith) in
      rw (test, size) (cs, e ∙ append_assoc dst (b'-' ∷ []) cs, written)
]

module _ (m args : ℕ → ℕ) (room : ℕ) where
  -- The string behind a `%` and the character that follows it.
  behind : (src d : ℕ) (cs : List ℕ) → IsString m src (b'%' ∷ d ∷ cs) → IsString m (src + 2) cs
  behind src d cs s = let e : src + 1 + 1 ≡ src + 2 = omega arith in rw e at s.2.2

  -- With more rounds than the format string has bytes and any text among the arguments, together,
  -- and arguments of 32 bits, `vsprintf` returns, and what it writes behind `dst` is what the
  -- pieces of the format string mean with the words on the stack: a character, other than `%`, or a
  -- text as it is, for `%d` the decimal digits of the word as a signed number, with `-` in front of
  -- a negative one, and for `%x` its hexadecimal digits, both with no zero in front of another
  -- digit.
  pub vsprintf-render :
      (fuel src arg : ℕ) (ps : List Piece) (dst : List ℕ)
      → IsString m src (encode ps)
      → Supplied m args room arg ps
      → length (encode ps) + room < fuel
      → (out : List ℕ) × (vsprintf fuel m src args arg dst ≡ some (dst ++ out)) × Rendered ps out
  unfolding vsprintf
  vsprintf-render zero src arg ps dst s a f = absurd (omega arith)
  vsprintf-render (suc k) src arg [] dst s a f =
      ([], rw ((==_iff (m src) 0).1 s, append-nil dst) refl, refl)
  vsprintf-render (suc k) src arg (lit c ∷ ps) dst s a f =
      let (out, e, means) =
        vsprintf-render k (src + 1) arg ps (dst ++ c ∷ []) s.2 a.1 (omega arith) in
      (
        c ∷ out,
        rw (s.0, ==_ne c 0 s.1, ==_ne c b'%' a.0) (e ∙ ap some (append_assoc dst (c ∷ []) out)),
        (out, refl, means),
      )
  vsprintf-render (suc k) src arg (text cs ∷ ps) dst s a f =
      let (out, e, means) =
        vsprintf-render k (src + 2) (arg + 1) ps (dst ++ cs) (behind src b's' (encode ps) s) a.2
          (omega arith) in
      (
        cs ++ out,
        rw (s.0, s.2.0, text_at-IsString k m (args arg) cs a.0 (omega (arith, a.1)))
            (e ∙ ap some (append_assoc dst cs out)),
        (out, refl, means),
      )
  vsprintf-render (suc k) src arg (char w ∷ ps) dst s a f =
      let (out, e, means) =
        vsprintf-render k (src + 2) (arg + 1) ps (dst ++ (w % 256) ∷ [])
          (behind src b'c' (encode ps) s) a.1 (omega arith) in
      (
        w % 256 ∷ out,
        rw (s.0, s.2.0, a.0) (e ∙ ap some (append_assoc dst (w % 256 ∷ []) out)),
        (out, refl, means),
      )
  vsprintf-render (suc k) src arg (dec w ∷ ps) dst s a f =
      let (cs, put, written) = put_signed-Writes w dst a.1 in
      let (out, e, means) =
        vsprintf-render k (src + 2) (arg + 1) ps (put_signed w dst) (behind src b'd' (encode ps) s)
          a.2 (omega arith) in
      (
        (sign w ++ cs) ++ out,
        rw (s.0, s.2.0, a.0)
            (e ∙ ap (λ t. some (t ++ out)) put ∙ ap some (append_assoc dst (sign w ++ cs) out)),
        (cs, out, refl, written, means),
      )
  vsprintf-render (suc k) src arg (hex w ∷ ps) dst s a f =
      let (cs, put, written) =
        itoa-Writes 32 w 16 dst (omega arith) (omega arith) (omega arith) a.1 in
      let (out, e, means) =
        vsprintf-render k (src + 2) (arg + 1) ps (itoa 32 w dst 16) (behind src b'x' (encode ps) s)
          a.2 (omega arith) in
      (
        cs ++ out,
        rw (s.0, s.2.0, a.0)
            (e ∙ ap (λ t. some (t ++ out)) put ∙ ap some (append_assoc dst cs out)),
        (cs, out, refl, written, means),
      )
