-- ===== src/Support/Text/Compare.antt =====
-- `strlen` and `strcmp` on texts.
use shmily.Base.{
  ℕ, zero, suc, ◌+◌, ◌^◌, ◌<◌, ◌≡◌, refl, sym, ap, ◌∙◌, ◌↔◌, List, [], ◌∷◌, some, Bool, true, false,
  ◌&&◌, arith, length, add32, ◌==◌, ==_iff, ==_ne,
}
use shmily.Support.Text.{strlen_from, strlen, strcmp, IsString}

strlen_from-length :
    (fuel : ℕ) (m : ℕ → ℕ) (p l : ℕ) (cs : List ℕ)
    → IsString m p cs
    → length cs < fuel
    → l + length cs < 2 ^ 32
    → strlen_from fuel m p l ≡ some (l + length cs)
unfolding strlen_from
strlen_from-length zero m p l cs s f h = absurd (omega arith)
strlen_from-length (suc k) m p l [] s f h = rw ((==_iff (m p) 0).1 s) (ap some (omega arith))
strlen_from-length (suc k) m p l (c ∷ cs) s f h =
    let ne : (m p == 0) ≡ false = ==_ne (m p) 0 (λ e. s.1 (sym s.0 ∙ e)) in
    let e : add32 l 1 ≡ l + 1 = omega arith in
    rw (ne, e)
      (strlen_from-length k m (p + 1) (l + 1) cs s.2 (omega arith) (omega arith)
        ∙ ap some (omega arith))

-- With more rounds than bytes `strlen` returns, and what it returns is the number of bytes.
pub strlen-length :
    (fuel : ℕ) (m : ℕ → ℕ) (p : ℕ) (cs : List ℕ)
    → IsString m p cs
    → length cs < fuel
    → length cs < 2 ^ 32
    → strlen fuel m p ≡ some (length cs)
unfolding strlen
strlen-length fuel m p cs s f h =
    strlen_from-length fuel m p 0 cs s f (omega arith) ∙ ap some (omega arith)

-- Equality of texts, by their bytes.
unfoldable pub same_text : List ℕ → List ℕ → Bool
same_text [] [] = true
same_text [] (d ∷ ds) = false
same_text (c ∷ cs) [] = false
same_text (c ∷ cs) (d ∷ ds) = (c == d) && same_text cs ds

pub same_text_iff : (cs ds : List ℕ) → (same_text cs ds ≡ true) ↔ (cs ≡ ds)
unfolding same_text
same_text_iff [] [] = (λ h. refl, λ h. refl)
same_text_iff [] (d ∷ ds) = (λ h. cc, λ h. cc)
same_text_iff (c ∷ cs) [] = (λ h. cc, λ h. cc)
same_text_iff (c ∷ cs) (d ∷ ds) =
    let ih = same_text_iff cs ds in (λ h. ground (arith, ih.0), λ h. ground (arith, ih.1))

-- With more rounds than bytes in the first text `strcmp` returns, and it returns `true` exactly
-- for two texts of the same bytes.
pub strcmp-same_text :
    (fuel : ℕ) (m : ℕ → ℕ) (p q : ℕ) (cs ds : List ℕ)
    → IsString m p cs
    → IsString m q ds
    → length cs < fuel
    → strcmp fuel m p q ≡ some (same_text cs ds)
unfolding strcmp same_text
strcmp-same_text zero m p q cs ds s t f = absurd (omega arith)
strcmp-same_text (suc k) m p q [] [] s t f = ground arith
strcmp-same_text (suc k) m p q [] (d ∷ ds) s t f = ground arith
strcmp-same_text (suc k) m p q (c ∷ cs) [] s t f = ground arith
strcmp-same_text (suc k) m p q (c ∷ cs) (d ∷ ds) s t f =
    ground (arith, strcmp-same_text k m (p + 1) (q + 1) cs ds s.2 t.2)
