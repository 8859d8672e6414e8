-- ===== src/Fs/Dir/Path/Join.antt =====
-- A path that was put together is taken apart again.
use shmily.Base.{
  ℕ, suc, ◌≡◌, ◌≢◌, refl, ◌∙◌, ap, true, ◌==◌, ltb, lt→ltb, if◌then◌else◌, some, List, [], ◌∷◌,
  ◌++◌, length, length-append, All, arith, ==_ne,
}
use shmily.Fs.Dir.{slash}
use shmily.Fs.Dir.Path.{
  count_slashes, copy_slashes, drop_last, skip_last_slash, is_absolute, split_path_2parts,
}

-- A name without a slash.
abbrev pub IsName : List ℕ → Type 0
IsName = All (λ c. slash ≢ c)

count_slashes-name : (name : List ℕ) → IsName name → count_slashes name ≡ 0
unfolding count_slashes
count_slashes-name [] h = refl
count_slashes-name (c ∷ name) h = ground (arith, count_slashes-name name h.1)

count_slashes-join :
    (xs name : List ℕ) → IsName name → count_slashes (xs ++ slash ∷ name) ≡ suc (count_slashes xs)
unfolding count_slashes
count_slashes-join [] name h = omega (arith, count_slashes-name name h)
count_slashes-join (c ∷ xs) name h = omega (arith, count_slashes-join xs name h)

copy_slashes-join :
    (xs name : List ℕ)
    → copy_slashes (suc (count_slashes xs)) (xs ++ slash ∷ name) ≡ (xs ++ slash ∷ [], name)
unfolding count_slashes copy_slashes
copy_slashes-join [] name = refl
copy_slashes-join (c ∷ xs) name =
    let left : (if slash == c then count_slashes (c ∷ xs) else suc (count_slashes (c ∷ xs)))
        ≡ suc (count_slashes xs) =
      ground arith in
    ap (λ n. (c ∷ (copy_slashes n (xs ++ slash ∷ name)).0, (copy_slashes n (xs ++ slash ∷ name)).1))
      left
    ∙ ap (λ (r : List ℕ × List ℕ). (c ∷ r.0, r.1)) (copy_slashes-join xs name)

drop_last-snoc : (xs : List ℕ) (c : ℕ) → drop_last (xs ++ c ∷ []) ≡ xs
drop_last-snoc [] c = refl
drop_last-snoc (x ∷ []) c = refl
drop_last-snoc (x ∷ y ∷ xs) c = ap (λ t. x ∷ t) (drop_last-snoc (y ∷ xs) c)

skip_last_slash-snoc :
    (xs : List ℕ) (c : ℕ) → slash ≢ c → skip_last_slash (xs ++ c ∷ []) ≡ xs ++ c ∷ []
unfolding skip_last_slash
skip_last_slash-snoc [] c ne = rw (==_ne slash c ne)
skip_last_slash-snoc (x ∷ []) c ne = rw (==_ne slash c ne)
skip_last_slash-snoc (x ∷ y ∷ xs) c ne = ap (λ t. x ∷ t) (skip_last_slash-snoc (y ∷ xs) c ne)

split_at_last :
    (xs name : List ℕ)
    → IsName name
    → is_absolute (xs ++ slash ∷ name) ≡ true
    → split_path_2parts (xs ++ slash ∷ name) ≡ (
      if ltb 1 (length (xs ++ slash ∷ []))
          then skip_last_slash (drop_last (xs ++ slash ∷ []))
          else xs ++ slash ∷ [],
      some name,
    )
unfolding split_path_2parts
split_at_last xs name h absolute =
    rw (absolute, split_path_2parts)
      (ap
          (λ n. (
            if ltb 1 (length (copy_slashes n (xs ++ slash ∷ name)).0)
                then skip_last_slash (drop_last (copy_slashes n (xs ++ slash ∷ name)).0)
                else (copy_slashes n (xs ++ slash ∷ name)).0,
            some (copy_slashes n (xs ++ slash ∷ name)).1,
          ))
          (count_slashes-join xs name h)
        ∙ ap
            (λ (r : List ℕ × List ℕ).
              (if ltb 1 (length r.0) then skip_last_slash (drop_last r.0) else r.0, some r.1))
            (copy_slashes-join xs name))

-- A path that is an absolute parent not ending in a slash, a slash, and a name without a slash is
-- split into exactly these two; a name right behind the root has the root as its parent.
pub split_path_2parts-join :
    (front : List ℕ) (c : ℕ) (name : List ℕ)
    → slash ≢ c
    → IsName name
    → (split_path_2parts ((slash ∷ front ++ c ∷ []) ++ slash ∷ name)
        ≡ (slash ∷ front ++ c ∷ [], some name))
      × (split_path_2parts (slash ∷ name) ≡ (slash ∷ [], some name))
split_path_2parts-join front c name ne h = (
  split_at_last parent name h refl
      ∙ ap
          (λ t. (
            if t then skip_last_slash (drop_last (parent ++ slash ∷ [])) else parent ++ slash ∷ [],
            some name,
          ))
          (lt→ltb 1 (length (parent ++ slash ∷ []))
            (omega (arith, length-append parent (slash ∷ []), length-append front (c ∷ []))))
      ∙ ap (λ t. (skip_last_slash t, some name)) (drop_last-snoc parent slash)
      ∙ ap (λ t. (t, some name)) (skip_last_slash-snoc (slash ∷ front) c ne),
  split_at_last [] name h refl,
)
  where
    parent : List ℕ
    parent = slash ∷ front ++ c ∷ []
