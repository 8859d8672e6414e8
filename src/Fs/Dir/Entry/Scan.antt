-- ===== src/Fs/Dir/Entry/Scan.antt =====
-- What the search of a directory for a free slot finds, in fs/dir.cc.
use shmily.Base.{
  ℕ, zero, suc, ◌+◌, ◌*◌, ◌≤◌, ◌<◌, ◌≡◌, ◌≢◌, ◌⊎◌, inl, inr, refl, sym, ◌∙◌, ap, Bool, true, false,
  ◌&&◌, ◌==◌, if◌then◌else◌, none, some, List, [], ◌∷◌, arith, Bool-cases, Option-cases, ==_ne,
  ℕ_discrete,
}
use mathlib.Core.Path.{subst}
use shmily.Fs.Volume.{Volume}
use shmily.Fs.Dir.{same_name, scan_entries, scan_sectors}
use shmily.Fs.Dir.Entry.{Clean, CleanBut}

-- What the search of sector `s` found: nothing, and the name is not there; or a slot in it, and the
-- name is at no other place of it.
abbrev pub Scanned : (ℕ → ℕ) → ℕ → List ℕ → ℕ → ℕ → ℕ × ℕ → Type 0
Scanned m s name j n (t, o) =
    ((t ≡ 0) × (o ≡ 0) × Clean m name j n)
    ⊎ ((t ≡ s) × (j ≤ o) × (o < j + n) × CleanBut m name o j n)

one_more :
    (m : ℕ → ℕ) (name : List ℕ) (j n : ℕ)
    → same_name m (72 * j) name ≡ false
    → Clean m name (j + 1) n
    → Clean m name j (suc n)
one_more m name j n here rest k lo hi = elim (ℕ_discrete k j) [
  | yes e ↦ rw e here
  | no ne ↦ rest k (omega arith) (omega arith)
]

and_false : (a b c : Bool) → c ≡ false → (a && (b && c)) ≡ false
and_false a b c h = ground arith

-- One round that finds no slot: the name is not at the entry, and the search goes on.
goes_on :
    (m : ℕ → ℕ) (s : ℕ) (name : List ℕ) (j n t o : ℕ) (slot : ℕ × ℕ)
    → ((0 == m (72 * j)) && ((0 == o) && (0 == t))) ≡ false
    → scan_entries m s name j (suc n) (t, o) ≡ some slot
    → (same_name m (72 * j) name ≡ false) × (scan_entries m s name (j + 1) n (t, o) ≡ some slot)
unfolding scan_entries
goes_on m s name j n t o slot not_first h =
    passed (same_name m (72 * j) name) (sym (rw (not_first, scan_entries) refl) ∙ h)
  where
    passed :
        (b : Bool)
        → (if b then none else scan_entries m s name (j + 1) n (t, o)) ≡ some slot
        → (b ≡ false) × (scan_entries m s name (j + 1) n (t, o) ≡ some slot)
    passed true e = absurd (cc)
    passed false e = (refl, e)

-- A slot in a sector that is not 0 is kept.
scan_entries-kept :
    (m : ℕ → ℕ) (s : ℕ) (name : List ℕ) (j n t o : ℕ) (slot : ℕ × ℕ)
    → t ≢ 0
    → scan_entries m s name j n (t, o) ≡ some slot
    → (slot ≡ (t, o)) × Clean m name j n
unfolding scan_entries
scan_entries-kept m s name j zero t o slot ne h =
    (ground (arith, h), λ k lo hi. absurd (omega arith))
scan_entries-kept m s name j (suc n) t o slot ne h =
    let (other, rest) =
      goes_on m s name j n t o slot
        (and_false (0 == m (72 * j)) (0 == o) (0 == t) (==_ne 0 t (λ e. ne (sym e)))) h in
    let (same, clean) = scan_entries-kept m s name (j + 1) n t o slot ne rest in
    (same, one_more m name j n other clean)

pub scan_entries-Scanned :
    (m : ℕ → ℕ) (s : ℕ) (name : List ℕ) (j n : ℕ) (slot : ℕ × ℕ)
    → s ≢ 0
    → scan_entries m s name j n (0, 0) ≡ some slot
    → Scanned m s name j n slot
unfolding scan_entries
scan_entries-Scanned m s name j zero slot ne h =
    let e : slot ≡ (0, 0) = ground (arith, h) in
    inl (ap (λ p. p.0) e, ap (λ p. p.1) e, λ k lo hi. absurd (omega arith))
scan_entries-Scanned m s name j (suc n) slot ne h = elim (Bool-cases (0 == m (72 * j))) [
  | inl first ↦
      let (same, clean) =
        scan_entries-kept m s name (j + 1) n s j slot ne
          (sym (rw (first, scan_entries) refl) ∙ h) in
      subst (Scanned m s name j (suc n)) (sym same)
        (inr (refl, omega arith, omega arith, λ k l u apart. clean k (omega arith) (omega arith)))
  | inr full ↦
      let (other, rest) = goes_on m s name j n 0 0 slot (ground (arith, full)) h in
      more slot other (scan_entries-Scanned m s name (j + 1) n slot ne rest)
]
  where
    more :
        (r : ℕ × ℕ)
        → same_name m (72 * j) name ≡ false
        → Scanned m s name (j + 1) n r
        → Scanned m s name j (suc n) r
    more (t, o) other (inl (e, q, clean)) = inl (e, q, one_more m name j n other clean)
    more (t, o) other (inr (e, lo, hi, clean)) = inr (
      e,
      omega arith,
      omega arith,
      λ k l u apart. elim (ℕ_discrete k j) [
        | yes q ↦ rw q other
        | no nq ↦ clean k (omega arith) (omega arith) apart
      ],
    )

-- One sector of the search.
module _ (v : Volume) (name : List ℕ) (s : ℕ) (sectors : List ℕ) (slot : ℕ × ℕ) where
  scan_skip :
      (0 == s) ≡ true → scan_sectors v name (s ∷ sectors) slot ≡ scan_sectors v name sectors slot
  unfolding scan_sectors
  scan_skip e = rw (e, scan_sectors)

  scan_stop :
      (0 == s) ≡ false
      → scan_entries (v.disk s) s name 0 7 slot ≡ none
      → scan_sectors v name (s ∷ sectors) slot ≡ none
  unfolding scan_sectors
  scan_stop e stop = rw (e, scan_sectors) (rw (stop, scan_sectors))

  scan_step :
      (slot' : ℕ × ℕ)
      → (0 == s) ≡ false
      → scan_entries (v.disk s) s name 0 7 slot ≡ some slot'
      → scan_sectors v name (s ∷ sectors) slot ≡ scan_sectors v name sectors slot'
  unfolding scan_sectors
  scan_step slot' e found = rw (e, scan_sectors) (rw (found, scan_sectors))

  -- A search that ends has passed over the sector, or has searched it.
  pub scan_cases :
      (end : ℕ × ℕ)
      → scan_sectors v name (s ∷ sectors) slot ≡ some end
      → (((0 == s) ≡ true) × (scan_sectors v name sectors slot ≡ some end))
        ⊎ ((slot' : ℕ × ℕ) × ((0 == s) ≡ false)
            × (scan_entries (v.disk s) s name 0 7 slot ≡ some slot')
            × (scan_sectors v name sectors slot' ≡ some end))
  scan_cases end h = elim (Bool-cases (0 == s)) [
    | inl e ↦ inl (e, sym (scan_skip e) ∙ h)
    | inr e ↦ elim (Option-cases (scan_entries (v.disk s) s name 0 7 slot)) [
      | inl stop ↦ let none_some : none ≡ some end = sym (scan_stop e stop) ∙ h in absurd (cc)
      | inr (slot', found) ↦ inr (slot', e, found, sym (scan_step slot' e found) ∙ h)
    ]
  ]

-- A slot found in a sector before is kept.
scan_sectors-kept :
    (v : Volume) (name : List ℕ) (sectors : List ℕ) (t o : ℕ) (end : ℕ × ℕ)
    → t ≢ 0
    → scan_sectors v name sectors (t, o) ≡ some end
    → end ≡ (t, o)
unfolding scan_sectors
scan_sectors-kept v name [] t o end ne h = ground (arith, h)
scan_sectors-kept v name (s ∷ sectors) t o end ne h =
    elim (scan_cases v name s sectors (t, o) end h) [
      | inl (zero_there, rest) ↦ scan_sectors-kept v name sectors t o end ne rest
      | inr (slot', e, found, rest) ↦
          let (same, clean) = scan_entries-kept (v.disk s) s name 0 7 t o slot' ne found in
          scan_sectors-kept v name sectors t o end ne
            (ap (scan_sectors v name sectors) (sym same) ∙ rest)
    ]

-- What a search from no slot gives at its first sector: the search goes on from no slot, and the
-- name is not in the sector; or the slot is in this sector.
pub first_sector :
    (v : Volume) (name : List ℕ) (s : ℕ) (sectors : List ℕ) (t o : ℕ) (slot' : ℕ × ℕ)
    → s ≢ 0
    → Scanned (v.disk s) s name 0 7 slot'
    → scan_sectors v name sectors slot' ≡ some (t, o)
    → (Clean (v.disk s) name 0 7 × (scan_sectors v name sectors (0, 0) ≡ some (t, o)))
      ⊎ ((t ≡ s) × (o < 7) × CleanBut (v.disk s) name o 0 7)
first_sector v name s sectors t o (t', o') ne (inl (e, q, clean)) h =
    let at : (0, 0) ≡ (t', o') = ground arith in
    inl (clean, ap (scan_sectors v name sectors) at ∙ h)
first_sector v name s sectors t o (t', o') ne (inr (e, lo, hi, clean)) h =
    let same = scan_sectors-kept v name sectors t' o' (t, o) (λ z. ne (sym e ∙ z)) h in
    let to : t ≡ t' = ap (λ p. p.0) same in
    let oo : o ≡ o' = ap (λ p. p.1) same in
    inr (to ∙ e, omega arith, λ k l u apart. clean k l u (λ q. apart (q ∙ sym oo)))
