-- ===== src/Archive/Handle/Reads.antt =====
-- What the reads of native/src/archive/zip_archive.cpp give.
use peraviz.Prelude.{
  ltb→lt, ℕ, zero, suc, ◌+◌, ◌-◌, ◌≤◌, ◌<◌, ◌≡◌, refl, sym, ap, ◌∙◌, subst, true, ◌&&◌, Option,
  none, some, List, [], ◌∷◌, ◌++◌, arith, ◌==◌, length, take, drop, ltb, Bool-cases, inl, inr, ◌⊎◌,
  length-take,
}
use peraviz.Archive.Handle.{EntryAnswers, read_from, read_entry}

-- `zip_fread` at a position gives a part of what the entry holds from there on, or fails.
abbrev pub IsReadOf : List ℕ → EntryAnswers → Type 0
IsReadOf content e =
    (at n : ℕ)
    → (e.read at n ≡ none) ⊎ ((k : ℕ) × (k ≤ n) × (e.read at n ≡ some (take k (drop at content))))

-- It gives a byte at least.
abbrev pub IsProgress : List ℕ → EntryAnswers → Type 0
IsProgress content e =
    (at n : ℕ)
    → at < length content
    → 1 ≤ n
    → (b : ℕ) × (more : List ℕ) × (e.read at n ≡ some (b ∷ more))

take-nil : (n : ℕ) → take {A = ℕ} n [] ≡ []
take-nil zero = refl
take-nil (suc n) = refl

take_more : (n m : ℕ) (xs : List ℕ) → take n xs ++ take m (drop n xs) ≡ take (n + m) xs
take_more zero m xs = ap (λ k. take k xs) (omega arith)
take_more (suc n) m [] = take-nil m ∙ sym (take-nil (suc n + m))
take_more (suc n) m (x ∷ xs) =
    let e : suc (n + m) ≡ suc n + m = omega arith in
    ap (λ l. x ∷ l) (take_more n m xs) ∙ ap (λ k. take k (x ∷ xs)) e

take_all : (xs : List ℕ) → take (length xs) xs ≡ xs
take_all [] = refl
take_all (x ∷ xs) = ap (λ l. x ∷ l) (take_all xs)

drop-inside :
    (n : ℕ) (xs : List ℕ) → n < length xs → (x : ℕ) × (rest : List ℕ) × (drop n xs ≡ x ∷ rest)
drop-inside n [] h = absurd (omega arith)
drop-inside zero (x ∷ xs) h = (x, xs, refl)
drop-inside (suc n) (x ∷ xs) h = drop-inside n xs (omega arith)

read_next :
    (read : ℕ → ℕ → Option (List ℕ)) (fuel size b : ℕ) (bytes more : List ℕ)
    → ltb (length bytes) size ≡ true
    → read (length bytes) (size - length bytes) ≡ some (b ∷ more)
    → read_from read (suc fuel) size bytes ≡ read_from read fuel size (bytes ++ b ∷ more)
unfolding read_from
read_next read fuel size b bytes more h e = rw h (rw e refl)

module _ (content : List ℕ) (e : EntryAnswers) (reads : IsReadOf content e) where
  -- What the loop has read: a first part of the entry, and with enough fuel the whole of it, if no
  -- read fails.
  IsPrefix : ℕ → ℕ → List ℕ → Type 0
  IsPrefix fuel at bytes =
      (to : ℕ) × (to ≤ length content)
      × (bytes ≡ take to content)
      × (IsProgress content e → length content ≤ at + fuel → to ≡ length content)

  failed_read :
      (at : ℕ) (fuel : ℕ) (bytes : List ℕ)
      → at < length content
      → bytes ≡ take at content
      → ¬ ((b : ℕ) × (more : List ℕ) × (e.read at (length content - at) ≡ some (b ∷ more)))
      → IsPrefix fuel at bytes
  unfolding IsPrefix
  failed_read at fuel bytes h same fails = (
    at,
    omega (arith, h),
    same,
    λ progress enough. absurd (fails (progress at (length content - at) h (omega (arith, h)))),
  )

  read_from-IsPrefix :
      (fuel at : ℕ)
      → at ≤ length content
      → IsPrefix fuel at (read_from e.read fuel (length content) (take at content))
  unfolding read_from IsPrefix
  read_from-IsPrefix zero at h = (at, h, refl, λ progress enough. omega (arith, h, enough))
  read_from-IsPrefix (suc fuel) at h =
      let size : length (take at content) ≡ at = omega (arith, length-take at content, h) in
      elim (Bool-cases (ltb at (length content))) [
        | inr full ↦
            let end : length content ≤ at = ground arith in
            (at, h, rw size (rw full refl), λ progress enough. omega (arith, h, end))
        | inl more ↦
            let inside : at < length content = ltb→lt at (length content) more in
            elim (reads at (length content - at)) [
              | inl fails ↦
                  failed_read at (suc fuel) _ inside (rw size (rw more (rw fails refl)))
                    (λ got. cc (fails, got.2))
              | inr (zero, small, gives) ↦
                  failed_read at (suc fuel) _ inside (rw size (rw more (rw gives refl)))
                    (λ got. cc (gives, got.2))
              | inr (suc k, small, gives) ↦
                  let (x, rest, d) = drop-inside at content inside in
                  let part : e.read at (length content - at) ≡ some (x ∷ take k rest) =
                    gives ∙ ap (λ l. some (take (suc k) l)) d in
                  let joined : take at content ++ x ∷ take k rest ≡ take (at + suc k) content =
                    ap (λ l. take at content ++ take (suc k) l) (sym d)
                    ∙ take_more at (suc k) content in
                  let (to, low, same, whole) =
                    read_from-IsPrefix fuel (at + suc k) (omega (arith, small)) in
                  (
                    to,
                    low,
                    read_next e.read fuel (length content) x (take at content) (take k rest)
                          (subst (λ n. ltb n (length content) ≡ true) (sym size) more)
                          (subst (λ n. e.read n (length content - n) ≡ some (x ∷ take k rest))
                            (sym size) part)
                        ∙ (ap (read_from e.read fuel (length content)) joined ∙ same),
                    λ progress enough. whole progress (omega (arith, enough)),
                  )
            ]
      ]

  -- If libzip gives parts of an entry of the size that it states, `read_file` returns the whole entry
  -- or nothing, and the whole entry if it is opened and closed and every read before its end gives a
  -- byte at least.
  pub read_entry-whole :
      e.size ≡ some (length content)
      → ((read_entry e ≡ []) ⊎ (read_entry e ≡ content))
        × (e.opened ≡ true → e.closes ≡ true → IsProgress content e → read_entry e ≡ content)
  unfolding read_entry IsPrefix
  read_entry-whole known =
      let (to, low, same, whole) = read_from-IsPrefix (length content) 0 (omega arith) in
      let bytes = read_from e.read (length content) (length content) [] in
      let size : length bytes ≡ to = ap length same ∙ omega (arith, length-take to content, low) in
      let complete : to ≡ length content → bytes ≡ content =
        λ all. same ∙ (ap (λ n. take n content) all ∙ take_all content) in
      (
        rw known (elim (Bool-cases (e.opened && (length bytes == length content && e.closes))) [
          | inl t ↦
              let full : length bytes ≡ length content = ground arith in
              rw t (inr (complete (sym size ∙ full)))
          | inr f ↦ rw f (inl refl)
        ]),
        λ opened closes progress.
            let all = whole progress (omega arith) in
            let full : (length bytes == length content) ≡ true =
              (let e' : length bytes ≡ length content = size ∙ all in ground arith) in
            rw known (rw opened (rw full (rw closes (complete all)))),
      )
