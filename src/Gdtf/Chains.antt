-- ===== src/Gdtf/Chains.antt =====
-- Chains of indices, each of which names the next one or none.
use peraviz.Prelude.{
  ℕ, ◌≤◌, ◌<◌, ◌≡◌, refl, sym, ap, subst, Option, none, some, List, [], ◌∷◌, arith, inl, inr, Elem,
  Distinct, length, All, pigeonhole,
}

-- The chain from an index ends.
pub data Ends (next : ℕ → Option ℕ) : ℕ → Type 0 where
  stop : {i : ℕ} → next i ≡ none → Ends next i
  step : {i : ℕ} (j : ℕ) → next i ≡ some j → Ends next j → Ends next i

module _ {next : ℕ → Option ℕ} where
  abbrev pub path : {i : ℕ} → Ends next i → List ℕ
  path {i = i} (Ends.stop e) = i ∷ []
  path {i = i} (Ends.step j e d) = i ∷ path d

  pub path_pos : {i : ℕ} (d : Ends next i) → 1 ≤ length (path d)
  path_pos (Ends.stop e) = omega arith
  path_pos (Ends.step j e d) = omega arith

  path_unique : {i k : ℕ} (d : Ends next i) (d' : Ends next k) → i ≡ k → path d ≡ path d'
  path_unique (Ends.stop e) (Ends.stop e') h = rw h refl
  path_unique {i = i} {k = k} (Ends.stop e) (Ends.step j e' d') h = let same = ap next h in cc
  path_unique (Ends.step j e d) (Ends.stop e') h = let same = ap next h in cc
  path_unique {i = i} (Ends.step j e d) (Ends.step j' e' d') h =
      let same = ap next h in let target : j ≡ j' = cc in rw (path_unique d d' target) (rw h refl)

  moved :
      {i : ℕ} (d : Ends next i) (k : ℕ)
      → i ≡ k
      → (d' : Ends next k) × (length (path d') ≤ length (path d))
  moved d k h =
      let same = path_unique (subst (Ends next) h d) d (sym h) in
      (subst (Ends next) h d, omega (arith, ap length same))

  part_of :
      {i : ℕ} (d : Ends next i) (k : ℕ)
      → Elem k (path d)
      → (d' : Ends next k) × (length (path d') ≤ length (path d))
  part_of (Ends.stop e) k (inl h) = moved (Ends.stop e) k h
  part_of (Ends.stop e) k (inr m) = absurd m
  part_of (Ends.step j e d) k (inl h) = moved (Ends.step j e d) k h
  part_of (Ends.step j e d) k (inr m) = let (d', le) = part_of d k m in (d', omega (arith, le))

  -- A chain that ends comes by no index twice.
  pub path-Distinct : {i : ℕ} (d : Ends next i) → Distinct (path d)
  path-Distinct (Ends.stop e) = ((λ m. m), tt)
  path-Distinct {i = i} (Ends.step j e d) = (
    λ m.
        let (d', le) = part_of d i m in
        let same = ap length (path_unique d' (Ends.step j e d) refl) in omega (arith, same, le),
    path-Distinct d,
  )

  -- So it is no longer than there are indices.
  pub length-path :
      (n : ℕ) {i : ℕ} (d : Ends next i) → All (λ k. k < n) (path d) → length (path d) ≤ n
  length-path n d h = pigeonhole n (path d) h (path-Distinct d)
