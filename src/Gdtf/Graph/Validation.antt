-- ===== src/Gdtf/Graph/Validation.antt =====
-- What the check of native/src/gdtf_runtime/mode_master.cpp finds out in one visit.
use peraviz.Prelude.{
  ℕ, zero, suc, ◌+◌, ◌≤◌, ◌<◌, ◌≡◌, ◌≢◌, sym, ◌∙◌, subst, true, ◌||◌, ◌==◌, if◌then◌else◌, some,
  List, [], ◌∷◌, arith, ◌⊎◌, inl, inr, length, get_elem?, get_or, set, get_or-set_cases,
  Option-cases, ℤ,
}
use peraviz.Gdtf.Conditions.{unconditional, dmx_channel, channel_function}
use peraviz.Gdtf.Graph.{ChannelFunctionActivation, Functions, last_index, Verdict, accepted, Visit}

-- The condition of the function at an index, and of each that its chain leads to, is valid and names
-- what it depends on, and the chain ends.
pub data IsGrounded (functions : Functions) : ℕ → Type 0 where
  alone :
      {i : ℕ} (f : ChannelFunctionActivation)
      → get_elem? functions i ≡ some f
      → f.mode_master.valid ≡ true
      → (f.mode_master.target_kind ≡ unconditional) ⊎ (f.mode_master.target_kind ≡ dmx_channel)
      → IsGrounded functions i
  via :
      {i : ℕ} (f : ChannelFunctionActivation) (j : ℕ)
      → get_elem? functions i ≡ some f
      → f.mode_master.valid ≡ true
      → f.mode_master.target_kind ≡ channel_function
      → last_index functions f.mode_master.target_id ≡ some j
      → IsGrounded functions j
      → IsGrounded functions i

-- The functions that no visit has reached.
abbrev pub fresh : List ℕ → ℕ
fresh [] = 0
fresh (x ∷ xs) = (if x == 1 || x == 2 then 0 else 1) + fresh xs

pub fresh-set :
    (xs : List ℕ) (i : ℕ)
    → i < length xs
    → get_or xs i 0 ≢ 1
    → get_or xs i 0 ≢ 2
    → fresh (set xs i 1) < fresh xs
fresh-set [] i h p q = absurd (omega arith)
fresh-set (x ∷ xs) zero h p q = ground arith
fresh-set (x ∷ xs) (suc i) h p q = omega (arith, fresh-set xs i (omega (arith, h)) p q)

pub fresh_bound : (xs : List ℕ) → fresh xs ≤ length xs
fresh_bound [] = omega arith
fresh_bound (x ∷ xs) = ground (arith, fresh_bound xs)

pub last_index-bound :
    (functions : Functions) (id : ℤ) (j : ℕ)
    → last_index functions id ≡ some j
    → j < length functions
unfolding last_index
last_index-bound [] id j h = cc
last_index-bound (f ∷ functions) id j h = elim (Option-cases (last_index functions id)) [
  | inl e ↦ ground arith
  | inr (k, e) ↦ let le = last_index-bound functions id k e in ground arith
]

-- What is marked as done is grounded.
abbrev pub IsSettled : Functions → List ℕ → Type 0
IsSettled functions state = (i : ℕ) → get_or state i 0 ≡ 2 → IsGrounded functions i

pub record IsGood (functions : Functions) (state : List ℕ) (index : ℕ) (visited : Visit)
    : Type 0 where
  pub result : Verdict × List ℕ
  pub ends : visited ≡ some result
  pub size : length result.1 ≡ length functions
  pub sound :
      result.0 ≡ accepted
      → IsSettled functions state
      → IsSettled functions result.1 × IsGrounded functions index

pub IsSettled-start :
    (functions : Functions) (state : List ℕ) (index : ℕ)
    → IsSettled functions state
    → IsSettled functions (set state index 1)
IsSettled-start functions state index s i h = elim (get_or-set_cases state index i 1 0) [
  | inl (e, w) ↦ absurd (omega (arith, h, w))
  | inr w ↦ s i (sym w ∙ h)
]

pub IsSettled-done :
    (functions : Functions) (state : List ℕ) (index : ℕ)
    → IsSettled functions state
    → IsGrounded functions index
    → IsSettled functions (set state index 2)
IsSettled-done functions state index s g i h = elim (get_or-set_cases state index i 2 0) [
  | inl (e, w) ↦ subst (IsGrounded functions) e g
  | inr w ↦ s i (sym w ∙ h)
]
