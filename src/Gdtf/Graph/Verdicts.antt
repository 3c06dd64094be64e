-- ===== src/Gdtf/Graph/Verdicts.antt =====
-- The verdict of native/src/gdtf_runtime/mode_master.cpp on a table of channel functions.
use peraviz.Prelude.{
  ℕ, zero, suc, ◌+◌, ◌≤◌, ◌<◌, ◌≡◌, ◌≢◌, refl, subst, ◌↔◌, Option, some, List, arith, ◌⊎◌, inl, inr,
  length, get_or, replicate, length-replicate,
}
use peraviz.Gdtf.Graph.{
  Functions, Verdict, accepted, cycle, unresolved, go_on, visit_from, validate_mode_master_graph,
}
use peraviz.Gdtf.Graph.Validation.{IsGrounded, fresh_bound, IsSettled}
use peraviz.Gdtf.Graph.Visits.{visit-IsGood}
use peraviz.Gdtf.Graph.Accepts.{visit-IsAccepted}

-- The loop over the functions has ended with a verdict, and has accepted only grounded ones.
record IsSwept (functions : Functions) (i : ℕ) (state : List ℕ) (swept : Option Verdict)
    : Type 0 where
  verdict : Verdict
  ends : swept ≡ some verdict
  sound :
      verdict ≡ accepted
      → IsSettled functions state
      → (k : ℕ) → i ≤ k
      → k < length functions
      → IsGrounded functions k

module _ (functions : Functions) where
  go_on-IsSwept :
      (i : ℕ) (state : List ℕ) (v : Verdict) (after : List ℕ) (rest : List ℕ → Option Verdict)
      → (v ≡ accepted
          → IsSettled functions state
          → IsSettled functions after × IsGrounded functions i)
      → IsSwept functions (suc i) after (rest after)
      → IsSwept functions i state (go_on (v, after) rest)
  go_on-IsSwept i state accepted after rest h r = record {
    verdict = r.verdict;
    ends = r.ends;
    sound = λ e s k low high.
        let (settled, g) = h refl s in
        elim (from_start i k low) [
          | inl same ↦ subst (IsGrounded functions) same g
          | inr later ↦ r.sound e settled k later high
        ];
  }
    where
      from_start : (i k : ℕ) → i ≤ k → (i ≡ k) ⊎ (suc i ≤ k)
      from_start i k h = ground arith
  go_on-IsSwept i state (cycle id) after rest h r = record {
    verdict = cycle id;
    ends = refl;
    sound = λ e s. cc;
  }
  go_on-IsSwept i state (unresolved id) after rest h r = record {
    verdict = unresolved id;
    ends = refl;
    sound = λ e s. cc;
  }

  visit_from-IsSwept :
      (n i : ℕ) (state : List ℕ)
      → i + n ≡ length functions
      → length state ≡ length functions
      → IsSwept functions i state (visit_from n functions i state)
  unfolding visit_from
  visit_from-IsSwept zero i state e size = record {
    verdict = accepted;
    ends = refl;
    sound = λ h s k low high. absurd (omega (arith, e, low, high));
  }
  visit_from-IsSwept (suc n) i state e size =
      let bound = fresh_bound state in
      let r =
        visit-IsGood functions (suc (length functions)) state i size (omega (arith, e))
          (omega (arith, bound, size)) in
      rw r.ends (
        go_on-IsSwept i state r.result.0 r.result.1 (λ after. visit_from n functions (suc i) after)
          r.sound (visit_from-IsSwept n (suc i) r.result.1 (omega (arith, e)) r.size))

  visit_from_accepts :
      (n i : ℕ) (state : List ℕ)
      → i + n ≡ length functions
      → length state ≡ length functions
      → ((k : ℕ) → get_or state k 0 ≢ 1)
      → ((k : ℕ) → k < length functions → IsGrounded functions k)
      → visit_from n functions i state ≡ some accepted
  unfolding visit_from
  visit_from_accepts zero i state e size free all = refl
  visit_from_accepts (suc n) i state e size free all =
      let bound = fresh_bound state in
      let r =
        visit-IsAccepted (suc (length functions)) state (all i (omega (arith, e))) size
          (omega (arith, bound, size)) (λ k m. free k) in
      rw r.accepts (
        visit_from_accepts n (suc i) r.after (omega (arith, e)) r.size (λ k w. free k (r.ways k w))
          all)

abbrev zeros : ℕ → List ℕ
zeros n = replicate n 0

get_or-zeros : (n k : ℕ) → get_or (zeros n) k 0 ≡ zero
get_or-zeros zero k = refl
get_or-zeros (suc n) zero = refl
get_or-zeros (suc n) (suc k) = get_or-zeros n k

-- The check of a table of channel functions always ends with a verdict. It accepts the table exactly
-- if every function is grounded: its condition is valid, and names no channel function or, by an id
-- that the table has, one that is grounded itself, so that no chain of masters comes back to where it
-- started.
pub validate_mode_master_graph_lem :
    (functions : Functions)
    → ((v : Verdict) × (validate_mode_master_graph functions ≡ some v))
      × ((validate_mode_master_graph functions ≡ some accepted)
          ↔ ((i : ℕ) → i < length functions → IsGrounded functions i))
unfolding validate_mode_master_graph
validate_mode_master_graph_lem functions =
    let n = length functions in
    let size : length (zeros n) ≡ n = length-replicate n 0 in
    let swept = visit_from-IsSwept functions n 0 (zeros n) (omega arith) size in
    (
      (swept.verdict, swept.ends),
      (
        λ h i inside.
            let same : swept.verdict ≡ accepted = (let e = swept.ends in cc) in
            swept.sound same (λ k two. let z = get_or-zeros n k in absurd (omega (arith, z, two))) i
              (omega arith) inside,
        λ all.
            visit_from_accepts functions n 0 (zeros n) (omega arith) size
              (λ k one. let z = get_or-zeros n k in omega (arith, z, one)) all,
      ),
    )
