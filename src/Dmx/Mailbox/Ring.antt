-- ===== src/Dmx/Mailbox/Ring.antt =====
-- The ring of dirty tokens of native/src/dmx/realtime_universe_mailbox.cpp as the queue of the
-- tokens that it holds.
use native.Mathlib.Nat.{mod-add-mod, mod-eq_of_lt, mod-eq-sub-mod, add-zero}
use native.Mathlib.Decide.{dec_lt}
use peraviz.Prelude.{
  ℕ, zero, suc, ◌+◌, ◌-◌, ◌%◌, ◌<◌, ◌≡◌, refl, ap, ◌∙◌, ◌≢◌, List, [], ◌∷◌, ◌++◌, arith, length,
  get_or, set,
}
use peraviz.Dmx.Mailbox.State.{DirtyToken, Mailbox, no_token}

-- The `count` tokens from index `head` on, round the end of the array.
unfoldable pub tokens_from : List DirtyToken → ℕ → ℕ → List DirtyToken
tokens_from ring head zero = []
tokens_from ring head (suc count) =
    get_or ring head no_token ∷ tokens_from ring ((head + 1) % length ring) count

unfoldable pub pending : Mailbox → List DirtyToken
pending m = tokens_from m.dirty_tokens m.dirty_head m.dirty_count

pub length-tokens_from :
    (ring : List DirtyToken) (head count : ℕ) → length (tokens_from ring head count) ≡ count
unfolding tokens_from
length-tokens_from ring head zero = refl
length-tokens_from ring head (suc count) =
    ap suc (length-tokens_from ring ((head + 1) % length ring) count)

pub length-set_token :
    (ring : List DirtyToken) (i : ℕ) (t : DirtyToken) → length (set ring i t) ≡ length ring
length-set_token [] i t = refl
length-set_token (x ∷ xs) zero t = refl
length-set_token (x ∷ xs) (suc i) t = ap suc (length-set_token xs i t)

get-set_self :
    (ring : List DirtyToken) (i : ℕ) (t : DirtyToken)
    → i < length ring
    → get_or (set ring i t) i no_token ≡ t
get-set_self [] i t h = absurd (omega arith)
get-set_self (x ∷ xs) zero t h = refl
get-set_self (x ∷ xs) (suc i) t h = get-set_self xs i t (omega arith)

get-set_ne :
    (ring : List DirtyToken) (i j : ℕ) (t : DirtyToken)
    → i ≢ j
    → get_or (set ring i t) j no_token ≡ get_or ring j no_token
get-set_ne [] i j t h = refl
get-set_ne (x ∷ xs) zero zero t h = absurd (h refl)
get-set_ne (x ∷ xs) zero (suc j) t h = refl
get-set_ne (x ∷ xs) (suc i) zero t h = refl
get-set_ne (x ∷ xs) (suc i) (suc j) t h = get-set_ne xs i j t (λ e. h (ap suc e))

-- Going fewer steps than the ring has places does not lead back.
step-ne : (size head k : ℕ) → head < size → suc k < size → (head + suc k) % size ≢ head
step-ne size head k h hk = elim (dec_lt (head + suc k) size) [
  | yes p ↦ omega (arith, mod-eq_of_lt p)
  | no p ↦ omega (
    arith,
    mod-eq-sub-mod {n = head + suc k} {m = size} (omega arith),
    mod-eq_of_lt {n = head + suc k - size} {m = size} (omega arith),
  )
]

next-step : (size head k : ℕ) → (head + suc k) % size ≡ ((head + 1) % size + k) % size
next-step size head k = rw mod-add-mod (ap (λ n. n % size) (omega arith))

-- A token that is written behind the last one is appended.
pub tokens_from-set :
    (ring : List DirtyToken) (t : DirtyToken) (count head i : ℕ)
    → head < length ring
    → count < length ring
    → i ≡ (head + count) % length ring
    → tokens_from (set ring i t) head (suc count) ≡ tokens_from ring head count ++ t ∷ []
unfolding tokens_from
tokens_from-set ring t zero head i hh hc e =
    rw (e, add-zero, mod-eq_of_lt hh, get-set_self ring head t hh)
tokens_from-set ring t (suc count) head i hh hc e =
    let ih =
      tokens_from-set ring t count ((head + 1) % length ring) i (omega arith) (omega arith)
        (e ∙ next-step (length ring) head count) in
    rw
      (
        length-set_token ring i t,
        get-set_ne ring i head t (rw e (step-ne (length ring) head count hh hc)),
      )
      (ap (λ ts. get_or ring head no_token ∷ ts) (rw (length-set_token ring i t) at ih))
