-- ===== src/Presentation/Pipeline/Channel/Views.antt =====
-- What writes to the banks of native/src/presentation/async_presentation_pipeline.cpp leave of the
-- channel.
use peraviz.Prelude.{
  ℕ, zero, suc, ◌≤◌, ◌<◌, ◌≡◌, ◌≢◌, refl, ap, subst, Option, none, some, List, [], ◌∷◌, ◌++◌, arith,
  length, set, take,
}
use peraviz.Presentation.Pipeline.{Status, Bank, Input, no_input, set_status}
use peraviz.Presentation.Pipeline.Banks.{
  holds, content_of-set_status, content_of-set_other, holds_self,
}
use peraviz.Presentation.Pipeline.Channel.{Channel, frames_at, snapshot_at, snapshots_at}

pub channel_eq :
    {S : Type 0} (c d : Channel S)
    → c.source ≡ d.source
    → c.pending ≡ d.pending
    → c.held ≡ d.held
    → c.unread ≡ d.unread
    → c.stopping ≡ d.stopping
    → c ≡ d
channel_eq c d p q r s t =
    λ i. record { source = p i; pending = q i; held = r i; unread = s i; stopping = t i }

pub frames_at-set_status :
    (banks : List (Bank Input)) (i : ℕ) (status : Status) (o : Option ℕ)
    → frames_at (set_status banks i status) o ≡ frames_at banks o
frames_at-set_status banks i status none = refl
frames_at-set_status banks i status (some b) =
    ap (λ c. some c.frames) (content_of-set_status banks i b status no_input)

pub frames_at-set :
    (banks : List (Bank Input)) (i : ℕ) (bank : Bank Input) (o : Option ℕ)
    → holds o i ≡ 0
    → frames_at (set banks i bank) o ≡ frames_at banks o
frames_at-set banks i bank none h = refl
frames_at-set banks i bank (some b) h =
    ap (λ c. some c.frames)
      (content_of-set_other banks i b bank no_input (λ e.
        let one = subst (λ x. holds (some x) i ≡ 1) e (holds_self i) in omega (arith, h, one)))

module _ {S : Type 0} where
  snapshot_at-set_status :
      (banks : List (Bank S)) (i b : ℕ) (status : Status)
      → snapshot_at (set_status banks i status) b ≡ snapshot_at banks b
  unfolding set_status
  snapshot_at-set_status [] i b status = refl
  snapshot_at-set_status (bank ∷ banks) zero zero status = refl
  snapshot_at-set_status (bank ∷ banks) zero (suc b) status = refl
  snapshot_at-set_status (bank ∷ banks) (suc i) zero status = refl
  snapshot_at-set_status (bank ∷ banks) (suc i) (suc b) status =
      snapshot_at-set_status banks i b status

  pub snapshots_at-set_status :
      (banks : List (Bank S)) (i : ℕ) (status : Status) (o : Option ℕ)
      → snapshots_at (set_status banks i status) o ≡ snapshots_at banks o
  snapshots_at-set_status banks i status none = refl
  snapshots_at-set_status banks i status (some b) = snapshot_at-set_status banks i b status

  snapshot_at-set_other :
      (banks : List (Bank S)) (i b : ℕ) (bank : Bank S)
      → i ≢ b
      → snapshot_at (set banks i bank) b ≡ snapshot_at banks b
  snapshot_at-set_other [] i b bank h = refl
  snapshot_at-set_other (old ∷ banks) zero zero bank h = absurd (h refl)
  snapshot_at-set_other (old ∷ banks) zero (suc b) bank h = refl
  snapshot_at-set_other (old ∷ banks) (suc i) zero bank h = refl
  snapshot_at-set_other (old ∷ banks) (suc i) (suc b) bank h =
      snapshot_at-set_other banks i b bank (λ e. h (ap suc e))

  pub snapshots_at-set :
      (banks : List (Bank S)) (i : ℕ) (bank : Bank S) (o : Option ℕ)
      → holds o i ≡ 0
      → snapshots_at (set banks i bank) o ≡ snapshots_at banks o
  snapshots_at-set banks i bank none h = refl
  snapshots_at-set banks i bank (some b) h =
      snapshot_at-set_other banks i b bank
        (λ e. let one = subst (λ x. holds (some x) i ≡ 1) e (holds_self i) in omega (arith, h, one))

  pub snapshot_at-set_self :
      (banks : List (Bank S)) (i : ℕ) (bank : Bank S)
      → i < length banks
      → snapshot_at (set banks i bank) i ≡ bank.content ∷ []
  snapshot_at-set_self [] i bank h = absurd (omega arith)
  snapshot_at-set_self (old ∷ banks) zero bank h = refl
  snapshot_at-set_self (old ∷ banks) (suc i) bank h =
      snapshot_at-set_self banks i bank (omega (arith, h))

  length-snapshot_at : (banks : List (Bank S)) (i : ℕ) → length (snapshot_at banks i) ≤ 1
  length-snapshot_at [] i = omega arith
  length-snapshot_at (bank ∷ banks) zero = omega arith
  length-snapshot_at (bank ∷ banks) (suc i) = length-snapshot_at banks i

  pub length-snapshots_at :
      (banks : List (Bank S)) (o : Option ℕ) → length (snapshots_at banks o) ≤ 1
  length-snapshots_at banks none = omega arith
  length-snapshots_at banks (some i) = length-snapshot_at banks i

  pub snapshot_at-inside :
      (banks : List (Bank S)) (i : ℕ)
      → i < length banks
      → (snapshot : S) × (snapshot_at banks i ≡ snapshot ∷ [])
  snapshot_at-inside [] i h = absurd (omega arith)
  snapshot_at-inside (bank ∷ banks) zero h = (bank.content, refl)
  snapshot_at-inside (bank ∷ banks) (suc i) h = snapshot_at-inside banks i (omega (arith, h))

  pub append_nil : (xs : List S) → xs ++ [] ≡ xs
  append_nil [] = refl
  append_nil (x ∷ xs) = ap (λ l. x ∷ l) (append_nil xs)

  pub take_length : (xs ys : List S) → take (length xs) (xs ++ ys) ≡ xs
  take_length [] ys = refl
  take_length (x ∷ xs) ys = ap (λ l. x ∷ l) (take_length xs ys)
