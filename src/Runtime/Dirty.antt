-- ===== src/Runtime/Dirty.antt =====
-- native/src/runtime/ordered_dirty_indices.h: the indices nominated since the last `clear`, each
-- once, visited in ascending order. The capacities of the two vectors are not modelled.
pub mod Visits
use peraviz.Prelude.{
  ℕ, ◌+◌, Bool, true, false, not, ◌&&◌, List, [], ◌∷◌, ◌++◌, ℤ, pos, negsuc, ltb, if◌then◌else◌,
  length, get_or, set, replicate, sort,
}

pub record OrderedDirtyIndices : Type 0 where
  pub sorted : Bool
  pub seen : List Bool
  pub indices : List ℕ

abbrev pub no_indices : OrderedDirtyIndices
no_indices = record { sorted = true; seen = []; indices = [] }

-- `sorted_` stays as it is.
unfoldable pub install : OrderedDirtyIndices → ℕ → OrderedDirtyIndices
install d size = record d { seen = replicate size false; indices = [] }

unfoldable pub clear_seen : List Bool → List ℕ → List Bool
clear_seen seen [] = seen
clear_seen seen (index ∷ rest) = clear_seen (set seen index false) rest

unfoldable pub clear : OrderedDirtyIndices → OrderedDirtyIndices
clear d = record { sorted = true; seen = clear_seen d.seen d.indices; indices = [] }

-- One round of the loop of `insert`.
unfoldable pub nominate : OrderedDirtyIndices → ℤ → OrderedDirtyIndices
nominate d (negsuc n) = d
nominate d (pos index) =
    if ltb index (length d.seen) && not (get_or d.seen index false)
    then record { sorted = false; seen = set d.seen index true; indices = d.indices ++ index ∷ [] }
    else d

unfoldable pub insert : OrderedDirtyIndices → List ℤ → OrderedDirtyIndices
insert d [] = d
insert d (index ∷ rest) = insert (nominate d index) rest

-- `begin`, with the indices from there to `end`.
unfoldable pub visit : OrderedDirtyIndices → List ℕ × OrderedDirtyIndices
visit d =
    let ordered = sort d.indices in
    if d.sorted then (d.indices, d) else (ordered, record d { sorted = true; indices = ordered })
