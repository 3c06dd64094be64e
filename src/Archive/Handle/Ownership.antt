-- ===== src/Archive/Handle/Ownership.antt =====
-- The handles of native/src/archive/zip_archive.cpp are released once each.
use peraviz.Prelude.{◌≡◌, refl, sym, ap, ◌∙◌, Bool, Option, none, some, List, [], ◌∷◌, ◌++◌}
use peraviz.Archive.Handle.{
  ZipArchive, new_archive, handles, reset, open_read, open_create_or_modify, close,
}

-- The operations on a wrapper that concern its handle.
pub data Operation (H : Type 0) : Type 0 where
  reading creating : Option H → Operation H
  closing : Bool → Operation H

abbrev pub opened_by : {H : Type 0} → Operation H → List H
opened_by (reading opened) = handles opened
opened_by (creating opened) = handles opened
opened_by (closing closed) = []

unfoldable pub perform : {H : Type 0} → ZipArchive H → Operation H → ZipArchive H × List H
perform z (reading opened) = (open_read z opened).1
perform z (creating opened) = (open_create_or_modify z opened).1
perform z (closing closed) = (close z closed).1

-- The wrapper after the operations, and all that they have released.
unfoldable pub perform_all :
    {H : Type 0} → ZipArchive H → List (Operation H) → ZipArchive H × List H
perform_all z [] = (z, [])
perform_all z (o ∷ os) =
    let (z', first) = perform z o in let (z'', rest) = perform_all z' os in (z'', first ++ rest)

unfoldable pub opened_by_all : {H : Type 0} → List (Operation H) → List H
opened_by_all [] = []
opened_by_all (o ∷ os) = opened_by o ++ opened_by_all os

append_assoc : {H : Type 0} (xs ys zs : List H) → (xs ++ ys) ++ zs ≡ xs ++ (ys ++ zs)
append_assoc [] ys zs = refl
append_assoc (x ∷ xs) ys zs = ap (λ l. x ∷ l) (append_assoc xs ys zs)

append_nil : {H : Type 0} (xs : List H) → xs ++ [] ≡ xs
append_nil [] = refl
append_nil (x ∷ xs) = ap (λ l. x ∷ l) (append_nil xs)

close-handles :
    {H : Type 0} (z : ZipArchive H) (closed : Bool) (o : Option H)
    → z.archive ≡ o
    → (close z closed).1.1 ++ handles (close z closed).1.0.archive ≡ handles o
unfolding close
close-handles z closed none e = rw (e, close) (ap handles e)
close-handles z closed (some h) e = rw (e, close) refl

perform-handles :
    {H : Type 0} (z : ZipArchive H) (o : Operation H)
    → (perform z o).1 ++ handles (perform z o).0.archive ≡ handles z.archive ++ opened_by o
unfolding perform open_read open_create_or_modify
perform-handles z (reading none) = refl
perform-handles z (reading (some h)) = refl
perform-handles z (creating none) = refl
perform-handles z (creating (some h)) = refl
perform-handles z (closing closed) =
    close-handles z closed z.archive refl ∙ sym (append_nil (handles z.archive))

perform_all-handles :
    {H : Type 0} (z : ZipArchive H) (os : List (Operation H))
    → (perform_all z os).1 ++ handles (perform_all z os).0.archive
      ≡ handles z.archive ++ opened_by_all os
unfolding perform_all opened_by_all
perform_all-handles z [] = sym (append_nil (handles z.archive))
perform_all-handles z (o ∷ os) =
    let (z', first) = perform z o in
    append_assoc first (perform_all z' os).1 (handles (perform_all z' os).0.archive)
    ∙ ap (λ l. first ++ l) (perform_all-handles z' os)
    ∙ sym (append_assoc first (handles z'.archive) (opened_by_all os))
    ∙ ap (λ l. l ++ opened_by_all os) (perform-handles z o)
    ∙ append_assoc (handles z.archive) (opened_by o) (opened_by_all os)

-- From a new wrapper on, whatever is opened and closed in any order and with any answers of
-- libzip, the handles closed or discarded, those of the destructor at the end included, are those
-- that were opened, each once and in that order.
pub perform_all-released :
    {H : Type 0} (os : List (Operation H))
    → (perform_all new_archive os).1 ++ (reset (perform_all new_archive os).0).1 ≡ opened_by_all os
unfolding reset
perform_all-released os = perform_all-handles new_archive os
