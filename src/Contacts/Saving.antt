-- ===== src/Contacts/Saving.antt =====
-- What `save_file` of test2/contacts.cpp writes.
use test_linux.Base.{
  ℕ, zero, suc, ◌+◌, ◌<◌, ◌≡◌, refl, sym, ap, subst, ◌∙◌, true, false, some, List, [], ◌∷◌, ◌++◌,
  append_assoc, append-nil, ◌==◌, Bool-cases, inl, inr, length, arith, ok, Bytes, ℤ, pos, negsuc,
  leb, take, length-append, take-all, take-part, take-past,
}
use test_linux.Contacts.Persons.{Person}
use test_linux.Contacts.Nodes.{Store}
use test_linux.Contacts.Files.{size_buffer_p, image, images, flush, save_from, save_file}
use test_linux.Contacts.Chain.{Entries, Chain, nil, cons}
use test_linux.Contacts.Loops.{persons, load-held}
use test_linux.Contacts.Book.{Shelf}

pub images-append : (ps qs : List Person) → images (ps ++ qs) ≡ images ps ++ images qs
images-append [] qs = refl
images-append (p ∷ ps) qs = rw (images-append ps qs, append_assoc (image p) (images ps) (images qs))

-- How saving ends: with all persons in the file, or at a short write, with a front part of their
-- bytes.
abbrev pub Saved : (ℕ → ℕ) → List Person → ℤ × Bytes → Type 0
Saved writes ps (pos n, file) = (n ≡ 0) × (file ≡ images ps)
Saved writes ps (negsuc n, file) =
    (n ≡ 1)
    × ((k : ℕ) × (writes k < length (images ps)))
    × ((m : ℕ) × (m < length (images ps)) × (file ≡ take m (images ps)))

module _ (writes : ℕ → ℕ) (s : Store) where
  -- A short write of some persons, behind those written before.
  short-Saved :
      (k : ℕ) (before now rest : List Person)
      → leb (length (images now)) (writes k) ≡ false
      → Saved writes
          (before ++ (now ++ rest))
          (negsuc 1, images before ++ take (writes k) (images now))
  short-Saved k before now rest short =
      let less : writes k < length (images now) = ground arith in
      let size : length (images (before ++ (now ++ rest)))
          ≡ length (images before) + (length (images now) + length (images rest)) =
        rw (
          images-append before (now ++ rest),
          images-append now rest,
          length-append (images before) (images now ++ images rest),
          length-append (images now) (images rest),
        ) in
      (
        refl,
        (k, omega arith),
        (
          length (images before) + writes k,
          omega arith,
          rw (
            images-append before (now ++ rest),
            images-append now rest,
            take-past (writes k) (images before) (images now ++ images rest),
            take-part (writes k) (images now) (images rest) (omega arith),
          ),
        ),
      )

  written-all :
      (k : ℕ) (before now : List Person)
      → leb (length (images now)) (writes k) ≡ true
      → images before ++ take (writes k) (images now) ≡ images (before ++ now)
  written-all k before now all =
      ap (λ (b : Bytes). images before ++ b) (take-all (writes k) (images now) (ground arith))
      ∙ sym (images-append before now)

  flush-Saved :
      (k : ℕ) (before buffer : List Person)
      → Saved writes (before ++ buffer) (flush writes k buffer (images before))
  unfolding flush
  flush-Saved k before [] = (refl, rw (append-nil before))
  flush-Saved k before (p ∷ ps) = elim (Bool-cases (leb (length (images (p ∷ ps))) (writes k))) [
    | inl all ↦ rw all (refl, written-all k before (p ∷ ps) all)
    | inr short ↦ rw short (
        subst
          (λ (l : List Person).
            Saved writes (before ++ l)
              (negsuc 1, images before ++ take (writes k) (images (p ∷ ps))))
          (append-nil (p ∷ ps)) (short-Saved k before (p ∷ ps) [] short))
  ]

  pub save_from-Saved :
      {prev p : ℕ} {xs : Entries} (f k : ℕ) (before buffer : List Person)
      → Chain s.cells prev p xs
      → length xs < f
      → (r : ℤ × Bytes) × (save_from writes f s p k buffer (images before) ≡ ok r)
        × Saved writes (before ++ (buffer ++ persons xs)) r
  unfolding save_from
  save_from-Saved zero k before buffer c h = absurd (omega arith)
  save_from-Saved (suc f) k before buffer nil h =
      (_, refl, rw (append-nil buffer) (flush-Saved k before buffer))
  save_from-Saved (suc f) k before buffer (cons {p} {q} {d} {xs} ne e out c) h =
      elim (Bool-cases (length more == size_buffer_p)) [
        | inl full ↦ elim (Bool-cases (leb (length (images more)) (writes k))) [
          | inl all ↦
              let (r, e', saved) = save_from-Saved f (k + 1) (before ++ more) [] c (omega arith) in
              (
                r,
                ground (arith, load-held s p _ ne e, onward all e'),
                subst (λ (l : List Person). Saved writes l r)
                    (append_assoc before more (persons xs)
                      ∙ ap (λ (l : List Person). before ++ l) whole)
                    saved,
              )
          | inr short ↦ (
            (negsuc 1, images before ++ take (writes k) (images more)),
            ground (arith, load-held s p _ ne e),
            subst
                (λ (l : List Person).
                  Saved writes (before ++ l)
                    (negsuc 1, images before ++ take (writes k) (images more)))
                whole (short-Saved k before more (persons xs) short),
          )
        ]
        | inr room ↦
            let (r, e', saved) = save_from-Saved f k before more c (omega arith) in
            (
              r,
              ground (arith, load-held s p _ ne e),
              subst (λ (l : List Person). Saved writes (before ++ l) r) whole saved,
            )
      ]
    where
      more : List Person
      more = buffer ++ d ∷ []

      onward :
          {r : ℤ × Bytes}
          → leb (length (images more)) (writes k) ≡ true
          → save_from writes f s q (k + 1) [] (images (before ++ more)) ≡ ok r
          → save_from writes f s q (k + 1) [] (images before ++ take (writes k) (images more))
            ≡ ok r
      onward all e' =
          ap (λ (b : Bytes). save_from writes f s q (k + 1) [] b) (written-all k before more all)
          ∙ e'

      whole : more ++ persons xs ≡ buffer ++ d ∷ persons xs
      whole = append_assoc buffer (d ∷ []) (persons xs)

pub save_file-Saved :
    {s : Store} {first : ℕ} {xs : Entries} (writes : ℕ → ℕ)
    → Shelf s first xs
    → (code : ℤ) × (file : Bytes) × (save_file true writes s first ≡ ok (code, some file))
      × Saved writes (persons xs) (code, file)
unfolding save_file
save_file-Saved {s} writes shelf =
    let ((code, file), e, saved) =
      save_from-Saved writes s (suc s.fresh) 0 [] [] shelf.chain (omega (arith, shelf.bounded)) in
    (code, file, rw e refl, saved)
