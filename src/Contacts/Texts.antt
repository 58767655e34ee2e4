-- ===== src/Contacts/Texts.antt =====
-- The arrays of a `Person` of test2/contacts.cpp as texts.
use test_linux.Base.{
  ℕ, zero, suc, ◌-◌, ◌≡◌, refl, Bool, true, false, ◌&&◌, [], ◌∷◌, ◌++◌, ◌==◌, length, take,
  replicate, length-append, length-replicate, arith, ok, Bytes, until_zero, length-take-le,
}
use test_linux.Contacts.Persons.{Person, array, new_person, strcmp_eq, person_eq}

-- An array with a terminator in it.
abbrev pub IsText : Bytes → Type 0
IsText [] = ⊥
IsText (zero ∷ b) = Unit
IsText (suc c ∷ b) = IsText b

pub record IsPerson (p : Person) : Type 0 where
  pub name_size : length p.name ≡ 16
  pub phone_size : length p.phone ≡ 16
  pub name_text : IsText p.name
  pub phone_text : IsText p.phone

abbrev pub bytes_eq : Bytes → Bytes → Bool
bytes_eq [] [] = true
bytes_eq [] (y ∷ b) = false
bytes_eq (x ∷ a) [] = false
bytes_eq (x ∷ a) (y ∷ b) = x == y && bytes_eq a b

-- Two persons with the same texts, whatever stands behind the terminators.
abbrev pub same_texts : Person → Person → Bool
same_texts p q =
    bytes_eq (until_zero p.name) (until_zero q.name)
    && bytes_eq (until_zero p.phone) (until_zero q.phone)

abbrev pub is_named : Bytes → Person → Bool
is_named name p = bytes_eq (until_zero p.name) (until_zero name)

pub strcmp_eq-bytes_eq :
    (a b : Bytes)
    → IsText a
    → IsText b
    → strcmp_eq a b ≡ ok (bytes_eq (until_zero a) (until_zero b))
unfolding strcmp_eq
strcmp_eq-bytes_eq [] b s t = absurd s
strcmp_eq-bytes_eq (x ∷ a) [] s t = absurd t
strcmp_eq-bytes_eq (zero ∷ a) (zero ∷ b) s t = refl
strcmp_eq-bytes_eq (zero ∷ a) (suc y ∷ b) s t = ground arith
strcmp_eq-bytes_eq (suc x ∷ a) (zero ∷ b) s t = ground arith
strcmp_eq-bytes_eq (suc x ∷ a) (suc y ∷ b) s t = ground (arith, strcmp_eq-bytes_eq a b s t)

pub person_eq-same_texts :
    (p q : Person) → IsPerson p → IsPerson q → person_eq p q ≡ ok (same_texts p q)
unfolding person_eq
person_eq-same_texts p q s t = ground (
  arith,
  strcmp_eq-bytes_eq p.name q.name s.name_text t.name_text,
  strcmp_eq-bytes_eq p.phone q.phone s.phone_text t.phone_text,
)

IsText-append : (n k : ℕ) (b : Bytes) → IsText (take n (until_zero b) ++ replicate (suc k) 0)
IsText-append zero k b = tt
IsText-append (suc n) k [] = tt
IsText-append (suc n) k (zero ∷ b) = tt
IsText-append (suc n) k (suc c ∷ b) = IsText-append n k b

length-array : (n : ℕ) (b : Bytes) → length (array n b) ≡ suc n
length-array n b = omega (
  arith,
  length-append (take n (until_zero b)) (replicate (suc n - length (take n (until_zero b))) 0),
  length-replicate {A = ℕ} (suc n - length (take n (until_zero b))) 0,
  length-take-le n (until_zero b),
)

pub array-IsText : (n : ℕ) (b : Bytes) → IsText (array n b)
array-IsText n b =
    let e : suc n - length (take n (until_zero b)) ≡ suc (n - length (take n (until_zero b))) =
      omega (arith, length-take-le n (until_zero b)) in
    rw e (IsText-append n (n - length (take n (until_zero b))) b)

pub new_person-IsPerson : (name phone : Bytes) → IsPerson (new_person name phone)
unfolding new_person
new_person-IsPerson name phone = record {
  name_size = length-array 15 name;
  phone_size = length-array 15 phone;
  name_text = array-IsText 15 name;
  phone_text = array-IsText 15 phone;
}
