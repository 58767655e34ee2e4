-- ===== src/Words/Examples.antt =====
-- The count of test1/count_word.cpp on "abc d", cut inside the first word.
use test_linux.Base.{◌≡◌, some, [], ◌∷◌, arith}
use test_linux.Words.{count_word, count_word-words}

count_word-words_example :
    count_word 2 (some ((97 ∷ 98 ∷ []) ∷ (99 ∷ 32 ∷ 100 ∷ []) ∷ [] ∷ [])) ≡ some (0, some 2)
count_word-words_example =
    count_word-words 2 ((97 ∷ 98 ∷ []) ∷ (99 ∷ 32 ∷ 100 ∷ []) ∷ []) [] (omega arith)
      ((λ e. cc), ((λ e. cc), tt))
