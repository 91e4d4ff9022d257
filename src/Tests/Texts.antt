-- ===== src/Tests/Texts.antt =====
-- What the debug output makes of a few texts.
use co_net.Base.{◌≡◌, ◌≢◌, refl, [], ◌∷◌, none, some}
use co_net.Dump.{Text, newline, transfer, words, last_word}
use co_net.Dump.Escape.{Every, each, shown, through_nul, transfer-shown}

-- "a/b/c" has the words "a", "b" and "c"; "/" has two empty ones, and "" none.
file_names :
    (last_word (words (97 ∷ 47 ∷ 98 ∷ 47 ∷ 99 ∷ [])) ≡ some (99 ∷ []))
    × (words (47 ∷ []) ≡ [] ∷ [] ∷ [])
    × (last_word (words []) ≡ none)
unfolding words last_word
file_names = (refl, refl, refl)

-- "a\nb" is printed as "a\\nb"; what follows a null character is not printed.
messages :
    (transfer (97 ∷ 10 ∷ 98 ∷ []) ≡ 97 ∷ 92 ∷ 110 ∷ 98 ∷ [])
    × (transfer (97 ∷ 0 ∷ 98 ∷ []) ≡ 97 ∷ 0 ∷ [])
unfolding transfer
messages = (refl, refl)

abbrev two_lines : Text
two_lines = 97 ∷ 10 ∷ 98 ∷ 0 ∷ 99 ∷ []

transfer-shown_example :
    (transfer two_lines ≡ each shown (through_nul two_lines))
    × Every (λ c. c ≢ newline) (transfer two_lines)
transfer-shown_example = transfer-shown two_lines
