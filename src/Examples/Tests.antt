-- ===== src/Examples/Tests.antt =====
-- project_3/myClient.c at a concrete input: the line "hi".
use remotecopy.Base.{ℕ, ◌<◌, ◌≤◌, ◌≡◌, ◌≢◌, List, [], ◌∷◌, ◌++◌, All, length, replicate}
use remotecopy.Examples.MyClient.{maxbuf, read_from_stdin, read_from_stdin_lem}

abbrev typed : List ℕ
typed = 104 ∷ 105 ∷ 10 ∷ []

read_from_stdin_lem_example :
    (length (read_from_stdin typed) ≤ maxbuf)
    × ((text rest : List ℕ)
        → All (λ c. c ≢ 10) text
        → length text < 1023
        → read_from_stdin (text ++ 10 ∷ rest) ≡ text ++ 0 ∷ [])
    × (read_from_stdin [] ≡ replicate 1023 255 ++ 0 ∷ [])
read_from_stdin_lem_example = read_from_stdin_lem typed
