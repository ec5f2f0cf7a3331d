-- ===== src/LogBuffer/Tests.antt =====
-- The theorems about the log buffer at concrete values.
use tcp_server.LogBuffer.{Config, LogBuffer, writeable_size, push}
use tcp_server.LogBuffer.Growth.{IsValid, push_overruns}
use tcp_server.Base.{ℕ, ◌≡◌, refl, none, List, [], ◌∷◌, arith, sub_size}

abbrev pub small_config : Config
small_config = record { buffer_size = 4; threadhold = 8; linear_growth = 4 }

-- Four places, of which two are taken.
abbrev two_taken : LogBuffer
two_taken = record { bytes = 97 ∷ 98 ∷ 0 ∷ 0 ∷ []; write_pos = 2; read_pos = 0 }

two_taken-IsValid : IsValid two_taken
two_taken-IsValid = record { order = omega arith; inside = omega arith; small = omega arith }

abbrev five : List ℕ
five = 1 ∷ 2 ∷ 3 ∷ 4 ∷ 5 ∷ []

abbrev eleven : List ℕ
eleven = 1 ∷ 2 ∷ 3 ∷ 4 ∷ 5 ∷ 6 ∷ 7 ∷ 8 ∷ 9 ∷ 10 ∷ 11 ∷ []

push_overruns_example : push small_config two_taken eleven ≡ none
push_overruns_example =
    push_overruns small_config two_taken eleven two_taken-IsValid (omega arith) (omega arith)

two_places : writeable_size two_taken ≡ 2
unfolding writeable_size tcp_server.Base.sub_size
two_places = refl
