-- ===== src/LogFlush/Tests.antt =====
-- The theorem about the rolling sink at concrete values: a limit of three bytes.
use tcp_server.LogFlush.Filenames.{Time, create_filename, create_filename_differ}
use tcp_server.Base.{ℕ, List, [], ◌∷◌, arith, codes, ◌≢◌}

abbrev pieces : List (List ℕ)
pieces = (1 ∷ 2 ∷ 3 ∷ []) ∷ (4 ∷ []) ∷ (5 ∷ 6 ∷ []) ∷ []

abbrev noon : Time
noon = record { tm_year = 125; tm_mon = 0; tm_mday = 2; tm_hour = 12; tm_min = 0; tm_sec = 0 }

create_filename_differ_example :
    create_filename (codes "log") noon 1 ≢ create_filename (codes "log") noon 11
create_filename_differ_example = create_filename_differ (codes "log") noon noon 1 11 (omega arith)
