-- ===== src/Buffer/Tests.antt =====
-- Runs of class buffer, and each of its theorems at an input.
use sql_relational_database.Common.{◌+◌, ◌≡◌, refl, arith, [], ◌∷◌}
use sql_relational_database.Common.Int.{pos, negsuc}
use sql_relational_database.Common.Exec.{ok, err, out_of_storage, remaining_error, ◌>>◌}
use sql_relational_database.Buffer.{remaining, Buffer, make, get, get_varchar_at, put_varchar_at}
use sql_relational_database.Buffer.Words.{at_index, put_int32, get_int32}
use sql_relational_database.Buffer.Valid.{IsValid, run, run-IsValid, put_text, at}
use sql_relational_database.Buffer.Access.{get_lem}
use sql_relational_database.Buffer.Text.{written, moved}
use sql_relational_database.Buffer.RoundTrip.{get_varchar_at-put_varchar_at}
use sql_relational_database.Buffer.WordTrip.{get_int32-put_int32}
use sql_relational_database.Buffer.Copy.{Copy, put_buffer}
use sql_relational_database.Buffer.Copy.Moves.{put_buffer_lem}

abbrev empty16 : Buffer
unfolding make
empty16 = make 16 (λ _. 0)

abbrev small : Buffer
small = record { size = 4; bound = 4; index = 1; cells = λ i. i + 10 }

abbrev pair_of : Copy
pair_of = record {
  src = record { size = 8; bound = 8; index = 2; cells = λ i. i + 1 };
  dst = small;
}

-- -2 as four bytes.
minus_two :
    (at_index (pos 3) (put_int32 (negsuc 1)) >> get_varchar_at (pos 3) 4) empty16
    ≡ (ok (255 ∷ 255 ∷ 255 ∷ 254 ∷ []), written (moved empty16 3) (255 ∷ 255 ∷ 255 ∷ 254 ∷ []))
unfolding at_index put_int32 get_varchar_at make
minus_two = refl

get_lem_example :
    get (record small { index = 4 }) ≡ (err out_of_storage, record small { index = 4 })
get_lem_example = get_lem (record small { index = 4 }) (omega arith) (omega arith)

run-IsValid_example : IsValid (run (at (pos 2) (put_text (7 ∷ 8 ∷ 9 ∷ []))) small)
run-IsValid_example = run-IsValid (at (pos 2) (put_text (7 ∷ 8 ∷ 9 ∷ []))) small (omega arith)

get_varchar_at-put_varchar_at_example :
    (put_varchar_at (pos 2) (7 ∷ 8 ∷ []) >> get_varchar_at (pos 2) 2) small
    ≡ (ok (7 ∷ 8 ∷ []), written (moved small 2) (7 ∷ 8 ∷ []))
get_varchar_at-put_varchar_at_example =
    get_varchar_at-put_varchar_at 2 (7 ∷ 8 ∷ []) small (omega arith) (omega arith)

get_int32-put_int32_example :
    (at_index (pos 0) (put_int32 (pos 258)) >> at_index (pos 0) get_int32) small
    ≡ (ok (pos 258), written (moved small 0) (0 ∷ 0 ∷ 1 ∷ 2 ∷ []))
get_int32-put_int32_example =
    get_int32-put_int32 0 (pos 258) small (omega arith) (omega arith) (omega arith)

put_buffer_lem_example : put_buffer pair_of ≡ (err remaining_error, pair_of)
unfolding remaining
put_buffer_lem_example = put_buffer_lem pair_of (omega arith) (omega arith) (omega arith)
