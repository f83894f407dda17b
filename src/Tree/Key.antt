-- ===== src/Tree/Key.antt =====
-- Keys are std::string values, compared by std::string::compare: byte by byte, and a proper
-- prefix is less.
use sql_relational_database.Common.{ℕ, ◌≡◌, ◌≢◌, refl, arith, List, [], ◌∷◌, ltb, if◌then◌else◌}

abbrev pub Key : Type 0
Key = List ℕ

-- The sign of the result.
pub data Sign : Type 0 where
  less same greater : Sign

unfoldable pub compare_key : Key → Key → Sign
compare_key [] [] = same
compare_key [] (y ∷ ys) = less
compare_key (x ∷ xs) [] = greater
compare_key (x ∷ xs) (y ∷ ys) =
    let rest = compare_key xs ys in if ltb x y then less else if ltb y x then greater else rest

pub compare_key_refl : (a : Key) → compare_key a a ≡ same
unfolding compare_key
compare_key_refl [] = refl
compare_key_refl (x ∷ xs) = ground (arith, compare_key_refl xs)

pub eq_of_same : (a b : Key) → compare_key a b ≡ same → a ≡ b
unfolding compare_key
eq_of_same [] [] h = refl
eq_of_same [] (y ∷ ys) h = cc
eq_of_same (x ∷ xs) [] h = cc
eq_of_same (x ∷ xs) (y ∷ ys) h = ground (arith, eq_of_same xs ys)

pub greater_of_less : (a b : Key) → compare_key a b ≡ less → compare_key b a ≡ greater
unfolding compare_key
greater_of_less [] [] h = cc
greater_of_less [] (y ∷ ys) h = refl
greater_of_less (x ∷ xs) [] h = cc
greater_of_less (x ∷ xs) (y ∷ ys) h = ground (arith, greater_of_less xs ys)

pub less_of_greater : (a b : Key) → compare_key a b ≡ greater → compare_key b a ≡ less
unfolding compare_key
less_of_greater [] [] h = cc
less_of_greater [] (y ∷ ys) h = cc
less_of_greater (x ∷ xs) [] h = refl
less_of_greater (x ∷ xs) (y ∷ ys) h = ground (arith, less_of_greater xs ys)

-- A strict step after a weak one, in both directions.
pub less_trans :
    (a b c : Key) → compare_key a b ≡ less → compare_key b c ≢ greater → compare_key a c ≡ less
unfolding compare_key
less_trans [] [] c h k = cc
less_trans [] (y ∷ ys) [] h k = absurd (k refl)
less_trans [] (y ∷ ys) (z ∷ zs) h k = refl
less_trans (x ∷ xs) [] c h k = cc
less_trans (x ∷ xs) (y ∷ ys) [] h k = absurd (k refl)
less_trans (x ∷ xs) (y ∷ ys) (z ∷ zs) h k = ground (arith, less_trans xs ys zs)

pub greater_trans :
    (a b c : Key)
    → compare_key a b ≡ greater
    → compare_key c b ≢ greater
    → compare_key a c ≡ greater
unfolding compare_key
greater_trans [] [] c h k = cc
greater_trans [] (y ∷ ys) c h k = cc
greater_trans (x ∷ xs) b [] h k = refl
greater_trans (x ∷ xs) [] (z ∷ zs) h k = absurd (k refl)
greater_trans (x ∷ xs) (y ∷ ys) (z ∷ zs) h k = ground (arith, greater_trans xs ys zs)
