-- ===== src/Tran/Words.antt =====
-- The search of the reserved words.
use Prim.Native.Nat.{Ordering}
use sql_relational_database.Common.{
  ℕ, zero, suc, ◌+◌, ◌-◌, ◌/◌, ◌≡◌, ◌≢◌, refl, sym, ap, ◌∙◌, Bool, true, false, ltb, ◌==◌, ==_iff,
  arith, ◌⊎◌, inl, inr, ◌&&◌, List, [], ◌∷◌, map, none, some, length, get_elem?, subst, not,
  if◌then◌else◌, Option,
}
use sql_relational_database.Vm.Item.{Text}
use sql_relational_database.Tran.Symbol.{
  symbol, to_upper, compare_text, find_symbol, get_symbol_type, tok_eoi,
}

compare_text-eq : (s t : Text) → compare_text s t ≡ Ordering.eq → s ≡ t
unfolding compare_text
compare_text-eq [] [] h = refl
compare_text-eq [] (c ∷ t) h = cc
compare_text-eq (c ∷ s) [] h = cc
compare_text-eq (c ∷ s) (d ∷ t) h = ground (arith, compare_text-eq s t)

-- The word is in the table with this type.
abbrev pub IsEntry : List (Text × ℕ) → Text → ℕ → Type 0
IsEntry table word type = (i : ℕ) × (get_elem? table i ≡ some (word, type))

-- What the search returns is the unknown type or that of an entry.
module _ (table : List (Text × ℕ)) (text : Text) where
  abbrev SearchOutcome : ℕ → Type 0
  SearchOutcome found = (found ≡ tok_eoi) ⊎ IsEntry table text found

  at_word :
      (i : ℕ) (word : Text) (type left right : ℕ)
      → get_elem? table i ≡ some (word, type)
      → SearchOutcome left
      → SearchOutcome right
      → SearchOutcome (elim (compare_text text word) as (λ _. ℕ) [
        | Ordering.lt ↦ left
        | Ordering.eq ↦ type
        | Ordering.gt ↦ right
      ])
  at_word i word type left right e l r = go (compare_text text word) refl
    where
      go :
          (o : Ordering)
          → compare_text text word ≡ o
          → SearchOutcome
              (elim o as (λ _. ℕ) [ Ordering.lt ↦ left | Ordering.eq ↦ type | Ordering.gt ↦ right ])
      go Ordering.lt h = l
      go Ordering.eq h = inr (i, e ∙ ap (λ w. some (w, type)) (sym (compare_text-eq text word h)))
      go Ordering.gt h = r

  at_slot :
      (b : Bool) (o : Option (Text × ℕ)) (i left right : ℕ)
      → get_elem? table i ≡ o
      → SearchOutcome left
      → SearchOutcome right
      → SearchOutcome (
          if b
          then elim o as (λ _. ℕ) [
            | none ↦ tok_eoi
            | some (word, type) ↦ elim (compare_text text word) as (λ _. ℕ) [
              | Ordering.lt ↦ left
              | Ordering.eq ↦ type
              | Ordering.gt ↦ right
            ]
          ]
          else tok_eoi)
  at_slot false o i left right e l r = inl refl
  at_slot true none i left right e l r = inl refl
  at_slot true (some (word, type)) i left right e l r = at_word i word type left right e l r

  find_symbol_sound : (fuel lo past : ℕ) → SearchOutcome (find_symbol table fuel text lo past)
  unfolding find_symbol
  find_symbol_sound zero lo past = inl refl
  find_symbol_sound (suc fuel) lo past =
      at_slot (ltb lo past) (get_elem? table ((lo + past - 1) / 2)) ((lo + past - 1) / 2)
        (find_symbol table fuel text lo ((lo + past - 1) / 2))
        (find_symbol table fuel text ((lo + past - 1) / 2 + 1) past) refl
        (find_symbol_sound fuel lo ((lo + past - 1) / 2))
        (find_symbol_sound fuel ((lo + past - 1) / 2 + 1) past)

-- Each word of the table is found, with its type, which is not the unknown one.
found : Text → ℕ
unfolding find_symbol symbol
found word = find_symbol symbol (length symbol + 1) word 0 (length symbol)

abbrev known : List (Text × ℕ) → Bool
known [] = true
known ((word, type) ∷ table) = found word == type && not (type == tok_eoi) && known table

split : (a b c : Bool) → (a && b && c) ≡ true → ((a && b) ≡ true) × (c ≡ true)
split true true c h = (refl, h)
split true false c h = cc
split false b c h = cc

known_at :
    (table : List (Text × ℕ)) (i : ℕ) (word : Text) (type : ℕ)
    → known table ≡ true
    → get_elem? table i ≡ some (word, type)
    → (found word ≡ type) × (type ≢ tok_eoi)
known_at [] i word type h e = cc
known_at ((w, t) ∷ table) zero word type h e =
    let (k, rest) = split (found w == t) (not (t == tok_eoi)) (known table) h in
    ground (arith, ==_iff (found w) t)
known_at ((w, t) ∷ table) (suc i) word type h e =
    known_at table i word type (split (found w == t) (not (t == tok_eoi)) (known table) h).1 e

known-symbol : known symbol ≡ true
unfolding found
known-symbol = refl

get_symbol_type-found : (text : Text) → get_symbol_type text ≡ found (map to_upper text)
unfolding get_symbol_type found
get_symbol_type-found text = refl

found-SearchOutcome : (word : Text) → SearchOutcome symbol word (found word)
unfolding found
found-SearchOutcome word = find_symbol_sound symbol word (length symbol + 1) 0 (length symbol)

found_lem :
    (word : Text)
    → SearchOutcome symbol word (found word)
    → IsEntry symbol word (found word)
      ⊎ ((found word ≡ tok_eoi) × ((type : ℕ) → ¬ (IsEntry symbol word type)))
found_lem word (inr entry) = inl entry
found_lem word (inl e) =
    inr (e, λ type (i, h). let (k, n) = known_at symbol i word type known-symbol h in n (sym k ∙ e))

-- The search for a word of the table by halving finds its type, whatever the case of its letters,
-- and any other word has the unknown type, that of a name.
pub get_symbol_type_lem :
    (text : Text)
    → IsEntry symbol (map to_upper text) (get_symbol_type text)
      ⊎ ((get_symbol_type text ≡ tok_eoi)
          × ((type : ℕ) → ¬ (IsEntry symbol (map to_upper text) type)))
get_symbol_type_lem text =
    subst
      (λ t.
        IsEntry symbol (map to_upper text) t
        ⊎ ((t ≡ tok_eoi) × ((type : ℕ) → ¬ (IsEntry symbol (map to_upper text) type))))
      (sym (get_symbol_type-found text))
      (found_lem (map to_upper text) (found-SearchOutcome (map to_upper text)))
