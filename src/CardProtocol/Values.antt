-- ===== src/CardProtocol/Values.antt =====
-- `cardFieldValuesEqual` of cardMutationProtocol.ts. A value is a scalar of `S` (a text, a number, a
-- Boolean, null or undefined), an array, or an object, which is kept as its entries in the order of
-- their keys, as the source sorts them. `Object.is` on scalars is the decision of `S`, and two
-- arrays or objects that are the same one are equal here as well.
use flash_card.Prelude.{◌≡◌, refl, Bool, true, false, ◌&&◌, String, same, arith}
use flash_card.Prelude.Text.{text_discrete}

mutual
  pub data Value (S : Type 0) : Type 0 where
    scalar : S → Value S
    array : Values S → Value S
    object : Entries S → Value S

  pub data Values (S : Type 0) : Type 0 where
    no_values : Values S
    value : Value S → Values S → Values S

  pub data Entries (S : Type 0) : Type 0 where
    no_entries : Entries S
    entry : String → Value S → Entries S → Entries S

module _ {S : Type 0} (dec : Discrete S) where
  unfoldable mutual
    pub card_field_values_equal : Value S → Value S → Bool
    card_field_values_equal (scalar a) (scalar b) = same dec a b
    card_field_values_equal (array xs) (array ys) = values_equal xs ys
    card_field_values_equal (object xs) (object ys) = entries_equal xs ys
    card_field_values_equal _ _ = false

    pub values_equal : Values S → Values S → Bool
    values_equal no_values no_values = true
    values_equal (value x xs) (value y ys) = card_field_values_equal x y && values_equal xs ys
    values_equal _ _ = false

    pub entries_equal : Entries S → Entries S → Bool
    entries_equal no_entries no_entries = true
    entries_equal (entry j x xs) (entry k y ys) =
        same text_discrete j k && card_field_values_equal x y && entries_equal xs ys
    entries_equal _ _ = false

  mutual
    unfolding card_field_values_equal values_equal entries_equal

    pub card_field_values_equal_self : (v : Value S) → card_field_values_equal v v ≡ true
    card_field_values_equal_self (scalar a) = ground arith
    card_field_values_equal_self (array xs) = values_equal_self xs
    card_field_values_equal_self (object xs) = entries_equal_self xs

    values_equal_self : (xs : Values S) → values_equal xs xs ≡ true
    values_equal_self no_values = refl
    values_equal_self (value x xs) =
        ground (arith, card_field_values_equal_self x, values_equal_self xs)

    entries_equal_self : (xs : Entries S) → entries_equal xs xs ≡ true
    entries_equal_self no_entries = refl
    entries_equal_self (entry j x xs) =
        ground (arith, card_field_values_equal_self x, entries_equal_self xs)
