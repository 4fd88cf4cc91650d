-- ===== src/Js.antt =====
-- The values of the source's language that a rule's condition, its effect and its context are made
-- of: `unknown` in src/server/modules/policy. A finite number is a whole count of the smallest
-- positive double (every finite double is one), so comparison, min and max are exact.
use Prim.Native.Char.{code}
use Prim.Native.String.{String}
use text.Mathlib.Text.{◌==◌ as str_eq}
use license_srv.Prelude.{
  ℕ, zero, suc, ◌+◌, ◌-◌, ◌*◌, ◌/◌, ◌%◌, ◌≡◌, refl, arith, Bool, true, false, not, ◌&&◌, ◌||◌,
  Option, none, some, List, [], ◌∷◌, if◌then◌else◌, ◌==◌, leb, ltb, ℤ, pos, negsuc, pos_part,
  neg_part, leb_ℤ,
}

pub data Number : Type 0 where
  finite : ℤ → Number
  infinite : (is_negative : Bool) → Number
  nan : Number

mutual
  pub data Value : Type 0 where
    undefined null : Value
    flag : Bool → Value
    number : Number → Value
    string : String → Value
    array : Items → Value
    object : Fields → Value

  pub data Items : Type 0 where
    nil : Items
    cons : Value → Items → Items

  pub data Fields : Type 0 where
    end : Fields
    field : String → Value → Fields → Fields

-- `Number.isFinite`.
unfoldable pub is_finite : Number → Bool
is_finite (finite n) = true
is_finite _ = false

unfoldable pub eq_ℤ : ℤ → ℤ → Bool
eq_ℤ a b = leb_ℤ a b && leb_ℤ b a

-- `a === b` on numbers: NaN is equal to nothing.
unfoldable pub num_eq : Number → Number → Bool
unfolding eq_ℤ
num_eq (finite a) (finite b) = eq_ℤ a b
num_eq (infinite a) (infinite b) = if a then b else not b
num_eq _ _ = false

-- `a <= b` on numbers.
unfoldable pub num_le : Number → Number → Bool
num_le nan b = false
num_le a nan = false
num_le (infinite true) b = true
num_le (infinite false) (infinite false) = true
num_le (infinite false) b = false
num_le (finite a) (finite b) = leb_ℤ a b
num_le (finite a) (infinite b) = not b

unfoldable pub num_lt : Number → Number → Bool
unfolding num_le num_eq
num_lt a b = num_le a b && not (num_eq a b)

unfoldable pub negate_ℤ : ℤ → ℤ
negate_ℤ (pos zero) = pos 0
negate_ℤ (pos (suc n)) = negsuc n
negate_ℤ (negsuc n) = pos (suc n)

-- `-a`; zero has no sign here.
unfoldable pub negate : Number → Number
unfolding negate_ℤ
negate (finite n) = finite (negate_ℤ n)
negate (infinite b) = infinite (not b)
negate nan = nan

-- An own property of an object.
unfoldable pub own_field : Fields → String → Option Value
own_field end key = none
own_field (field k v rest) key =
    let later = own_field rest key in if str_eq k key then some v else later

unfoldable pub item_at : Items → ℕ → Option Value
item_at nil n = none
item_at (cons v rest) zero = some v
item_at (cons v rest) (suc n) = item_at rest n

unfoldable pub items_length : Items → ℕ
items_length nil = 0
items_length (cons v rest) = suc (items_length rest)

-- The value of a text of decimal digits.
unfoldable pub digits_from : ℕ → String → Option ℕ
digits_from acc String.[] = some acc
digits_from acc (String.◌∷◌ c s) =
    let rest = digits_from (acc * 10 + (code c - b'0')) s in
    if leb b'0' (code c) && leb (code c) b'9' then rest else none

-- An array index as a property name: decimal, with no leading zero.
unfoldable pub array_index : String → Option ℕ
unfolding digits_from
array_index String.[] = none
array_index (String.◌∷◌ c s) =
    if str_eq s "" || not (code c == b'0') then digits_from 0 (String.◌∷◌ c s) else none

unfoldable pub item_by : Items → Option ℕ → Option Value
unfolding item_at
item_by xs none = none
item_by xs (some n) = item_at xs n

-- The count of an array as a number, in units of one (`one` is the double 1).
unfoldable pub times : ℤ → ℕ → Number
times (pos n) k = finite (pos (n * k))
times (negsuc n) zero = finite (pos 0)
times (negsuc n) (suc k) = finite (negsuc (suc n * suc k - 1))

-- `Object.prototype.hasOwnProperty.call(v, key)` and `v[key]`, for an object or an array.
unfoldable pub own_property : (one : ℤ) → Value → String → Option Value
unfolding own_field item_by array_index times items_length
own_property one (object fields) key = own_field fields key
own_property one (array xs) key =
    if str_eq key "length"
    then some (number (times one (items_length xs)))
    else item_by xs (array_index key)
own_property one _ key = none

-- `path.split(".")`.
unfoldable pub split_from : String → List String × String
split_from String.[] = ([], "")
split_from (String.◌∷◌ c s) =
    let rest = split_from s in
    if code c == b'.' then (rest.1 ∷ rest.0, "") else (rest.0, String.◌∷◌ c rest.1)

unfoldable pub split_path : String → List String
unfolding split_from
split_path path = let parts = split_from path in parts.1 ∷ parts.0

-- Truthiness as JSONLogic has it: an empty array is falsy.
unfoldable pub truthy : Value → Bool
truthy undefined = false
truthy null = false
truthy (flag b) = b
truthy (number nan) = false
truthy (number (infinite b)) = true
truthy (number (finite n)) = not (pos_part n == 0 && neg_part n == 0)
truthy (string s) = not (str_eq s "")
truthy (array nil) = false
truthy (array (cons v rest)) = true
truthy (object fields) = true

-- The UTF-16 units of a text.
unfoldable pub units : String → List ℕ
units String.[] = []
units (String.◌∷◌ c s) =
    let rest = units s in
    if ltb (code c) 65536
    then code c ∷ rest
    else (55296 + (code c - 65536) / 1024) ∷ (56320 + (code c - 65536) % 1024) ∷ rest

unfoldable pub units_le : List ℕ → List ℕ → Bool
units_le [] bs = true
units_le (a ∷ as') [] = false
units_le (a ∷ as') (b ∷ bs) = ltb a b || (a == b && units_le as' bs)

-- `!(b < a)` on texts.
abbrev pub text_le : String → String → Bool
text_le a b = units_le (units a) (units b)

pub units_le_total : (as' bs : List ℕ) → units_le as' bs ≡ false → units_le bs as' ≡ true
unfolding units_le
units_le_total [] bs h = cc
units_le_total (a ∷ as') [] h = refl
units_le_total (a ∷ as') (b ∷ bs) h = ground (arith, units_le_total as' bs)

pub units_le_trans :
    (as' bs cs : List ℕ) → units_le as' bs ≡ true → units_le bs cs ≡ true → units_le as' cs ≡ true
unfolding units_le
units_le_trans [] bs cs h k = refl
units_le_trans (a ∷ as') [] cs h k = cc
units_le_trans (a ∷ as') (b ∷ bs) [] h k = cc
units_le_trans (a ∷ as') (b ∷ bs) (c ∷ cs) h k = ground (arith, units_le_trans as' bs cs)
