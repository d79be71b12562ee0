-- ===== src/Base/Json.antt =====
-- Python values as `json.loads` returns them, and `json.dumps`. A number is kept as the text that
-- Python prints for it.
use layerscope.Base.{
  ℕ, ◌+◌, ◌-◌, ◌/◌, ◌%◌, Bool, true, false, ◌||◌, List, [], ◌∷◌, ◌++◌, Option, none, some, ◌==◌,
  ltb, leb, if◌then◌else◌, ◌≡◌, refl,
}
use layerscope.Base.Text.{Text, text, same, join}

mutual
  pub data Json : Type 0 where
    null : Json
    boolean : Bool → Json
    number : Text → Json
    string : Text → Json
    array : Items → Json
    object : Fields → Json

  pub data Items : Type 0 where
    nil : Items
    cons : Json → Items → Items

  pub data Fields : Type 0 where
    end : Fields
    field : Text → Json → Fields → Fields

-- `d.get(key)`: a parsed object has each key once.
unfoldable pub find : Text → Fields → Option Json
find k end = none
find k (field j v fs) = if same j k then some v else find k fs

-- `value` where the source writes `d.get(key)`: a missing key is `None`.
unfoldable pub get_key : Text → Fields → Json
unfolding find
get_key k fs = elim (find k fs) [ none ↦ null | some v ↦ v ]

abbrev pub items : Items → List Json
items nil = []
items (cons v vs) = v ∷ items vs

-- `bool(value)` of a parsed value: the numbers that are false are those whose text is zero.
unfoldable pub truthy : Json → Bool
truthy null = false
truthy (boolean b) = b
truthy (number n) =
    if same n (text "0") || same n (text "0.0") || same n (text "-0.0") then false else true
truthy (string []) = false
truthy (string (c ∷ s)) = true
truthy (array nil) = false
truthy (array (cons v vs)) = true
truthy (object end) = false
truthy (object (field k v fs)) = true

-- `a or b`
abbrev pub or_json : Json → Json → Json
or_json a b = if truthy a then a else b

-- One hexadecimal digit, and the four of a `\u` escape.
hex_digit : ℕ → ℕ
hex_digit n = if ltb n 10 then 48 + n else 87 + n

unicode_escape : ℕ → Text
unfolding hex_digit
unicode_escape c =
    92
    ∷ 117
    ∷ hex_digit (c / 4096 % 16)
    ∷ hex_digit (c / 256 % 16)
    ∷ hex_digit (c / 16 % 16)
    ∷ hex_digit (c % 16)
    ∷ []

-- The text of one character inside quotation marks.
escape : Bool → ℕ → Text
unfolding unicode_escape
escape ascii c =
    if c == 34
    then 92 ∷ 34 ∷ []
    else if c == 92
    then 92 ∷ 92 ∷ []
    else if c == 10
    then 92 ∷ 110 ∷ []
    else if c == 13
    then 92 ∷ 114 ∷ []
    else if c == 9
    then 92 ∷ 116 ∷ []
    else if c == 12
    then 92 ∷ 102 ∷ []
    else if c == 8
    then 92 ∷ 98 ∷ []
    else if ltb c 32
    then unicode_escape c
    else if ascii
    then (if leb c 126
        then c ∷ []
        else if ltb c 65536
        then unicode_escape c
        else unicode_escape (55296 + (c - 65536) / 1024)
          ++ unicode_escape (56320 + (c - 65536) % 1024))
    else c ∷ []

escape_all : Bool → Text → Text
unfolding escape
escape_all ascii [] = []
escape_all ascii (c ∷ s) = escape ascii c ++ escape_all ascii s

unfoldable pub quoted : Bool → Text → Text
unfolding escape_all
quoted ascii s = 34 ∷ (escape_all ascii s ++ (34 ∷ []))

-- The order of texts by code points.
before : Text → Text → Bool
before [] t = true
before (c ∷ s) [] = false
before (c ∷ s) (d ∷ t) = if c == d then before s t else ltb c d

insert_field : Text → Json → Fields → Fields
unfolding before
insert_field k v end = field k v end
insert_field k v (field j w fs) =
    if before k j then field k v (field j w fs) else field j w (insert_field k v fs)

sort_fields : Fields → Fields
unfolding insert_field
sort_fields end = end
sort_fields (field k v fs) = insert_field k v (sort_fields fs)

-- The options that the program gives to `json.dumps`.
pub record Style : Type 0 where
  pub ensure_ascii : Bool
  pub sort_keys : Bool
  pub item_separator : Text
  pub key_separator : Text

-- The keys of every object in order, for `sort_keys=True`.
mutual
  unfolding sort_fields

  sort_value : Json → Json
  sort_value null = null
  sort_value (boolean b) = boolean b
  sort_value (number n) = number n
  sort_value (string s) = string s
  sort_value (array vs) = array (sort_items vs)
  sort_value (object fs) = object (sort_fields (sort_inside fs))

  sort_items : Items → Items
  sort_items nil = nil
  sort_items (cons v vs) = cons (sort_value v) (sort_items vs)

  sort_inside : Fields → Fields
  sort_inside end = end
  sort_inside (field k v fs) = field k (sort_value v) (sort_inside fs)

mutual
  unfolding quoted

  print : Style → Json → Text
  print s null = text "null"
  print s (boolean b) = if b then text "true" else text "false"
  print s (number n) = n
  print s (string t) = quoted s.ensure_ascii t
  print s (array vs) = 91 ∷ (join s.item_separator (print_items s vs) ++ (93 ∷ []))
  print s (object fs) = 123 ∷ (join s.item_separator (print_fields s fs) ++ (125 ∷ []))

  print_items : Style → Items → List Text
  print_items s nil = []
  print_items s (cons v vs) = print s v ∷ print_items s vs

  print_fields : Style → Fields → List Text
  print_fields s end = []
  print_fields s (field k v fs) =
      (quoted s.ensure_ascii k ++ (s.key_separator ++ print s v)) ∷ print_fields s fs

-- `json.dumps`
unfoldable pub dumps : Style → Json → Text
unfolding print print_items print_fields sort_value sort_items sort_inside
dumps s v = if s.sort_keys then print s (sort_value v) else print s v

abbrev pub ascii_style : Style
ascii_style = record {
  ensure_ascii = true;
  sort_keys = false;
  item_separator = text ", ";
  key_separator = text ": ";
}

abbrev pub canonical_style : Style
canonical_style = record {
  ensure_ascii = false;
  sort_keys = true;
  item_separator = text ",";
  key_separator = text ":";
}

dumps_sorted :
    dumps canonical_style
      (object (field (text "b") (boolean true) (field (text "a") (array (cons null nil)) end)))
    ≡ text "{\"a\":[null],\"b\":true}"
unfolding dumps text join
dumps_sorted = refl
