-- ===== src/Digest.antt =====
-- The request digests of the services: `_canonical` (apps/api/app/services/inventory_service.py
-- and its siblings), json.dumps with sorted keys and no spaces, and `str` of an amount.
use Prim.Native.Char.{code}
use Prim.Native.String.{String}
use sweetops.Base.{
  ℕ, zero, suc, ◌+◌, ◌-◌, ◌/◌, ◌%◌, ◌^◌, Bool, true, false, ◌&&◌, List, [], ◌∷◌, ◌++◌, leb, ltb,
  ◌==◌, if◌then◌else◌,
}
use sweetops.Int.{ℤ, pos, negsuc}
use sweetops.Text.{Text}

-- The code points of a literal.
abbrev pub codes : String → Text
codes String.[] = []
codes (String.◌∷◌ c s) = code c ∷ codes s

pub data Json : Type 0 where
  text : Text → Json
  number : ℕ → Json
  numbers : List ℕ → Json
  null : Json

digits_from : ℕ → ℕ → Text → Text
digits_from zero n acc = acc
digits_from (suc fuel) n acc =
    let more = digits_from fuel (n / 10) ((48 + n % 10) ∷ acc) in
    if ltb n 10 then (48 + n) ∷ acc else more

-- `str(n)`; a number has fewer digits than its value plus two.
unfoldable pub str_nat : ℕ → Text
unfolding digits_from
str_nat n = digits_from (suc n) n []

pad : ℕ → ℕ → Text
pad zero n = []
pad (suc k) n = (48 + (n / 10 ^ k) % 10) ∷ pad k n

fixed : ℕ → ℕ → Text
unfolding pad
fixed places n = str_nat (n / 10 ^ places) ++ (b'.' ∷ pad places n)

-- `str(x)` of an amount held in units of 10^(-places).
unfoldable pub str_amount : ℕ → ℤ → Text
unfolding str_nat fixed
str_amount places (pos n) = fixed places n
str_amount places (negsuc n) = b'-' ∷ fixed places (suc n)

hex_digit : ℕ → ℕ
hex_digit n = if ltb n 10 then 48 + n else 87 + n

-- `\uXXXX`
unicode_escape : ℕ → Text
unfolding hex_digit
unicode_escape c =
    b'\\'
    ∷ b'u'
    ∷ hex_digit (c / 4096 % 16)
    ∷ hex_digit (c / 256 % 16)
    ∷ hex_digit (c / 16 % 16)
    ∷ hex_digit (c % 16)
    ∷ []

escape_char : ℕ → Text
unfolding unicode_escape
escape_char c =
    if c == 34
    then b'\\' ∷ 34 ∷ []
    else if c == b'\\'
    then b'\\' ∷ b'\\' ∷ []
    else if leb 32 c && leb c 126
    then c ∷ []
    else if c == 10
    then b'\\' ∷ b'n' ∷ []
    else if c == 13
    then b'\\' ∷ b'r' ∷ []
    else if c == 9
    then b'\\' ∷ b't' ∷ []
    else if c == 12
    then b'\\' ∷ b'f' ∷ []
    else if c == 8
    then b'\\' ∷ b'b' ∷ []
    else if ltb c 65536
    then unicode_escape c
    else unicode_escape (55296 + (c - 65536) / 1024) ++ unicode_escape (56320 + (c - 65536) % 1024)

escape : Text → Text
unfolding escape_char
escape [] = []
escape (c ∷ s) = escape_char c ++ escape s

quote : Text → Text
unfolding escape
quote s = 34 ∷ (escape s ++ (34 ∷ []))

comma_numbers : List ℕ → Text
unfolding str_nat
comma_numbers [] = []
comma_numbers (n ∷ []) = str_nat n
comma_numbers (n ∷ m ∷ ns) = str_nat n ++ (b',' ∷ comma_numbers (m ∷ ns))

render : Json → Text
unfolding quote comma_numbers str_nat
render (text s) = quote s
render (number n) = str_nat n
render null = b'n' ∷ b'u' ∷ b'l' ∷ b'l' ∷ []
render (numbers ns) = b'[' ∷ (comma_numbers ns ++ (b']' ∷ []))

text_lt : Text → Text → Bool
text_lt [] [] = false
text_lt [] (_ ∷ _) = true
text_lt (_ ∷ _) [] = false
text_lt (a ∷ s) (b ∷ t) = let rest = text_lt s t in if a == b then rest else ltb a b

-- A dict as its items; `sort_keys`.
insert_item : Text × Json → List (Text × Json) → List (Text × Json)
unfolding text_lt
insert_item e [] = e ∷ []
insert_item e (f ∷ d) = if text_lt e.0 f.0 then e ∷ f ∷ d else f ∷ insert_item e d

sort_items : List (Text × Json) → List (Text × Json)
unfolding insert_item
sort_items [] = []
sort_items (e ∷ d) = insert_item e (sort_items d)

render_items : List (Text × Json) → Text
unfolding quote render
render_items [] = []
render_items ((k, v) ∷ []) = quote k ++ (b':' ∷ render v)
render_items ((k, v) ∷ e ∷ d) = quote k ++ (b':' ∷ (render v ++ (b',' ∷ render_items (e ∷ d))))

-- `json.dumps(payload, sort_keys=True, separators=(",", ":"))`
unfoldable pub canonical : List (Text × Json) → Text
unfolding sort_items render_items
canonical payload = b'{' ∷ (render_items (sort_items payload) ++ (b'}' ∷ []))
