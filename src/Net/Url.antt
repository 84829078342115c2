-- ===== src/Net/Url.antt =====
-- src/clarisma/net/UrlView.cpp and include/clarisma/net/UrlView.h: the parts of a URL, as views of it.
pub mod Parts
mod Tests
use Prim.Native.Char.{code}
use Prim.Native.String.{String}
use geodesk_gol.Prelude.{
  ℕ, zero, suc, ◌+◌, ◌-◌, ◌*◌, ◌^◌, Bool, true, false, ◌&&◌, ◌||◌, Option, none, some, List, [],
  ◌∷◌, length, take, drop, ltb, leb, ◌==◌, if◌then◌else◌,
}
use geodesk_gol.Prelude.Int.{ℤ, pos, negsuc}

abbrev pub Bytes : Type 0
Bytes = List ℕ

abbrev pub codes : String → Bytes
codes String.[] = []
codes (String.◌∷◌ c s) = code c ∷ codes s

-- `std::string_view`: where it starts in the URL, if it lies in it, and its characters. A view of
-- a literal and the null view have no place there.
pub record View : Type 0 where
  pub start : Option ℕ
  pub text : Bytes

abbrev pub null_view : View
null_view = record { start = none; text = [] }

abbrev pub literal : String → View
literal s = record { start = none; text = codes s }

abbrev pub offset_by : ℕ → Option ℕ → Option ℕ
offset_by n none = none
offset_by n (some p) = some (p + n)

-- `substr(0, n)` and `remove_prefix(n)`
abbrev pub prefix : ℕ → View → View
prefix n v = record { start = v.start; text = take n v.text }

abbrev pub remove_prefix : ℕ → View → View
remove_prefix n v = record { start = offset_by n v.start; text = drop n v.text }

abbrev pub empty : Bytes → Bool
empty [] = true
empty (c ∷ cs) = false

-- `find_first_of`, by the test of one character.
pub find_first : (ℕ → Bool) → Bytes → Option ℕ
find_first p [] = none
find_first p (c ∷ cs) = if p c then some 0 else offset_by 1 (find_first p cs)

-- The text starts with "://".
abbrev pub at_scheme_end : Bytes → Bool
at_scheme_end (a ∷ b ∷ c ∷ r) = a == b':' && b == b'/' && c == b'/'
at_scheme_end _ = false

-- `find("://")`
pub find_scheme_end : Bytes → Option ℕ
find_scheme_end [] = none
find_scheme_end (c ∷ cs) =
    if at_scheme_end (c ∷ cs) then some 0 else offset_by 1 (find_scheme_end cs)

abbrev pub ends_host : ℕ → Bool
ends_host c = c == b'/' || c == b'?' || c == b'#'

abbrev pub ends_path : ℕ → Bool
ends_path c = c == b'?' || c == b'#'

abbrev pub is_hash : ℕ → Bool
is_hash c = c == b'#'

abbrev pub is_colon : ℕ → Bool
is_colon c = c == b':'

-- The head of a remainder up to the character found, and the rest from that character on; all
-- of it, if there is none.
abbrev pub cut : (ℕ → Bool) → View → View × View
cut p v = elim (find_first p v.text) [
  | some n ↦ (prefix n v, remove_prefix n v)
  | none ↦ (v, literal "")
]

abbrev pub starts_with : ℕ → Bytes → Bool
starts_with c [] = false
starts_with c (x ∷ xs) = x == c

pub record Url : Type 0 where
  pub scheme : View
  pub host : View
  pub port_ : View
  pub path : View
  pub query : View
  pub fragment : View

split_scheme : View → View × View
split_scheme url = elim (find_scheme_end url.text) [
  | some p ↦ (prefix p url, remove_prefix (p + 3) url)
  | none ↦ (literal "http", url)
]

split_port : View → View × View
split_port host_port = elim (find_first is_colon host_port.text) [
  | some p ↦ (prefix p host_port, remove_prefix (p + 1) host_port)
  | none ↦ (host_port, null_view)
]

split_path : View → View × View
split_path rest = if starts_with b'/' rest.text then cut ends_path rest else (null_view, rest)

split_query : View → View × View
split_query rest =
    if starts_with b'?' rest.text then cut is_hash (remove_prefix 1 rest) else (null_view, rest)

split_fragment : View → View
split_fragment rest = if starts_with b'#' rest.text then remove_prefix 1 rest else null_view

-- The constructor.
pub parse : Bytes → Url
parse url =
    let (scheme, after_scheme) = split_scheme (record { start = some 0; text = url }) in
    let (host_port, after_host) = cut ends_host after_scheme in
    let (host, port) = split_port host_port in
    let (path, after_path) = split_path after_host in
    let (query, after_query) = split_query after_path in
    record {
      scheme = scheme;
      host = host;
      port_ = port;
      path = path;
      query = query;
      fragment = split_fragment after_query;
    }

-- `std::from_chars` into an `int`: the digits in front, with a sign, if the number fits.
abbrev pub is_digit : ℕ → Bool
is_digit c = leb b'0' c && leb c b'9'

digits_value : ℕ → Bytes → ℕ
digits_value acc [] = acc
digits_value acc (c ∷ cs) =
    let rest = digits_value (acc * 10 + (c - b'0')) cs in if is_digit c then rest else acc

from_digits : Bytes → Option ℕ
from_digits [] = none
from_digits (c ∷ cs) = if is_digit c then some (digits_value 0 (c ∷ cs)) else none

negative : ℕ → ℤ
negative zero = pos 0
negative (suc n) = negsuc n

from_chars_negative : Bytes → Option ℤ
from_chars_negative s = elim (from_digits s) [
  | none ↦ none
  | some n ↦ if leb n (2 ^ 31) then some (negative n) else none
]

from_chars_positive : Bytes → Option ℤ
from_chars_positive s = elim (from_digits s) [
  | none ↦ none
  | some n ↦ if ltb n (2 ^ 31) then some (pos n) else none
]

pub from_chars : Bytes → Option ℤ
unfolding from_chars_negative from_chars_positive from_digits digits_value negative
from_chars [] = none
from_chars (c ∷ cs) = if c == b'-' then from_chars_negative cs else from_chars_positive (c ∷ cs)

abbrev pub same : Bytes → Bytes → Bool
same [] [] = true
same (x ∷ xs) (y ∷ ys) = x == y && same xs ys
same _ _ = false

abbrev pub default_port : Bytes → ℤ
default_port s =
    if same s (codes "https") then pos 443 else if same s (codes "ftp") then pos 21 else pos 80

pub port : Url → ℤ
port u = elim (from_chars u.port_.text) [ some n ↦ n | none ↦ default_port u.scheme.text ]

-- The pointer to the end of a view, less the pointer to the start of another: it has a meaning
-- only if both lie in the URL.
abbrev pub distance : Option ℕ → View → Option ℕ
distance (some a) v = elim v.start [ some b ↦ some (b + length v.text - a) | none ↦ none ]
distance none v = none

-- `origin()`, by offset and length in the URL; `none` where it subtracts pointers that do not
-- point into one array.
pub origin : Bytes → Url → Option Bytes
origin url u =
    if empty u.scheme.text || empty u.host.text
    then some []
    else elim (distance u.scheme.start (if empty u.port_.text then u.host else u.port_)) [
      | none ↦ none
      | some n ↦ elim u.scheme.start [ some a ↦ some (take n (drop a url)) | none ↦ none ]
    ]
