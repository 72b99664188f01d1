-- ===== src/Curl/Headers.antt =====
-- `CurlTraceContextWriter`, `CurlHeaderReader` and `extract_host`. A `curl_slist` is a list of lines, the
-- null list the empty one.
use pinpoint_cpp_examples.Common.{
  ℕ, suc, ◌+◌, ◌≡◌, refl, ap, ◌∙◌, Bool, true, false, ◌&&◌, Option, none, some, List, [], ◌∷◌, ◌++◌,
  Text, lit, lower, Lacks, c_string, ◌==◌, if◌then◌else◌, length, take, drop, take-append_left,
}
use pinpoint_cpp_examples.Common.Search.{find_char, find_text, find_char_first}

-- `Set`, which hands `header.c_str()` to curl; the Boolean says whether `curl_slist_append` has memory, else it returns a null list.
unfoldable pub set : Bool → Text → Text → List Text → List Text
set true key value headers = headers ++ c_string (key ++ (b':' ∷ b' ' ∷ value)) ∷ []
set false key value headers = []

unfoldable pub trim_value : Text → Text
trim_value [] = []
trim_value (c ∷ value) = if c == b' ' then trim_value value else c ∷ value

-- `line.substr(0, sep)` and what is behind the colon.
cut : Text → Option ℕ → Option (Text × Text)
unfolding trim_value
cut line none = none
cut line (some sep) = some (take sep line, trim_value (drop (suc sep) line))

-- The name and the value of a line that has a colon.
unfoldable pub split_line : Text → Option (Text × Text)
unfolding cut
split_line line = cut line (find_char line b':')

equal_lower : Text → Text → Bool
equal_lower [] key = true
equal_lower (c ∷ name) [] = false
equal_lower (c ∷ name) (k ∷ key) = (lower c == lower k) && equal_lower name key

unfoldable pub same_name : Text → Text → Bool
unfolding equal_lower
same_name name key = (length name == length key) && equal_lower name key

-- What one line has to say about a key.
unfoldable pub line_value : Text → Option (Text × Text) → Option Text
line_value key none = none
line_value key (some (name, value)) = if same_name name key then some value else none

unfoldable pub or_else : Option Text → Option Text → Option Text
or_else (some value) rest = some value
or_else none rest = rest

unfoldable pub get : Text → List Text → Option Text
unfolding line_value or_else
get key [] = none
get key (line ∷ headers) = or_else (line_value key (split_line line)) (get key headers)

-- The callback says whether to go on; its captured variables are the state.
module _ {S : Type 0} (callback : Text → Text → S → Bool × S) where
  visit : Option (Text × Text) → S → Bool × S
  visit none s = (true, s)
  visit (some (name, value)) s = callback name value s

  unfoldable pub for_each : List Text → S → S
  unfolding visit
  for_each [] s = s
  for_each (line ∷ headers) s =
      let (goes_on, t) = visit (split_line line) s in
      let rest = for_each headers t in if goes_on then rest else t

after_scheme : Option ℕ → ℕ
after_scheme none = 0
after_scheme (some start) = start + 3

-- `url.find('/', start)` counts from the front, so `end - start` is the place in what is left.
host_of : Text → Text
host_of rest = elim (find_char rest b'/') [ none ↦ rest | some end ↦ take end rest ]

unfoldable pub extract_host : Text → Text
unfolding after_scheme host_of
extract_host url = host_of (drop (after_scheme (find_text url (lit "://"))) url)

drop_past : (c : ℕ) (s rest : Text) → drop (suc (length s)) (s ++ c ∷ rest) ≡ rest
drop_past c [] rest = refl
drop_past c (x ∷ s) rest = drop_past c s rest

pub split_line-written :
    (key rest : Text)
    → Lacks b':' key
    → split_line (key ++ b':' ∷ rest) ≡ some (key, trim_value rest)
unfolding split_line cut
split_line-written key rest h =
    ap (cut (key ++ b':' ∷ rest)) (find_char_first key rest b':' h)
    ∙ rw (take-append_left key (b':' ∷ rest), drop_past b':' key rest) refl
