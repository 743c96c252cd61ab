-- ===== src/Http/Request.antt =====
-- The parser of requests in study-linux-kernel/socket/socket-server-http-select.cpp.
pub mod Collecting
pub mod Parsing
pub mod Whole
use study_linux_kernel.Base.{
  ℕ, zero, suc, ◌+◌, List, [], ◌∷◌, ◌++◌, Option, none, some, Bool, true, false, ◌&&◌, ◌==◌, ltb,
  leb, if◌then◌else◌, length, str_eq,
}
use study_linux_kernel.Sys.Calls.{Text}
use study_linux_kernel.Http.Text.{splitstr, strip}

pub data Method : Type 0 where
  get : Method
  post : Method
  unknown : Method

-- `method` has no value until the parser sets it; `accepts` is set nowhere.
pub record Header : Type 0 where
  pub method : Option Method
  pub resource : Text
  pub querystring : Text
  pub httpversion : Text
  pub host : Text
  pub accepts : List Text

pub record HttpRequest : Type 0 where
  pub header : Header
  pub body : Text

abbrev pub crlf : Text
crlf = 13 ∷ 10 ∷ []

abbrev pub lower : ℕ → ℕ
lower b = if leb b'A' b && leb b b'Z' then b + 32 else b

-- `strncasecmp(s, "...", n) == 0`, for `n` letters.
unfoldable pub starts_nocase : Text → Text → Bool
starts_nocase [] s = true
starts_nocase (x ∷ p) [] = false
starts_nocase (x ∷ p) (y ∷ s) = lower x == lower y && starts_nocase p s

unfoldable pub method_of : Text → Method
method_of m =
    if starts_nocase (b'G' ∷ b'E' ∷ b'T' ∷ []) m
    then get
    else if starts_nocase (b'P' ∷ b'O' ∷ b'S' ∷ b'T' ∷ []) m
    then post
    else unknown

-- `std::map`, whose `insert` keeps a value that is there, and whose `[]` gives "" for a missing key.
abbrev pub Fields : Type 0
Fields = List (Text × Text)

unfoldable pub find : Text → Fields → Option Text
find k [] = none
find k ((j, v) ∷ m) = let later = find k m in if str_eq j k then some v else later

unfoldable pub insert : Text → Text → Fields → Fields
insert k v m = elim (find k m) [ none ↦ m ++ ((k, v) ∷ []) | some _ ↦ m ]

unfoldable pub value_at : Text → Fields → Text
value_at k m = elim (find k m) [ none ↦ [] | some v ↦ v ]

-- The two parts of a line at its first colon; none where there is no second part.
unfoldable pub insert_pair : List Text → Fields → Option Fields
insert_pair (name ∷ value ∷ _) m = some (insert (strip name true) (strip value true) m)
insert_pair _ m = none

-- A stripped line; an empty one is passed over.
unfoldable pub add_stripped : Text → Fields → Option Fields
add_stripped [] m = some m
add_stripped (ch ∷ rest) m = insert_pair (splitstr (ch ∷ rest) (b':' ∷ []) (some 1)) m

-- The body of the loop over the lines; `none` is the early `return false`.
unfoldable pub add_line : Text → Fields → Option Fields
add_line val m = add_stripped (strip val true) m

unfoldable pub add_lines : List Text → Fields → Option Fields
add_lines [] m = some m
add_lines (val ∷ vals) m = elim (add_line val m) [ none ↦ none | some m' ↦ add_lines vals m' ]

-- The resource and the query string, from the parts at the first question mark.
unfoldable pub set_url : List Text → Text → Header → Option Header
set_url [] version h = none
set_url (resource ∷ []) version h = some (record h { resource = resource; httpversion = version })
set_url (resource ∷ query ∷ _) version h =
    some (record h { querystring = query; resource = resource; httpversion = version })

-- The lines behind the first, and the host that they name.
unfoldable pub set_host : List Text → Header → Bool × Header
set_host vals h = elim (add_lines vals []) [
  | none ↦ (false, h)
  | some m ↦ (true, record h { host = value_at (b'H' ∷ b'o' ∷ b's' ∷ b't' ∷ []) m })
]

-- No URL ends the parser, and otherwise the lines are read.
unfoldable pub read_lines : Option Header → Header → List Text → Bool × Header
read_lines none h vals = (false, h)
read_lines (some h') h vals = set_host vals h'

unfoldable pub parse_request_info : List Text → List Text → Header → Bool × Header
parse_request_info (m ∷ url ∷ version ∷ _) vals h =
    let h' : Header = record h { method = some (method_of m) } in
    read_lines (set_url (splitstr url (b'?' ∷ []) (some 1)) version h') h' vals
parse_request_info _ vals h = (false, h)

unfoldable pub parse_lines : List Text → Header → Bool × Header
parse_lines (line ∷ a ∷ b ∷ vals) h =
    parse_request_info (splitstr line (b' ' ∷ []) none) (a ∷ b ∷ vals) h
parse_lines _ h = (false, h)

-- The answer, and the header with what was set until then.
unfoldable pub parse_http_request_header : Text → Header → Bool × Header
parse_http_request_header head h = parse_lines (splitstr head crlf none) h

unfoldable pub body_of : List Text → Text → Text
body_of (_ ∷ body ∷ []) old = body
body_of _ old = old

unfoldable pub parse_parts : List Text → HttpRequest → Bool × HttpRequest
parse_parts [] req = (false, req)
parse_parts (head ∷ parts) req =
    let r = parse_http_request_header head req.header in
    (r.0, record req { header = r.1; body = body_of (head ∷ parts) req.body })

unfoldable pub parse_http_request : Text → HttpRequest → Bool × HttpRequest
parse_http_request head req = parse_parts (splitstr head (crlf ++ crlf) none) req
