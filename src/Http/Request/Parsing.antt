-- ===== src/Http/Request/Parsing.antt =====
-- What the parser finds in a request.
use study_linux_kernel.Base.{
  ℕ, ◌<◌, ◌≡◌, refl, List, [], ◌∷◌, ◌++◌, Option, none, some, true, false, ◌==◌, length,
  length-append, arith,
}
use study_linux_kernel.Sys.Calls.{Text}
use study_linux_kernel.Http.Text.{splitstr, size_mod}
use study_linux_kernel.Http.Text.Rejoining.{join}
use study_linux_kernel.Http.Text.Quiet.{Lacks}
use study_linux_kernel.Http.Text.Pieces.{ArePieces, splitstr-join, splitstr_once, splitstr_whole}
use study_linux_kernel.Http.Request.{
  Header, Fields, crlf, method_of, find, value_at, set_url, set_host, read_lines,
  parse_request_info, parse_lines, parse_http_request_header,
}
use study_linux_kernel.Http.Request.Collecting.{
  Line, first_value, AreLines, lines_of, add_lines_lem,
}

abbrev pub space : Text
space = b' ' ∷ []

abbrev pub host_name : Text
host_name = b'H' ∷ b'o' ∷ b's' ∷ b't' ∷ []

abbrev pub or_default : Option Text → Text → Text
or_default none d = d
or_default (some v) d = v

-- A request without a body: its words, the bytes behind a question mark, and its lines.
pub record Request : Type 0 where
  pub method_text : Text
  pub resource : Text
  pub query : Option (ℕ × Text)
  pub version : Text
  pub first_line : Line
  pub lines : List Line

abbrev pub url_of : Text → Option (ℕ × Text) → Text
url_of resource none = resource
url_of resource (some (ch, r)) = resource ++ (b'?' ∷ ch ∷ r)

abbrev pub query_of : Option (ℕ × Text) → Text → Text
query_of none d = d
query_of (some (ch, r)) d = ch ∷ r

abbrev pub all_lines : Request → List Line
all_lines r = r.first_line ∷ r.lines

abbrev pub request_line : Request → Text
request_line r = join space (r.method_text ∷ url_of r.resource r.query ∷ r.version ∷ [])

-- "METHOD URL VERSION" and the lines, each with CR LF behind it, and a blank line.
abbrev pub print : Request → Text
print r = join crlf (request_line r ∷ (lines_of (all_lines r) ++ (crlf ∷ [])))

abbrev pub OtherThan : ℕ → Option (ℕ × Text) → Type 0
OtherThan z none = Unit {0}
OtherThan z (some (ch, r)) = (ch == z) ≡ false

-- The words of the first line hold no line feed and no blank (the version may end in one), and the
-- URL and the version are not empty; the resource holds no `?`, and a query, where there is one, is
-- not empty and does not start with `?`. There is at least one header line, `r.first_line`; each is a
-- name without a colon and a value, both of two bytes or more with no blank at either end and no line
-- feed (Collecting.IsLine). The lengths are less than 2^64, and those of header lines about 2^31.
pub record IsRequest (r : Request) : Type 0 where
  pub words : ArePieces b' ' r.method_text (url_of r.resource r.query ∷ r.version ∷ [])
  pub one_line : Lacks 10 (request_line r)
  pub no_mark : Lacks b'?' r.resource
  pub one_mark : OtherThan b'?' r.query
  pub lines : AreLines (all_lines r)
  pub fits : length (print r) < size_mod
  pub line_fits : length (request_line r) < size_mod

lines-ArePieces :
    (t : Text) (ls : List Line)
    → Lacks 10 t
    → AreLines ls
    → ArePieces 10 t (lines_of ls ++ (crlf ∷ []))
lines-ArePieces t [] lacks h = (lacks, refl, tt)
lines-ArePieces t (l ∷ ls) lacks h =
    (lacks, h.0.feed_free.0, lines-ArePieces _ ls h.0.feed_free.1 h.1)

split_url :
    (resource : Text) (query : Option (ℕ × Text)) (version : Text) (h : Header)
    → Lacks b'?' resource
    → OtherThan b'?' query
    → length (url_of resource query) < size_mod
    → set_url (splitstr (url_of resource query) (b'?' ∷ []) (some 1)) version h
      ≡ some (record h {
        resource = resource;
        querystring = query_of query h.querystring;
        httpversion = version;
      })
unfolding set_url
split_url resource none version h lacks other fits =
    rw (splitstr_whole resource [] b'?' (some 1) refl lacks)
split_url resource (some (ch, r)) version h lacks other fits =
    rw (splitstr_once (resource ++ (b'?' ∷ ch ∷ r)) [] b'?' resource r ch refl fits tt lacks other)

value_at_found :
    (k : Text) (m : Fields) (o : Option Text) → find k m ≡ o → value_at k m ≡ or_default o []
unfolding value_at
value_at_found k m none h = rw (h, value_at)
value_at_found k m (some v) h = rw (h, value_at)

set_host_lem :
    (ls : List Line) (h : Header)
    → AreLines ls
    → set_host (lines_of ls ++ (crlf ∷ [])) h
      ≡ (true, record h { host = or_default (first_value host_name ls) [] })
unfolding find set_host
set_host_lem ls h a =
    let (m, run, reads) = add_lines_lem ls [] a in
    let found : find host_name m ≡ first_value host_name ls = reads host_name in
    let value : value_at host_name m ≡ or_default (first_value host_name ls) [] =
      value_at_found host_name m (first_value host_name ls) found in
    rw (run, set_host) (rw value refl)

parse_lines_lem :
    (line : Text) (l : Line) (ls : List Line) (h : Header)
    → parse_lines (line ∷ (lines_of (l ∷ ls) ++ (crlf ∷ []))) h
      ≡ parse_request_info (splitstr line space none) (lines_of (l ∷ ls) ++ (crlf ∷ [])) h
unfolding parse_lines
parse_lines_lem line l [] h = refl
parse_lines_lem line l (k ∷ ls) h = refl

-- A request that was put together from its words and lines is parsed back into them, whatever the
-- header held before: the method, the resource, the query string where there is one, the version,
-- and the first value given for "Host".
pub parse_header-print :
    (r : Request) (h : Header)
    → IsRequest r
    → parse_http_request_header (print r) h ≡ (
      true,
      record h {
        method = some (method_of r.method_text);
        resource = r.resource;
        querystring = query_of r.query h.querystring;
        httpversion = r.version;
        host = or_default (first_value host_name (all_lines r)) [];
      },
    )
unfolding parse_http_request_header parse_request_info read_lines join
parse_header-print r h w =
    let lines =
      splitstr-join (13 ∷ []) 10 (request_line r) (lines_of (all_lines r) ++ (crlf ∷ [])) (refl, tt)
        (lines-ArePieces (request_line r) (all_lines r) w.one_line w.lines) w.fits in
    let words =
      splitstr-join [] b' ' r.method_text (url_of r.resource r.query ∷ r.version ∷ []) tt w.words
        w.line_fits in
    let url_fits : length (url_of r.resource r.query) < size_mod = omega (
      arith,
      w.line_fits,
      length-append r.method_text (space ++ (url_of r.resource r.query ++ (space ++ r.version))),
      length-append (url_of r.resource r.query) (space ++ r.version),
    ) in
    rw (
      lines,
      parse_lines_lem,
      words,
      split_url r.resource r.query r.version (record h { method = some (method_of r.method_text) })
          w.no_mark w.one_mark url_fits,
      set_host_lem (all_lines r) _ w.lines,
    )
