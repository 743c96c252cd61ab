-- ===== src/Http/Response/Answering.antt =====
-- Which answer a request gets.
use study_linux_kernel.Base.{
  ℕ, ◌<◌, ◌≤◌, ◌≡◌, refl, [], ◌∷◌, Option, none, some, Bool, true, false, ◌||◌, ltb, Bool-cases,
  inl, inr, ◌⊎◌, length, length-take, take, str_eq, has_nul, c_string, utf8, arith,
}
use study_linux_kernel.Base.Run.{Run, ok, fault, indeterminate, out_of_bounds}
use study_linux_kernel.Sys.Calls.{Text}
use study_linux_kernel.Sys.Monad.{string_in}
use study_linux_kernel.Http.Text.Quiet.{Lacks}
use study_linux_kernel.Http.Text.Pieces.{splitstr_whole}
use study_linux_kernel.Http.Request.{
  Method, get, post, unknown, HttpRequest, parse_lines, parse_http_request_header, parse_parts,
  parse_http_request,
}
use study_linux_kernel.Http.Response.{
  missing_page, welcome_page, form_page, refusal_page, response_text, finish_response, page,
  resource_path, file_page, get_page, answer_method, make_http_response, respond,
}

length-c_string : (s : Text) → length (c_string s) ≤ length s
unfolding c_string
length-c_string [] = omega arith
length-c_string (b ∷ s) = ground (arith, length-c_string s)

-- A NUL makes the string shorter than its array.
c_string_ended : (s : Text) → has_nul s ≡ true → length (c_string s) < length s
unfolding c_string has_nul
c_string_ended [] h = absurd (cc)
c_string_ended (b ∷ s) h = ground (arith, c_string_ended s)

-- The status that a method, the root's own page and the file asked for lead to.
unfoldable pub status_of : Method → Bool → Option Text → ℕ
status_of get true file = 200
status_of get false none = 404
status_of get false (some bytes) = 200
status_of post root file = 200
status_of unknown root file = 501

-- A file that fills `szContent`, with no NUL in it.
abbrev pub Unended : Option Text → Type 0
Unended file =
    (bytes : Text) × (file ≡ some bytes) × (512 ≤ length bytes) × (has_nul (take 512 bytes) ≡ false)

module _ (decimal : ℕ → Text) (file_at : Text → Option Text) where
  abbrev type : Text
  type = utf8 "Text/Html; charset=UTF-8"

  -- An answer with this status, and with less than 512 bytes of content, of which it names the number.
  abbrev pub Answers : ℕ → Run Text → Type 0
  Answers code r =
      (content : Text) × (r
        ≡ ok (response_text decimal file_at code (utf8 "Text/Html; charset=UTF-8") content))
      × (length content < 512)

  page-Answers : (code : ℕ) (text : Text) → Answers code (page decimal file_at code text)
  unfolding page finish_response string_in
  page-Answers code text =
      let short : ltb (length (take 511 text)) 512 ≡ true = ground (arith, length-take 511 text) in
      (
        c_string (take 511 text),
        rw short refl,
        omega (arith, length-c_string (take 511 text), length-take 511 text),
      )

  string_in_ended :
      (n : ℕ) (s : Text) → (ltb (length s) n || has_nul s) ≡ true → string_in n s ≡ ok (c_string s)
  unfolding string_in
  string_in_ended n s e = rw e refl

  string_in_unended :
      (n : ℕ) (s : Text)
      → (ltb (length s) n || has_nul s) ≡ false
      → string_in n s ≡ fault out_of_bounds
  unfolding string_in
  string_in_unended n s e = rw e refl

  finish_response-Answers :
      (code : ℕ) (array : Text)
      → length array ≤ 512
      → (ltb (length array) 512 || has_nul array) ≡ true
      → Answers code (finish_response decimal file_at code array)
  unfolding finish_response
  finish_response-Answers code array room e = (
    c_string array,
    rw (string_in_ended 512 array e) refl,
    elim (Bool-cases (has_nul array)) [
      | inl b ↦ omega (arith, c_string_ended array b)
      | inr b ↦ ground (arith, length-c_string array)
    ],
  )

  unended :
      (bytes : Text)
      → (ltb (length (take 512 bytes)) 512 || has_nul (take 512 bytes)) ≡ false
      → (512 ≤ length bytes) × (has_nul (take 512 bytes) ≡ false)
  unended bytes e = elim (Bool-cases (ltb (length (take 512 bytes)) 512)) [
    | inl b ↦ absurd (cc)
    | inr b ↦ (ground (arith, length-take 512 bytes), cc)
  ]

  file_page_lem :
      (file : Option Text)
      → Answers (status_of get false file) (file_page decimal file_at file)
        ⊎ ((file_page decimal file_at file ≡ fault out_of_bounds) × Unended file)
  unfolding file_page status_of
  file_page_lem none = inl (page-Answers 404 missing_page)
  file_page_lem (some bytes) =
      elim (Bool-cases (ltb (length (take 512 bytes)) 512 || has_nul (take 512 bytes))) [
        | inl b ↦
            inl (
              finish_response-Answers 200 (take 512 bytes) (omega (arith, length-take 512 bytes)) b)
        | inr b ↦ inr (
          unfold finish_response in rw (string_in_unended 512 (take 512 bytes) b) refl,
          (bytes, refl, (unended bytes b).0, (unended bytes b).1),
        )
      ]

  -- A request whose method is set is answered with 200, or with 404 where a GET asks for a file that
  -- is not there and not for "/", or with 501 for another method than GET and POST; the answer says
  -- how long its content is, which is under 512 bytes. Only a GET for a file that has 512 bytes or
  -- more and no NUL among the first 512 makes the server read past the end of its array instead.
  pub make_http_response_lem :
      (method : Method) (req : HttpRequest) (host : Text)
      → req.header.method ≡ some method
      → Answers
          (status_of method
            (str_eq req.header.resource (b'/' ∷ []))
            (file_at (resource_path req.header.resource)))
          (make_http_response decimal file_at req host)
        ⊎ ((make_http_response decimal file_at req host ≡ fault out_of_bounds)
            × (method ≡ get)
            × (str_eq req.header.resource (b'/' ∷ []) ≡ false)
            × Unended (file_at (resource_path req.header.resource)))
  unfolding make_http_response answer_method status_of get_page
  make_http_response_lem get req host e =
      let root : Bool = str_eq req.header.resource (b'/' ∷ []) in
      let file : Option Text = file_at (resource_path req.header.resource) in
      elim (Bool-cases root) [
        | inl b ↦ inl (rw (e, b) (page-Answers 200 (welcome_page host)))
        | inr b ↦ elim (file_page_lem file) [
          | inl a ↦ inl (rw (e, b) a)
          | inr f ↦ inr (rw (e, b) (f.0), refl, b, f.1)
        ]
      ]
  make_http_response_lem post req host e =
      inl (rw e (page-Answers 200 (form_page req.header.querystring req.body)))
  make_http_response_lem unknown req host e = inl (rw e (page-Answers 501 (refusal_page 501)))

  -- A message with no line feed in it is split into no lines, so that no method is set, and the
  -- answer is made with a method that has no value.
  pub respond_without_lines :
      (msg host : Text) → Lacks 10 msg → respond decimal file_at msg host ≡ fault indeterminate
  unfolding respond parse_http_request parse_parts parse_http_request_header parse_lines
      make_http_response answer_method
  respond_without_lines msg host lacks =
      rw
        (
          splitstr_whole msg (13 ∷ 10 ∷ 13 ∷ []) 10 none refl lacks,
          splitstr_whole msg (13 ∷ []) 10 none refl lacks,
        )
        refl
