-- ===== src/Http/Response.antt =====
-- The answers of study-linux-kernel/socket/socket-server-http-select.cpp.
pub mod Answering
pub mod Messages
use study_linux_kernel.Base.{
  ℕ, zero, suc, ◌+◌, List, [], ◌∷◌, ◌++◌, Option, none, some, Bool, true, false, ◌==◌,
  if◌then◌else◌, length, take, str_eq, c_string, utf8,
}
use study_linux_kernel.Base.Run.{Run, ok, fault, indeterminate, ◌>>=◌}
use study_linux_kernel.Sys.Calls.{Text}
use study_linux_kernel.Sys.Monad.{string_in}
use study_linux_kernel.Http.Request.{
  Method, get, post, unknown, Header, HttpRequest, crlf, parse_http_request,
}

unfoldable pub get_code_desc : ℕ → Text
get_code_desc status =
    if status == 200
    then utf8 "Ok"
    else if status == 400
    then utf8 "Bad Request"
    else if status == 403
    then utf8 "Forbidden"
    else if status == 404
    then utf8 "Not Found"
    else if status == 500
    then utf8 "Internal Server Error"
    else utf8 "Not Implemented"

abbrev pub title : Text
title = utf8 "<HTML><TITLE>欢迎使用Select-I/O of HTTP</TITLE><BODY>"

-- The texts that are formatted by `snprintf`.
unfoldable pub welcome_page : Text → Text
welcome_page host =
    title
    ++ (utf8 "<H1>亲爱的"
        ++ (c_string host ++ utf8 ", 欢迎使用Select-I/O of HTTP</H1><P>这是一个迷你HTTP服务</P></BODY></HTML>"))

unfoldable pub missing_page : Text
missing_page = title ++ utf8 "<H1>Not Found</H1></BODY></HTML>"

unfoldable pub form_page : Text → Text → Text
form_page querystring body =
    title
    ++ (utf8 "<form><label for=\"querystring\">QueryString:</label><input type=\"text\" value=\""
        ++ (c_string querystring
            ++ (utf8
                  "\" name=\"querystring\" id=\"querystring\"><br><label for=\"body\">Body:</label><input type=\"text\" value=\""
                ++ (c_string body ++ utf8 "\" name=\"body\" id=\"body\"></form></BODY></HTML>"))))

unfoldable pub refusal_page : ℕ → Text
refusal_page code = title ++ (utf8 "<H1>" ++ (get_code_desc code ++ utf8 "</H1></BODY></HTML>"))

unfoldable pub resource_path : Text → Text
resource_path resource = take 255 (utf8 "bin/static" ++ c_string resource)

-- A new `HttpRequest`, in which `method` has no value.
abbrev pub new_request : HttpRequest
new_request = record {
  header = record {
    method = none;
    resource = [];
    querystring = [];
    httpversion = [];
    host = [];
    accepts = [];
  };
  body = [];
}

-- `decimal` is how a stream writes a number; `file_at` opens a file and reads it, if it is there.
module _ (decimal : ℕ → Text) (file_at : Text → Option Text) where
  -- `__make_http_response`
  unfoldable pub response_text : ℕ → Text → Text → Text
  response_text status content_type content =
      utf8 "HTTP/1.1 "
      ++ (decimal status
          ++ (utf8 " "
              ++ (get_code_desc status
                  ++ (crlf
                      ++ (utf8 "Server: Select-I/O of HTTP/1.1"
                          ++ (crlf
                              ++ (utf8 "Content-Type: "
                                  ++ (content_type
                                      ++ (crlf
                                          ++ (utf8 "Content-Length: "
                                              ++ (decimal (length content)
                                                  ++ (crlf
                                                      ++ (utf8 "Connection: close"
                                                          ++ (crlf
                                                            ++ (crlf ++ content)))))))))))))))

  -- What stands in `szContent` becomes the content, up to its first NUL.
  unfoldable pub finish_response : ℕ → Text → Run Text
  finish_response code array = string_in 512 array >>= λ content.
      ok (response_text code (utf8 "Text/Html; charset=UTF-8") content)

  -- `snprintf` into 512 bytes.
  unfoldable pub page : ℕ → Text → Run Text
  page code text = finish_response code (take 511 text)

  -- A file of which at most 512 bytes are read, or none.
  unfoldable pub file_page : Option Text → Run Text
  file_page none = page 404 missing_page
  file_page (some bytes) = finish_response 200 (take 512 bytes)

  unfoldable pub get_page : Text → Text → Run Text
  get_page resource host =
      if str_eq resource (b'/' ∷ [])
      then page 200 (welcome_page host)
      else file_page (file_at (resource_path resource))

  -- The branches on `method`, which is read whether it was set or not.
  unfoldable pub answer_method : Option Method → HttpRequest → Text → Run Text
  answer_method none req host = fault indeterminate
  answer_method (some get) req host = get_page req.header.resource host
  answer_method (some post) req host = page 200 (form_page req.header.querystring req.body)
  answer_method (some unknown) req host = page 501 (refusal_page 501)

  unfoldable pub make_http_response : HttpRequest → Text → Run Text
  make_http_response req host = answer_method req.header.method req host

  -- The answer of the parser is not used.
  unfoldable pub respond : Text → Text → Run Text
  respond msg host = make_http_response (parse_http_request msg new_request).1 host
