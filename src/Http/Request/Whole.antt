-- ===== src/Http/Request/Whole.antt =====
-- `parse_http_request` of study-linux-kernel/socket/socket-server-http-select.cpp on a whole request.
use study_linux_kernel.Base.{List, ◌++◌}
use study_linux_kernel.Sys.Calls.{Text}
use study_linux_kernel.Http.Text.Rejoining.{spell}
use study_linux_kernel.Http.Request.{crlf}
use study_linux_kernel.Http.Request.Collecting.{Line, lines_of}
use study_linux_kernel.Http.Request.Parsing.{Request}

abbrev blank_line : Text
blank_line = crlf ++ crlf

abbrev rest_of : List Line → Text
rest_of ls = spell crlf (lines_of ls) ++ crlf
