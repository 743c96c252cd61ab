-- ===== src/Http/Response/Messages.antt =====
-- What is answered to a message of study-linux-kernel/socket/socket-server-http-select.cpp.
use study_linux_kernel.Sys.Calls.{Text}
use study_linux_kernel.Http.Request.Parsing.{Request}
