-- ===== src/Http/Serve/Login.antt =====
-- src/httpd.cpp: every page but the portal's own leads to the login page, from the text of the request
-- to the text of the response.
use faster_config.Http.Reader.{Reader}
use faster_config.Http.Request.{Request}
use faster_config.Http.Request.Sent.{Sent}
