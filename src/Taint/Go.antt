-- ===== src/Taint/Go.antt =====
-- The Go tables of internal/cpg_engine/taint.go.
use zero_trust_sh.Prelude.{◌∷◌, [], List}
use zero_trust_sh.Prelude.Text.{codes}
use zero_trust_sh.Taint.{
  SanitizerDef, SinkDef, SourceDef, command, deserialization, file_write, redirect, sanitizer, sink,
  source, sql,
}

unfoldable pub go_sources : List SourceDef
go_sources =
    source (codes "r.URL.Query") (codes "http_param")
    ∷ source (codes "r.URL.Query().Get") (codes "http_param")
    ∷ source (codes "r.FormValue") (codes "http_param")
    ∷ source (codes "r.PostFormValue") (codes "http_body")
    ∷ source (codes "r.Form") (codes "http_param")
    ∷ source (codes "r.PostForm") (codes "http_body")
    ∷ source (codes "r.MultipartForm") (codes "http_body")
    ∷ source (codes "r.Header") (codes "http_header")
    ∷ source (codes "r.Header.Get") (codes "http_header")
    ∷ source (codes "r.Header.Values") (codes "http_header")
    ∷ source (codes "r.Cookie") (codes "http_param")
    ∷ source (codes "r.Referer") (codes "http_header")
    ∷ source (codes "r.UserAgent") (codes "http_header")
    ∷ source (codes "r.RemoteAddr") (codes "http_header")
    ∷ source (codes "r.RequestURI") (codes "http_param")
    ∷ source (codes "os.Getenv") (codes "env_var")
    ∷ source (codes "os.Environ") (codes "env_var")
    ∷ source (codes "os.LookupEnv") (codes "env_var")
    ∷ source (codes "ctx.Value") (codes "http_param")
    ∷ []

unfoldable pub go_sinks : List SinkDef
go_sinks =
    sink (codes "Query") sql (codes "CWE-89")
    ∷ sink (codes "QueryRow") sql (codes "CWE-89")
    ∷ sink (codes "Exec") sql (codes "CWE-89")
    ∷ sink (codes "Prepare") sql (codes "CWE-89")
    ∷ sink (codes "Raw") sql (codes "CWE-89")
    ∷ sink (codes "exec.Command") command (codes "CWE-78")
    ∷ sink (codes "exec.CommandContext") command (codes "CWE-78")
    ∷ sink (codes "os.StartProcess") command (codes "CWE-78")
    ∷ sink (codes "json.Unmarshal") deserialization (codes "CWE-502")
    ∷ sink (codes "gob.Decode") deserialization (codes "CWE-502")
    ∷ sink (codes "xml.Unmarshal") deserialization (codes "CWE-502")
    ∷ sink (codes "yaml.Unmarshal") deserialization (codes "CWE-502")
    ∷ sink (codes "os.WriteFile") file_write (codes "CWE-22")
    ∷ sink (codes "os.Create") file_write (codes "CWE-22")
    ∷ sink (codes "ioutil.WriteFile") file_write (codes "CWE-22")
    ∷ sink (codes "http.Redirect") redirect (codes "CWE-601")
    ∷ []

unfoldable pub go_sanitizers : List SanitizerDef
go_sanitizers =
    sanitizer (codes "html.EscapeString")
    ∷ sanitizer (codes "html.UnescapeString")
    ∷ sanitizer (codes "template.HTMLEscapeString")
    ∷ sanitizer (codes "template.JSEscapeString")
    ∷ sanitizer (codes "template.URLQueryEscaper")
    ∷ sanitizer (codes "url.QueryEscape")
    ∷ sanitizer (codes "url.PathEscape")
    ∷ sanitizer (codes "validate")
    ∷ sanitizer (codes "isValid")
    ∷ sanitizer (codes "sanitize")
    ∷ []
