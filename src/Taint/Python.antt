-- ===== src/Taint/Python.antt =====
-- The Python tables of internal/cpg_engine/taint.go.
use zero_trust_sh.Prelude.{◌∷◌, [], List}
use zero_trust_sh.Prelude.Text.{codes}
use zero_trust_sh.Taint.{
  SanitizerDef, SinkDef, SourceDef, command, deserialization, eval, file_write, sanitizer, sink,
  source, sql, template,
}

unfoldable pub python_sources : List SourceDef
python_sources =
    source (codes "request.args") (codes "http_param")
    ∷ source (codes "request.form") (codes "http_body")
    ∷ source (codes "request.json") (codes "http_body")
    ∷ source (codes "request.data") (codes "http_body")
    ∷ source (codes "request.headers") (codes "http_header")
    ∷ source (codes "request.cookies") (codes "http_param")
    ∷ source (codes "request.files") (codes "http_body")
    ∷ source (codes "request.query_string") (codes "http_param")
    ∷ source (codes "request.values") (codes "http_param")
    ∷ source (codes "request.get_json") (codes "http_body")
    ∷ source (codes "request.get_data") (codes "http_body")
    ∷ source (codes "request.form.get") (codes "http_body")
    ∷ source (codes "request.args.get") (codes "http_param")
    ∷ source (codes "request.headers.get") (codes "http_header")
    ∷ source (codes "Query") (codes "http_param")
    ∷ source (codes "Body") (codes "http_body")
    ∷ source (codes "Header") (codes "http_header")
    ∷ source (codes "Cookie") (codes "http_param")
    ∷ source (codes "Path") (codes "http_param")
    ∷ source (codes "File") (codes "http_body")
    ∷ source (codes "request.GET") (codes "http_param")
    ∷ source (codes "request.POST") (codes "http_body")
    ∷ source (codes "request.body") (codes "http_body")
    ∷ source (codes "request.META") (codes "http_header")
    ∷ source (codes "request.FILES") (codes "http_body")
    ∷ source (codes "os.environ") (codes "env_var")
    ∷ source (codes "os.getenv") (codes "env_var")
    ∷ source (codes "environ.get") (codes "env_var")
    ∷ source (codes "sys.stdin") (codes "stdin")
    ∷ source (codes "sys.argv") (codes "http_param")
    ∷ source (codes "input") (codes "stdin")
    ∷ []

unfoldable pub python_sinks : List SinkDef
python_sinks =
    sink (codes "execute") sql (codes "CWE-89")
    ∷ sink (codes "executemany") sql (codes "CWE-89")
    ∷ sink (codes "rawsql") sql (codes "CWE-89")
    ∷ sink (codes "os.system") command (codes "CWE-78")
    ∷ sink (codes "subprocess.Popen") command (codes "CWE-78")
    ∷ sink (codes "subprocess.run") command (codes "CWE-78")
    ∷ sink (codes "subprocess.call") command (codes "CWE-78")
    ∷ sink (codes "subprocess.check_output") command (codes "CWE-78")
    ∷ sink (codes "os.popen") command (codes "CWE-78")
    ∷ sink (codes "os.popen2") command (codes "CWE-78")
    ∷ sink (codes "os.popen3") command (codes "CWE-78")
    ∷ sink (codes "os.popen4") command (codes "CWE-78")
    ∷ sink (codes "pickle.load") deserialization (codes "CWE-502")
    ∷ sink (codes "pickle.loads") deserialization (codes "CWE-502")
    ∷ sink (codes "yaml.load") deserialization (codes "CWE-502")
    ∷ sink (codes "marshal.load") deserialization (codes "CWE-502")
    ∷ sink (codes "shelve.open") deserialization (codes "CWE-502")
    ∷ sink (codes "eval") eval (codes "CWE-94")
    ∷ sink (codes "exec") eval (codes "CWE-94")
    ∷ sink (codes "compile") eval (codes "CWE-94")
    ∷ sink (codes "render") template (codes "CWE-1336")
    ∷ sink (codes "render_template") template (codes "CWE-1336")
    ∷ sink (codes "render_template_string") template (codes "CWE-1336")
    ∷ sink (codes "Template") template (codes "CWE-1336")
    ∷ sink (codes "open") file_write (codes "CWE-22")
    ∷ sink (codes "shutil.copy") file_write (codes "CWE-22")
    ∷ sink (codes "shutil.move") file_write (codes "CWE-22")
    ∷ []

unfoldable pub python_sanitizers : List SanitizerDef
python_sanitizers =
    sanitizer (codes "escape")
    ∷ sanitizer (codes "html.escape")
    ∷ sanitizer (codes "markupsafe.escape")
    ∷ sanitizer (codes "cgi.escape")
    ∷ sanitizer (codes "validate")
    ∷ sanitizer (codes "is_valid")
    ∷ sanitizer (codes "clean")
    ∷ sanitizer (codes "sanitize")
    ∷ sanitizer (codes "sanitize_filename")
    ∷ sanitizer (codes "shlex.quote")
    ∷ sanitizer (codes "pipes.quote")
    ∷ sanitizer (codes "bleach.clean")
    ∷ sanitizer (codes "bleach.linkify")
    ∷ sanitizer (codes "defusedxml")
    ∷ sanitizer (codes "defusedxml.ElementTree")
    ∷ []
