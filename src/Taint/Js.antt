-- ===== src/Taint/Js.antt =====
-- The JavaScript tables of internal/cpg_engine/taint.go.
use zero_trust_sh.Prelude.{◌∷◌, [], List}
use zero_trust_sh.Prelude.Text.{codes}
use zero_trust_sh.Taint.{
  SanitizerDef, SinkDef, SourceDef, command, deserialization, eval, file_write, redirect, sanitizer,
  sink, source, sql, template,
}

unfoldable pub js_sources : List SourceDef
js_sources =
    source (codes "req.query") (codes "http_param")
    ∷ source (codes "req.body") (codes "http_body")
    ∷ source (codes "req.params") (codes "http_param")
    ∷ source (codes "req.headers") (codes "http_header")
    ∷ source (codes "req.cookies") (codes "http_param")
    ∷ source (codes "req.signedCookies") (codes "http_param")
    ∷ source (codes "req.get") (codes "http_header")
    ∷ source (codes "req.param") (codes "http_param")
    ∷ source (codes "ctx.query") (codes "http_param")
    ∷ source (codes "ctx.request.body") (codes "http_body")
    ∷ source (codes "ctx.params") (codes "http_param")
    ∷ source (codes "ctx.headers") (codes "http_header")
    ∷ source (codes "ctx.cookies") (codes "http_param")
    ∷ source (codes "process.env") (codes "env_var")
    ∷ source (codes "process.argv") (codes "http_param")
    ∷ source (codes "Deno.env") (codes "env_var")
    ∷ source (codes "Bun.env") (codes "env_var")
    ∷ []

unfoldable pub js_sinks : List SinkDef
js_sinks =
    sink (codes "query") sql (codes "CWE-89")
    ∷ sink (codes "execute") sql (codes "CWE-89")
    ∷ sink (codes "find") sql (codes "CWE-89")
    ∷ sink (codes "findOne") sql (codes "CWE-89")
    ∷ sink (codes "findAll") sql (codes "CWE-89")
    ∷ sink (codes "findOneAndUpdate") sql (codes "CWE-89")
    ∷ sink (codes "exec") command (codes "CWE-78")
    ∷ sink (codes "execSync") command (codes "CWE-78")
    ∷ sink (codes "spawn") command (codes "CWE-78")
    ∷ sink (codes "spawnSync") command (codes "CWE-78")
    ∷ sink (codes "fork") command (codes "CWE-78")
    ∷ sink (codes "execFile") command (codes "CWE-78")
    ∷ sink (codes "execFileSync") command (codes "CWE-78")
    ∷ sink (codes "unserialize") deserialization (codes "CWE-502")
    ∷ sink (codes "deserialize") deserialization (codes "CWE-502")
    ∷ sink (codes "writeFile") file_write (codes "CWE-22")
    ∷ sink (codes "writeFileSync") file_write (codes "CWE-22")
    ∷ sink (codes "appendFile") file_write (codes "CWE-22")
    ∷ sink (codes "render") template (codes "CWE-1336")
    ∷ sink (codes "renderFile") template (codes "CWE-1336")
    ∷ sink (codes "renderString") template (codes "CWE-1336")
    ∷ sink (codes "eval") eval (codes "CWE-94")
    ∷ sink (codes "Function") eval (codes "CWE-94")
    ∷ sink (codes "redirect") redirect (codes "CWE-601")
    ∷ sink (codes "res.redirect") redirect (codes "CWE-601")
    ∷ sink (codes "ctx.redirect") redirect (codes "CWE-601")
    ∷ []

unfoldable pub js_sanitizers : List SanitizerDef
js_sanitizers =
    sanitizer (codes "escape")
    ∷ sanitizer (codes "escapeHtml")
    ∷ sanitizer (codes "xss")
    ∷ sanitizer (codes "sanitize")
    ∷ sanitizer (codes "sanitizeHtml")
    ∷ sanitizer (codes "validator.escape")
    ∷ sanitizer (codes "validator.trim")
    ∷ sanitizer (codes "DOMPurify")
    ∷ sanitizer (codes "shellQuote")
    ∷ sanitizer (codes "shell-quote")
    ∷ sanitizer (codes "validate")
    ∷ sanitizer (codes "isValid")
    ∷ []
