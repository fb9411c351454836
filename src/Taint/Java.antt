-- ===== src/Taint/Java.antt =====
-- The Java tables of internal/cpg_engine/taint.go.
use zero_trust_sh.Prelude.{◌∷◌, [], List}
use zero_trust_sh.Prelude.Text.{codes}
use zero_trust_sh.Taint.{
  SanitizerDef, SinkDef, SourceDef, command, deserialization, eval, file_write, redirect, sanitizer,
  sink, source, sql, template,
}

unfoldable pub java_sources : List SourceDef
java_sources =
    source (codes "getParameter") (codes "http_param")
    ∷ source (codes "getParameterValues") (codes "http_param")
    ∷ source (codes "getQueryString") (codes "http_param")
    ∷ source (codes "getHeader") (codes "http_header")
    ∷ source (codes "getHeaders") (codes "http_header")
    ∷ source (codes "getCookies") (codes "http_param")
    ∷ source (codes "getReader") (codes "http_body")
    ∷ source (codes "getInputStream") (codes "http_body")
    ∷ source (codes "getParts") (codes "http_body")
    ∷ source (codes "getParameterMap") (codes "http_param")
    ∷ source (codes "getAttribute") (codes "http_param")
    ∷ source (codes "getPathVariable") (codes "http_param")
    ∷ source (codes "getRequestBody") (codes "http_body")
    ∷ source (codes "readLine") (codes "stdin")
    ∷ source (codes "nextLine") (codes "stdin")
    ∷ source (codes "getPathInfo") (codes "http_param")
    ∷ source (codes "getServletPath") (codes "http_param")
    ∷ source (codes "Part.getInputStream") (codes "http_body")
    ∷ source (codes "Part.getSubmittedFileName") (codes "http_param")
    ∷ source (codes "System.getenv") (codes "env_var")
    ∷ source (codes "System.getProperty") (codes "env_var")
    ∷ source (codes "System.getProperties") (codes "env_var")
    ∷ []

unfoldable pub java_sinks : List SinkDef
java_sinks =
    sink (codes "executeQuery") sql (codes "CWE-89")
    ∷ sink (codes "executeUpdate") sql (codes "CWE-89")
    ∷ sink (codes "execute") sql (codes "CWE-89")
    ∷ sink (codes "createNativeQuery") sql (codes "CWE-89")
    ∷ sink (codes "createQuery") sql (codes "CWE-89")
    ∷ sink (codes "createSQLQuery") sql (codes "CWE-89")
    ∷ sink (codes "nativeQuery") sql (codes "CWE-89")
    ∷ sink (codes "queryForObject") sql (codes "CWE-89")
    ∷ sink (codes "queryForList") sql (codes "CWE-89")
    ∷ sink (codes "exec") command (codes "CWE-78")
    ∷ sink (codes "Runtime.exec") command (codes "CWE-78")
    ∷ sink (codes "ProcessBuilder.start") command (codes "CWE-78")
    ∷ sink (codes "ProcessBuilder.command") command (codes "CWE-78")
    ∷ sink (codes "readObject") deserialization (codes "CWE-502")
    ∷ sink (codes "ObjectInputStream") deserialization (codes "CWE-502")
    ∷ sink (codes "XStream.fromXML") deserialization (codes "CWE-502")
    ∷ sink (codes "Yaml.load") deserialization (codes "CWE-502")
    ∷ sink (codes "JSON.parseObject") deserialization (codes "CWE-502")
    ∷ sink (codes "readValue") deserialization (codes "CWE-502")
    ∷ sink (codes "XMLDecoder.readObject") deserialization (codes "CWE-502")
    ∷ sink (codes "SerializationUtils.deserialize") deserialization (codes "CWE-502")
    ∷ sink (codes "Hessian2Input.readObject") deserialization (codes "CWE-502")
    ∷ sink (codes "sendRedirect") redirect (codes "CWE-601")
    ∷ sink (codes "forward") redirect (codes "CWE-601")
    ∷ sink (codes "eval") eval (codes "CWE-94")
    ∷ sink (codes "ScriptEngine.eval") eval (codes "CWE-94")
    ∷ sink (codes "response.getWriter") template (codes "CWE-79")
    ∷ sink (codes "out.print") template (codes "CWE-79")
    ∷ sink (codes "out.println") template (codes "CWE-79")
    ∷ sink (codes "out.write") template (codes "CWE-79")
    ∷ sink (codes "ModelAndView") template (codes "CWE-79")
    ∷ sink (codes "Velocity.evaluate") template (codes "CWE-79")
    ∷ sink (codes "FileWriter") file_write (codes "CWE-22")
    ∷ sink (codes "FileOutputStream") file_write (codes "CWE-22")
    ∷ []

unfoldable pub java_constructor_sinks : List SinkDef
java_constructor_sinks =
    sink (codes "FileWriter") file_write (codes "CWE-22")
    ∷ sink (codes "FileOutputStream") file_write (codes "CWE-22")
    ∷ sink (codes "FileInputStream") file_write (codes "CWE-22")
    ∷ sink (codes "FileReader") file_write (codes "CWE-22")
    ∷ sink (codes "ZipOutputStream") file_write (codes "CWE-22")
    ∷ sink (codes "ObjectInputStream") deserialization (codes "CWE-502")
    ∷ sink (codes "XMLDecoder") deserialization (codes "CWE-502")
    ∷ sink (codes "ProcessBuilder") command (codes "CWE-78")
    ∷ []

unfoldable pub java_sanitizers : List SanitizerDef
java_sanitizers =
    sanitizer (codes "Encode.forHtml")
    ∷ sanitizer (codes "Encode.forJavaScript")
    ∷ sanitizer (codes "Encode.forSql")
    ∷ sanitizer (codes "ESAPI.encoder")
    ∷ sanitizer (codes "StringEscapeUtils.escapeHtml")
    ∷ sanitizer (codes "StringEscapeUtils.escapeSql")
    ∷ sanitizer (codes "HtmlUtils.htmlEscape")
    ∷ sanitizer (codes "URLEncoder.encode")
    ∷ sanitizer (codes "URLDecoder.decode")
    ∷ sanitizer (codes "Validator.validate")
    ∷ sanitizer (codes "validate")
    ∷ sanitizer (codes "isValid")
    ∷ sanitizer (codes "sanitize")
    ∷ sanitizer (codes "PreparedStatement")
    ∷ sanitizer (codes "setString")
    ∷ sanitizer (codes "setInt")
    ∷ sanitizer (codes "setParameter")
    ∷ []
